-- ===== src/Resolvers/Disk.antt =====
-- lib/src/facts/resolvers/disk_resolver.cc, with the data of
-- lib/inc/internal/facts/resolvers/disk_resolver.hpp. Sizes are `uint64_t`.
use facter.Base.{
  ℕ, String, true, false, some, List, [], ◌∷◌, ◌++◌, if◌then◌else◌, is_empty_str, ◌<>◌,
}
use facter.Base.Int.{to_int64}
use facter.Values.{Fields, end, string_value, integer_value, map_value, add_field}
use facter.Collection.{Resolver}
use facter.Resolvers.{Adds, publish, map_facts, text_facts, starts_with}
use facter.Resolvers.Both.{Both, both, only_field}

pub record Disk : Type 0 where
  pub name : String
  pub vendor : String
  pub model : String
  pub product : String
  pub size : ℕ

-- What the loop has made so far: facts, the structured fact, and the names with commas between.
pub record Listing : Type 0 where
  pub adds : Adds
  pub disks : Fields
  pub listed : String

abbrev pub no_listing : Listing
no_listing = record { adds = []; disks = end; listed = "" }

abbrev pub prefix_of : Disk → String
prefix_of d = "blockdevice_" <> (d.name <> "_")

module _ (si_string : ℕ → String) where
  abbrev pub size_fields : ℕ → Fields → Fields
  unfolding add_field
  size_fields size m =
      add_field "size" (some (string_value false (si_string size)))
        (add_field "size_bytes" (some (integer_value false (to_int64 size))) m)

  unfoldable pub disk_both : Disk → Adds → Both
  unfolding both only_field
  disk_both d adds =
      let (adds', m) = only_field "product" d.product (
        both (prefix_of d <> "model") "model" d.model
          (both (prefix_of d <> "vendor") "vendor" d.vendor (adds, end))) in
      (
        adds' ++ (prefix_of d <> "size", integer_value true (to_int64 d.size)) ∷ [],
        size_fields d.size m,
      )

  abbrev pub put_comma : String → String → String
  put_comma listed name = if is_empty_str listed then name else listed <> ("," <> name)

  unfoldable pub add_disk : Disk → Listing → Listing
  unfolding disk_both add_field
  add_disk d l =
      if is_empty_str d.name
      then l
      else let (adds, m) = disk_both d l.adds in
        record {
          adds = adds;
          disks = add_field d.name (some (map_value false m)) l.disks;
          listed = put_comma l.listed d.name;
        }

  unfoldable pub add_disks : List Disk → Listing → Listing
  unfolding add_disk
  add_disks [] l = l
  add_disks (d ∷ ds) l = add_disks ds (add_disk d l)

  unfoldable pub disk_adds : List Disk → Adds
  unfolding add_disks text_facts map_facts
  disk_adds ds =
      let l = add_disks ds no_listing in
      l.adds ++ (text_facts "blockdevices" l.listed ++ map_facts "disks" false l.disks)

  unfoldable pub disk_resolver : List Disk → Resolver
  unfolding publish disk_adds starts_with
  disk_resolver ds = record {
    name = "disk";
    names = "blockdevices" ∷ "disks" ∷ [];
    regexes = starts_with "blockdevice_" ∷ [];
    body = publish (disk_adds ds);
  }
