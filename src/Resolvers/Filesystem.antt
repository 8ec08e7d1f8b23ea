-- ===== src/Resolvers/Filesystem.antt =====
-- lib/src/facts/resolvers/filesystem_resolver.cc, with the data of
-- lib/inc/internal/facts/resolvers/filesystem_resolver.hpp. Sizes are `uint64_t`: the difference
-- wraps. The set of file systems is the list of its elements in their order.
use facter.Base.{
  ℕ, String, false, some, List, [], ◌∷◌, ◌++◌, if◌then◌else◌, is_empty_str, is_empty, ◌<>◌,
}
use facter.Base.Int.{to_int64}
use facter.Values.{
  Elements, nil, Fields, end, string_value, integer_value, array_value, map_value, add_field,
  add_element,
}
use facter.Collection.{Resolver}
use facter.Resolvers.{Adds, publish, text_field}
use facter.Resolvers.Memory.{Units, used}

pub record Mountpoint : Type 0 where
  pub name : String
  pub device : String
  pub filesystem : String
  pub size : ℕ
  pub available : ℕ
  pub options : List String

pub record Partition : Type 0 where
  pub name : String
  pub filesystem : String
  pub size : ℕ
  pub uuid : String
  pub partition_uuid : String
  pub label : String
  pub partition_label : String
  pub mount : String

pub record FilesystemData : Type 0 where
  pub mountpoints : List Mountpoint
  pub filesystems : List String
  pub partitions : List Partition

-- `boost::join(…, ",")`
unfoldable pub join : List String → String
join [] = ""
join (s ∷ []) = s
join (s ∷ t ∷ rest) = s <> ("," <> join (t ∷ rest))

unfoldable pub texts_onto : List String → Elements → Elements
unfolding add_element
texts_onto [] acc = acc
texts_onto (s ∷ rest) acc = texts_onto rest (add_element (some (string_value false s)) acc)

abbrev pub options_field : List String → Fields → Fields
unfolding add_field texts_onto
options_field options m =
    if is_empty options
    then m
    else add_field "options" (some (array_value false (texts_onto options nil))) m

module _ (units : Units) where
  -- A number of bytes, and the text for it.
  unfoldable pub size_onto : String → String → ℕ → Fields → Fields
  unfolding add_field
  size_onto bytes_key key size m =
      add_field key (some (string_value false (units.si_string size)))
        (add_field bytes_key (some (integer_value false (to_int64 size))) m)

  unfoldable pub mountpoint_fields : Mountpoint → Fields
  unfolding add_field text_field size_onto used texts_onto
  mountpoint_fields p =
      let in_use = used p.size p.available in
      let sizes = size_onto "used_bytes" "used" in_use (
        size_onto "available_bytes" "available" p.available (
          size_onto "size_bytes" "size" p.size
            (text_field "device" p.device (text_field "filesystem" p.filesystem end)))) in
      options_field p.options
        (add_field "capacity" (some (string_value false (units.percentage in_use p.size))) sizes)

  unfoldable pub mountpoints_onto : List Mountpoint → Fields → Fields
  unfolding add_field mountpoint_fields
  mountpoints_onto [] m = m
  mountpoints_onto (p ∷ rest) m = mountpoints_onto rest (
      if is_empty_str p.name
      then m
      else add_field p.name (some (map_value false (mountpoint_fields p))) m)

  unfoldable pub partition_fields : Partition → Fields
  unfolding text_field size_onto
  partition_fields p = size_onto "size_bytes" "size" p.size (
      text_field "partuuid" p.partition_uuid (
        text_field "uuid" p.uuid (
          text_field "partlabel" p.partition_label (
            text_field "label" p.label
              (text_field "mount" p.mount (text_field "filesystem" p.filesystem end))))))

  unfoldable pub partitions_onto : List Partition → Fields → Fields
  unfolding add_field partition_fields
  partitions_onto [] m = m
  partitions_onto (p ∷ rest) m = partitions_onto rest (
      if is_empty_str p.name
      then m
      else add_field p.name (some (map_value false (partition_fields p))) m)

  unfoldable pub filesystem_adds : FilesystemData → Adds
  unfolding mountpoints_onto partitions_onto join
  filesystem_adds d =
      (if is_empty d.mountpoints
        then []
        else ("mountpoints", map_value false (mountpoints_onto d.mountpoints end)) ∷ [])
      ++ ((if is_empty d.filesystems
            then []
            else ("filesystems", string_value false (join d.filesystems)) ∷ [])
          ++ (if is_empty d.partitions
              then []
              else ("partitions", map_value false (partitions_onto d.partitions end)) ∷ []))

  unfoldable pub filesystem_resolver : FilesystemData → Resolver
  unfolding publish filesystem_adds
  filesystem_resolver d = record {
    name = "file system";
    names = "mountpoints" ∷ "filesystems" ∷ "partitions" ∷ [];
    regexes = [];
    body = publish (filesystem_adds d);
  }
