-- ===== src/Resolvers/Memory.antt =====
-- lib/src/facts/resolvers/memory_resolver.cc. The texts and the doubles that floating-point
-- arithmetic gives are fields of `Units`; `in_mb` gives the bits of a double. The sizes are
-- `uint64_t`: the difference wraps.
use facter.Base.{
  ℕ, ◌+◌, ◌-◌, ◌%◌, ◌^◌, String, Bool, true, false, Option, none, some, List, [], ◌∷◌, ◌++◌, ◌=?◌,
  if◌then◌else◌,
}
use facter.Base.Int.{to_int64}
use facter.Values.{string_value, integer_value, double_value, boolean_value, Fields, end, add_field}
use facter.Collection.{Resolver}
use facter.Resolvers.{Adds, publish, map_facts, map_field}

pub record Units : Type 0 where
  pub si_string : ℕ → String
  pub percentage : ℕ → ℕ → String
  pub in_mb : ℕ → ℕ

pub data EncryptionStatus : Type 0 where
  unknown encrypted not_encrypted : EncryptionStatus

pub record Memory : Type 0 where
  pub mem_total : ℕ
  pub mem_free : ℕ
  pub swap_total : ℕ
  pub swap_free : ℕ
  pub swap_encryption : EncryptionStatus

abbrev pub memory_names : List String
memory_names =
    "memory" ∷ "memoryfree" ∷ "memoryfree_mb" ∷ "memorysize" ∷ "memorysize_mb" ∷ "swapfree"
    ∷ "swapfree_mb" ∷ "swapsize" ∷ "swapsize_mb" ∷ "swapencrypted" ∷ []

unfoldable pub used : ℕ → ℕ → ℕ
used total free = (total + (2 ^ 64 - free % 2 ^ 64)) % 2 ^ 64

-- Whether the swap is encrypted, where that is known.
abbrev pub is_encrypted : EncryptionStatus → Option Bool
is_encrypted unknown = none
is_encrypted encrypted = some true
is_encrypted not_encrypted = some false

unfoldable pub stats : Units → ℕ → ℕ → Fields
stats units total free =
    add_field "capacity" (some (string_value false (units.percentage (used total free) total))) (
      add_field "available_bytes" (some (integer_value false (to_int64 free))) (
        add_field "available" (some (string_value false (units.si_string free))) (
          add_field "used_bytes" (some (integer_value false (to_int64 (used total free)))) (
            add_field "used" (some (string_value false (units.si_string (used total free)))) (
              add_field "total_bytes" (some (integer_value false (to_int64 total)))
                (add_field "total" (some (string_value false (units.si_string total))) end))))))

abbrev pub encrypted_field : Option Bool → Fields → Fields
unfolding add_field
encrypted_field none m = m
encrypted_field (some b) m = add_field "encrypted" (some (boolean_value false b)) m

abbrev pub encrypted_facts : Option Bool → Adds
encrypted_facts none = []
encrypted_facts (some b) = ("swapencrypted", boolean_value true b) ∷ []

unfoldable pub size_facts : Units → ℕ → ℕ → String → String → String → String → Adds
size_facts units total free free_name free_mb_name size_name size_mb_name =
    (free_name, string_value true (units.si_string free))
    ∷ (free_mb_name, double_value true (units.in_mb free))
    ∷ (size_name, string_value true (units.si_string total))
    ∷ (size_mb_name, double_value true (units.in_mb total))
    ∷ []

unfoldable pub memory_fields : Units → Memory → Fields
unfolding map_field stats
memory_fields units m =
    let swap =
      encrypted_field (is_encrypted m.swap_encryption) (stats units m.swap_total m.swap_free) in
    let system : Fields =
      if m.mem_total =? 0
      then end
      else map_field "system" (stats units m.mem_total m.mem_free) end in
    if m.swap_total =? 0 then system else map_field "swap" swap system

unfoldable pub memory_adds : Units → Memory → Adds
unfolding size_facts memory_fields map_facts
memory_adds units m =
    (if m.mem_total =? 0
      then []
      else size_facts units m.mem_total m.mem_free "memoryfree" "memoryfree_mb" "memorysize"
          "memorysize_mb")
    ++ ((if m.swap_total =? 0
          then []
          else size_facts units m.swap_total m.swap_free "swapfree" "swapfree_mb" "swapsize"
              "swapsize_mb"
            ++ encrypted_facts (is_encrypted m.swap_encryption))
        ++ map_facts "memory" false (memory_fields units m))

unfoldable pub memory_resolver : Units → Memory → Resolver
unfolding publish memory_adds
memory_resolver units m = record {
  name = "memory";
  names = memory_names;
  regexes = [];
  body = publish (memory_adds units m);
}
