-- ===== src/Resolvers/Sizes.antt =====
-- The numbers and the names of lib/src/facts/resolvers/memory_resolver.cc.
use facter.Base.{
  ℕ, ◌-◌, ◌≤◌, ◌<◌, ◌^◌, ◌≡◌, refl, ap, ◌∙◌, Bool, true, false, Option, none, some, ◌=?◌, arith,
  ◌++◌, [], if◌then◌else◌, Bool-cases, inl, inr,
}
use facter.Base.Int.{ℤ, pos, to_int64}
use facter.Values.{Value, integer_value, find}
use facter.Values.Lookup.{find-add_field}
use facter.Collection.{is_match}
use facter.Resolvers.Declared.{are_declared, are_declared-append, are_declared-map_facts}
use facter.Resolvers.Memory.{
  Units, Memory, memory_resolver, memory_adds, memory_fields, size_facts, encrypted_facts,
  is_encrypted, stats, used,
}

used_eq : (total free : ℕ) → total < 2 ^ 63 → free ≤ total → used total free ≡ total - free
unfolding used
used_eq total free h k = ground arith

to_int64_eq : (n : ℕ) → n < 2 ^ 63 → to_int64 n ≡ pos n
unfolding to_int64
to_int64_eq n h = ground arith

-- Where a total fits an `int64_t` and no more is free than there is, the bytes that are reported as
-- used are the total less those that are reported as available.
stats_add_up :
    (units : Units) (total free : ℕ)
    → total < 2 ^ 63
    → free ≤ total
    → (find "used_bytes" (stats units total free) ≡ some (integer_value false (pos (total - free))))
      × (find "available_bytes" (stats units total free) ≡ some (integer_value false (pos free)))
      × (find "total_bytes" (stats units total free) ≡ some (integer_value false (pos total)))
unfolding stats find
stats_add_up units total free h k = (
  simp find-add_field
      (ap number (ap to_int64 (used_eq total free h k) ∙ to_int64_eq (total - free) (omega arith))),
  simp find-add_field (ap number (to_int64_eq free (omega arith))),
  simp find-add_field (ap number (to_int64_eq total h)),
)
  where
    number : ℤ → Option Value
    number n = some (integer_value false n)

module _ (units : Units) (m : Memory) where
  sizes_declared :
      are_declared (memory_resolver units m) (
        if m.mem_total =? 0
        then []
        else size_facts units m.mem_total m.mem_free "memoryfree" "memoryfree_mb" "memorysize"
            "memorysize_mb")
      ≡ true
  unfolding are_declared size_facts memory_resolver is_match
  sizes_declared = elim (Bool-cases (m.mem_total =? 0)) [ inl e ↦ rw e refl | inr e ↦ rw e refl ]

  encrypted_declared :
      (b : Option Bool) → are_declared (memory_resolver units m) (encrypted_facts b) ≡ true
  unfolding are_declared memory_resolver is_match
  encrypted_declared none = refl
  encrypted_declared (some b) = refl

  swaps_declared :
      are_declared (memory_resolver units m) (
        if m.swap_total =? 0
        then []
        else size_facts units m.swap_total m.swap_free "swapfree" "swapfree_mb" "swapsize"
            "swapsize_mb"
          ++ encrypted_facts (is_encrypted m.swap_encryption))
      ≡ true
  unfolding are_declared size_facts memory_resolver is_match
  swaps_declared = elim (Bool-cases (m.swap_total =? 0)) [
    | inl e ↦ rw e refl
    | inr e ↦ rw e (encrypted_declared (is_encrypted m.swap_encryption))
  ]

  -- Whatever sizes are found, every fact that is added has a declared name.
  pub memory_adds-are_declared : are_declared (memory_resolver units m) (memory_adds units m) ≡ true
  unfolding memory_adds memory_resolver is_match
  memory_adds-are_declared = are_declared-append (memory_resolver units m) _ _ sizes_declared (
      are_declared-append (memory_resolver units m) _ _ swaps_declared (
        are_declared-map_facts (memory_resolver units m) "memory" false (memory_fields units m)
          refl))
