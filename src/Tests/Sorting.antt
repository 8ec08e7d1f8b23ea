-- ===== src/Tests/Sorting.antt =====
-- An insertion sort, for the place of `std::sort`.
use mathlib.Core.List.{Perm}
use mathlib.Core.List.Perm
use facter.Base.{
  ◌≡◌, refl, Bool, true, false, ◌||◌, List, [], ◌∷◌, any, arith, if◌then◌else◌, Bool-cases, inl,
  inr,
}
use facter.Ruby.Resolution.{Resolution}
use facter.Ruby.Fact.Choice.{IsStrictWeak, in_order, IsSort}

module _ (less : Resolution → Resolution → Bool) where
  unfoldable pub insert : Resolution → List Resolution → List Resolution
  insert r [] = r ∷ []
  insert r (s ∷ l) = let rest = insert r l in if less r s then r ∷ s ∷ l else s ∷ rest

  unfoldable pub sort : List Resolution → List Resolution
  unfolding insert
  sort [] = []
  sort (r ∷ l) = insert r (sort l)

  insert-perm : (r : Resolution) (l : List Resolution) → Perm (insert r l) (r ∷ l)
  unfolding insert
  insert-perm r [] = Perm.refl (r ∷ [])
  insert-perm r (s ∷ l) = elim (Bool-cases (less r s)) [
    | inl e ↦ rw e (Perm.refl (r ∷ s ∷ l))
    | inr e ↦ rw e (Perm.trans (Perm.cons s (insert-perm r l)) (Perm.swap r s l))
  ]

  sort-perm : (l : List Resolution) → Perm (sort l) l
  unfolding sort
  sort-perm [] = Perm.refl []
  sort-perm (r ∷ l) = Perm.trans (insert-perm r (sort l)) (Perm.cons r (sort-perm l))

  any-insert :
      (q r : Resolution) (l : List Resolution)
      → any (λ s. less s q) (insert r l) ≡ (less r q || any (λ s. less s q) l)
  unfolding insert
  any-insert q r [] = refl
  any-insert q r (s ∷ l) = ground (arith, any-insert q r l)

  module _ (weak : IsStrictWeak less) where
    -- What no element goes before, none goes before that it goes before.
    any-later :
        (r q : Resolution) (l : List Resolution)
        → less r q ≡ true
        → any (λ s. less s q) l ≡ false
        → any (λ s. less s r) l ≡ false
    any-later r q [] h k = refl
    any-later r q (s ∷ l) h k = ground (arith, any-later r q l h, weak.1 s r q, h, k)

    in_order-insert :
        (r : Resolution) (l : List Resolution)
        → in_order less l ≡ true
        → in_order less (insert r l) ≡ true
    unfolding insert
    in_order-insert r [] h = refl
    in_order-insert r (s ∷ l) h =
        ground
          (arith, h, in_order-insert r l, any-insert s r l, any-later r s l, weak.0 r, weak.1 r s r)

    sort-in_order : (l : List Resolution) → in_order less (sort l) ≡ true
    unfolding sort
    sort-in_order [] = refl
    sort-in_order (r ∷ l) = in_order-insert r (sort l) (sort-in_order l)

pub sort-IsSort : IsSort sort
sort-IsSort = record {
  permutes = λ less weak l. sort-perm less l;
  orders = λ less weak l. sort-in_order less weak l;
}
