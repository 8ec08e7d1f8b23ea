-- ===== src/Resolvers/Beginnings.antt =====
-- The test of `boost::starts_with`.
use Prim.Native.String.{[], ◌∷◌}
use facter.Base.{String, ◌≡◌, refl, ◌⊎◌, inl, inr, true, false, eq_iff, arith, Bool-cases}
use facter.Resolvers.{starts_with}

-- Of two beginnings of a text one is the beginning of the other.
starts_with-Comparable :
    (p q s : String)
    → starts_with p s ≡ true
    → starts_with q s ≡ true
    → (starts_with p q ≡ true) ⊎ (starts_with q p ≡ true)
unfolding starts_with
starts_with-Comparable [] q s h k = inl refl
starts_with-Comparable (a ∷ p) [] s h k = inr refl
starts_with-Comparable (a ∷ p) (b ∷ q) [] h k = absurd (ground (arith, h))
starts_with-Comparable (a ∷ p) (b ∷ q) (c ∷ s) h k = ground (
  arith,
  h,
  k,
  eq_iff (a ∷ []) (c ∷ []),
  eq_iff (b ∷ []) (c ∷ []),
  eq_iff (a ∷ []) (b ∷ []),
  eq_iff (b ∷ []) (a ∷ []),
  starts_with-Comparable p q s,
)

pub starts_with-other :
    (p q s : String)
    → starts_with p q ≡ false
    → starts_with q p ≡ false
    → starts_with p s ≡ true
    → starts_with q s ≡ false
starts_with-other p q s h k g = elim (Bool-cases (starts_with q s)) [
  | inr e ↦ e
  | inl e ↦ not_comparable (starts_with-Comparable p q s g e)
]
  where
    not_comparable : (starts_with p q ≡ true) ⊎ (starts_with q p ≡ true) → starts_with q s ≡ false
    not_comparable (inl e) = absurd (ground (arith, h, e))
    not_comparable (inr e) = absurd (ground (arith, k, e))
