-- ===== src/Ruby/Merge.antt =====
-- `aggregate_resolution::deep_merge` and `ruby_merge_hashes` of lib/src/ruby/aggregate_resolution.cc.
use mathlib.Core.Path.{subst₂}
use facter.Base.{
  ℕ, ◌≡◌, refl, sym, ◌∙◌, subst, Option, none, some, arith, ◌=?◌, Option-cases, inl, inr,
  Bool-cases,
}
use facter.Ruby.Value.{
  Ruby, ruby_nil, array, hash, Pairs, no_pairs, pair, Result, ok, raise, cannot_merge, ◌>>=◌,
  append_items, lookup, store, lookup-store,
}

-- Values of unlike kinds: one of them may still be nil.
abbrev merge_others : Ruby → Ruby → Result Ruby
merge_others left ruby_nil = ok left
merge_others ruby_nil right = ok right
merge_others left right = raise (cannot_merge left right)

-- Ruby's `merge` goes through the pairs of its argument; the block merges the values of a key that
-- both have.
unfoldable mutual
  pub deep_merge : Ruby → Ruby → Result Ruby
  deep_merge left (hash rs) = elim left [
    | hash ls ↦ merge_onto ls rs >>= λ ms. ok (hash ms)
    | other ↦ merge_others other (hash rs)
  ]
  deep_merge left (array ys) = elim left [
    | array xs ↦ ok (array (append_items xs ys))
    | other ↦ merge_others other (array ys)
  ]
  deep_merge left right = merge_others left right

  pub merge_onto : Pairs → Pairs → Result Pairs
  merge_onto ls no_pairs = ok ls
  merge_onto ls (pair k v rs) =
      elim (lookup k ls) [ none ↦ ok v | some u ↦ deep_merge u v ] >>= λ w.
      merge_onto (store k w ls) rs

-- Nil is neutral on either side.
pub deep_merge_nil : (v : Ruby) → (deep_merge v ruby_nil ≡ ok v) × (deep_merge ruby_nil v ≡ ok v)
unfolding deep_merge
deep_merge_nil ruby_nil = (refl, refl)
deep_merge_nil _ = (refl, refl)

-- What a key has in the merged hash, from what it has in the two.
abbrev pub Merges : Option Ruby → Option Ruby → Option Ruby → Type 0
Merges none right merged = merged ≡ right
Merges (some u) none merged = merged ≡ some u
Merges (some u) (some v) merged = (w : Ruby) × (deep_merge u v ≡ ok w) × (merged ≡ some w)

-- A hash has a key once.
abbrev pub IsDistinct : Pairs → Type 0
IsDistinct no_pairs = Unit
IsDistinct (pair k v ps) = (lookup k ps ≡ none) × IsDistinct ps

abbrev merge_at : Option Ruby → Ruby → Result Ruby
merge_at none v = ok v
merge_at (some u) v = deep_merge u v

merge_at-Merges : (o : Option Ruby) (v w : Ruby) → merge_at o v ≡ ok w → Merges o (some v) (some w)
merge_at-Merges none v w h = cc
merge_at-Merges (some u) v w h = (w, h, refl)

bind-eq-ok :
    (r : Result Ruby) (f : Ruby → Result Pairs) {ms : Pairs}
    → (r >>= f) ≡ ok ms
    → (w : Ruby) × (r ≡ ok w) × (f w ≡ ok ms)
bind-eq-ok (ok w) f h = (w, refl, h)
bind-eq-ok (raise e) f h = cc

merge_onto-pair :
    (ls : Pairs) (k : ℕ) (v : Ruby) (rs : Pairs)
    → merge_onto ls (pair k v rs) ≡ (merge_at (lookup k ls) v >>= λ w. merge_onto (store k w ls) rs)
unfolding merge_onto
merge_onto-pair ls k v rs = elim (Option-cases (lookup k ls)) [ inl e ↦ rw e | inr (u, e) ↦ rw e ]

Merges-none : (o : Option Ruby) → Merges o none o
Merges-none none = refl
Merges-none (some u) = refl

kept : (ls : Pairs) {ms : Pairs} → merge_onto ls no_pairs ≡ ok ms → ls ≡ ms
unfolding merge_onto
kept ls h = cc

merge_onto-Merges :
    (ls rs : Pairs) {ms : Pairs}
    → IsDistinct rs
    → merge_onto ls rs ≡ ok ms
    → (j : ℕ) → Merges (lookup j ls) (lookup j rs) (lookup j ms)
unfolding lookup
merge_onto-Merges ls no_pairs {ms} d h j =
    subst (λ x. Merges (lookup j ls) none (lookup j x)) (kept ls h) (Merges-none (lookup j ls))
merge_onto-Merges ls (pair k v rs) {ms} d h j =
    let (w, merged, rest) =
      bind-eq-ok (merge_at (lookup k ls) v) _ (sym (merge_onto-pair ls k v rs) ∙ h) in
    let ih = merge_onto-Merges (store k w ls) rs d.1 rest j in
    elim (Bool-cases (k =? j)) [
      | inl e ↦
          let same : k ≡ j = ground arith in
          let written : lookup j (store k w ls) ≡ some w = rw (lookup-store k j w ls, e) in
          let absent : lookup j rs ≡ none = rw (← same) d.0 in
          let found : lookup j ms ≡ some w =
            subst₂ (λ x y. Merges x y (lookup j ms)) written absent ih in
          rw e (
            subst (λ x. Merges (lookup j ls) (some v) x) (sym found)
              (merge_at-Merges (lookup j ls) v w (rw same at merged)))
      | inr e ↦
          let kept : lookup j (store k w ls) ≡ lookup j ls = rw (lookup-store k j w ls, e) in
          rw e (subst (λ x. Merges x (lookup j rs) (lookup j ms)) kept ih)
    ]

hash-bind :
    (r : Result Pairs) {m : Ruby}
    → (r >>= λ ms. ok (hash ms)) ≡ ok m
    → (ms : Pairs) × (r ≡ ok ms) × (m ≡ hash ms)
hash-bind (ok ms) h = (ms, refl, ground arith)
hash-bind (raise e) h = cc

-- Two hashes merge to a hash: a key of one alone keeps its value, and a key of both has the values
-- merged.
pub deep_merge-Merges :
    (ls rs : Pairs) (m : Ruby)
    → IsDistinct rs
    → deep_merge (hash ls) (hash rs) ≡ ok m
    → (ms : Pairs) × (m ≡ hash ms) × ((j : ℕ) → Merges (lookup j ls) (lookup j rs) (lookup j ms))
unfolding deep_merge
deep_merge-Merges ls rs m d h =
    let (ms, e, whole) = hash-bind (merge_onto ls rs) h in (ms, whole, merge_onto-Merges ls rs d e)
