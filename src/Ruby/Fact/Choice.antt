-- ===== src/Ruby/Fact/Choice.antt =====
-- Which resolution gives a custom fact its value, and how long the value stays: `fact::value` of
-- lib/src/ruby/fact.cc.
use mathlib.Core.List.{Mem, mem-cons_self, mem-cons_of_mem, Perm, foldr}
use mathlib.Core.List.Perm
use mathlib.Core.Bool.{Bool-set}
use facter.Base.{
  ℕ, zero, suc, ◌≡◌, refl, sym, subst, ◌∙◌, ap, ◌⊎◌, inl, inr, Bool, true, false, not, ◌&&◌, ◌||◌,
  Option, none, some, List, [], ◌∷◌, any, ltb, arith, Bool-cases,
}
use facter.Ruby.Value.{Ruby, Raise, Result, ok, raise, is_nil}
use facter.Ruby.Resolution.{Interpreter, Resolution, weight, suitable, resolution_value}
use facter.Ruby.Fact.{Fact, goes_before, rescue, choose, is_native_first, resolve_value, fact_value}

any-and :
    {A : Type 0} (p q : A → Bool) (l : List A) → any q l ≡ false → any (λ s. p s && q s) l ≡ false
any-and p q [] h = refl
any-and p q (x ∷ l) h = ground (arith, any-and p q l)

any-foldr : {A : Type 0} (p : A → Bool) (l : List A) → any p l ≡ foldr (λ a b. p a || b) false l
any-foldr p [] = refl
any-foldr p (x ∷ l) = ap (λ b. p x || b) (any-foldr p l)

or_swap : (a b c : Bool) → (a || (b || c)) ≡ (b || (a || c))
or_swap a b c = ground arith

any-perm : {A : Type 0} (p : A → Bool) {l r : List A} → Perm l r → any p l ≡ any p r
any-perm p {l} {r} q =
    any-foldr p l
    ∙ Perm.foldr-eq Bool-set (λ a b. p a || b) (λ a b x. or_swap (p a) (p b) x) q false
    ∙ sym (any-foldr p r)

module _ (ruby : Interpreter) where
  -- The resolution is not suitable, or gives nil.
  abbrev pub passes : Resolution → Bool
  passes r = elim (suitable ruby r) [
    | raise e ↦ false
    | ok false ↦ true
    | ok true ↦ elim (resolution_value ruby r) [ raise e ↦ false | ok v ↦ is_nil v ]
  ]

  -- No heavier resolution of the list could have given a value.
  abbrev pub is_heaviest : Resolution → List Resolution → Bool
  is_heaviest r rs = not (any (λ s. not (passes s) && ltb (weight r) (weight s)) rs)

  -- What may raise when the resolution is asked.
  abbrev pub raises : Resolution → Bool
  raises r = elim (suitable ruby r) [
    | raise e ↦ true
    | ok false ↦ false
    | ok true ↦ elim (resolution_value ruby r) [ raise e ↦ true | ok v ↦ false ]
  ]

  -- Where a value comes from: from a suitable resolution that gives it; or it is nil, since a
  -- resolution raised, or since none gives a value. No heavier one could have given a value.
  pub data IsChosen (rs : List Resolution) (v : Ruby) : Type 0 where
    chosen :
        (r : Resolution)
        → Mem r rs
        → suitable ruby r ≡ ok true
        → resolution_value ruby r ≡ ok v
        → is_nil v ≡ false
        → is_heaviest r rs ≡ true
        → IsChosen rs v
    failed :
        (r : Resolution)
        → Mem r rs
        → raises r ≡ true
        → is_heaviest r rs ≡ true
        → is_nil v ≡ true
        → IsChosen rs v
    nothing : any (λ s. not (passes s)) rs ≡ false → is_nil v ≡ true → IsChosen rs v

module _ (less : Resolution → Resolution → Bool) where
  -- What `std::sort` asks of its comparison.
  abbrev pub IsStrictWeak : Type 0
  IsStrictWeak =
      ((a : Resolution) → less a a ≡ false)
      × ((a b c : Resolution) → less a b ≡ true → less b c ≡ true → less a c ≡ true)
      × ((a b c : Resolution) → less a c ≡ true → (less a b || less b c) ≡ true)

  -- None goes before one that stands before it.
  abbrev pub in_order : List Resolution → Bool
  in_order [] = true
  in_order (r ∷ rs) = not (any (λ s. less s r) rs) && in_order rs

-- What `std::sort` promises.
pub record IsSort (sort : (Resolution → Resolution → Bool) → List Resolution → List Resolution)
    : Type 0 where
  pub permutes :
      (less : Resolution → Resolution → Bool)
      → IsStrictWeak less
      → (l : List Resolution) → Perm (sort less l) l
  pub orders :
      (less : Resolution → Resolution → Bool)
      → IsStrictWeak less
      → (l : List Resolution) → in_order less (sort less l) ≡ true

goes_before-IsStrictWeak : IsStrictWeak goes_before
unfolding goes_before
goes_before-IsStrictWeak =
    (λ a. ground arith, λ a b c h k. ground (arith, h, k), λ a b c h. ground (arith, h))

Nat-cases : (n : ℕ) → (n ≡ 0) ⊎ ((m : ℕ) × (n ≡ suc m))
Nat-cases zero = inl refl
Nat-cases (suc m) = inr (m, refl)

Result-cases : {A : Type 0} (r : Result A) → ((e : Raise) × (r ≡ raise e)) ⊎ ((a : A) × (r ≡ ok a))
Result-cases (raise e) = inl (e, refl)
Result-cases (ok a) = inr (a, refl)

module _ (ruby : Interpreter) where
  IsChosen-cons :
      (r : Resolution) {rs : List Resolution} {v : Ruby}
      → passes ruby r ≡ true
      → IsChosen ruby rs v
      → IsChosen ruby (r ∷ rs) v
  IsChosen-cons r p (chosen s m suits gives full heaviest) =
      chosen s (mem-cons_of_mem r m) suits gives full (ground (arith, p))
  IsChosen-cons r p (failed s m bad heaviest n) =
      failed s (mem-cons_of_mem r m) bad (ground (arith, p)) n
  IsChosen-cons r p (nothing all n) = nothing (ground (arith, p)) n

  is_heaviest-head :
      (r : Resolution) (rs : List Resolution)
      → in_order goes_before (r ∷ rs) ≡ true
      → is_heaviest ruby r (r ∷ rs) ≡ true
  unfolding goes_before
  is_heaviest-head r rs d =
      let none_above =
        any-and (λ t. not (passes ruby t)) (λ t. ltb (weight r) (weight t)) rs
          (ground (arith, d)) in
      ground (arith, none_above)

  weighty-first :
      (l : List Resolution)
      → any (λ r. ltb 0 (weight r)) l ≡ true
      → in_order goes_before l ≡ true
      → is_native_first ruby l ≡ false
  unfolding is_native_first goes_before
  weighty-first [] h d = ground (arith, h)
  weighty-first (r ∷ rs) h d = elim (Nat-cases (weight r)) [
    | inl e ↦ absurd (ground (arith, e, h, ap (λ w. any (λ s. ltb w (weight s)) rs) e, d))
    | inr (n, e) ↦ ground (arith, e)
  ]

  choose-IsChosen :
      (rs : List Resolution) (v : Ruby)
      → in_order goes_before rs ≡ true
      → rescue ruby (choose ruby rs) ≡ v
      → IsChosen ruby rs v
  unfolding choose
  choose-IsChosen [] v d h = nothing refl (ground (arith, h))
  choose-IsChosen (r ∷ rs) v d h = elim (Result-cases (suitable ruby r)) [
    | inl (e, s) ↦
        failed r mem-cons_self (ground (arith, s)) (is_heaviest-head r rs d) (ground (arith, s, h))
    | inr (b, s) ↦ elim (Bool-cases b) [
      | inr f ↦
          IsChosen-cons r (ground (arith, s, f))
            (choose-IsChosen rs v (ground (arith, d)) (ground (arith, s, f, h)))
      | inl t ↦ elim (Result-cases (resolution_value ruby r)) [
        | inl (e, g) ↦
            failed r mem-cons_self (ground (arith, s, t, g)) (is_heaviest-head r rs d)
              (ground (arith, s, t, g, h))
        | inr (w, g) ↦ elim (Bool-cases (is_nil w)) [
          | inl i ↦
              IsChosen-cons r (ground (arith, s, t, g, i))
                (choose-IsChosen rs v (ground (arith, d)) (ground (arith, s, t, g, i, h)))
          | inr i ↦
              chosen r mem-cons_self (ground (arith, s, t)) (ground (arith, s, t, g, i, h))
                (ground (arith, s, t, g, i, h)) (is_heaviest-head r rs d)
        ]
      ]
    ]
  ]

module _ (ruby : Interpreter)
    (sort : (Resolution → Resolution → Bool) → List Resolution → List Resolution) where
  IsChosen-sort :
      IsSort sort
      → (rs : List Resolution) (v : Ruby) → IsChosen ruby (sort goes_before rs) v
      → IsChosen ruby rs v
  IsChosen-sort good rs v c = permuted (good.permutes goes_before goes_before-IsStrictWeak rs) c
    where
      permuted : {l r : List Resolution} → Perm l r → IsChosen ruby l v → IsChosen ruby r v
      permuted p (chosen s m suits gives full heaviest) =
          chosen s ((Perm.mem_iff p).0 m) suits gives full (
            ap not (sym (any-perm (λ t. not (passes ruby t) && ltb (weight s) (weight t)) p))
            ∙ heaviest)
      permuted p (failed s m bad heaviest n) =
          failed s ((Perm.mem_iff p).0 m) bad
            (ap not (sym (any-perm (λ t. not (passes ruby t) && ltb (weight s) (weight t)) p))
              ∙ heaviest)
            n
      permuted p (nothing all n) = nothing (sym (any-perm (λ t. not (passes ruby t)) p) ∙ all) n

  -- Where a resolution has a weight, the first of the sorted ones has.
  pub is_native_first-sort :
      IsSort sort
      → (rs : List Resolution) → any (λ r. ltb 0 (weight r)) rs ≡ true
      → is_native_first ruby (sort goes_before rs) ≡ false
  is_native_first-sort good rs h =
      weighty-first ruby (sort goes_before rs)
        (any-perm (λ r. ltb 0 (weight r)) (good.permutes goes_before goes_before-IsStrictWeak rs)
          ∙ h)
        (good.orders goes_before goes_before-IsStrictWeak rs)

  -- What the sorted resolutions give is chosen from all of them.
  pub choose_sorted-IsChosen :
      IsSort sort
      → (rs : List Resolution) → IsChosen ruby rs (rescue ruby (choose ruby (sort goes_before rs)))
  choose_sorted-IsChosen good rs =
      IsChosen-sort good rs (rescue ruby (choose ruby (sort goes_before rs))) (
        choose-IsChosen ruby (sort goes_before rs) (rescue ruby (choose ruby (sort goes_before rs)))
          (good.orders goes_before goes_before-IsStrictWeak rs) refl)

  -- Where the sort keeps the promises of `std::sort`, what an unresolved fact with no value adds to
  -- the collection is the value of a suitable resolution; or it is nil, since a resolution raised, or
  -- since each is not suitable or gives nil. In the first two cases each heavier resolution is not
  -- suitable or gives nil.
  pub fact_value-IsChosen :
      IsSort sort
      → (native : Option Ruby) (f : Fact) (v : Ruby) → is_nil f.value ≡ true
      → (fact_value ruby sort native f).added ≡ some v
      → IsChosen ruby f.resolutions v
  unfolding fact_value resolve_value is_native_first
  fact_value-IsChosen good native f v i h =
      subst (IsChosen ruby f.resolutions) (ground (arith, i, h))
        (choose_sorted-IsChosen good f.resolutions)

  -- A value that a fact added to the collection is kept: asking again gives it, changes nothing and
  -- adds nothing, whatever the collection then has.
  fact_value-fact_value :
      (native native' : Option Ruby) (f : Fact) (v : Ruby)
      → is_nil f.value ≡ true
      → (fact_value ruby sort native f).added ≡ some v
      → fact_value ruby sort native' (fact_value ruby sort native f).fact
        ≡ record { result = ok v; fact = (fact_value ruby sort native f).fact; added = none }
  unfolding fact_value resolve_value is_native_first
  fact_value-fact_value native native' f v i h = ground arith

  -- A value taken from the collection stays: a resolution that is added afterwards is not asked,
  -- whatever its weight.
  pub fact_value-shadows :
      (native : Option Ruby) (f : Fact) (v : Ruby) (rs : List Resolution)
      → f.resolving ≡ false
      → f.resolved ≡ false
      → is_native_first ruby (sort goes_before f.resolutions) ≡ true
      → is_nil v ≡ false
      → is_native_first ruby (sort goes_before rs) ≡ false
      → (fact_value ruby sort native
          (record ((fact_value ruby sort (some v) f).fact) { resolutions = rs })).result
        ≡ ok v
  unfolding fact_value resolve_value is_native_first
  fact_value-shadows native f v rs a b c d e = ground arith
