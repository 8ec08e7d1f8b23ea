-- ===== src/Collection/Sweep.antt =====
-- A loop of `resolve_fact` of lib/src/facts/collection.cc: what it takes out of the collection.
use facter.Base.{
  ℕ, zero, suc, ◌≤◌, ◌≡◌, subst, Bool, true, false, ◌&&◌, List, [], ◌∷◌, arith, ◌=?◌, Bool-cases,
  inl, inr,
}
use facter.Collection.{
  Resolver, Collection, Outcome, returned, dangling, exhausted, ◌>>=◌, points_to, remove_resolver,
  resolve_one, next_is_valid, sweep, exec,
}
use facter.Collection.Tidy.{IsTidy, length-list_remove-lt}
use facter.Collection.Follows.{
  Fits, Follows, Follows-refl, Shrinks, Shrinks-trans, Ends, remove-Fits,
}
use facter.Collection.Fuel.{exec-Ends}

module _ (heap : ℕ → Resolver) where
  abbrev pub Ensures : (Collection → Type 0) → Outcome Collection → Type 0
  Ensures P (returned c) = P c
  Ensures P dangling = Unit
  Ensures P exhausted = ⊥

  pub Ensures-bind :
      (P Q : Collection → Type 0) (o : Outcome Collection) (f : Collection → Outcome Collection)
      → Ensures P o
      → ((b : Collection) → P b → Ensures Q (f b))
      → Ensures Q (o >>= f)
  Ensures-bind P Q (returned b) f x y = y b x
  Ensures-bind P Q dangling f x y = tt
  Ensures-bind P Q exhausted f x y = x

  Ensures-Ends :
      (n : ℕ) (c : Collection) (o : Outcome Collection)
      → Ends heap n c o
      → Ensures (Follows heap n c) o
  Ensures-Ends n c (returned b) x = x
  Ensures-Ends n c dangling x = tt
  Ensures-Ends n c exhausted x = x

  -- The resolver that has run is gone, whatever it did.
  abbrev After : ℕ → ℕ → Collection → Collection → Type 0
  After n p c b = Follows heap n c b × Shrinks (remove_resolver heap p c) b

  After-run :
      (n p : ℕ) {c : Collection} (o : Outcome Collection)
      → Follows heap n c (remove_resolver heap p c)
      → Ends heap n (remove_resolver heap p c) o
      → Ensures (After (suc n) p c) o
  After-run n p (returned b) x y = (
    record {
      fits = record {
        tidy = y.fits.tidy;
        left = omega (arith, y.fits.left);
        sorted = y.fits.sorted;
      };
      shrinks = Shrinks-trans x.shrinks y.shrinks;
    },
    y.shrinks,
  )
  After-run n p dangling x y = tt
  After-run n p exhausted x y = y

  module _ (depth : ℕ) where
    resolve_one-After :
        (n p : ℕ) (c : Collection)
        → n ≤ depth
        → Fits heap n c
        → points_to p c.resolvers ≡ true
        → Ensures (After n p c) (resolve_one heap (exec heap depth) p c)
    unfolding resolve_one
    resolve_one-After zero p c le f h =
        absurd (omega (arith, f.left, length-list_remove-lt p c.resolvers h))
    resolve_one-After (suc n) p c le f h =
        let gone = remove-Fits heap p f h in
        After-run n p (exec heap depth (heap p).body (remove_resolver heap p c)) gone
          (exec-Ends heap depth n _ _ (omega arith) gone.fits)

    module _ (live : Collection → ℕ → Bool) (end_live : Collection → Bool) (test : ℕ → Bool)
        (known : (c : Collection) (p : ℕ)
          → IsTidy heap c
          → live c p ≡ true
          → points_to p c.resolvers ≡ true)
        (mono : (a b : Collection) (p : ℕ) → Shrinks a b → live b p ≡ true → live a p ≡ true)
        (killed : (c : Collection) (p : ℕ)
          → IsTidy heap c
          → live (remove_resolver heap p c) p ≡ false) where
      abbrev pub Settled : ℕ → List ℕ → Collection → Collection → Type 0
      Settled n l c b =
          Follows heap n c b × ((q : ℕ) → points_to q l ≡ true → test q ≡ true → live b q ≡ false)

      Settled-cons :
          (n p : ℕ) (l : List ℕ) {a b c : Collection}
          → Follows heap n a b
          → (test p ≡ true → live b p ≡ false)
          → Settled n l b c
          → Settled n (p ∷ l) a c
      unfolding points_to
      Settled-cons n p l {a} {b} {c} x dead y = (
        record { fits = y.0.fits; shrinks = Shrinks-trans x.shrinks y.0.shrinks },
        λ q h t. elim (Bool-cases (p =? q)) [
          | inl e ↦
              let same : p ≡ q = ground arith in
              let stays : live b p ≡ false → live c p ≡ false =
                λ d. ground (arith, mono b c p y.0.shrinks) in
              subst (λ r. live c r ≡ false) same (stays (dead (rw same t)))
          | inr e ↦ y.1 q (ground arith) t
        ],
      )

      settle :
          (n p : ℕ) (l : List ℕ) (a b : Collection) (o : Outcome Collection)
          → Follows heap n a b
          → (test p ≡ true → live b p ≡ false)
          → Ensures (Settled n l b) o
          → Ensures (Settled n (p ∷ l) a) o
      settle n p l a b (returned c) x dead y = Settled-cons n p l x dead y
      settle n p l a b dangling x dead y = tt
      settle n p l a b exhausted x dead y = y

      pub sweep-Settled :
          (n : ℕ) (l : List ℕ) (c : Collection)
          → n ≤ depth
          → Fits heap n c
          → Ensures (Settled n l c) (sweep heap (exec heap depth) live end_live test l c)
      unfolding sweep points_to
      sweep-Settled n [] c le f = (Follows-refl heap f, λ q h t. ground arith)
      sweep-Settled n (p ∷ l) c le f = elim (Bool-cases (live c p && test p)) [
        | inr no_call ↦
            rw (no_call, Ensures, sweep)
              (settle n p l c c (sweep heap (exec heap depth) live end_live test l c)
                (Follows-refl heap f) (λ t. ground arith) (sweep-Settled n l c le f))
        | inl call ↦
            rw (call, Ensures, sweep)
              (Ensures-bind (After n p c) (Settled n (p ∷ l) c)
                (resolve_one heap (exec heap depth) p c) _
                (resolve_one-After n p c le f (known c p f.tidy (ground arith)))
                λ b after.
                  elim (Bool-cases (next_is_valid heap (exec heap depth) live end_live l c b)) [
                    | inr gone ↦ rw (gone, Ensures) tt
                    | inl valid ↦
                        rw (valid, Ensures)
                          (settle n p l c b (sweep heap (exec heap depth) live end_live test l b)
                            after.0 (λ t. ground (arith, killed c p f.tidy, mono _ b p after.1))
                            (sweep-Settled n l b le after.0.fits))
                  ])
      ]
