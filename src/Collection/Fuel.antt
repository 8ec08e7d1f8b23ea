-- ===== src/Collection/Fuel.antt =====
-- How deep resolvers go that make the collection resolve others, and the rounds of
-- `resolve_facts`: lib/src/facts/collection.cc.
use facter.Base.{
  ℕ, zero, suc, ◌≤◌, String, ◌≡◌, refl, ap, Bool, true, ◌&&◌, Option, none, some, List, [], ◌∷◌,
  arith, length, Bool-cases, inl, inr,
}
use facter.Values.{Value, assign, erase}
use facter.Values.Sorted.{assign-IsSorted, erase-IsSorted}
use facter.Collection.{
  Action, done, add_fact, get_fact, Resolver, Collection, Outcome, returned, dangling, exhausted,
  points_to, remove_resolver, resolve_one, next_is_valid, sweep, resolve_names, resolve_fact,
  get_value, remove_fact, add, exec_with, exec, resolve_rounds, resolve_facts,
}
use facter.Collection.Tidy.{length-list_remove-lt}
use facter.Collection.Follows.{
  Fits, Ends, EndsWith, Follows, Follows-refl, Ends-bind, Ends-bind_with, EndsWith-found,
  remove-Fits, Ends-trans, Ends-then,
}

module _ (heap : ℕ → Resolver) where
  module _ (resolve : Action → Collection → Outcome Collection) (n : ℕ)
      (runs : (p : ℕ) (c : Collection)
        → Fits heap n c
        → points_to p c.resolvers ≡ true
        → Ends heap n c (resolve_one heap resolve p c)) where
    sweep-Ends :
        (live : Collection → ℕ → Bool) (end_live : Collection → Bool) (test : ℕ → Bool)
        → ((c : Collection) (p : ℕ)
            → Fits heap n c
            → live c p ≡ true
            → points_to p c.resolvers ≡ true)
        → (l : List ℕ) (c : Collection) → Fits heap n c
        → Ends heap n c (sweep heap resolve live end_live test l c)
    unfolding sweep
    sweep-Ends live end_live test known [] c f = Follows-refl heap f
    sweep-Ends live end_live test known (p ∷ l) c f = elim (Bool-cases (live c p && test p)) [
      | inr no_call ↦ rw (no_call, Ends, sweep) (sweep-Ends live end_live test known l c f)
      | inl call ↦
          rw (call, Ends, sweep)
            (Ends-bind heap n c (resolve_one heap resolve p c) _
              (runs p c f (known c p f (ground arith)))
              λ b g. elim (Bool-cases (next_is_valid heap resolve live end_live l c b)) [
                | inl valid ↦ rw (valid, Ends) (sweep-Ends live end_live test known l b g)
                | inr gone ↦ rw (gone, Ends) tt
              ])
    ]

    pub resolve_fact-Ends :
        (name : String) (c : Collection)
        → Fits heap n c
        → Ends heap n c (resolve_fact heap resolve name c)
    unfolding resolve_fact
    resolve_fact-Ends name c f =
        Ends-bind heap n c (resolve_names heap resolve name c) _
          (sweep-Ends _ _ _ (λ b p g h. (g.tidy.entries name p h).0) _ c f)
          λ b g. sweep-Ends _ _ _ (λ b p g h. g.tidy.patterns p h) _ b g

    pub get_value-Ends :
        (name : String) (c : Collection)
        → Fits heap n c
        → EndsWith heap n c (get_value heap resolve name c)
    unfolding get_value
    get_value-Ends name c f = EndsWith-found heap name n c _ (resolve_fact-Ends name c f)

    erase-Follows :
        (name : String) {c : Collection}
        → Fits heap n c
        → Follows heap n c (record c { facts = erase name c.facts })
    erase-Follows name {c} f = record {
      fits = record {
        tidy = record { entries = f.tidy.entries; patterns = f.tidy.patterns };
        left = f.left;
        sorted = erase-IsSorted name c.facts f.sorted;
      };
      shrinks = record { entries = λ k p h. h; patterns = λ p h. h };
    }

    assign-Follows :
        (name : String) (v : Value) {c : Collection}
        → Fits heap n c
        → Follows heap n c (record c { facts = assign name v c.facts })
    assign-Follows name v {c} f = record {
      fits = record {
        tidy = record { entries = f.tidy.entries; patterns = f.tidy.patterns };
        left = f.left;
        sorted = assign-IsSorted name v c.facts f.sorted;
      };
      shrinks = record { entries = λ k p h. h; patterns = λ p h. h };
    }

    pub remove_fact-Ends :
        (name : String) (c : Collection)
        → Fits heap n c
        → Ends heap n c (remove_fact heap resolve name c)
    unfolding remove_fact
    remove_fact-Ends name c f =
        Ends-bind_with heap n c (get_value heap resolve name c) _ (get_value-Ends name c f)
          (elim [ none ↦ λ b g. Follows-refl heap g | some w ↦ λ b g. erase-Follows name g ])

    pub add-Ends :
        (name : String) (v : Option Value) (c : Collection)
        → Fits heap n c
        → Ends heap n c (add heap resolve name v c)
    unfolding add
    add-Ends name (some v) c f =
        Ends-bind_with heap n c (get_value heap resolve name c) _ (get_value-Ends name c f)
          (λ old b g. assign-Follows name v g)
    add-Ends name none c f =
        Ends-bind_with heap n c (get_value heap resolve name c) _ (get_value-Ends name c f)
          (elim [ none ↦ λ b g. Follows-refl heap g | some w ↦ λ b g. remove_fact-Ends name b g ])

    exec_with-Ends :
        (a : Action) (c : Collection) → Fits heap n c → Ends heap n c (exec_with heap resolve a c)
    unfolding exec_with
    exec_with-Ends done c f = Follows-refl heap f
    exec_with-Ends (add_fact name v rest) c f =
        Ends-bind heap n c (add heap resolve name v c) _ (add-Ends name v c f)
          (λ b g. exec_with-Ends rest b g)
    exec_with-Ends (get_fact name rest) c f =
        Ends-bind_with heap n c (get_value heap resolve name c) _ (get_value-Ends name c f)
          (λ v b g. exec_with-Ends (rest v) b g)

  runs_empty :
      (resolve : Action → Collection → Outcome Collection) (p : ℕ) (c : Collection)
      → Fits heap 0 c
      → points_to p c.resolvers ≡ true
      → Ends heap 0 c (resolve_one heap resolve p c)
  runs_empty resolve p c f h = absurd (omega (arith, f.left, length-list_remove-lt p c.resolvers h))

  Follows-suc : {n : ℕ} {a b : Collection} → Follows heap n a b → Follows heap (suc n) a b
  Follows-suc x = record {
    fits = record { tidy = x.fits.tidy; left = omega (arith, x.fits.left); sorted = x.fits.sorted };
    shrinks = x.shrinks;
  }

  Ends-suc :
      (n : ℕ) (a : Collection) (o : Outcome Collection) → Ends heap n a o → Ends heap (suc n) a o
  Ends-suc n a (returned c) x = Follows-suc x
  Ends-suc n a dangling x = tt
  Ends-suc n a exhausted x = x

  runs_suc :
      (n : ℕ) (resolve : Action → Collection → Outcome Collection)
      → ((a : Action) (c : Collection) → Fits heap n c → Ends heap n c (resolve a c))
      → (p : ℕ) (c : Collection) → Fits heap (suc n) c
      → points_to p c.resolvers ≡ true
      → Ends heap (suc n) c (resolve_one heap resolve p c)
  unfolding resolve_one
  runs_suc n resolve ends p c f h =
      let gone = remove-Fits heap p f h in
      let o = resolve (heap p).body (remove_resolver heap p c) in
      Ends-trans heap (suc n) o (Follows-suc gone) (Ends-suc n _ o (ends _ _ gone.fits))

  -- With as much fuel as resolvers are left, whatever a resolver asks for and adds ends: no call
  -- runs out of fuel, and a call that returns leaves a tidy collection with its facts in order,
  -- at most as many resolvers as there were, and nothing registered that was not registered before.
  pub exec-Ends :
      (depth n : ℕ) (a : Action) (c : Collection)
      → n ≤ depth
      → Fits heap n c
      → Ends heap n c (exec heap depth a c)
  unfolding exec
  exec-Ends zero zero a c h f =
      exec_with-Ends (λ _ _. exhausted) 0 (runs_empty (λ _ _. exhausted)) a c f
  exec-Ends zero (suc n) a c h f = absurd (omega arith)
  exec-Ends (suc depth) zero a c h f =
      exec_with-Ends (exec heap depth) 0 (runs_empty (exec heap depth)) a c f
  exec-Ends (suc depth) (suc n) a c h f =
      exec_with-Ends (exec heap depth) (suc n)
        (runs_suc n _ (λ b d g. exec-Ends depth n b d (omega arith) g)) a c f

  -- A resolver that is run leaves one fewer.
  pub runs :
      (depth n p : ℕ) (c : Collection)
      → n ≤ depth
      → Fits heap (suc n) c
      → points_to p c.resolvers ≡ true
      → Ends heap n c (resolve_one heap (exec heap depth) p c)
  unfolding resolve_one
  runs depth n p c le f h =
      let gone = remove-Fits heap p f h in
      let c' = remove_resolver heap p c in
      Ends-trans heap n (exec heap depth (heap p).body c') gone
        (exec-Ends depth n (heap p).body c' le gone.fits)

  head_is_there : (p : ℕ) (ps : List ℕ) → points_to p (p ∷ ps) ≡ true
  unfolding points_to
  head_is_there p ps = ground arith

  nothing_left : {n : ℕ} {c : Collection} → c.resolvers ≡ [] → Fits heap n c → Follows heap 0 c c
  nothing_left {c = c} e f =
      Follows-refl heap
        (record { tidy = f.tidy; left = omega (arith, ap length e); sorted = f.sorted })

  rounds-Ends :
      (depth n : ℕ) (l : List ℕ) (c : Collection)
      → c.resolvers ≡ l
      → n ≤ depth
      → Fits heap n c
      → Ends heap 0 c (resolve_rounds heap (exec heap depth) n c)
  unfolding resolve_rounds
  rounds-Ends depth zero [] c e le f = rw (e, Ends, resolve_rounds) (Follows-refl heap f)
  rounds-Ends depth zero (p ∷ l) c e le f = absurd (omega (arith, f.left, ap length e))
  rounds-Ends depth (suc n) [] c e le f = rw (e, Ends, resolve_rounds) (nothing_left e f)
  rounds-Ends depth (suc n) (p ∷ l) c e le f =
      rw (e, Ends, resolve_rounds)
        (Ends-then heap n 0 c (resolve_one heap (exec heap depth) p c) _
          (runs depth n p c (omega arith) f (rw e (head_is_there p l)))
          λ b g. rounds-Ends depth n b.resolvers b refl (omega arith) g)

  pub resolve_facts-Ends :
      (c : Collection) (n : ℕ) → Fits heap n c → Ends heap 0 c (resolve_facts heap c)
  unfolding resolve_facts
  resolve_facts-Ends c n f =
      rounds-Ends (length c.resolvers) (length c.resolvers) c.resolvers c refl (omega arith)
        (record { tidy = f.tidy; left = omega arith; sorted = f.sorted })
