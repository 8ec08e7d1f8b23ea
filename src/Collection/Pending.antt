-- ===== src/Collection/Pending.antt =====
-- What is left to resolve for a name after `resolve_fact` of lib/src/facts/collection.cc.
use facter.Base.{
  ℕ, ◌≤◌, String, ◌≡◌, refl, ◌∙◌, Bool, true, false, List, [], ◌∷◌, arith, Bool-cases, inl, inr,
}
use facter.Collection.{
  Resolver, Collection, Outcome, returned, dangling, exhausted, has_entry, points_to, resolve_names,
  resolve_patterns, resolve_fact, exec, equal_range, is_match,
}
use facter.Collection.Tidy.{remove_resolver-IsTidy}
use facter.Collection.Follows.{Fits, Follows, Shrinks, Shrinks-trans}
use facter.Collection.Sweep.{Ensures, Ensures-bind, sweep-Settled}

module _ (heap : ℕ → Resolver) where
  -- No resolver is registered under the name, and no pattern of one matches it.
  pub record IsQuiet (name : String) (c : Collection) : Type 0 where
    pub names : (p : ℕ) → has_entry name p c.resolver_map ≡ false
    pub patterns : (p : ℕ) → points_to p c.pattern_resolvers ≡ true → is_match (heap p) name ≡ false

  pub IsQuiet-Shrinks :
      {name : String} {a b : Collection} → Shrinks a b → IsQuiet name a → IsQuiet name b
  IsQuiet-Shrinks {name} s q = record {
    names = λ p. ground (arith, s.entries name p, q.names p);
    patterns = λ p h. q.patterns p (s.patterns p h);
  }

points_to-equal_range :
    (k : String) (p : ℕ) (m : List (String × ℕ)) → points_to p (equal_range k m) ≡ has_entry k p m
unfolding points_to equal_range has_entry
points_to-equal_range k p [] = refl
points_to-equal_range k p ((j, q) ∷ m) = ground (arith, points_to-equal_range k p m)

module _ (heap : ℕ → Resolver) (depth : ℕ) where
  abbrev Cleared : ℕ → String → Collection → Collection → Type 0
  Cleared n name c b = Follows heap n c b × ((p : ℕ) → has_entry name p b.resolver_map ≡ false)

  names-Cleared :
      (n : ℕ) (name : String) (c : Collection) (o : Outcome Collection)
      → Ensures heap
          (λ b.
            Follows heap n c b
            × ((q : ℕ)
                → points_to q (equal_range name c.resolver_map) ≡ true
                → ◌≡◌ {A = Bool} true true
                → has_entry name q b.resolver_map ≡ false))
          o
      → Ensures heap (Cleared n name c) o
  names-Cleared n name c (returned b) x = (
    x.0,
    λ p. elim (Bool-cases (has_entry name p c.resolver_map)) [
      | inl e ↦ x.1 p (points_to-equal_range name p c.resolver_map ∙ e) refl
      | inr e ↦ ground (arith, x.0.shrinks.entries name p)
    ],
  )
  names-Cleared n name c dangling x = tt
  names-Cleared n name c exhausted x = x

  pub resolve_names-Cleared :
      (n : ℕ) (name : String) (c : Collection)
      → n ≤ depth
      → Fits heap n c
      → Ensures heap (Cleared n name c) (resolve_names heap (exec heap depth) name c)
  unfolding resolve_names
  resolve_names-Cleared n name c le f = names-Cleared n name c _ (
      sweep-Settled heap depth _ _ (λ p. true) (λ b p t h. (t.entries name p h).0)
        (λ a b p s h. s.entries name p h) (λ b p t. (remove_resolver-IsTidy heap p t).1 name) n _ c
        le f)

  abbrev pub Resolved : ℕ → String → Collection → Collection → Type 0
  Resolved n name c b = Follows heap n c b × IsQuiet heap name b

  patterns_cleared :
      (n : ℕ) (name : String) (c : Collection) (o : Outcome Collection)
      → ((p : ℕ) → has_entry name p c.resolver_map ≡ false)
      → Ensures heap
          (λ b.
            Follows heap n c b
            × ((q : ℕ)
                → points_to q c.pattern_resolvers ≡ true
                → is_match (heap q) name ≡ true
                → points_to q b.pattern_resolvers ≡ false))
          o
      → Ensures heap (Resolved n name c) o
  patterns_cleared n name c (returned b) quiet x = (
    x.0,
    record {
      names = λ p. ground (arith, x.0.shrinks.entries name p, quiet p);
      patterns = λ p h. elim (Bool-cases (is_match (heap p) name)) [
        | inl e ↦ absurd (ground (arith, x.1 p (x.0.shrinks.patterns p h) e))
        | inr e ↦ e
      ];
    },
  )
  patterns_cleared n name c dangling quiet x = tt
  patterns_cleared n name c exhausted quiet x = x

  Resolved-trans :
      (n : ℕ) (name : String) (a b : Collection) (o : Outcome Collection)
      → Follows heap n a b
      → Ensures heap (Resolved n name b) o
      → Ensures heap (Resolved n name a) o
  Resolved-trans n name a b (returned c) x y =
      (record { fits = y.0.fits; shrinks = Shrinks-trans x.shrinks y.0.shrinks }, y.1)
  Resolved-trans n name a b dangling x y = tt
  Resolved-trans n name a b exhausted x y = y

  -- `resolve_fact` ends; where it returns, nothing that could provide the fact is left.
  pub resolve_fact-Resolved :
      (n : ℕ) (name : String) (c : Collection)
      → n ≤ depth
      → Fits heap n c
      → Ensures heap (Resolved n name c) (resolve_fact heap (exec heap depth) name c)
  unfolding resolve_fact resolve_patterns
  resolve_fact-Resolved n name c le f =
      Ensures-bind heap (Cleared n name c) (Resolved n name c)
        (resolve_names heap (exec heap depth) name c) _ (resolve_names-Cleared n name c le f)
        λ b x. Resolved-trans n name c b (resolve_patterns heap (exec heap depth) name b) x.0 (
          patterns_cleared n name b _ x.1 (
            sweep-Settled heap depth _ _ (λ p. is_match (heap p) name) (λ d p t h. t.patterns p h)
              (λ a d p s h. s.patterns p h) (λ d p t. (remove_resolver-IsTidy heap p t).2) n _ b le
              x.0.fits))
