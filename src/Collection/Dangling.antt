-- ===== src/Collection/Dangling.antt =====
-- The loops of `resolve_fact` hold the iterator to the next element while a resolver runs, and that
-- resolver may itself make the collection resolve, and so erase, the next element.
use facter.Base.{ℕ, suc, String, ◌≡◌, ap, ◌∙◌, refl, true, false, Option, List, [], ◌∷◌, arith}
use facter.Values.{Value, find}
use facter.Collection.{
  Action, get_fact, Resolver, Collection, Outcome, returned, dangling, exhausted, ◌>>=◌, points_to,
  is_match, equal_range, get_value, resolve_fact, resolve_names, resolve_patterns, resolve_one,
  next_is_valid, sweep, exec, remove_resolver, is_pattern,
}
use facter.Collection.Follows.{Fits, Ends, remove-Fits}
use facter.Collection.Sweep.{Ensures}
use facter.Collection.Fuel.{exec-Ends}
use facter.Collection.Pending.{Resolved, resolve_fact-Resolved}

module _ (heap : ℕ → Resolver) where
  -- q is gone after p's body
  next_erased :
      (depth : ℕ) (c : Collection) (name : String) (p q : ℕ) (rest : List ℕ)
      (o : Outcome Collection)
      → resolve_one heap (exec heap depth) p c ≡ o
      → Ensures heap (λ b. points_to q b.pattern_resolvers ≡ false) o
      → points_to q c.pattern_resolvers ≡ true
      → points_to p c.pattern_resolvers ≡ true
      → is_match (heap p) name ≡ true
      → sweep heap
          (exec heap depth)
          (is_pattern heap (exec heap depth))
          (λ _. true)
          (λ r. is_match (heap r) name)
          (p ∷ q ∷ rest)
          c
        ≡ dangling
  unfolding sweep next_is_valid
  next_erased depth c name p q rest (returned d) e gone hq hp m = ground arith
  next_erased depth c name p q rest dangling e gone hq hp m = ground arith
  next_erased depth c name p q rest exhausted e gone hq hp m = absurd gone

  stays_gone :
      (n q : ℕ) (a : Collection) (o : Outcome Collection)
      → points_to q a.pattern_resolvers ≡ false
      → Ends heap n a o
      → Ensures heap (λ b. points_to q b.pattern_resolvers ≡ false) o
  stays_gone n q a (returned b) h x = ground (arith, x.shrinks.patterns q)
  stays_gone n q a dangling h x = tt
  stays_gone n q a exhausted h x = x

  then_gone :
      (n q : ℕ) (fact : String) (a : Collection) (o : Outcome Collection)
      (rest : Option Value → Action) (read : Collection → Option Value)
      → is_match (heap q) fact ≡ true
      → Ensures heap (Resolved heap n n fact a) o
      → Ensures heap
          (λ b. points_to q b.pattern_resolvers ≡ false)
          (o >>= λ b. exec heap (suc n) (rest (read b)) b)
  then_gone n q fact a (returned b) rest read m x =
      stays_gone n q b (exec heap (suc n) (rest (read b)) b) (ground (arith, x.1.patterns q))
        (exec-Ends heap (suc n) n (rest (read b)) b (omega arith) x.0.fits)
  then_gone n q fact a dangling rest read m x = tt
  then_gone n q fact a exhausted rest read m x = x

  regroup :
      (o : Outcome Collection) (read : Collection → Option Value)
      (f : Option Value → Collection → Outcome Collection)
      → ◌>>=◌ {B = Collection}
          (◌>>=◌ {B = Option Value × Collection} o (λ b. returned (read b, b)))
          (λ x. f x.0 x.1)
        ≡ (o >>= λ b. f (read b) b)
  regroup (returned b) read f = refl
  regroup dangling read f = refl
  regroup exhausted read f = refl

  -- A resolver that asks for a fact takes out those whose pattern matches the fact's name.
  asks :
      (n q : ℕ) (fact : String) (rest : Option Value → Action) (c : Collection)
      → Fits heap n c
      → is_match (heap q) fact ≡ true
      → Ensures heap
          (λ b. points_to q b.pattern_resolvers ≡ false)
          (exec heap (suc n) (get_fact fact rest) c)
  unfolding exec get_value
  asks n q fact rest c f m =
      rw
        (regroup (resolve_fact heap (exec heap n) fact c) (λ b. find fact b.facts)
          (λ v b. exec heap (suc n) (rest v) b))
        (then_gone n q fact c (resolve_fact heap (exec heap n) fact c) rest (λ b. find fact b.facts)
          m (resolve_fact-Resolved heap n n fact c (omega arith) f))

  runs_gone :
      (n : ℕ) (c : Collection) (fact : String) (p q : ℕ) (rest : Option Value → Action)
      → Fits heap (suc n) c
      → points_to p c.pattern_resolvers ≡ true
      → (heap p).body ≡ get_fact fact rest
      → is_match (heap q) fact ≡ true
      → Ensures heap
          (λ b. points_to q b.pattern_resolvers ≡ false)
          (resolve_one heap (exec heap (suc n)) p c)
  unfolding resolve_one
  runs_gone n c fact p q rest f hp body mq = rw body (
      asks n q fact rest (remove_resolver heap p c)
        (remove-Fits heap p f (f.tidy.patterns p hp)).fits mq)

  no_names :
      (resolve : Action → Collection → Outcome Collection) (name : String) (c : Collection)
      → equal_range name c.resolver_map ≡ []
      → resolve_names heap resolve name c ≡ returned c
  unfolding resolve_names
  no_names resolve name c e = rw e

  steps :
      (resolve : Action → Collection → Outcome Collection) (name : String) (c : Collection)
      → resolve_names heap resolve name c ≡ returned c
      → resolve_patterns heap resolve name c ≡ dangling
      → get_value heap resolve name c ≡ dangling
  unfolding get_value
  steps resolve name c e d = rw (e, ◌>>=◌, d)

  first_is_there :
      (p q : ℕ) (l : List ℕ) → (points_to p (p ∷ q ∷ l) ≡ true) × (points_to q (p ∷ q ∷ l) ≡ true)
  unfolding points_to
  first_is_there p q l = ground arith

  -- Where the resolver that matches a name asks for a fact that the next resolver with patterns
  -- matches, getting the fact of that name never returns: the loop goes on from an iterator whose
  -- element was erased.
  pub get_value_dangles :
      (n : ℕ) (c : Collection) (name fact : String) (p q : ℕ) (others : List ℕ)
      (rest : Option Value → Action)
      → Fits heap (suc n) c
      → equal_range name c.resolver_map ≡ []
      → c.pattern_resolvers ≡ p ∷ q ∷ others
      → is_match (heap p) name ≡ true
      → (heap p).body ≡ get_fact fact rest
      → is_match (heap q) fact ≡ true
      → get_value heap (exec heap (suc n)) name c ≡ dangling
  unfolding resolve_patterns
  get_value_dangles n c name fact p q others rest f e l m body mq =
      let hp : points_to p c.pattern_resolvers ≡ true = rw l (first_is_there p q others).0 in
      let hq : points_to q c.pattern_resolvers ≡ true = rw l (first_is_there p q others).1 in
      let runs = exec heap (suc n) in
      let names : resolve_names heap runs name c ≡ returned c = no_names runs name c e in
      let patterns : resolve_patterns heap runs name c ≡ dangling =
        ap
          (λ ps.
            sweep heap runs (is_pattern heap runs) (λ _. true) (λ r. is_match (heap r) name) ps c)
          l
        ∙ next_erased (suc n) c name p q others (resolve_one heap runs p c) refl
            (runs_gone n c fact p q rest f hp body mq) hq hp m in
      steps runs name c names patterns
