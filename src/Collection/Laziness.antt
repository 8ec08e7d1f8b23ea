-- ===== src/Collection/Laziness.antt =====
-- Asking for a fact twice, and after adding it: `get_value` and `add` of
-- lib/src/facts/collection.cc.
use facter.Base.{
  ℕ, String, ◌≡◌, refl, subst, ◌⊎◌, ◌≢◌, sym, ◌∙◌, true, false, Option, none, some, List, [], ◌∷◌,
  arith, eq_refl, inl, inr,
}
use facter.Values.{Value, find, assign, erase}
use facter.Values.Lookup.{find-assign, find-erase}
use facter.Collection.{
  Action, Resolver, Collection, Outcome, returned, dangling, exhausted, ◌>>=◌, has_entry, points_to,
  sweep, resolve_names, resolve_patterns, resolve_fact, get_value, remove_fact, add, exec,
  equal_range, is_match, is_pattern,
}
use facter.Collection.Follows.{Fits}
use facter.Collection.Sweep.{Ensures}
use facter.Collection.Pending.{IsQuiet, Resolved, resolve_fact-Resolved}

equal_range_empty :
    (k : String) (m : List (String × ℕ))
    → ((p : ℕ) → has_entry k p m ≡ false)
    → equal_range k m ≡ []
unfolding equal_range has_entry
equal_range_empty k [] h = refl
equal_range_empty k ((j, q) ∷ m) h =
    ground (arith, h q, equal_range_empty k m (λ p. ground (arith, h p)))

module _ (heap : ℕ → Resolver) (resolve : Action → Collection → Outcome Collection) where
  sweep_idle :
      (name : String) (l : List ℕ) (c : Collection)
      → ((p : ℕ) → points_to p l ≡ true → is_match (heap p) name ≡ false)
      → sweep heap resolve (is_pattern heap resolve) (λ _. true) (λ p. is_match (heap p) name) l c
        ≡ returned c
  unfolding sweep points_to
  sweep_idle name [] c h = refl
  sweep_idle name (p ∷ l) c h =
      let no_match : is_match (heap p) name ≡ false = h p (ground arith) in
      ground (arith, no_match, sweep_idle name l c (λ q t. h q (ground arith)))

  resolve_fact_quiet :
      (name : String) (c : Collection)
      → IsQuiet heap name c
      → resolve_fact heap resolve name c ≡ returned c
  unfolding resolve_fact resolve_names resolve_patterns
  resolve_fact_quiet name c q =
      rw (equal_range_empty name c.resolver_map q.names)
        (sweep_idle name c.pattern_resolvers c q.patterns)

  -- Where nothing is left to resolve, asking for a fact changes nothing.
  pub get_value_quiet :
      (name : String) (c : Collection)
      → IsQuiet heap name c
      → get_value heap resolve name c ≡ returned (find name c.facts, c)
  unfolding get_value
  get_value_quiet name c q = rw (resolve_fact_quiet name c q)

Outcome-cases :
    {A : Type 0} (o : Outcome A) → ((a : A) × (o ≡ returned a)) ⊎ ((o ≡ dangling) ⊎ (o ≡ exhausted))
Outcome-cases (returned a) = inl (a, refl)
Outcome-cases dangling = inr (inl refl)
Outcome-cases exhausted = inr (inr refl)

found-eq :
    (name : String) (o : Outcome Collection) {v : Option Value} {b : Collection}
    → ◌>>=◌ {B = Option Value × Collection} o (λ c. returned (find name c.facts, c))
      ≡ returned (v, b)
    → (o ≡ returned b) × (find name b.facts ≡ v)
found-eq name (returned c) h = (ground arith, ground arith)
found-eq name dangling h = cc
found-eq name exhausted h = cc

module _ (heap : ℕ → Resolver) (depth : ℕ) {c : Collection} (f : Fits heap depth c) where
  get_value-Resolved :
      (name : String) (v : Option Value) {b : Collection}
      → get_value heap (exec heap depth) name c ≡ returned (v, b)
      → Resolved heap depth depth name c b × (find name b.facts ≡ v)
  unfolding get_value
  get_value-Resolved name v {b} h =
      let parts = found-eq name (resolve_fact heap (exec heap depth) name c) h in
      (
        subst (Ensures heap (Resolved heap depth depth name c)) parts.0
            (resolve_fact-Resolved heap depth depth name c (omega arith) f),
        parts.1,
      )

  -- Once a fact has been asked for, nothing that could provide it is left: asking again runs no
  -- resolver, leaves the collection as it is and gives the same answer.
  pub get_value-get_value :
      (name : String) (v : Option Value) {b : Collection}
      → get_value heap (exec heap depth) name c ≡ returned (v, b)
      → IsQuiet heap name b × (get_value heap (exec heap depth) name b ≡ returned (v, b))
  get_value-get_value name v {b} h =
      let r = get_value-Resolved name v h in
      (r.0.1, rw (get_value_quiet heap (exec heap depth) name b r.0.1) (rw r.1))

  add_fails :
      (name : String) (v : Option Value) {b : Collection}
      → (get_value heap (exec heap depth) name c ≡ dangling)
        ⊎ (get_value heap (exec heap depth) name c ≡ exhausted)
      → add heap (exec heap depth) name v c ≢ returned b
  unfolding add
  add_fails name v (inl e) h = cc (rw (e, ◌>>=◌) at h)
  add_fails name v (inr e) h = cc (rw (e, ◌>>=◌) at h)

  abbrev stored : String → Option Value → Option Value → Collection → Collection
  stored name (some v) old d = record d { facts = assign name v d.facts }
  stored name none (some w) d = record d { facts = erase name d.facts }
  stored name none none d = d

  stored-IsQuiet :
      (name : String) (v old : Option Value) (d : Collection)
      → IsQuiet heap name d
      → IsQuiet heap name (stored name v old d)
  stored-IsQuiet name (some v) old d q = record { names = q.names; patterns = q.patterns }
  stored-IsQuiet name none (some w) d q = record { names = q.names; patterns = q.patterns }
  stored-IsQuiet name none none d q = q

  find-stored :
      (name : String) (v old : Option Value) (d : Collection)
      → find name d.facts ≡ old
      → find name (stored name v old d).facts ≡ v
  find-stored name (some v) old d e = rw (find-assign name name v d.facts, eq_refl name)
  find-stored name none (some w) d e = rw (find-erase name name d.facts, eq_refl name)
  find-stored name none none d e = e

  -- Adding stores into, or erases from, the facts that are there when the old value was got.
  add_lem :
      (name : String) (v old : Option Value) {d : Collection}
      → get_value heap (exec heap depth) name c ≡ returned (old, d)
      → add heap (exec heap depth) name v c ≡ returned (stored name v old d)
  unfolding add
  add_lem name (some v) old e = rw (e, ◌>>=◌)
  add_lem name none none e = rw (e, ◌>>=◌)
  add_lem name none (some w) {d} e =
      let again = get_value-get_value name (some w) e in rw (e, ◌>>=◌, remove_fact, again.1)

  -- What was added is found, with no more to resolve; after a null was added there is no such fact.
  pub get_value-add :
      (name : String) (v : Option Value) {b : Collection}
      → add heap (exec heap depth) name v c ≡ returned b
      → get_value heap (exec heap depth) name b ≡ returned (v, b)
  get_value-add name v {b} h = elim (Outcome-cases (get_value heap (exec heap depth) name c)) [
    | inl ((old, d), e) ↦
        let r = get_value-Resolved name old e in
        let same : returned (stored name v old d) ≡ returned b = sym (add_lem name v old e) ∙ h in
        let same' : stored name v old d ≡ b = cc in
        subst (λ x. get_value heap (exec heap depth) name x ≡ returned (v, x)) same'
          (rw
            (get_value_quiet heap (exec heap depth) name (stored name v old d)
              (stored-IsQuiet name v old d r.0.1))
            (rw (find-stored name v old d r.1)))
    | inr e ↦ absurd (add_fails name v e h)
  ]
