-- ===== src/Ruby/Module/Population/Override.antt =====
-- Variables of the environment go before the resolutions of custom facts: lib/src/ruby/module.cc
-- and lib/src/ruby/fact.cc.
use facter.Base.{
  ℕ, String, ◌≡◌, refl, ◌∙◌, ap, sym, Bool, true, false, Option, none, some, List, [], ◌∷◌, ◌++◌,
  ◌==◌, eq_iff, eq_refl, arith, if◌then◌else◌, Bool-cases, inl, inr, any, ltb,
}
use facter.Ruby.Value.{Ruby, Result, ok, raise}
use facter.Ruby.Resolution.{Interpreter, Resolution, sym_to_s, weight}
use facter.Ruby.Fact.Choice.{IsSort, IsChosen, is_native_first-sort, choose_sorted-IsChosen}
use facter.Ruby.Fact.{
  goes_before, rescue, flush_resolutions, reset_value, Fact, fact_value, resolve_value, choose,
  is_native_first, flush,
}
use facter.Ruby.Fact.Definition.{
  define_resolution, define_with, define_at, Options, kind_of, find_or_create, is_name,
  read_options, default_options,
}
use facter.Ruby.Module.{Registry, find_fact, has_fact, change_fact, new_fact, create_fact, add_fact}
use facter.Ruby.Module.Population.{set_value, add_environment}

-- The fact that is there, or the one that is created.
abbrev or_new : String → Option Fact → Fact
or_new name none = new_fact name
or_new name (some f) = f

map_fact : (Fact → Fact) → Option Fact → Option Fact
map_fact g none = none
map_fact g (some f) = some (g f)

find_fact-change_fact :
    (k name : String) (g : Fact → Fact) (fs : List (String × Fact))
    → find_fact k (change_fact name g fs)
      ≡ (if name == k then map_fact g (find_fact k fs) else find_fact k fs)
unfolding find_fact change_fact map_fact
find_fact-change_fact k name g [] = ground (arith, eq_iff name k)
find_fact-change_fact k name g ((j, f) ∷ fs) =
    ground (arith, eq_iff name k, eq_iff j name, eq_iff j k, find_fact-change_fact k name g fs)

find_fact-append :
    (k name : String) (f : Fact) (fs : List (String × Fact))
    → find_fact k (fs ++ (name, f) ∷ [])
      ≡ (if has_fact k fs then find_fact k fs else if name == k then some f else none)
unfolding find_fact has_fact
find_fact-append k name f [] = refl
find_fact-append k name f ((j, g) ∷ fs) = ground (arith, find_fact-append k name f fs)

find_fact-missing :
    (k : String) (fs : List (String × Fact)) → has_fact k fs ≡ false → find_fact k fs ≡ none
unfolding find_fact has_fact
find_fact-missing k [] h = refl
find_fact-missing k ((j, g) ∷ fs) h = ground (arith, h, find_fact-missing k fs)

find_fact-there :
    (k : String) (fs : List (String × Fact))
    → has_fact k fs ≡ true
    → (f : Fact) × (find_fact k fs ≡ some f)
unfolding find_fact has_fact
find_fact-there k [] h = absurd (ground (arith, h))
find_fact-there k ((j, g) ∷ fs) h = elim (Bool-cases (j == k)) [
  | inl e ↦ (g, rw e refl)
  | inr e ↦ rw e (find_fact-there k fs (ground (arith, h, e)))
]

-- The fact of a name after `create_fact` of another one or of the same.
find_fact-create_fact :
    (k name : String) (r : Registry)
    → find_fact k (create_fact name r).facts
      ≡ (if name == k then some (or_new name (find_fact name r.facts)) else find_fact k r.facts)
unfolding create_fact
find_fact-create_fact k name r = elim (Bool-cases (has_fact name r.facts)) [
  | inl e ↦
      let (f, there) = find_fact-there name r.facts e in rw e (same_fact k name r.facts f there)
  | inr e ↦ rw e (
      find_fact-append k name (new_fact name) r.facts
      ∙ appended k name r.facts e (find_fact-missing name r.facts e))
]
  where
    same_fact :
        (k name : String) (fs : List (String × Fact)) (f : Fact)
        → find_fact name fs ≡ some f
        → find_fact k fs
          ≡ (if name == k then some (or_new name (find_fact name fs)) else find_fact k fs)
    same_fact k name fs f there = elim (Bool-cases (name == k)) [
      | inl e ↦ rw (e, there) (ap (λ n. find_fact n fs) (sym ((eq_iff name k).0 e)) ∙ there)
      | inr e ↦ rw e refl
    ]

    appended :
        (k name : String) (fs : List (String × Fact))
        → has_fact name fs ≡ false
        → find_fact name fs ≡ none
        → (if has_fact k fs
            then find_fact k fs
            else if name == k
            then some (new_fact name)
            else none)
          ≡ (if name == k then some (or_new name (find_fact name fs)) else find_fact k fs)
    appended k name fs h m = elim (Bool-cases (name == k)) [
      | inl e ↦ rw (e, m, ap (λ n. has_fact n fs) (sym ((eq_iff name k).0 e)), h) refl
      | inr e ↦ elim (Bool-cases (has_fact k fs)) [
        | inl t ↦ rw (e, t) refl
        | inr t ↦ rw (e, t) (sym (find_fact-missing k fs t))
      ]
    ]

find_fact-add_fact :
    (k name : String) (g : Fact → Fact) (r : Registry)
    → find_fact k (add_fact name g r).facts
      ≡ (if name == k then some (g (or_new name (find_fact name r.facts))) else find_fact k r.facts)
unfolding add_fact map_fact
find_fact-add_fact k name g r =
    find_fact-change_fact k name g (create_fact name r).facts ∙ elim (Bool-cases (name == k)) [
      | inl e ↦ rw e (ap (map_fact g) (find_fact-create_fact k name r) ∙ rw e refl)
      | inr e ↦ rw e (find_fact-create_fact k name r ∙ rw e refl)
    ]

-- The last value that the environment gives to a name.
abbrev pub last_value : String → List (String × Ruby) → Option Ruby
last_value name [] = none
last_value name ((k, v) ∷ env) = elim (last_value name env) [
  | some w ↦ some w
  | none ↦ if k == name then some v else none
]

abbrev overridden : String → Option Ruby → Option Fact → Option Fact
overridden name none o = o
overridden name (some v) o = some (set_value v (or_new name o))

last_value-cases :
    (k name : String) (v : Ruby) (l : Option Ruby) (o p : Option Fact)
    → (k ≡ name → p ≡ o)
    → overridden name l (if k == name then some (set_value v (or_new k p)) else o)
      ≡ overridden name (elim l [ some w ↦ some w | none ↦ if k == name then some v else none ]) o
unfolding set_value
last_value-cases k name v none o p same = elim (Bool-cases (k == name)) [
  | inl e ↦ rw (e, same ((eq_iff k name).0 e), (eq_iff k name).0 e) refl
  | inr e ↦ rw e refl
]
last_value-cases k name v (some w) o p same = elim (Bool-cases (k == name)) [
  | inl e ↦ rw (e, same ((eq_iff k name).0 e), (eq_iff k name).0 e) refl
  | inr e ↦ rw e refl
]

find_fact-add_environment :
    (name : String) (env : List (String × Ruby)) (r : Registry)
    → find_fact name (add_environment env r).facts
      ≡ overridden name (last_value name env) (find_fact name r.facts)
unfolding add_environment
find_fact-add_environment name [] r = refl
find_fact-add_environment name ((k, v) ∷ env) r =
    find_fact-add_environment name env (add_fact k (set_value v) r)
    ∙ ap (overridden name (last_value name env)) (find_fact-add_fact name k (set_value v) r)
    ∙ last_value-cases k name v (last_value name env) (find_fact name r.facts) (find_fact k r.facts)
        (λ e. ap (λ n. find_fact n r.facts) e)

-- A call of `define_resolution`.
pub record Definition : Type 0 where
  pub name : Ruby
  pub options : List (Ruby × Ruby)
  pub block : Option (Resolution → Result Ruby × Resolution)

-- What a fact keeps: the value, and whether it stays.
abbrev value_of : Fact → Ruby × (Bool × Bool)
value_of f = (f.value, (f.resolved, f.resolving))

module _ (ruby : Interpreter) where
  define_with-value :
      (d : Definition) (name : Ruby) (f : Fact) (o : Result Options)
      → value_of (define_with ruby d.block name f o).1 ≡ value_of f
  unfolding define_with define_at
  define_with-value d name f (raise e) = refl
  define_with-value d name f (ok o) =
      at_place (find_or_create ruby name (kind_of ruby o) f.resolutions)
    where
      at_place :
          (p : Result (ℕ × List Resolution))
          → value_of (define_at ruby d.block name o f p).1 ≡ value_of f
      at_place (raise e) = refl
      at_place (ok p) = refl

  abbrev pub define : Definition → Fact → Fact
  define d f = (define_resolution ruby d.block d.name d.options f).1

  define-value : (d : Definition) (f : Fact) → value_of (define d f) ≡ value_of f
  unfolding define_resolution
  define-value d f = elim (Bool-cases (is_name ruby d.name)) [
    | inr e ↦ rw (define, e) refl
    | inl e ↦
        rw (define, e)
          (define_with-value d (sym_to_s d.name) f (read_options ruby d.options default_options))
  ]

  abbrev pub define_all : List Definition → Fact → Fact
  define_all [] f = f
  define_all (d ∷ ds) f = define_all ds (define d f)

  define_all-value : (ds : List Definition) (f : Fact) → value_of (define_all ds f) ≡ value_of f
  define_all-value [] f = refl
  define_all-value (d ∷ ds) f = define_all-value ds (define d f) ∙ define-value d f

  module _ (sort : (Resolution → Resolution → Bool) → List Resolution → List Resolution) where
    fact_value-resolved :
        (native : Option Ruby) (v : Ruby) (f : Fact)
        → value_of f ≡ (v, (true, false))
        → (fact_value ruby sort native f).result ≡ ok v
    unfolding fact_value
    fact_value-resolved native v f h =
        rw (ap (λ t. t.1.1) h, ap (λ t. t.1.0) h) (ap (λ t. ok t.0) h)

    -- A variable of the environment goes before a custom fact of its name: from a registry that has
    -- no facts yet, the fact is there once the environment was added, and whatever resolutions are
    -- defined of it afterwards and whatever the collection has, its value is the last one that the
    -- environment has under its name.
    pub add_environment-wins :
        (name : String) (v : Ruby) (env : List (String × Ruby)) (r : Registry)
        → r.facts ≡ []
        → last_value name env ≡ some v
        → (ds : List Definition) (native : Option Ruby)
        → (f : Fact) × (find_fact name (add_fact name (define_all ds) (add_environment env r)).facts
            ≡ some f)
          × ((fact_value ruby sort native f).result ≡ ok v)
    unfolding find_fact set_value
    add_environment-wins name v env r fresh has ds native =
        let set = set_value v (new_fact name) in
        let there : find_fact name (add_environment env r).facts ≡ some set =
          find_fact-add_environment name env r ∙ rw (has, fresh) refl in
        (
          define_all ds set,
          find_fact-add_fact name name (define_all ds) (add_environment env r)
              ∙ rw (eq_refl name, there) refl,
          fact_value-resolved native v (define_all ds set) (define_all-value ds set),
        )

    abbrev fresh_fact : String → List Resolution → Fact
    fresh_fact name rs = record (new_fact name) { resolutions = rs }

    flush-set_value :
        (name : String) (v : Ruby) (rs : List Resolution) (u : Ruby)
        → flush_resolutions rs ≡ ok u
        → (flush (set_value v (fresh_fact name rs))).1 ≡ fresh_fact name rs
    unfolding flush set_value
    flush-set_value name v rs u calm =
        ap (λ r. (reset_value r (set_value v (fresh_fact name rs))).1) calm

    fact_value-fresh :
        (name : String) (native : Option Ruby) (rs : List Resolution)
        → is_native_first ruby (sort goes_before rs) ≡ false
        → (let w = rescue ruby (choose ruby (sort goes_before rs)) in
            ((fact_value ruby sort native (fresh_fact name rs)).result ≡ ok w)
            × ((fact_value ruby sort native (fresh_fact name rs)).added ≡ some w))
    unfolding fact_value resolve_value
    fact_value-fresh name native rs weighty = rw weighty (refl, refl)

    -- A flush loses the value that the environment set: where a resolution of the fact has a weight
    -- and no block that is called on a flush raises, then before the flush the fact has that value, and
    -- after it, whatever the collection has, the fact is resolved anew: its value is chosen from the
    -- resolutions, or nil, and replaces the environment's in the collection.
    pub fact_value-flush :
        IsSort sort
        → (name : String) (v : Ruby) (native : Option Ruby) (rs : List Resolution)
        → any (λ r. ltb 0 (weight r)) rs ≡ true
        → (u : Ruby) → flush_resolutions rs ≡ ok u
        → (let set = set_value v (record (new_fact name) { resolutions = rs }) in
            ((fact_value ruby sort native set).result ≡ ok v)
            × (w : Ruby) × ((fact_value ruby sort native (flush set).1).result ≡ ok w)
            × ((fact_value ruby sort native (flush set).1).added ≡ some w)
            × IsChosen ruby rs w)
    unfolding fact_value set_value
    fact_value-flush good name v native rs heavy u calm =
        let again = flush-set_value name v rs u calm in
        let (result, added) =
          fact_value-fresh name native rs (is_native_first-sort ruby sort good rs heavy) in
        (
          refl,
          rescue ruby (choose ruby (sort goes_before rs)),
          ap (λ f. (fact_value ruby sort native f).result) again ∙ result,
          ap (λ f. (fact_value ruby sort native f).added) again ∙ added,
          choose_sorted-IsChosen ruby sort good rs,
        )
