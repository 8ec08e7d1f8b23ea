-- ===== src/Resolvers/Publish.antt =====
-- What a resolver that only adds facts leaves in the collection.
use facter.Base.{
  ℕ, String, ◌≡◌, refl, Option, none, some, [], ◌∷◌, ◌==◌, arith, if◌then◌else◌, Option-cases,
}
use facter.Values.{Value, Fields, find, assign}
use facter.Values.Lookup.{find-assign, or_else}
use facter.Collection.{
  Action, Resolver, Collection, Outcome, returned, ◌>>=◌, get_value, add, exec_with,
}
use facter.Collection.Pending.{IsQuiet}
use facter.Collection.Laziness.{get_value_quiet}
use facter.Resolvers.{Adds, publish}

abbrev pub assign_all : Adds → Fields → Fields
unfolding assign
assign_all [] fs = fs
assign_all ((name, v) ∷ adds) fs = assign_all adds (assign name v fs)

-- The last value that is added under the name.
abbrev pub last_added : String → Adds → Option Value
last_added name [] = none
last_added name ((k, v) ∷ adds) = elim (last_added name adds) [
  | some w ↦ some w
  | none ↦ if k == name then some v else none
]

find-assign_all :
    (name : String) (adds : Adds) (fs : Fields)
    → find name (assign_all adds fs) ≡ or_else (last_added name adds) (find name fs)
unfolding assign_all
find-assign_all name [] fs = refl
find-assign_all name ((k, v) ∷ adds) fs = ground (
  arith,
  find-assign_all name adds (assign k v fs),
  find-assign k name v fs,
  Option-cases (last_added name adds),
)

module _ (heap : ℕ → Resolver) where
  -- No resolver is left that one of the names would run.
  abbrev pub AreQuiet : Adds → Collection → Type 0
  AreQuiet [] c = Unit
  AreQuiet ((name, v) ∷ adds) c = IsQuiet heap name c × AreQuiet adds c

  AreQuiet-facts :
      (adds : Adds) (c : Collection) (fs : Fields)
      → AreQuiet adds c
      → AreQuiet adds (record c { facts = fs })
  AreQuiet-facts [] c fs q = q
  AreQuiet-facts ((name, v) ∷ adds) c fs (q, qs) =
      (record { names = q.names; patterns = q.patterns }, AreQuiet-facts adds c fs qs)

  module _ (resolve : Action → Collection → Outcome Collection) where
    add_quiet :
        (name : String) (v : Value) (c : Collection)
        → IsQuiet heap name c
        → add heap resolve name (some v) c ≡ returned (record c { facts = assign name v c.facts })
    unfolding add
    add_quiet name v c q = rw (get_value_quiet heap resolve name c q, ◌>>=◌)

    exec_publish :
        (adds : Adds) (c : Collection)
        → AreQuiet adds c
        → exec_with heap resolve (publish adds) c
          ≡ returned (record c { facts = assign_all adds c.facts })
    unfolding exec_with publish assign_all
    exec_publish [] c q = refl
    exec_publish ((name, v) ∷ adds) c (q, qs) =
        let fs = assign name v c.facts in
        rw (add_quiet name v c q, ◌>>=◌)
          (exec_publish adds (record c { facts = fs }) (AreQuiet-facts adds c fs qs))

    -- Where no resolver is left for the names, running a resolver that only adds facts returns, and a
    -- fact asked for after it is the last one that it added under the name, or else the fact that was
    -- there.
    pub get_value-publish :
        (adds : Adds) (c : Collection) (name : String)
        → AreQuiet adds c
        → IsQuiet heap name c
        → (exec_with heap resolve (publish adds) c >>= get_value heap resolve name)
          ≡ returned (
            or_else (last_added name adds) (find name c.facts),
            record c { facts = assign_all adds c.facts },
          )
    unfolding assign_all
    get_value-publish adds c name qs q =
        let d : Collection = record c { facts = assign_all adds c.facts } in
        let quiet : IsQuiet heap name d = record { names = q.names; patterns = q.patterns } in
        rw (
          exec_publish adds c qs,
          ◌>>=◌,
          get_value_quiet heap resolve name d quiet,
          find-assign_all name adds c.facts,
        )
