-- ===== src/Collection.antt =====
-- The fact collection: lib/src/facts/collection.cc and lib/src/facts/resolver.cc.
-- A `shared_ptr<resolver>` is a number, and `heap` says what each points to: resolvers do not
-- change once they are made. What a resolver's virtual `resolve` does to the collection is an
-- `Action`, a tree of the calls that it makes. Log messages are left out.
pub mod Tidy
pub mod Follows
pub mod Fuel
pub mod Sweep
pub mod Pending
pub mod Laziness
pub mod Complete
pub mod Dangling
use facter.Base.{
  ℕ, zero, suc, String, Bool, true, false, not, ◌&&◌, ◌||◌, Option, none, some, List, [], ◌∷◌, ◌++◌,
  map, ◌==◌, ◌=?◌, if◌then◌else◌, keep, any, is_empty, length,
}
use facter.Base.Text.{str_ltb}
use facter.Values.{Value, Fields, end, find, assign, erase, count_fields, no_fields}

-- What `resolver::resolve` does: it adds facts, asks for facts, and ends.
pub data Action : Type 0 where
  done : Action
  add_fact : String → Option Value → Action → Action
  get_fact : String → (Option Value → Action) → Action

-- A compiled regular expression is what `re_search` says of a name.
pub record Resolver : Type 0 where
  pub name : String
  pub names : List String
  pub regexes : List (String → Bool)
  pub body : Action

unfoldable pub has_patterns : Resolver → Bool
has_patterns r = not (is_empty r.regexes)

unfoldable pub is_match : Resolver → String → Bool
is_match r name = any (λ regex. regex name) r.regexes

-- `resolver_map` is a multimap: sorted by name, and in the order of insertion under one name.
pub record Collection : Type 0 where
  pub facts : Fields
  pub resolvers : List ℕ
  pub resolver_map : List (String × ℕ)
  pub pattern_resolvers : List ℕ

abbrev pub empty_collection : Collection
empty_collection = record { facts = end; resolvers = []; resolver_map = []; pattern_resolvers = [] }

-- `dangling`: the code goes on from an iterator whose element was erased. `exhausted`: the fuel
-- of the model ran out.
pub data Outcome {ℓ} (A : Type ℓ) : Type ℓ where
  returned : A → Outcome A
  dangling : Outcome A
  exhausted : Outcome A

infixl 5 ◌>>=◌
abbrev pub ◌>>=◌ {ℓ κ} : {A : Type ℓ} {B : Type κ} → Outcome A → (A → Outcome B) → Outcome B
returned a >>= f = f a
dangling >>= f = dangling
exhausted >>= f = exhausted

-- `multimap::insert`: behind the entries of the same name
unfoldable pub insert_entry : String → ℕ → List (String × ℕ) → List (String × ℕ)
insert_entry k p [] = (k, p) ∷ []
insert_entry k p ((j, q) ∷ m) =
    let rest = insert_entry k p m in if str_ltb k j then (k, p) ∷ (j, q) ∷ m else (j, q) ∷ rest

unfoldable pub insert_entries : List String → ℕ → List (String × ℕ) → List (String × ℕ)
unfolding insert_entry
insert_entries [] p m = m
insert_entries (k ∷ ks) p m = insert_entries ks p (insert_entry k p m)

abbrev pub is_entry : String → ℕ → String × ℕ → Bool
is_entry k p (j, q) = j == k && q =? p

unfoldable pub erase_entries : List String → ℕ → List (String × ℕ) → List (String × ℕ)
erase_entries [] p m = m
erase_entries (k ∷ ks) p m = erase_entries ks p (keep (λ e. not (is_entry k p e)) m)

-- The resolvers that `equal_range(name)` spans, and the entry that follows them.
unfoldable pub equal_range : String → List (String × ℕ) → List ℕ
equal_range k [] = []
equal_range k ((j, p) ∷ m) = if j == k then p ∷ equal_range k m else equal_range k m

unfoldable pub upper_bound : String → List (String × ℕ) → Option (String × ℕ)
upper_bound k [] = none
upper_bound k ((j, p) ∷ m) = if str_ltb k j then some (j, p) else upper_bound k m

unfoldable pub has_entry : String → ℕ → List (String × ℕ) → Bool
has_entry k p m = any (is_entry k p) m

unfoldable pub points_to : ℕ → List ℕ → Bool
points_to p l = any (λ q. q =? p) l

-- `list::remove`
unfoldable pub list_remove : ℕ → List ℕ → List ℕ
list_remove p l = keep (λ q. not (q =? p)) l

unfoldable pub clear : Collection → Collection
clear c = empty_collection

unfoldable pub empty : Collection → Bool
empty c = no_fields c.facts && is_empty c.resolvers

-- `get_resolved`: the fact, without resolving
unfoldable pub get_resolved : String → Collection → Option Value
get_resolved name c = find name c.facts

module _ (heap : ℕ → Resolver) where
  unfoldable pub add_resolver : Option ℕ → Collection → Collection
  unfolding insert_entries has_patterns
  add_resolver none c = c
  add_resolver (some p) c = record c {
    resolver_map = insert_entries (heap p).names p c.resolver_map;
    pattern_resolvers =
        if has_patterns (heap p) then c.pattern_resolvers ++ p ∷ [] else c.pattern_resolvers;
    resolvers = c.resolvers ++ p ∷ [];
  }

  unfoldable pub remove_resolver : ℕ → Collection → Collection
  unfolding erase_entries list_remove
  remove_resolver p c = record c {
    resolver_map = erase_entries (heap p).names p c.resolver_map;
    pattern_resolvers = list_remove p c.pattern_resolvers;
    resolvers = list_remove p c.resolvers;
  }

  -- `resolve` stands for the call of `resolver->resolve(*this)`.
  module _ (resolve : Action → Collection → Outcome Collection) where
    -- Every loop takes its resolver out of the collection, then resolves it.
    unfoldable pub resolve_one : ℕ → Collection → Outcome Collection
    unfolding remove_resolver
    resolve_one p c = resolve (heap p).body (remove_resolver p c)

    -- After a resolver has run, the iterator that was moved on to the next element, and the end
    -- of the range where it is compared with it once more, must not have been erased.
    unfoldable pub next_is_valid :
        (Collection → ℕ → Bool) → (Collection → Bool) → List ℕ → Collection → Collection → Bool
    next_is_valid live end_live [] before after = true
    next_is_valid live end_live (q ∷ rest) before after =
        if live before q
        then live after q && end_live after
        else next_is_valid live end_live rest before after

    -- A loop of `resolve_fact` over the elements that stood in the range when it began. One that
    -- is gone was unlinked before the loop came to it.
    unfoldable pub sweep :
        (Collection → ℕ → Bool)
        → (Collection → Bool)
        → (ℕ → Bool)
        → List ℕ
        → Collection
        → Outcome Collection
    unfolding resolve_one next_is_valid
    sweep live end_live test [] c = returned c
    sweep live end_live test (p ∷ rest) c = elim (live c p && test p) [
      | true ↦ resolve_one p c >>= λ c'. elim (next_is_valid live end_live rest c c') [
        | true ↦ sweep live end_live test rest c'
        | false ↦ dangling
      ]
      | false ↦ sweep live end_live test rest c
    ]

    abbrev pub is_named : String → Collection → ℕ → Bool
    is_named name c p = has_entry name p c.resolver_map

    abbrev pub end_is_live : Option (String × ℕ) → Collection → Bool
    end_is_live none c = true
    end_is_live (some (k, p)) c = has_entry k p c.resolver_map

    abbrev pub is_pattern : Collection → ℕ → Bool
    is_pattern c p = points_to p c.pattern_resolvers

    unfoldable pub resolve_names : String → Collection → Outcome Collection
    unfolding sweep equal_range upper_bound has_entry
    resolve_names name c =
        sweep (is_named name) (end_is_live (upper_bound name c.resolver_map)) (λ p. true)
          (equal_range name c.resolver_map) c

    unfoldable pub resolve_patterns : String → Collection → Outcome Collection
    unfolding sweep is_match points_to
    resolve_patterns name c =
        sweep is_pattern (λ _. true) (λ p. is_match (heap p) name) c.pattern_resolvers c

    unfoldable pub resolve_fact : String → Collection → Outcome Collection
    unfolding resolve_names resolve_patterns
    resolve_fact name c = do c' ← resolve_names name c; resolve_patterns name c'

    unfoldable pub get_value : String → Collection → Outcome (Option Value × Collection)
    unfolding resolve_fact
    get_value name c = do c' ← resolve_fact name c; returned (find name c'.facts, c')

    unfoldable pub remove_fact : String → Collection → Outcome Collection
    unfolding get_value
    remove_fact name c = do
      (v, c') ← get_value name c
      returned (elim v [ none ↦ c' | some w ↦ record c' { facts = erase name c'.facts } ])

    unfoldable pub add : String → Option Value → Collection → Outcome Collection
    unfolding get_value remove_fact
    add name value c = do
      (old, c') ← get_value name c
      elim value [
        | none ↦ elim old [ none ↦ returned c' | some w ↦ remove_fact name c' ]
        | some v ↦ returned (record c' { facts = assign name v c'.facts })
      ]

    unfoldable pub exec_with : Action → Collection → Outcome Collection
    unfolding add get_value
    exec_with done c = returned c
    exec_with (add_fact name value rest) c = do c' ← add name value c; exec_with rest c'
    exec_with (get_fact name rest) c = do (v, c') ← get_value name c; exec_with (rest v) c'

    -- The loop of `resolve_facts`, with a bound on its rounds.
    unfoldable pub resolve_rounds : ℕ → Collection → Outcome Collection
    unfolding resolve_one
    resolve_rounds zero c = elim c.resolvers [ [] ↦ returned c | p ∷ ps ↦ exhausted ]
    resolve_rounds (suc n) c = elim c.resolvers [
      | [] ↦ returned c
      | p ∷ ps ↦ resolve_one p c >>= λ c'. resolve_rounds n c'
    ]

  -- A resolver that runs may make the collection resolve others, `depth` deep.
  unfoldable pub exec : ℕ → Action → Collection → Outcome Collection
  unfolding exec_with
  exec zero a c = exec_with (λ _ _. exhausted) a c
  exec (suc depth) a c = exec_with (exec depth) a c

  unfoldable pub resolve_facts : Collection → Outcome Collection
  unfolding resolve_rounds exec
  resolve_facts c = resolve_rounds (exec (length c.resolvers)) (length c.resolvers) c

  unfoldable pub size : Collection → Outcome (ℕ × Collection)
  unfolding resolve_facts
  size c = do c' ← resolve_facts c; returned (count_fields c'.facts, c')
