-- ===== src/Resolvers/Profiler/Agrees.antt =====
-- The plain facts and the structured fact of lib/src/facts/resolvers/system_profiler_resolver.cc.
use facter.Base.{
  String, ◌≡◌, refl, ◌∙◌, Bool, true, false, not, ◌&&◌, Option, none, some, List, [], ◌∷◌, ◌++◌,
  ◌==◌, eq_iff, eq_refl, arith, any, All, if◌then◌else◌, is_empty_str, Bool-cases, inl, inr,
  Option-cases,
}
use facter.Values.{Value, string_value, Fields, end, find}
use facter.Values.Lookup.{or_else, find-add_field}
use facter.Resolvers.{Adds}
use facter.Resolvers.Both.{Both, Entry, both, both_all}
use facter.Resolvers.Publish.{last_added}
use facter.Resolvers.Profiler.{Profile, profile_entries, profile_both}

abbrev pub value_or_none : Bool → String → Option Value
value_or_none h s = if is_empty_str s then none else some (string_value h s)

-- Both the plain fact and the field are there, with the text, or neither is.
abbrev pub IsShown : Both → Entry → Type 0
IsShown (adds, m) (fact, key, s) =
    (last_added fact adds ≡ value_or_none true s) × (find key m ≡ value_or_none false s)

abbrev pub IsNew : Both → Entry → Type 0
IsNew (adds, m) (fact, key, s) = (last_added fact adds ≡ none) × (find key m ≡ none)

-- Neither the names of facts nor the keys are the same.
abbrev pub differ : Entry → Entry → Bool
differ (fact, key, s) (fact', key', s') = not (fact == fact') && not (key == key')

abbrev pub all_differ : List Entry → Bool
all_differ [] = true
all_differ (e ∷ es) = not (any (λ e'. not (differ e e')) es) && all_differ es

last_added-append :
    (name : String) (adds : Adds) (k : String) (v : Value)
    → last_added name (adds ++ (k, v) ∷ []) ≡ (if k == name then some v else last_added name adds)
last_added-append name [] k v = refl
last_added-append name ((j, w) ∷ adds) k v =
    ground (arith, last_added-append name adds k v, Option-cases (last_added name adds))

last_added-both :
    (name fact key s : String) (adds : Adds) (m : Fields)
    → last_added name ((both fact key s (adds, m)).0) ≡ (
        if fact == name
        then or_else (value_or_none true s) (last_added name adds)
        else last_added name adds)
unfolding both
last_added-both name fact key s adds m = elim (Bool-cases (is_empty_str s)) [
  | inl e ↦ rw e (ground arith)
  | inr e ↦ rw e (last_added-append name adds fact (string_value true s))
]

find-both :
    (j fact key s : String) (adds : Adds) (m : Fields)
    → find j ((both fact key s (adds, m)).1)
      ≡ (if key == j then or_else (find key m) (value_or_none false s) else find j m)
unfolding both
find-both j fact key s adds m = elim (Bool-cases (is_empty_str s)) [
  | inl e ↦ rw e (ground (arith, eq_iff key j, Option-cases (find key m)))
  | inr e ↦ rw e (find-add_field key j (some (string_value false s)) m)
]

-- Another text changes nothing for an entry.
module _ (fact key s fact' key' s' : String) (b : Both) where
  both-IsNew :
      differ (fact, key, s) (fact', key', s') ≡ true
      → IsNew b (fact', key', s')
      → IsNew (both fact key s b) (fact', key', s')
  both-IsNew h (a, f) = (
    last_added-both fact' fact key s (b.0) (b.1) ∙ ground (arith, h, a),
    find-both key' fact key s (b.0) (b.1) ∙ ground (arith, h, f),
  )

  both-IsShown :
      differ (fact, key, s) (fact', key', s') ≡ true
      → IsShown b (fact', key', s')
      → IsShown (both fact key s b) (fact', key', s')
  both-IsShown h (a, f) = (
    last_added-both fact' fact key s (b.0) (b.1) ∙ ground (arith, h, a),
    find-both key' fact key s (b.0) (b.1) ∙ ground (arith, h, f),
  )

both-shows :
    (fact key s : String) (b : Both)
    → IsNew b (fact, key, s)
    → IsShown (both fact key s b) (fact, key, s)
both-shows fact key s b (a, f) = (
  last_added-both fact fact key s (b.0) (b.1)
      ∙ ground (arith, a, eq_refl fact, Bool-cases (is_empty_str s)),
  find-both key fact key s (b.0) (b.1)
      ∙ ground (arith, f, eq_refl key, Bool-cases (is_empty_str s)),
)

differ_sym : (e e' : Entry) → differ e e' ≡ true → differ e' e ≡ true
differ_sym (fact, key, s) (fact', key', s') h =
    ground (arith, h, eq_iff fact fact', eq_iff fact' fact, eq_iff key key', eq_iff key' key)

abbrev clash : Entry → List Entry → Bool
clash e es = any (λ e'. not (differ e e')) es

differ-first : (e e' : Entry) (es : List Entry) → clash e (e' ∷ es) ≡ false → differ e e' ≡ true
differ-first e e' es h = ground (arith, h)

clash-rest : (e e' : Entry) (es : List Entry) → clash e (e' ∷ es) ≡ false → clash e es ≡ false
clash-rest e e' es h = ground (arith, h)

All-IsNew :
    (e : Entry) (es : List Entry) (b : Both)
    → clash e es ≡ false
    → All (IsNew b) es
    → All (IsNew (both (e.0) (e.1) (e.2) b)) es
All-IsNew e [] b h n = tt
All-IsNew e (e' ∷ es) b h (n, ns) = (
  both-IsNew (e.0) (e.1) (e.2) (e'.0) (e'.1) (e'.2) b (differ-first e e' es h) n,
  All-IsNew e es b (clash-rest e e' es h) ns,
)

both_all-keeps :
    (e : Entry) (es : List Entry) (b : Both)
    → clash e es ≡ false
    → IsShown b e
    → IsShown (both_all es b) e
unfolding both_all
both_all-keeps e [] b h k = k
both_all-keeps e (e' ∷ es) b h k =
    both_all-keeps e es (both (e'.0) (e'.1) (e'.2) b) (clash-rest e e' es h) (
      both-IsShown (e'.0) (e'.1) (e'.2) (e.0) (e.1) (e.2) b
        (differ_sym e e' (differ-first e e' es h)) k)

both_all-IsShown :
    (es : List Entry) (b : Both)
    → all_differ es ≡ true
    → All (IsNew b) es
    → All (IsShown (both_all es b)) es
unfolding both_all
both_all-IsShown [] b h n = tt
both_all-IsShown (e ∷ es) b h (n, ns) = (
  both_all-keeps e es (both (e.0) (e.1) (e.2) b) no_clash (both-shows (e.0) (e.1) (e.2) b n),
  both_all-IsShown es (both (e.0) (e.1) (e.2) b) (ground (arith, h)) (All-IsNew e es b no_clash ns),
)
  where
    no_clash : clash e es ≡ false
    no_clash = ground (arith, h)

All-IsNew_empty : (es : List Entry) → All (IsNew ([], end)) es
unfolding find
All-IsNew_empty [] = tt
All-IsNew_empty (e ∷ es) = ((refl, refl), All-IsNew_empty es)

-- Of the texts of the system profiler each that is not empty stands in a plain fact of its own,
-- hidden, and under a key of the structured fact; for an empty one there is neither.
pub profile_both-IsShown : (d : Profile) → All (IsShown (profile_both d)) (profile_entries d)
unfolding profile_both
profile_both-IsShown d =
    both_all-IsShown (profile_entries d) ([], end) refl (All-IsNew_empty (profile_entries d))
