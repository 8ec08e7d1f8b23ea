-- ===== src/Resolvers/Declared/Both.antt =====
-- That what fills a structured fact adds plain facts with declared names only.
use facter.Base.{
  ℕ, String, ◌≡◌, refl, Bool, true, false, Option, none, some, List, [], ◌∷◌, ◌++◌, arith,
  if◌then◌else◌, is_empty_str, is_empty, Bool-cases, inl, inr,
}
use facter.Values.{boolean_value, string_value, Value, end}
use facter.Collection.{Resolver}
use facter.Resolvers.Both.{Both, Entry, both, both_truth, only_field, nest, nest_always, both_all}
use facter.Resolvers.Declared.{are_declared, are_declared-append, declares_name}

-- The facts that were added so far have declared names.
abbrev pub Declared : Resolver → Both → Type 0
Declared r b = are_declared r (b.0) ≡ true

module _ (r : Resolver) where
  pub one_declared :
      (name : String) (v : Value)
      → declares_name r name ≡ true
      → are_declared r ((name, v) ∷ []) ≡ true
  unfolding are_declared
  one_declared name v h = ground (arith, h)

  pub both-Declared :
      (fact key s : String) (b : Both)
      → declares_name r fact ≡ true
      → Declared r b
      → Declared r (both fact key s b)
  unfolding both
  both-Declared fact key s b h d = elim (Bool-cases (is_empty_str s)) [
    | inl e ↦ rw e d
    | inr e ↦ rw e (are_declared-append r (b.0) _ d (one_declared fact (string_value true s) h))
  ]

  pub both_truth-Declared :
      (fact key : String) (t : Bool) (b : Both)
      → declares_name r fact ≡ true
      → Declared r b
      → Declared r (both_truth fact key t b)
  unfolding both_truth
  both_truth-Declared fact key t b h d =
      are_declared-append r (b.0) _ d (one_declared fact (boolean_value true t) h)

  pub only_field-Declared :
      (key s : String) (b : Both) → Declared r b → Declared r (only_field key s b)
  unfolding only_field
  only_field-Declared key s b d = elim (Bool-cases (is_empty_str s)) [
    | inl e ↦ rw e d
    | inr e ↦ rw e d
  ]

  -- A map of its own, where what fills it adds declared facts only.
  pub nest-Declared :
      (key : String) (fill : Both → Both) (b : Both)
      → Declared r (fill (b.0, end))
      → Declared r (nest key fill b)
  unfolding nest
  nest-Declared key fill b d = d

  pub nest_always-Declared :
      (key : String) (fill : Both → Both) (b : Both)
      → Declared r (fill (b.0, end))
      → Declared r (nest_always key fill b)
  unfolding nest_always
  nest_always-Declared key fill b d = d

  pub if-Declared :
      (test : Bool) (b b' : Both)
      → Declared r b
      → Declared r b'
      → Declared r (if test then b else b')
  if-Declared true b b' d d' = d
  if-Declared false b b' d d' = d'

  abbrev pub declare_all : List Entry → Bool
  declare_all [] = true
  declare_all ((fact, key, s) ∷ es) = if declares_name r fact then declare_all es else false

  pub both_all-Declared :
      (es : List Entry) (b : Both)
      → declare_all es ≡ true
      → Declared r b
      → Declared r (both_all es b)
  unfolding both_all
  both_all-Declared [] b h d = d
  both_all-Declared ((fact, key, s) ∷ es) b h d =
      both_all-Declared es (both fact key s b) (ground (arith, h))
        (both-Declared fact key s b (ground (arith, h)) d)

pub ruleset declaring = (
  both-Declared, both_truth-Declared, only_field-Declared, nest-Declared, nest_always-Declared,
  if-Declared, refl,
)
