-- ===== src/Ruby/Fact.antt =====
-- A custom fact: `fact::value`, `fact::find_resolution`, `fact::define_resolution` and `fact::flush`
-- of lib/src/ruby/fact.cc. `std::sort` is a parameter, which takes the comparison. A call of `value`
-- gives its answer, the fact after it, and what it added to the collection, if it added.
pub mod Choice
pub mod Definition
use facter.Base.{
  ℕ, suc, String, Bool, true, false, not, Option, none, some, List, [], ◌∷◌, ◌++◌, length, ◌=?◌,
  ◌==◌, if◌then◌else◌, ltb,
}
use facter.Ruby.Value.{
  Ruby, ruby_nil, symbol, text, Raise, Result, ok, raise, cycle_detected, type_error,
  argument_error, runtime_error, ◌>>=◌, is_nil,
}
use facter.Ruby.Resolution.{
  Interpreter, Kind, simple, aggregate, Resolution, new_resolution, sym_to_s, weight, suitable,
  resolution_value, flush_resolution,
}

pub record Fact : Type 0 where
  pub name : String
  pub value : Ruby
  pub resolutions : List Resolution
  pub resolving : Bool
  pub resolved : Bool

pub record Answer : Type 0 where
  pub result : Result Ruby
  pub fact : Fact
  -- what `collection::add` is called with; nil for a null value
  pub added : Option Ruby

-- The comparison that the sort is given: whether the first resolution goes before the second.
unfoldable pub goes_before : Resolution → Resolution → Bool
unfolding weight
goes_before first second = ltb (weight second) (weight first)

module _ (ruby : Interpreter) where
  -- The first suitable resolution that gives a value.
  unfoldable pub choose : List Resolution → Result Ruby
  unfolding suitable resolution_value
  choose [] = ok ruby_nil
  choose (r ∷ rs) =
      let rest = choose rs in
      suitable ruby r >>= λ b.
      if b then (resolution_value ruby r >>= λ v. if is_nil v then rest else ok v) else rest

  unfoldable pub is_native_first : List Resolution → Bool
  unfolding weight
  is_native_first [] = true
  is_native_first (r ∷ rs) = weight r =? 0

  -- An exception is logged, and leaves no value.
  abbrev pub rescue : Result Ruby → Ruby
  rescue (ok v) = v
  rescue (raise e) = ruby_nil

  -- `native` is what the collection has under the name.
  unfoldable pub resolve_value : Option Ruby → Fact → Answer
  unfolding choose is_native_first
  resolve_value native f =
      let found = if is_native_first f.resolutions then native else none in
      let value : Ruby = elim found [ none ↦ f.value | some v ↦ v ] in
      let is_new : Bool = elim found [ none ↦ true | some v ↦ false ] in
      let after =
        if is_nil value
        then record f { value = rescue (choose f.resolutions); resolved = true; resolving = false }
        else record f { value = value; resolving = false } in
      record {
        result = ok after.value;
        fact = after;
        added = if is_new then some after.value else none;
      }

  unfoldable pub fact_value :
      ((Resolution → Resolution → Bool) → List Resolution → List Resolution)
      → Option Ruby
      → Fact
      → Answer
  unfolding resolve_value goes_before
  fact_value sort native f =
      if f.resolving
      then record { result = raise cycle_detected; fact = f; added = none }
      else if f.resolved
      then record { result = ok f.value; fact = f; added = none }
      else resolve_value native (record f { resolutions = sort goes_before f.resolutions })

  -- The place of the first resolution of that name.
  unfoldable pub find_resolution : Ruby → List Resolution → Option ℕ
  find_resolution name [] = none
  find_resolution name (r ∷ rs) =
      let rest = find_resolution name rs in
      if ruby.equals r.name name then some 0 else elim rest [ none ↦ none | some i ↦ some (suc i) ]

unfoldable pub flush_resolutions : List Resolution → Result Ruby
unfolding flush_resolution
flush_resolutions [] = ok ruby_nil
flush_resolutions (r ∷ rs) = let rest = flush_resolutions rs in flush_resolution r >>= λ v. rest

-- An exception of a resolution leaves the fact as it is.
abbrev pub reset_value : Result Ruby → Fact → Result Ruby × Fact
reset_value (raise e) f = (raise e, f)
reset_value (ok v) f = (ok ruby_nil, record f { resolved = false; value = ruby_nil })

unfoldable pub flush : Fact → Result Ruby × Fact
unfolding flush_resolutions
flush f = reset_value (flush_resolutions f.resolutions) f
