-- ===== src/Ruby/Fact/Definition.antt =====
-- `fact::define_resolution` of lib/src/ruby/fact.cc. The options are the pairs of the hash, `none`
-- where nil is passed; the block is what `instance_eval` does to the resolution, and may raise. A
-- call gives the place of the resolution in the fact. The log lines are left out.
pub mod Bounds
pub mod Naming
use facter.Base.{
  ℕ, zero, suc, ◌+◌, ◌≤◌, String, ◌≡◌, refl, sym, ◌∙◌, ap, ◌⊎◌, inl, inr, Bool, true, false, not,
  ◌&&◌, ◌||◌, Option, none, some, List, [], ◌∷◌, ◌++◌, length, length-append, ◌=?◌, ◌==◌, eq_iff,
  eq_refl, arith, if◌then◌else◌, Option-cases, Bool-cases,
}
use facter.Ruby.Value.{
  Ruby, ruby_nil, symbol, text, Raise, Result, ok, raise, type_error, argument_error, runtime_error,
  ◌>>=◌, is_nil,
}
use facter.Ruby.Resolution.{
  Interpreter, Kind, simple, aggregate, Resolution, new_resolution, sym_to_s,
}
use facter.Ruby.Fact.{Fact, find_resolution}

pub record Options : Type 0 where
  pub is_aggregate : Bool
  pub weight : Option ℕ
  pub value : Ruby

abbrev pub default_options : Options
default_options = record { is_aggregate = false; weight = none; value = ruby_nil }

abbrev pub maximum_resolutions : ℕ
maximum_resolutions = 100

unfoldable pub set_at : ℕ → (Resolution → Resolution) → List Resolution → List Resolution
set_at i g [] = []
set_at zero g (r ∷ rs) = g r ∷ rs
set_at (suc i) g (r ∷ rs) = r ∷ set_at i g rs

unfoldable pub resolution_at : ℕ → List Resolution → Option Resolution
resolution_at i [] = none
resolution_at zero (r ∷ rs) = some r
resolution_at (suc i) (r ∷ rs) = resolution_at i rs

abbrev pub read_type : Ruby → Options → Result Options
read_type (symbol s) o =
    if s == "simple"
    then ok (record o { is_aggregate = false })
    else if s == "aggregate"
    then ok (record o { is_aggregate = true })
    else raise (argument_error "expected simple or aggregate for resolution type")
read_type _ o = raise (type_error "expected a Symbol for type option")

module _ (ruby : Interpreter) where
  abbrev pub read_option : Ruby → Ruby → Options → Result Options
  read_option (symbol key) value o =
      if key == "type"
      then read_type value o
      else if key == "value"
      then ok (record o { value = value })
      else if key == "weight"
      then (ruby.num2ulong value >>= λ w. ok (record o { weight = some w }))
      else if key == "timeout"
      then ok o
      else raise (argument_error "unexpected option")
  read_option _ value o = raise (type_error "expected a Symbol for options key")

  unfoldable pub read_options : List (Ruby × Ruby) → Options → Result Options
  read_options [] o = ok o
  read_options ((key, value) ∷ pairs) o = read_option key value o >>= read_options pairs

  abbrev pub is_name : Ruby → Bool
  is_name ruby_nil = true
  is_name (text s) = true
  is_name (symbol s) = true
  is_name _ = false

  abbrev pub kind_of : Options → Kind
  kind_of o = if o.is_aggregate then aggregate else simple

  abbrev is_kind : Kind → Kind → Bool
  is_kind simple simple = true
  is_kind aggregate aggregate = true
  is_kind _ _ = false

  abbrev kind_error : Kind → Raise
  kind_error aggregate = argument_error "a simple resolution with the same name already exists"
  kind_error simple = argument_error "an aggregate resolution with the same name already exists"

  -- The place of the resolution, and the resolutions with a new one at the end if there was none.
  unfoldable pub find_or_create : Ruby → Kind → List Resolution → Result (ℕ × List Resolution)
  unfolding find_resolution resolution_at
  find_or_create name kind rs = elim (if is_nil name then none else find_resolution ruby name rs) [
    | none ↦
        if length rs =? maximum_resolutions
        then raise (runtime_error "the maximum number of resolutions")
        else ok (length rs, rs ++ (new_resolution kind ∷ []))
    | some i ↦ elim (resolution_at i rs) [
      | none ↦ ok (i, rs)
      | some r ↦ if is_kind kind r.kind then ok (i, rs) else raise (kind_error kind)
    ]
  ]

  abbrev pub set_options : Ruby → Options → Resolution → Resolution
  set_options name o r = elim o.weight [
    | none ↦ record r { name = name; value = o.value }
    | some w ↦ record r { name = name; value = o.value; has_weight = true; own_weight = w }
  ]

  module _ (block : Option (Resolution → Result Ruby × Resolution)) where
    abbrev pub evaluate : Resolution → Resolution
    evaluate r = elim block [ none ↦ r | some call ↦ (call r).1 ]

    -- What the block raises.
    abbrev pub outcome : ℕ → Option Resolution → Result ℕ
    outcome i none = ok i
    outcome i (some r) = elim block [ none ↦ ok i | some call ↦ (call r).0 >>= λ v. ok i ]

    unfoldable pub define_at :
        Ruby → Options → Fact → Result (ℕ × List Resolution) → Result ℕ × Fact
    unfolding set_at resolution_at
    define_at name o f (raise e) = (raise e, f)
    define_at name o f (ok (i, rs)) =
        let set = set_at i (set_options name o) rs in
        (outcome i (resolution_at i set), record f { resolutions = set_at i evaluate set })

    unfoldable pub define_with : Ruby → Fact → Result Options → Result ℕ × Fact
    unfolding define_at find_or_create set_at resolution_at
    define_with name f (raise e) = (raise e, f)
    define_with name f (ok o) = define_at name o f (find_or_create name (kind_of o) f.resolutions)

    unfoldable pub define_resolution : Ruby → List (Ruby × Ruby) → Fact → Result ℕ × Fact
    unfolding read_options define_with define_at find_or_create set_at resolution_at
    define_resolution name options f =
        if is_name name
        then define_with (sym_to_s name) f (read_options options default_options)
        else (raise (type_error "expected resolution name to be a Symbol or String"), f)
