-- ===== src/Ruby/Confines.antt =====
-- Confining a resolution: `resolution::confine` of lib/src/ruby/resolution.cc. `key_of` gives the
-- value that stands as a key in a hash. What was confined before an exception stays.
pub mod Weight
use facter.Base.{ℕ, suc, String, Bool, true, false, Option, none, some, List, [], ◌∷◌, ◌++◌}
use facter.Ruby.Value.{
  Ruby, ruby_nil, ruby_false, ruby_true, symbol, text, number, object, array, hash, Items, Pairs,
  no_pairs, pair, Raise, argument_error, type_error, Result,
}
use facter.Ruby.Resolution.{Confine, Resolution, sym_to_s}

-- A block that is given, called with the value of the fact.
abbrev pub Block : Type 0
Block = Option Ruby → Result Ruby

abbrev pub is_text : Ruby → Bool
is_text (text s) = true
is_text _ = false

abbrev confine_on : Ruby → Ruby → Option Block → Confine
confine_on fact expected block = record { fact = fact; expected = expected; block = block }

-- The confines, and the exception that was raised, if one was.
abbrev pub Outcome : Type 0
Outcome = List Confine × Option Raise

-- A confine that needs a block.
abbrev with_block : Ruby → Option Block → List Confine → Outcome
with_block fact none cs = (cs, some (argument_error "a block must be provided"))
with_block fact (some block) cs = (cs ++ confine_on fact ruby_nil (some block) ∷ [], none)

module _ (key_of : ℕ → Ruby) where
  unfoldable pub confine_pairs : Pairs → List Confine → Outcome
  confine_pairs no_pairs cs = (cs, none)
  confine_pairs (pair k v ps) cs = elim (is_text (sym_to_s (key_of k))) [
    | true ↦ confine_pairs ps (cs ++ confine_on (sym_to_s (key_of k)) (sym_to_s v) none ∷ [])
    | false ↦ (cs, some (type_error "expected a String or Symbol for confine key"))
  ]

  abbrev with_pairs : Pairs → Option Block → List Confine → Outcome
  unfolding confine_pairs
  with_pairs ps none cs = confine_pairs ps cs
  with_pairs ps (some block) cs =
      (cs, some (argument_error "a block is unexpected when passing a Hash"))

  -- The argument, where a symbol has been turned into a text.
  unfoldable pub add_confines : Ruby → Option Block → List Confine → Outcome
  unfolding with_pairs
  add_confines ruby_nil block cs = with_block ruby_nil block cs
  add_confines (text s) block cs = with_block (text s) block cs
  add_confines (hash ps) block cs = with_pairs ps block cs
  add_confines v block cs =
      (cs, some (type_error "expected argument to be a String, Symbol, or Hash"))

  unfoldable pub confine : Ruby → Option Block → Resolution → Resolution × Option Raise
  unfolding add_confines
  confine v block r =
      let (cs, e) = add_confines (sym_to_s v) block r.confines in (record r { confines = cs }, e)
