-- ===== src/Ruby/Resolution.antt =====
-- The resolutions of a custom fact: lib/src/ruby/confine.cc, lib/src/ruby/resolution.cc,
-- `simple_resolution::value` of lib/src/ruby/simple_resolution.cc, `aggregate_resolution::value` of
-- lib/src/ruby/aggregate_resolution.cc and `module::normalize` of
-- lib/src/ruby/module.cc. A block is a function that may raise. What is asked of Ruby and of the
-- shell is a field of `Interpreter`.
pub mod Ends
use facter.Base.{
  ℕ, suc, String, Bool, true, false, Option, none, some, List, [], ◌∷◌, length, if◌then◌else◌,
  is_empty_str,
}
use facter.Ruby.Chunk.{Chunks, Run, chunk_names, merge_chunks, collect_chunks}
use facter.Ruby.Value.{
  raise, cycle_detected, no_pairs, Ruby, ruby_nil, symbol, text, array, Items, no_items, item,
  Result, ok, ◌>>=◌, is_nil, is_truthy,
}

pub record Interpreter : Type 0 where
  -- `Facter.fact(name)` and the `value` of what it gives; `none` where it gives nil
  pub fact_value : Ruby → Result (Option Ruby)
  pub downcase : String → String
  -- `eql?` and `===`
  pub equals : Ruby → Ruby → Bool
  pub case_equals : Ruby → Ruby → Bool
  pub num2ulong : Ruby → Result ℕ
  -- `none` where the command fails
  pub execute : String → Option String
  -- the class under `eql?` of the symbol that names a chunk
  pub key : String → ℕ

pub record Confine : Type 0 where
  pub fact : Ruby
  pub expected : Ruby
  -- called with the value of the fact, if there is one
  pub block : Option (Option Ruby → Result Ruby)

pub data Kind : Type 0 where
  simple aggregate : Kind

pub record Resolution : Type 0 where
  pub kind : Kind
  pub name : Ruby
  pub has_weight : Bool
  pub own_weight : ℕ
  pub value : Ruby
  pub confines : List Confine
  pub block : Option (Result Ruby)
  pub command : String
  -- of an aggregate resolution
  pub chunks : Chunks
  pub aggregate_block : Option (Ruby → Result Ruby)
  -- what the block of `on_flush` gives
  pub flush_block : Option (Result Ruby)

abbrev pub sym_to_s : Ruby → Ruby
sym_to_s (symbol s) = text s
sym_to_s v = v

abbrev pub new_resolution : Kind → Resolution
new_resolution kind = record {
  kind = kind;
  name = ruby_nil;
  has_weight = false;
  own_weight = 0;
  value = ruby_nil;
  confines = [];
  block = none;
  command = String.[];
  chunks = [];
  aggregate_block = none;
  flush_block = none;
}

unfoldable pub weight : Resolution → ℕ
weight r = if r.has_weight then r.own_weight else length r.confines

module _ (ruby : Interpreter) where
  abbrev downcase_text : Ruby → Ruby
  downcase_text (text s) = text (ruby.downcase s)
  downcase_text v = v

  abbrev pub normalize : Ruby → Ruby
  normalize v = downcase_text (sym_to_s v)

  unfoldable pub search : Items → Ruby → Bool
  search no_items value = false
  search (item x xs) value =
      let rest = search xs value in
      if ruby.equals (normalize (normalize x)) value then true else rest

  abbrev matches_expected : Ruby → Ruby → Bool
  unfolding search
  matches_expected (array xs) value = search xs value
  matches_expected expected value = ruby.case_equals (normalize expected) value

  abbrev confine_value : Confine → Ruby → Result Bool
  unfolding search
  confine_value c value = elim c.block [
    | some call ↦ call (some value) >>= λ result. ok (is_truthy result)
    | none ↦ ok (matches_expected c.expected value)
  ]

  abbrev confine_fact : Confine → Option Ruby → Result Bool
  unfolding search
  confine_fact c none = ok false
  confine_fact c (some found) =
      let value = normalize found in if is_nil value then ok false else confine_value c value

  unfoldable pub confine_suitable : Confine → Result Bool
  unfolding search
  confine_suitable c =
      if is_nil c.fact
      then elim c.block [
        | some call ↦ call none >>= λ result. ok (is_truthy result)
        | none ↦ ok false
      ]
      else ruby.fact_value c.fact >>= confine_fact c

  unfoldable pub suitable_all : List Confine → Result Bool
  unfolding confine_suitable
  suitable_all [] = ok true
  suitable_all (c ∷ cs) =
      let rest = suitable_all cs in confine_suitable c >>= λ b. if b then rest else ok false

  unfoldable pub suitable : Resolution → Result Bool
  unfolding suitable_all
  suitable r = suitable_all r.confines

  abbrev run_command : String → Ruby
  run_command command =
      if is_empty_str command
      then ruby_nil
      else elim (ruby.execute command) [ none ↦ ruby_nil | some output ↦ text output ]

  -- `simple_resolution::value`
  unfoldable pub simple_value : Resolution → Result Ruby
  simple_value r =
      if is_nil r.value
      then elim r.block [ some result ↦ result | none ↦ ok (run_command r.command) ]
      else ok r.value

  abbrev pub call_with : (Ruby → Result Ruby) → Run Ruby → Run Ruby
  call_with call none = none
  call_with call (some (result, cs)) = some (result >>= call, cs)

  -- `aggregate_resolution::value`, with the chunks after it.
  unfoldable pub aggregate_run : Resolution → Run Ruby
  unfolding merge_chunks collect_chunks
  aggregate_run r =
      let fuel = suc (length r.chunks) in
      let names = chunk_names r.chunks in
      elim r.aggregate_block [
        | some call ↦ call_with call (collect_chunks ruby.key fuel names no_pairs r.chunks)
        | none ↦ merge_chunks fuel names ruby_nil r.chunks
      ]

  -- The fuel always suffices.
  abbrev result_of : Run Ruby → Result Ruby
  result_of none = raise cycle_detected
  result_of (some (result, cs)) = result

  -- A block gives the same value each time, so that what a chunk remembers is left out here.
  unfoldable pub resolution_value : Resolution → Result Ruby
  unfolding simple_value aggregate_run
  resolution_value r = elim r.kind [
    | simple ↦ simple_value r
    | aggregate ↦ result_of (aggregate_run r)
  ]

-- `resolution::flush`
unfoldable pub flush_resolution : Resolution → Result Ruby
flush_resolution r = elim r.flush_block [ none ↦ ok ruby_nil | some result ↦ result ]
