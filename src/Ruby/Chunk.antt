-- ===== src/Ruby/Chunk.antt =====
-- The chunks of an aggregate resolution: `chunk::value` of lib/src/ruby/chunk.cc, and
-- `aggregate_resolution::find_chunk` and `value` of lib/src/ruby/aggregate_resolution.cc. The chunks
-- of one resolution are a list by name; an exception leaves what was written before it.
pub mod Cycles
pub mod Define
use facter.Base.{
  ℕ, zero, suc, ◌+◌, String, Bool, true, false, Option, none, some, List, [], ◌∷◌, ◌++◌, ◌==◌,
  if◌then◌else◌,
}
use facter.Ruby.Value.{
  Ruby, ruby_nil, Result, ok, raise, cycle_detected, is_nil, Pairs, no_pairs, hash, store,
}
use facter.Ruby.Merge.{deep_merge}

pub data Dependencies : Type 0 where
  no_dependencies : Dependencies
  one_dependency : String → Dependencies
  dependencies : List String → Dependencies

pub record Chunk : Type 0 where
  pub needs : Dependencies
  pub block : List Ruby → Result Ruby
  pub value : Ruby
  pub resolved : Bool
  pub resolving : Bool

abbrev pub Chunks : Type 0
Chunks = List (String × Chunk)

unfoldable pub get : String → Chunks → Option Chunk
get name [] = none
get name ((k, c) ∷ cs) = if k == name then some c else get name cs

unfoldable pub modify : String → (Chunk → Chunk) → Chunks → Chunks
modify name f [] = []
modify name f ((k, c) ∷ cs) =
    let rest = modify name f cs in if k == name then (k, f c) ∷ cs else (k, c) ∷ rest

abbrev pub chunk_names : Chunks → List String
chunk_names [] = []
chunk_names ((k, c) ∷ cs) = k ∷ chunk_names cs

abbrev pub names_of : Dependencies → List String
names_of no_dependencies = []
names_of (one_dependency d) = d ∷ []
names_of (dependencies ds) = ds

abbrev pub start : Chunk → Chunk
start c = record c { resolving = true }

-- `_resolving` is reset either way; a value is kept only where nothing was raised.
abbrev pub finish : Result Ruby → Chunk → Chunk
finish (ok v) c = record c { resolving = false; value = v; resolved = true }
finish (raise e) c = record c { resolving = false }

-- `none`: the fuel of the model ran out.
abbrev pub Run : Type 0 → Type 0
Run A = Option (Result A × Chunks)

module _ (find : String → Chunks → Run Ruby) where
  -- The values of the dependencies, in order, up to the first exception.
  unfoldable pub collect : List String → Chunks → Run (List Ruby)
  collect [] cs = some (ok [], cs)
  collect (d ∷ ds) cs = elim (find d cs) [
    | none ↦ none
    | some (r, cs') ↦ elim r [
      | raise e ↦ some (raise e, cs')
      | ok v ↦ elim (collect ds cs') [
        | none ↦ none
        | some (rs, cs'') ↦ elim rs [
          | raise e ↦ some (raise e, cs'')
          | ok vs ↦ some (ok (v ∷ vs), cs'')
        ]
      ]
    ]
  ]

  abbrev call_block : Chunk → Result (List Ruby) → Result Ruby
  call_block c (raise e) = raise e
  call_block c (ok vs) = c.block vs

  unfoldable pub chunk_value : String → Chunk → Chunks → Run Ruby
  unfolding collect modify
  chunk_value name c cs =
      if c.resolving
      then some (raise cycle_detected, cs)
      else if c.resolved
      then some (ok c.value, cs)
      else elim (collect (names_of c.needs) (modify name start cs)) [
        | none ↦ none
        | some (rs, cs') ↦ let r = call_block c rs in some (r, modify name (finish r) cs')
      ]

  unfoldable pub find_with : String → Chunks → Run Ruby
  unfolding chunk_value get
  find_with name cs = elim (get name cs) [
    | none ↦ some (ok ruby_nil, cs)
    | some c ↦ chunk_value name c cs
  ]

unfoldable pub find_chunk : ℕ → String → Chunks → Run Ruby
unfolding find_with
find_chunk zero name cs = none
find_chunk (suc fuel) name cs = find_with (find_chunk fuel) name cs

-- `aggregate_resolution::value` with no aggregate block: the values are merged in order.
unfoldable pub merge_chunks : ℕ → List String → Ruby → Chunks → Run Ruby
unfolding find_chunk deep_merge
merge_chunks fuel [] merged cs = some (ok merged, cs)
merge_chunks fuel (name ∷ names) merged cs = elim (find_chunk fuel name cs) [
  | none ↦ none
  | some (r, cs') ↦ elim r [
    | raise e ↦ some (raise e, cs')
    | ok v ↦ elim (if is_nil merged then ok v else deep_merge merged v) [
      | raise e ↦ some (raise e, cs')
      | ok m ↦ merge_chunks fuel names m cs'
    ]
  ]
]

-- With an aggregate block: it is given a hash of the values; `key` is the key of a chunk's name.
unfoldable pub collect_chunks : (String → ℕ) → ℕ → List String → Pairs → Chunks → Run Ruby
unfolding find_chunk store
collect_chunks key fuel [] result cs = some (ok (hash result), cs)
collect_chunks key fuel (name ∷ names) result cs = elim (find_chunk fuel name cs) [
  | none ↦ none
  | some (r, cs') ↦ elim r [
    | raise e ↦ some (raise e, cs')
    | ok v ↦ collect_chunks key fuel names (store (key name) v result) cs'
  ]
]
