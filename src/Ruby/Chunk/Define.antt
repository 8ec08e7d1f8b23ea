-- ===== src/Ruby/Chunk/Define.antt =====
-- The definition of a chunk: `aggregate_resolution::define_chunk` of
-- lib/src/ruby/aggregate_resolution.cc, with `chunk::dependencies` and `chunk::block` of chunk.cc.
-- `key_of` gives the value that stands as a key in a hash. An exception changes no chunk.
use facter.Base.{
  ℕ, String, ◌≡◌, refl, true, false, Option, none, some, List, [], ◌∷◌, ◌++◌, ◌==◌, if◌then◌else◌,
  arith, eq_iff, Option-cases, inl, inr,
}
use facter.Ruby.Value.{
  Ruby, ruby_nil, symbol, array, Items, no_items, item, Pairs, no_pairs, pair, Result, ok, raise,
  ◌>>=◌, argument_error, type_error,
}
use facter.Ruby.Chunk.{
  Dependencies, no_dependencies, one_dependency, dependencies, Chunk, Chunks, get, modify,
}

abbrev symbol_of : Ruby → Option String
symbol_of (symbol s) = some s
symbol_of _ = none

unfoldable read_symbols : Items → Result (List String)
read_symbols no_items = ok []
read_symbols (item x xs) =
    let rest = read_symbols xs in
    elim (symbol_of x) [
      | none ↦ raise (type_error "expected a Symbol or Array of Symbol for require option")
      | some s ↦ rest >>= λ names. ok (s ∷ names)
    ]

unfoldable read_require : Ruby → Result Dependencies
unfolding read_symbols
read_require (array xs) = read_symbols xs >>= λ names. ok (dependencies names)
read_require (symbol s) = ok (one_dependency s)
read_require _ = raise (type_error "expected a Symbol or Array of Symbol for require option")

-- `chunk::dependencies` and `chunk::block`; a flag that says that the chunk is being resolved stays.
abbrev pub redefined : Dependencies → (List Ruby → Result Ruby) → Chunk → Chunk
redefined d block c = record c { needs = d; block = block; value = ruby_nil; resolved = false }

abbrev pub new_chunk : Dependencies → (List Ruby → Result Ruby) → Chunk
new_chunk d block = record {
  needs = d;
  block = block;
  value = ruby_nil;
  resolved = false;
  resolving = false;
}

unfoldable pub put_chunk : String → Dependencies → (List Ruby → Result Ruby) → Chunks → Chunks
unfolding get modify
put_chunk name d block cs = elim (get name cs) [
  | none ↦ cs ++ (name, new_chunk d block) ∷ []
  | some c ↦ modify name (redefined d block) cs
]

module _ (key_of : ℕ → Ruby) where
  -- The loop over the options, with the dependencies so far.
  unfoldable pub read_chunk_options : Pairs → Dependencies → Result Dependencies
  unfolding read_require
  read_chunk_options no_pairs d = ok d
  read_chunk_options (pair k v ps) d = elim (symbol_of (key_of k)) [
    | none ↦ raise (type_error "expected a Symbol for options key")
    | some key ↦ elim (key == "require") [
      | true ↦ read_require v >>= λ d'. read_chunk_options ps d'
      | false ↦ raise (argument_error "unexpected option")
    ]
  ]

  unfoldable pub define_chunk :
      Ruby → Option (List Ruby → Result Ruby) → Pairs → Chunks → Result Chunks
  unfolding read_chunk_options put_chunk
  define_chunk name none options cs = raise (argument_error "a block must be provided")
  define_chunk name (some block) options cs = elim (symbol_of name) [
    | none ↦ raise (type_error "expected chunk name to be a Symbol")
    | some key ↦ read_chunk_options options no_dependencies >>= λ d. ok (put_chunk key d block cs)
  ]

-- The chunk that a definition makes of what the name had.
abbrev pub made : Dependencies → (List Ruby → Result Ruby) → Option Chunk → Chunk
made d block none = new_chunk d block
made d block (some c) = redefined d block c

get-append :
    (k name : String) (c : Chunk) (cs : Chunks)
    → get name cs ≡ none
    → get k (cs ++ (name, c) ∷ []) ≡ (if name == k then some c else get k cs)
unfolding get
get-append k name c [] h = refl
get-append k name c ((j, e) ∷ cs) h =
    ground (arith, eq_iff j k, eq_iff name k, eq_iff j name, get-append k name c cs, h)

get-modify :
    (k name : String) (f : Chunk → Chunk) (c : Chunk) (cs : Chunks)
    → get name cs ≡ some c
    → get k (modify name f cs) ≡ (if name == k then some (f c) else get k cs)
unfolding get modify
get-modify k name f c [] h = absurd (ground (arith, h))
get-modify k name f c ((j, e) ∷ cs) h =
    ground (arith, eq_iff j k, eq_iff name k, eq_iff j name, get-modify k name f c cs, h)

get-put_chunk :
    (k name : String) (d : Dependencies) (block : List Ruby → Result Ruby) (cs : Chunks)
    → get k (put_chunk name d block cs)
      ≡ (if name == k then some (made d block (get name cs)) else get k cs)
unfolding put_chunk
get-put_chunk k name d block cs = elim (Option-cases (get name cs)) [
  | inl e ↦ rw (e, put_chunk) (get-append k name (new_chunk d block) cs e)
  | inr (c, e) ↦ rw (e, put_chunk) (get-modify k name (redefined d block) c cs e)
]

-- A definition whose options can be read: afterwards the name has a chunk with the dependencies of
-- the options and with the block, not resolved yet, and all other names have the chunks they had.
pub get-define_chunk :
    (key_of : ℕ → Ruby) (name : String) (block : List Ruby → Result Ruby) (options : Pairs)
    (d : Dependencies) (cs : Chunks)
    → read_chunk_options key_of options no_dependencies ≡ ok d
    → (ds : Chunks) × (define_chunk key_of (symbol name) (some block) options cs ≡ ok ds)
      × ((k : String)
          → get k ds ≡ (if name == k then some (made d block (get name cs)) else get k cs))
unfolding define_chunk
get-define_chunk key_of name block options d cs h =
    (put_chunk name d block cs, rw h refl, λ k. get-put_chunk k name d block cs)
