-- ===== src/Tests/Definitions.antt =====
-- A resolution that is confined, and a chunk that is defined.
use facter.Base.{ℕ, ◌≡◌, refl, List, []}
use facter.Ruby.Value.{Ruby, symbol, text, Pairs, pair, no_pairs, Result, ok}
use facter.Ruby.Chunk.{one_dependency, no_dependencies, Chunks}
use facter.Ruby.Chunk.Define.{read_chunk_options}

abbrev key_of : ℕ → Ruby
key_of k = symbol "require"

abbrev on_linux : Pairs
on_linux = pair 0 (symbol "linux") no_pairs

abbrev needs_first : Pairs
needs_first = pair 0 (symbol "first") no_pairs

first_read : read_chunk_options key_of needs_first no_dependencies ≡ ok (one_dependency "first")
unfolding read_chunk_options
first_read = refl

abbrev answer : List Ruby → Result Ruby
answer values = ok (text "second")

abbrev before : Chunks
before = []
