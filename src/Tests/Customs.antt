-- ===== src/Tests/Customs.antt =====
-- Custom facts: hashes to merge, chunks that depend on one another, and weighted resolutions.

use facter.Base.{
  ℕ, ◌<◌, String, ◌≡◌, refl, Bool, true, false, none, some, List, [], ◌∷◌, ◌==◌, arith,
}
use facter.Ruby.Value.{
  Ruby, ruby_nil, text, number, symbol, array, hash, no_items, item, Pairs, no_pairs, pair, Result,
  ok, raise, lookup, store, append_items, type_error,
}
use facter.Ruby.Merge.{deep_merge, Merges, deep_merge-Merges}
use facter.Ruby.Chunk.{one_dependency, Chunk, Chunks, find_chunk}
use facter.Ruby.Chunk.Cycles.{flags, idle, Restores, find_chunk-Restores}
use facter.Ruby.Resolution.{
  aggregate, resolution_value, simple_value, Interpreter, simple, Resolution, new_resolution,
  weight,
}
use facter.Ruby.Fact.{goes_before, Fact, Answer, fact_value, is_native_first, find_resolution}
use facter.Ruby.Fact.Choice.{IsChosen, fact_value-IsChosen, fact_value-shadows}
use facter.Tests.Sorting.{sort, sort-IsSort}
use facter.Ruby.Fact.Definition.{define_resolution}
use facter.Ruby.Fact.Definition.Naming.{find_resolution-define_resolution}

abbrev left_pairs : Pairs
left_pairs = pair 1 (array (item (number 1) no_items)) (pair 2 (text "a") no_pairs)

abbrev right_pairs : Pairs
right_pairs = pair 1 (array (item (number 2) no_items)) (pair 3 (text "b") no_pairs)

abbrev merged_pairs : Pairs
merged_pairs =
    pair 1 (array (item (number 1) (item (number 2) no_items)))
      (pair 2 (text "a") (pair 3 (text "b") no_pairs))

pairs_merge : deep_merge (hash left_pairs) (hash right_pairs) ≡ ok (hash merged_pairs)
unfolding deep_merge lookup store append_items
pairs_merge = refl

deep_merge-Merges_example :
    (ms : Pairs) × (hash merged_pairs ≡ hash ms)
    × ((j : ℕ) → Merges (lookup j left_pairs) (lookup j right_pairs) (lookup j ms))
unfolding lookup
deep_merge-Merges_example =
    deep_merge-Merges left_pairs right_pairs (hash merged_pairs) (refl, (refl, tt)) pairs_merge

-- Two chunks that need one another.
abbrev chunk_of : String → Chunk
chunk_of needed = record {
  needs = one_dependency needed;
  block = λ vs. ok (number 1);
  value = ruby_nil;
  resolved = false;
  resolving = false;
}

abbrev ring : Chunks
ring = ("a", chunk_of "b") ∷ ("b", chunk_of "a") ∷ []

two_idle : idle (flags ring) < 3
unfolding idle flags
two_idle = omega arith

find_chunk-Restores_example : Restores ring (find_chunk 3 "a" ring)
find_chunk-Restores_example = find_chunk-Restores 3 "a" ring two_idle

abbrev texts_equal : Ruby → Ruby → Bool
texts_equal (text s) (text t) = s == t
texts_equal _ _ = false

abbrev pub interpreter : Interpreter
interpreter = record {
  fact_value = λ name. ok none;
  downcase = λ s. s;
  equals = texts_equal;
  case_equals = texts_equal;
  num2ulong = λ v. raise (type_error "no number");
  execute = λ s. none;
  key = λ name. 0;
}

abbrev pub weighing : ℕ → Result Ruby → Resolution
weighing w v = record (new_resolution simple) { has_weight = true; own_weight = w; block = some v }

-- The heaviest resolution gives nil.
abbrev weighed : List Resolution
weighed = weighing 30 (ok ruby_nil) ∷ weighing 20 (ok (text "b")) ∷ weighing 10 (ok (text "c")) ∷ []

abbrev role : Fact
role = record {
  name = "role";
  value = ruby_nil;
  resolutions = weighed;
  resolving = false;
  resolved = false;
}

abbrev role_answer : Answer
unfolding fact_value sort
role_answer = fact_value interpreter sort (some (text "native")) role

role_added : role_answer.added ≡ some (text "b")
unfolding role_answer fact_value sort weight goes_before resolution_value simple_value
role_added = refl

fact_value-IsChosen_example : IsChosen interpreter weighed (text "b")
unfolding role_answer
fact_value-IsChosen_example =
    fact_value-IsChosen interpreter sort sort-IsSort (some (text "native")) role (text "b") refl
      role_added

-- A fact with no resolutions is answered by the collection; then it is given a weighty one.
abbrev bare : Fact
bare = record {
  name = "role";
  value = ruby_nil;
  resolutions = [];
  resolving = false;
  resolved = false;
}

bare_is_native : is_native_first interpreter (sort goes_before []) ≡ true
unfolding sort is_native_first
bare_is_native = refl

weighed_is_not_native : is_native_first interpreter (sort goes_before weighed) ≡ false
unfolding sort weight is_native_first goes_before
weighed_is_not_native = refl

fact_value-shadows_example :
    (fact_value interpreter sort none
      (record ((fact_value interpreter sort (some (text "native")) bare).fact) {
        resolutions = weighed;
      })).result
    ≡ ok (text "native")
fact_value-shadows_example =
    fact_value-shadows interpreter sort none bare (text "native") weighed refl refl bare_is_native
      refl weighed_is_not_native

abbrev aggregate_options : List (Ruby × Ruby)
aggregate_options = (symbol "type", symbol "aggregate") ∷ (symbol "value", number 5) ∷ []

new_defined : (define_resolution interpreter none (text "new") aggregate_options role).0 ≡ ok 3
unfolding define_resolution
new_defined = refl

find_resolution-define_resolution_example :
    find_resolution interpreter
      (text "new")
      (define_resolution interpreter none (text "new") aggregate_options role).1.resolutions
    ≡ some 3
find_resolution-define_resolution_example =
    find_resolution-define_resolution interpreter none "new" aggregate_options role 3 refl
      (λ r. refl) new_defined

-- The chunks of the ring, which need one another.
abbrev ring_resolution : Resolution
ring_resolution = record (new_resolution aggregate) { chunks = ring }
