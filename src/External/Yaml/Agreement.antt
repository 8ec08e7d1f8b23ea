-- ===== src/External/Yaml/Agreement.antt =====
-- YAML and JSON documents of one tree: lib/src/facts/external/yaml_resolver.cc.
use facter.Base.{
  String, ◌≡◌, ◌≢◌, refl, sym, ap, ◌∙◌, false, Option, none, some, List, [], ◌∷◌, ◌++◌, map,
}
use mathlib.Core.Path.{ap₂}
use mathlib.Core.List.{map-append}
use facter.Base.Int.{to_int64}
use facter.Base.Text.{c_str}
use facter.Base.Lower.{to_lower}
use facter.Values.{
  Value, Elements, Fields, array_value, map_value, nil, end, add_element, add_field,
}
use facter.External.Json.Document.{
  Json, json_null, json_bool, json_int, json_int64, json_uint, json_uint64, json_double,
  json_string, json_array, json_object, AllMembers, events, Items, no_items, item, Members,
  no_members, member, value_of, items_onto, members_onto, facts_onto, one_more,
}
use facter.External.Json.{Handler, run, initial, running}
use facter.External.Json.Replay.{at, run-events_object}
use facter.External.Yaml.{
  Node, scalar, sequence, mapping, null_node, other_node, Nodes, no_nodes, node, Pairs, no_pairs,
  pair, Decoder, decode, into_array, into_map, into_facts, node_value, nodes_onto, pairs_onto,
  top_facts,
}

-- A scalar of YAML and one of JSON stand for the same, by the conversions of yaml-cpp: a text is one
-- that no conversion takes, up to its first null character in JSON.
abbrev pub SpellsScalar : Decoder → String → Json → Type 0
SpellsScalar d text (json_bool b) = d.decode_bool text ≡ some b
SpellsScalar d text (json_int n) = (d.decode_bool text ≡ none) × (d.decode_int64 text ≡ some n)
SpellsScalar d text (json_int64 n) = (d.decode_bool text ≡ none) × (d.decode_int64 text ≡ some n)
SpellsScalar d text (json_uint n) =
    (d.decode_bool text ≡ none) × (d.decode_int64 text ≡ some (to_int64 n))
SpellsScalar d text (json_uint64 n) =
    (d.decode_bool text ≡ none) × (d.decode_int64 text ≡ some (to_int64 n))
SpellsScalar d text (json_double x) =
    (d.decode_bool text ≡ none) × (d.decode_int64 text ≡ none) × (d.decode_double text ≡ some x)
SpellsScalar d text (json_string s) =
    (d.decode_bool text ≡ none)
    × (d.decode_int64 text ≡ none)
    × (d.decode_double text ≡ none)
    × (text ≡ c_str s)
SpellsScalar d text _ = ⊥

scalar-value_of :
    (d : Decoder) (text : String) (j : Json)
    → SpellsScalar d text j
    → value_of j ≡ some (decode d text)
unfolding value_of
scalar-value_of d text (json_bool b) h = rw h refl
scalar-value_of d text (json_int n) (b, i) = rw (b, i) refl
scalar-value_of d text (json_int64 n) (b, i) = rw (b, i) refl
scalar-value_of d text (json_uint n) (b, i) = rw (b, i) refl
scalar-value_of d text (json_uint64 n) (b, i) = rw (b, i) refl
scalar-value_of d text (json_double x) (b, i, r) = rw (b, i, r) refl
scalar-value_of d text (json_string s) (b, i, r, e) = rw (b, i, r, e) refl
scalar-value_of d text json_null h = absurd h
scalar-value_of d text (json_array xs) h = absurd h
scalar-value_of d text (json_object ms) h = absurd h

-- The two trees have one shape and the same names, and scalars that stand for the same; a name of
-- JSON ends at its first null character.
abbrev mutual
  pub Spells : Decoder → Node → Json → Type 0
  Spells d null_node json_null = Unit
  Spells d null_node _ = ⊥
  Spells d other_node _ = ⊥
  Spells d (sequence ns) (json_array xs) = SpellsAll d ns xs
  Spells d (sequence ns) _ = ⊥
  Spells d (mapping ps) (json_object ms) = SpellsEach d ps ms
  Spells d (mapping ps) _ = ⊥
  Spells d (scalar text) j = SpellsScalar d text j

  pub SpellsAll : Decoder → Nodes → Items → Type 0
  SpellsAll d no_nodes no_items = Unit
  SpellsAll d no_nodes (item j xs) = ⊥
  SpellsAll d (node n ns) no_items = ⊥
  SpellsAll d (node n ns) (item j xs) = Spells d n j × SpellsAll d ns xs

  pub SpellsEach : Decoder → Pairs → Members → Type 0
  SpellsEach d no_pairs no_members = Unit
  SpellsEach d no_pairs (member k j ms) = ⊥
  SpellsEach d (pair k n ps) no_members = ⊥
  SpellsEach d (pair k n ps) (member l j ms) = (k ≡ c_str l) × (Spells d n j × SpellsEach d ps ms)

mutual
  unfolding node_value value_of

  node_value-value_of :
      (d : Decoder) (n : Node) (j : Json) → Spells d n j → node_value d n ≡ some (value_of j)
  node_value-value_of d null_node json_null h = refl
  node_value-value_of d null_node _ h = absurd h
  node_value-value_of d other_node _ h = absurd h
  node_value-value_of d (sequence ns) (json_array xs) h =
      ap (λ es. some (some (array_value false es))) (nodes-items d ns xs nil h)
  node_value-value_of d (sequence ns) _ h = absurd h
  node_value-value_of d (mapping ps) (json_object ms) h =
      ap (λ fs. some (some (map_value false fs))) (pairs-members d ps ms end h)
  node_value-value_of d (mapping ps) _ h = absurd h
  node_value-value_of d (scalar text) j h = ap some (sym (scalar-value_of d text j h))

  nodes-items :
      (d : Decoder) (ns : Nodes) (xs : Items) (acc : Elements)
      → SpellsAll d ns xs
      → nodes_onto d ns acc ≡ items_onto xs acc
  nodes-items d no_nodes no_items acc h = refl
  nodes-items d no_nodes (item j xs) acc h = absurd h
  nodes-items d (node n ns) no_items acc h = absurd h
  nodes-items d (node n ns) (item j xs) acc h =
      ap (λ v. nodes_onto d ns (into_array v acc)) (node_value-value_of d n j h.0)
      ∙ nodes-items d ns xs (add_element (value_of j) acc) h.1

  pairs-members :
      (d : Decoder) (ps : Pairs) (ms : Members) (acc : Fields)
      → SpellsEach d ps ms
      → pairs_onto d ps acc ≡ members_onto ms acc
  pairs-members d no_pairs no_members acc h = refl
  pairs-members d no_pairs (member k j ms) acc h = absurd h
  pairs-members d (pair k n ps) no_members acc h = absurd h
  pairs-members d (pair k n ps) (member l j ms) acc h =
      ap₂ (λ x v. pairs_onto d ps (into_map x v acc)) h.0 (node_value-value_of d n j h.1.0)
      ∙ pairs-members d ps ms (add_field (c_str l) (value_of j) acc) h.1.1

-- A call of `collection::add` with a value.
abbrev pub call : String × Value → String × Option Value
call (k, v) = (k, some v)

abbrev pub HasNoNull : Members → Type 0
HasNoNull no_members = Unit
HasNoNull (member k j ms) = (value_of j ≢ none) × HasNoNull ms

calls-append :
    (xs : List (String × Value)) (x : String × Value)
    → map call (xs ++ x ∷ []) ≡ map call xs ++ call x ∷ []
calls-append xs x = map-append call xs (x ∷ [])

one_more-calls :
    (k : String) (v : Option Value) (added : List (String × Value))
    → v ≢ none
    → into_facts k (some v) (map call added) ≡ map call (one_more k v added)
one_more-calls k none added h = absurd (h refl)
one_more-calls k (some v) added h = sym (calls-append added (to_lower k, v))

top_facts-facts_onto :
    (d : Decoder) (ps : Pairs) (ms : Members) (added : List (String × Value))
    → SpellsEach d ps ms
    → HasNoNull ms
    → top_facts d ps (map call added) ≡ map call (facts_onto ms added)
unfolding top_facts facts_onto
top_facts-facts_onto d no_pairs no_members added h g = refl
top_facts-facts_onto d no_pairs (member k j ms) added h g = absurd h
top_facts-facts_onto d (pair k n ps) no_members added h g = absurd h
top_facts-facts_onto d (pair k n ps) (member l j ms) added h g =
    ap₂ (λ x v. top_facts d ps (into_facts x v (map call added))) h.0
      (node_value-value_of d n j h.1.0)
    ∙ (ap (λ a. top_facts d ps a) (one_more-calls (c_str l) (value_of j) added g.0)
        ∙ top_facts-facts_onto d ps ms (one_more (c_str l) (value_of j) added) h.1.1 g.1)

-- Where a YAML map and a JSON object have one shape, the same names, and scalars that stand for the
-- same, and no member at the top is null, no name in JSON is empty or begins with a null character
-- and signed numbers fit their types, the handler of the JSON events and the loop over the YAML map
-- make the same calls of `collection::add`, in the same order.
pub top_facts-run :
    (d : Decoder) (ps : Pairs) (ms : Members)
    → SpellsEach d ps ms
    → HasNoNull ms
    → AllMembers ms
    → (h : Handler) × (run (events (json_object ms) []) initial ≡ running h)
      × (top_facts d ps [] ≡ map call h.added)
top_facts-run d ps ms same full readable = (
  at "" [] (facts_onto ms []),
  run-events_object ms readable,
  top_facts-facts_onto d ps ms [] same full,
)
