-- ===== src/External/Yaml.antt =====
-- lib/src/facts/external/yaml_resolver.cc. A parsed node has the cases that `add_value` tells
-- apart; the conversions of yaml-cpp are arguments.
pub mod Agreement
use facter.Base.{ℕ, String, Bool, false, Option, none, some, List, [], ◌∷◌, ◌++◌}
use facter.Base.Int.{ℤ}
use facter.Base.Lower.{to_lower}
use facter.Values.{
  Value, Elements, Fields, string_value, integer_value, boolean_value, double_value, array_value,
  map_value, nil, end, add_element, add_field,
}

mutual
  pub data Node : Type 0 where
    scalar : String → Node
    sequence : Nodes → Node
    mapping : Pairs → Node
    null_node : Node
    other_node : Node

  pub data Nodes : Type 0 where
    no_nodes : Nodes
    node : Node → Nodes → Nodes

  pub data Pairs : Type 0 where
    no_pairs : Pairs
    pair : String → Node → Pairs → Pairs

-- `convert<T>::decode` for the types that are tried; the bits of a double stand for it.
pub record Decoder : Type 0 where
  pub decode_bool : String → Option Bool
  pub decode_int64 : String → Option ℤ
  pub decode_double : String → Option ℕ

abbrev decode_real : Option ℕ → String → Value
decode_real none text = string_value false text
decode_real (some d) text = double_value false d

abbrev decode_number : Option ℤ → Decoder → String → Value
decode_number none d text = decode_real (d.decode_double text) text
decode_number (some n) d text = integer_value false n

abbrev decode_truth : Option Bool → Decoder → String → Value
decode_truth none d text = decode_number (d.decode_int64 text) d text
decode_truth (some b) d text = boolean_value false b

abbrev pub decode : Decoder → String → Value
decode d text = decode_truth (d.decode_bool text) d text

-- A node that was left out reaches no parent.
abbrev pub into_array : Option (Option Value) → Elements → Elements
into_array none acc = acc
into_array (some v) acc = add_element v acc

abbrev pub into_map : String → Option (Option Value) → Fields → Fields
into_map k none acc = acc
into_map k (some v) acc = add_field k v acc

abbrev pub into_facts :
    String → Option (Option Value) → List (String × Option Value) → List (String × Option Value)
into_facts k none added = added
into_facts k (some v) added = added ++ (to_lower k, v) ∷ []

-- What `add_value` does with a node and a parent: into an array, into a map, or as a fact of its
-- own, where a null reaches `collection::add`. A node of no known kind is left out.
unfoldable mutual
  pub node_value : Decoder → Node → Option (Option Value)
  node_value d (scalar text) = some (some (decode d text))
  node_value d (sequence ns) = some (some (array_value false (nodes_onto d ns nil)))
  node_value d (mapping ps) = some (some (map_value false (pairs_onto d ps end)))
  node_value d null_node = some none
  node_value d other_node = none

  pub nodes_onto : Decoder → Nodes → Elements → Elements
  nodes_onto d no_nodes acc = acc
  nodes_onto d (node n ns) acc = nodes_onto d ns (into_array (node_value d n) acc)

  pub pairs_onto : Decoder → Pairs → Fields → Fields
  pairs_onto d no_pairs acc = acc
  pairs_onto d (pair k n ps) acc = pairs_onto d ps (into_map k (node_value d n) acc)

-- The loop of `yaml_resolver::resolve` over a top-level map: the calls of `collection::add`.
unfoldable pub top_facts :
    Decoder → Pairs → List (String × Option Value) → List (String × Option Value)
unfolding node_value
top_facts d no_pairs added = added
top_facts d (pair k n ps) added = top_facts d ps (into_facts k (node_value d n) added)
