-- ===== src/Tests/Documents.antt =====
-- A file of external facts in each format, and a variable of the environment.
use mathlib.Core.List.{map}
use facter.Base.{
  String, ◌≡◌, ◌≢◌, refl, true, false, none, some, List, [], ◌∷◌, if◌then◌else◌, ◌==◌,
}
use facter.Base.Int.{to_int64}
use facter.Base.Text.{c_str}
use facter.Base.Lower.{to_lower}
use facter.Values.{string_value}
use facter.External.Json.{Handler, running, initial, run}
use facter.External.Json.Document.{
  json_null, json_bool, json_uint, json_string, json_array, json_object, Items, no_items, item,
  Members, no_members, member, events, value_of, facts_onto,
}
use facter.External.Json.Replay.{at, run-events_object, run-events_empty_name}
use facter.External.Yaml.{
  Decoder, scalar, sequence, mapping, null_node, Nodes, no_nodes, node, Pairs, no_pairs, pair,
  top_facts,
}
use facter.External.Yaml.Agreement.{call, top_facts-run}

-- {"Role": "web", "disks": [true, null, {"size": 3}]}
abbrev disk_items : Items
disk_items =
    item (json_bool true)
      (item json_null (item (json_object (member "size" (json_uint 3) no_members)) no_items))

abbrev roles : Members
roles = member "Role" (json_string "web") (member "disks" (json_array disk_items) no_members)

run-events_object_example :
    run (events (json_object roles) []) initial ≡ running (at "" [] (facts_onto roles []))
unfolding c_str
run-events_object_example =
    run-events_object roles (refl, (tt, (refl, ((tt, (tt, (((refl, (tt, tt))), tt))), tt))))

not_an_object : (ms : Members) → json_array disk_items ≢ json_object ms
not_an_object ms e = cc

run-events_empty_name_example :
    run
      (events
        (json_object (member "" (json_string "Role") (member "web" (json_string "db") no_members)))
        [])
      initial
    ≡ running
        (at (c_str "db") [] ((to_lower (c_str "Role"), string_value false (c_str "web")) ∷ []))
unfolding c_str
run-events_empty_name_example = run-events_empty_name "Role" "web" "db" refl

-- It knows the words `true` and `3`.
abbrev decoder : Decoder
decoder = record {
  decode_bool = λ s. if s == "true" then some true else none;
  decode_int64 = λ s. if s == "3" then some (to_int64 3) else none;
  decode_double = λ s. none;
}

abbrev disk_nodes : Nodes
disk_nodes =
    node (scalar "true")
      (node null_node (node (mapping (pair "size" (scalar "3") no_pairs)) no_nodes))

abbrev role_pairs : Pairs
role_pairs = pair "Role" (scalar "web") (pair "disks" (sequence disk_nodes) no_pairs)

top_facts-run_example :
    (h : Handler) × (run (events (json_object roles) []) initial ≡ running h)
    × (top_facts decoder role_pairs [] ≡ map call h.added)
unfolding to_int64 value_of c_str
top_facts-run_example =
    top_facts-run decoder role_pairs roles
      (
        refl,
        ((refl, refl, refl, refl), (refl, ((refl, (tt, ((refl, ((refl, refl), tt)), tt))), tt))),
      )
      ((λ e. cc), ((λ e. cc), tt)) (refl, (tt, (refl, ((tt, (tt, (((refl, (tt, tt))), tt))), tt))))

abbrev line_pairs : List (String × String)
line_pairs = ("Role", "web") ∷ ("options", "a=b") ∷ []

lowered : to_lower "Facter_" ≡ "facter_"
unfolding to_lower
lowered = refl
