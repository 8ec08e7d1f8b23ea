-- ===== src/External/Json/Replay.antt =====
-- The handler of lib/src/facts/external/json_resolver.cc on the events of a whole document.
use facter.Base.{
  String, ◌≡◌, ◌≢◌, refl, ◌∙◌, true, false, ◌&&◌, Option, none, some, List, [], ◌∷◌, is_empty_str,
}
use facter.Base.Text.{c_str}
use facter.Base.Lower.{to_lower}
use facter.Base.Int.{to_int64-to_uint64}
use facter.Values.{
  Value, Elements, Fields, string_value, array_value, map_value, nil, end, add_element, add_field,
}
use facter.External.Json.{
  Event, Handler, Result, running, raised, expected_object, ◌>>=◌, takes_key, add_value, handle,
  run, initial, end_array, end_object,
}
use facter.External.Json.Document.{
  Json, json_null, json_bool, json_int, json_int64, json_uint, json_uint64, json_double,
  json_string, json_array, json_object, Items, no_items, item, Members, no_members, member, events,
  item_events, member_events, value_of, items_onto, members_onto, facts_onto, one_more, IsReadable,
  AllItems, AllMembers,
}

abbrev pub at : String → List (String × Value) → List (String × Value) → Handler
at key stack added = record { initialized = true; key = key; stack = stack; added = added }

-- A value is delivered where a key is known or an array is open.
abbrev put : Option Value → Handler → Result
put none h = running (record h { key = "" })
put (some v) h = add_value v h

put-item :
    (v : Option Value) (acc : Elements) (key : String) (stack added : List (String × Value))
    (next : Handler → Result)
    → (put v (at "" ((key, array_value false acc) ∷ stack) added) >>= next)
      ≡ next (at "" ((key, array_value false (add_element v acc)) ∷ stack) added)
unfolding add_value
put-item none acc key stack added next = refl
put-item (some v) acc key stack added next = refl

put-member :
    (v : Option Value) (acc : Fields) (k key : String) (stack added : List (String × Value))
    (next : Handler → Result)
    → is_empty_str k ≡ false
    → (put v (at k ((key, map_value false acc) ∷ stack) added) >>= next)
      ≡ next (at "" ((key, map_value false (add_field k v acc)) ∷ stack) added)
unfolding add_value
put-member none acc k key stack added next h = refl
put-member (some v) acc k key stack added next h = rw h

mutual
  unfolding events value_of handle run

  run-events :
      (j : Json) (key : String) (stack added : List (String × Value)) (rest : List Event)
      → IsReadable j
      → (takes_key stack && is_empty_str key) ≡ false
      → run (events j rest) (at key stack added)
        ≡ (put (value_of j) (at key stack added) >>= λ h. run rest h)
  run-events json_null key stack added rest g ready = refl
  run-events (json_bool b) key stack added rest g ready = refl
  run-events (json_int n) key stack added rest g ready = rw (to_int64-to_uint64 n g)
  run-events (json_int64 n) key stack added rest g ready = refl
  run-events (json_uint n) key stack added rest g ready = refl
  run-events (json_uint64 n) key stack added rest g ready = refl
  run-events (json_double d) key stack added rest g ready = refl
  run-events (json_string s) key stack added rest g ready = rw ready
  run-events (json_array xs) key stack added rest g ready =
      run-items xs nil key stack added (end_array ∷ rest) g
  run-events (json_object ms) key stack added rest g ready =
      run-members ms end key stack added (end_object ∷ rest) g

  run-items :
      (xs : Items) (acc : Elements) (key : String) (stack added : List (String × Value))
      (rest : List Event)
      → AllItems xs
      → run (item_events xs rest) (at "" ((key, array_value false acc) ∷ stack) added)
        ≡ run rest (at "" ((key, array_value false (items_onto xs acc)) ∷ stack) added)
  run-items no_items acc key stack added rest g = refl
  run-items (item j xs) acc key stack added rest g =
      run-events j "" ((key, array_value false acc) ∷ stack) added (item_events xs rest) g.0 refl
      ∙ (put-item (value_of j) acc key stack added (λ h. run (item_events xs rest) h)
          ∙ run-items xs (add_element (value_of j) acc) key stack added rest g.1)

  run-members :
      (ms : Members) (acc : Fields) (key : String) (stack added : List (String × Value))
      (rest : List Event)
      → AllMembers ms
      → run (member_events ms rest) (at "" ((key, map_value false acc) ∷ stack) added)
        ≡ run rest (at "" ((key, map_value false (members_onto ms acc)) ∷ stack) added)
  run-members no_members acc key stack added rest g = refl
  run-members (member k j ms) acc key stack added rest g =
      run-events j (c_str k) ((key, map_value false acc) ∷ stack) added (member_events ms rest)
        g.1.0 g.0
      ∙ (put-member (value_of j) acc (c_str k) key stack added (λ h. run (member_events ms rest) h)
            g.0
          ∙ run-members ms (add_field (c_str k) (value_of j) acc) key stack added rest g.1.1)

put-fact :
    (v : Option Value) (k : String) (added : List (String × Value)) (next : Handler → Result)
    → is_empty_str k ≡ false
    → (put v (at k [] added) >>= next) ≡ next (at "" [] (one_more k v added))
unfolding add_value
put-fact none k added next h = refl
put-fact (some v) k added next h = rw h

run-facts :
    (ms : Members) (added : List (String × Value)) (rest : List Event)
    → AllMembers ms
    → run (member_events ms rest) (at "" [] added) ≡ run rest (at "" [] (facts_onto ms added))
unfolding member_events run handle facts_onto
run-facts no_members added rest g = refl
run-facts (member k j ms) added rest g =
    run-events j (c_str k) [] added (member_events ms rest) g.1.0 g.0
    ∙ (put-fact (value_of j) (c_str k) added (λ h. run (member_events ms rest) h) g.0
        ∙ run-facts ms (one_more (c_str k) (value_of j) added) rest g.1.1)

-- Handling the events of a document that is an object, where no name is empty or begins with a null
-- character and signed numbers fit their types, adds a fact for each member that is not null: its
-- name in lower case, its value the tree that the document spells, where names and texts end at
-- their first null character.
pub run-events_object :
    (ms : Members)
    → AllMembers ms
    → run (events (json_object ms) []) initial ≡ running (at "" [] (facts_onto ms []))
unfolding events run handle
run-events_object ms g = run-facts ms [] (end_object ∷ []) g

-- Every other document is refused, and adds nothing.
run-events_refused :
    (j : Json)
    → ((ms : Members) → j ≢ json_object ms)
    → run (events j []) initial ≡ raised expected_object []
unfolding events run handle add_value
run-events_refused json_null h = refl
run-events_refused (json_bool b) h = refl
run-events_refused (json_int n) h = refl
run-events_refused (json_int64 n) h = refl
run-events_refused (json_uint n) h = refl
run-events_refused (json_uint64 n) h = refl
run-events_refused (json_double d) h = refl
run-events_refused (json_string s) h = refl
run-events_refused (json_array xs) h = refl
run-events_refused (json_object ms) h = absurd (h ms refl)

-- A text under an empty name is taken for the next name: where it has a character before its first
-- null, the name that follows becomes its value, with no exception. Each of the three texts is cut
-- at its first null.
pub run-events_empty_name :
    (s k t : String)
    → is_empty_str (c_str s) ≡ false
    → run
        (events (json_object (member "" (json_string s) (member k (json_string t) no_members))) [])
        initial
      ≡ running (at (c_str t) [] ((to_lower (c_str s), string_value false (c_str k)) ∷ []))
unfolding events run handle add_value
run-events_empty_name s k t h = rw h
