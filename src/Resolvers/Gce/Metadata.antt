-- ===== src/Resolvers/Gce/Metadata.antt =====
-- The handler of lib/src/facts/resolvers/gce_resolver.cc on the events of a whole document.
use facter.Base.{
  String, ◌≡◌, refl, ◌∙◌, true, false, ◌&&◌, Option, none, some, List, [], ◌∷◌, is_empty_str,
}
use facter.Base.Text.{c_str}
use facter.Base.Int.{IsInt64, to_int64, to_int64-to_uint64}
use facter.Values.{
  Value, Elements, Fields, integer_value, boolean_value, double_value, array_value, map_value, nil,
  end, add_element, add_field,
}
use facter.External.Json.{Event, end_array, end_object}
use facter.External.Json.Document.{
  Json, json_null, json_bool, json_int, json_int64, json_uint, json_uint64, json_double,
  json_string, json_array, json_object, Items, no_items, item, Members, no_members, member, events,
  item_events, member_events,
}
use facter.Resolvers.Gce.{
  Handler, Result, running, ◌>>=◌, text_value, takes_key, add_value, handle, run, initial,
}

-- No member's name is empty or begins with a null character, and a number that is reported as signed fits its type.
abbrev mutual
  pub IsMetadata : Json → Type 0
  IsMetadata (json_int n) = IsInt64 n
  IsMetadata (json_int64 n) = IsInt64 n
  IsMetadata (json_array xs) = AreMetadata xs
  IsMetadata (json_object ms) = AreMembers ms
  IsMetadata _ = Unit

  pub AreMetadata : Items → Type 0
  AreMetadata no_items = Unit
  AreMetadata (item j xs) = IsMetadata j × AreMetadata xs

  pub AreMembers : Members → Type 0
  AreMembers no_members = Unit
  AreMembers (member k j ms) = (is_empty_str (c_str k) ≡ false) × (IsMetadata j × AreMembers ms)

abbrev pub at : String → List (String × Value) → Fields → Handler
at key stack root = record { initialized = true; root = root; key = key; stack = stack }

-- A value is delivered where a key is known or an array is open.
abbrev put : Option Value → Handler → Result
put none h = running (record h { key = "" })
put (some v) h = add_value v h

put-item :
    (v : Option Value) (acc : Elements) (key : String) (stack : List (String × Value))
    (root : Fields) (next : Handler → Result)
    → (put v (at "" ((key, array_value false acc) ∷ stack) root) >>= next)
      ≡ next (at "" ((key, array_value false (add_element v acc)) ∷ stack) root)
unfolding add_value
put-item none acc key stack root next = refl
put-item (some v) acc key stack root next = refl

put-member :
    (v : Option Value) (acc : Fields) (k key : String) (stack : List (String × Value))
    (root : Fields) (next : Handler → Result)
    → is_empty_str k ≡ false
    → (put v (at k ((key, map_value false acc) ∷ stack) root) >>= next)
      ≡ next (at "" ((key, map_value false (add_field k v acc)) ∷ stack) root)
unfolding add_value
put-member none acc k key stack root next h = refl
put-member (some v) acc k key stack root next h = rw h refl

put-root :
    (v : Option Value) (k : String) (root : Fields) (next : Handler → Result)
    → is_empty_str k ≡ false
    → (put v (at k [] root) >>= next) ≡ next (at "" [] (add_field k v root))
unfolding add_value
put-root none k root next h = refl
put-root (some v) k root next h = rw h refl

module _ (split : String → List String) where
  -- The value of a document under a key: a text is read as one of that key, an item of a list as one
  -- of no key.
  unfoldable mutual
    unfolding c_str

    pub value_under : String → Json → Option Value
    value_under key json_null = none
    value_under key (json_bool b) = some (boolean_value false b)
    value_under key (json_int n) = some (integer_value false n)
    value_under key (json_int64 n) = some (integer_value false n)
    value_under key (json_uint n) = some (integer_value false (to_int64 n))
    value_under key (json_uint64 n) = some (integer_value false (to_int64 n))
    value_under key (json_double d) = some (double_value false d)
    value_under key (json_string s) = some (text_value split key s)
    value_under key (json_array xs) = some (array_value false (elements_onto xs nil))
    value_under key (json_object ms) = some (map_value false (fields_onto ms end))

    pub elements_onto : Items → Elements → Elements
    elements_onto no_items acc = acc
    elements_onto (item j xs) acc = elements_onto xs (add_element (value_under "" j) acc)

    pub fields_onto : Members → Fields → Fields
    fields_onto no_members acc = acc
    fields_onto (member k j ms) acc =
        fields_onto ms (add_field (c_str k) (value_under (c_str k) j) acc)

  mutual
    unfolding events value_under handle run

    run-events :
        (j : Json) (key : String) (stack : List (String × Value)) (root : Fields)
        (rest : List Event)
        → IsMetadata j
        → (takes_key stack && is_empty_str key) ≡ false
        → run split (events j rest) (at key stack root)
          ≡ (put (value_under key j) (at key stack root) >>= λ h. run split rest h)
    run-events json_null key stack root rest g ready = refl
    run-events (json_bool b) key stack root rest g ready = refl
    run-events (json_int n) key stack root rest g ready = rw (to_int64-to_uint64 n g)
    run-events (json_int64 n) key stack root rest g ready = rw (to_int64-to_uint64 n g)
    run-events (json_uint n) key stack root rest g ready = refl
    run-events (json_uint64 n) key stack root rest g ready = refl
    run-events (json_double d) key stack root rest g ready = refl
    run-events (json_string s) key stack root rest g ready = rw ready
    run-events (json_array xs) key stack root rest g ready =
        run-items xs nil key stack root (end_array ∷ rest) g
    run-events (json_object ms) key stack root rest g ready =
        run-members ms end key stack root (end_object ∷ rest) g

    run-items :
        (xs : Items) (acc : Elements) (key : String) (stack : List (String × Value)) (root : Fields)
        (rest : List Event)
        → AreMetadata xs
        → run split (item_events xs rest) (at "" ((key, array_value false acc) ∷ stack) root)
          ≡ run split rest (at "" ((key, array_value false (elements_onto xs acc)) ∷ stack) root)
    run-items no_items acc key stack root rest g = refl
    run-items (item j xs) acc key stack root rest g =
        run-events j "" ((key, array_value false acc) ∷ stack) root (item_events xs rest) g.0 refl
        ∙ (put-item (value_under "" j) acc key stack root (λ h. run split (item_events xs rest) h)
            ∙ run-items xs (add_element (value_under "" j) acc) key stack root rest g.1)

    run-members :
        (ms : Members) (acc : Fields) (key : String) (stack : List (String × Value)) (root : Fields)
        (rest : List Event)
        → AreMembers ms
        → run split (member_events ms rest) (at "" ((key, map_value false acc) ∷ stack) root)
          ≡ run split rest (at "" ((key, map_value false (fields_onto ms acc)) ∷ stack) root)
    run-members no_members acc key stack root rest g = refl
    run-members (member k j ms) acc key stack root rest g =
        run-events j (c_str k) ((key, map_value false acc) ∷ stack) root (member_events ms rest)
          g.1.0 g.0
        ∙ (put-member (value_under (c_str k) j) acc (c_str k) key stack root
              (λ h. run split (member_events ms rest) h) g.0
            ∙ run-members ms (add_field (c_str k) (value_under (c_str k) j) acc) key stack root rest
                g.1.1)

  run-root :
      (ms : Members) (root : Fields) (rest : List Event)
      → AreMembers ms
      → run split (member_events ms rest) (at "" [] root)
        ≡ run split rest (at "" [] (fields_onto ms root))
  unfolding member_events run handle fields_onto
  run-root no_members root rest g = refl
  run-root (member k j ms) root rest g =
      run-events j (c_str k) [] root (member_events ms rest) g.1.0 g.0
      ∙ (put-root (value_under (c_str k) j) (c_str k) root
            (λ h. run split (member_events ms rest) h) g.0
          ∙ run-root ms (add_field (c_str k) (value_under (c_str k) j) root) rest g.1.1)

  -- Handling the events of a document that is an object, where no name is empty or begins with a null
  -- character and signed numbers fit their types, fills the map with the tree that the document
  -- spells: names end at their first null character, and each text is whole and read as one of the key
  -- that it stands under.
  pub run-metadata :
      (ms : Members)
      → AreMembers ms
      → run split (events (json_object ms) []) initial ≡ running (at "" [] (fields_onto ms end))
  unfolding events run handle
  run-metadata ms g = run-root ms end (end_object ∷ []) g
