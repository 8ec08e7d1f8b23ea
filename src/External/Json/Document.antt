-- ===== src/External/Json/Document.antt =====
-- A JSON document as a tree, the events that a reader reports for it, and the value that it stands
-- for. A null stands for no value, texts and names end at their first null character, and of two
-- members with one name the first counts.
use facter.Base.{ℕ, String, ◌≡◌, Bool, false, Option, none, some, List, [], ◌∷◌, ◌++◌, is_empty_str}
use facter.Base.Int.{ℤ, IsInt64, to_int64}
use facter.Base.Text.{c_str}
use facter.Base.Lower.{to_lower}
use facter.Values.{
  Value, Elements, Fields, string_value, integer_value, boolean_value, double_value, array_value,
  map_value, nil, end, add_element, add_field,
}
use facter.External.Json.{
  Event, on_null, on_bool, on_int, on_uint, on_int64, on_uint64, on_double, on_string, start_object,
  end_object, start_array, end_array,
}

mutual
  pub data Json : Type 0 where
    json_null : Json
    json_bool : Bool → Json
    json_int json_int64 : ℤ → Json
    json_uint json_uint64 : ℕ → Json
    json_double : ℕ → Json
    json_string : String → Json
    json_array : Items → Json
    json_object : Members → Json

  pub data Items : Type 0 where
    no_items : Items
    item : Json → Items → Items

  pub data Members : Type 0 where
    no_members : Members
    member : String → Json → Members → Members

unfoldable mutual
  pub events : Json → List Event → List Event
  events json_null rest = on_null ∷ rest
  events (json_bool b) rest = on_bool b ∷ rest
  events (json_int n) rest = on_int n ∷ rest
  events (json_int64 n) rest = on_int64 n ∷ rest
  events (json_uint n) rest = on_uint n ∷ rest
  events (json_uint64 n) rest = on_uint64 n ∷ rest
  events (json_double d) rest = on_double d ∷ rest
  events (json_string s) rest = on_string s ∷ rest
  events (json_array xs) rest = start_array ∷ item_events xs (end_array ∷ rest)
  events (json_object ms) rest = start_object ∷ member_events ms (end_object ∷ rest)

  pub item_events : Items → List Event → List Event
  item_events no_items rest = rest
  item_events (item j xs) rest = events j (item_events xs rest)

  pub member_events : Members → List Event → List Event
  member_events no_members rest = rest
  member_events (member k j ms) rest = on_string k ∷ events j (member_events ms rest)

unfoldable mutual
  unfolding c_str

  pub value_of : Json → Option Value
  value_of json_null = none
  value_of (json_bool b) = some (boolean_value false b)
  value_of (json_int n) = some (integer_value false n)
  value_of (json_int64 n) = some (integer_value false n)
  value_of (json_uint n) = some (integer_value false (to_int64 n))
  value_of (json_uint64 n) = some (integer_value false (to_int64 n))
  value_of (json_double d) = some (double_value false d)
  value_of (json_string s) = some (string_value false (c_str s))
  value_of (json_array xs) = some (array_value false (items_onto xs nil))
  value_of (json_object ms) = some (map_value false (members_onto ms end))

  pub items_onto : Items → Elements → Elements
  items_onto no_items acc = acc
  items_onto (item j xs) acc = items_onto xs (add_element (value_of j) acc)

  pub members_onto : Members → Fields → Fields
  members_onto no_members acc = acc
  members_onto (member k j ms) acc = members_onto ms (add_field (c_str k) (value_of j) acc)

abbrev pub one_more : String → Option Value → List (String × Value) → List (String × Value)
one_more k none added = added
one_more k (some v) added = added ++ (to_lower k, v) ∷ []

-- The facts of a top-level object: the names in lower case, in the order of the file, no nulls.
unfoldable pub facts_onto : Members → List (String × Value) → List (String × Value)
unfolding value_of c_str
facts_onto no_members added = added
facts_onto (member k j ms) added = facts_onto ms (one_more (c_str k) (value_of j) added)

-- No member's name is empty or begins with a null character, and a number that is reported as signed fits its type.
abbrev mutual
  pub IsReadable : Json → Type 0
  IsReadable (json_int n) = IsInt64 n
  IsReadable (json_array xs) = AllItems xs
  IsReadable (json_object ms) = AllMembers ms
  IsReadable _ = Unit

  pub AllItems : Items → Type 0
  AllItems no_items = Unit
  AllItems (item j xs) = IsReadable j × AllItems xs

  pub AllMembers : Members → Type 0
  AllMembers no_members = Unit
  AllMembers (member k j ms) = (is_empty_str (c_str k) ≡ false) × (IsReadable j × AllMembers ms)
