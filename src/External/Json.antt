-- ===== src/External/Json.antt =====
-- lib/src/facts/external/json_resolver.cc: the handler of the events that rapidjson's reader
-- reports. The calls of `collection::add` are collected in order; `Raised` carries those that were
-- made before the exception. A `string` that was moved from is empty. Texts come as `char const*`,
-- and their lengths are not asked.
pub mod Document
pub mod Replay
use facter.Base.{
  ℕ, String, Bool, true, false, not, ◌&&◌, ◌||◌, Option, none, some, List, [], ◌∷◌, ◌++◌,
  if◌then◌else◌, is_empty_str,
}
use facter.Base.Int.{ℤ, to_int64, to_uint64}
use facter.Base.Text.{c_str}
use facter.Base.Lower.{to_lower}
use facter.Values.{
  Value, Elements, Fields, string_value, integer_value, boolean_value, double_value, array_value,
  map_value, nil, end, add_element, add_field,
}

pub data Event : Type 0 where
  on_null : Event
  on_bool : Bool → Event
  on_int : ℤ → Event
  on_uint : ℕ → Event
  on_int64 : ℤ → Event
  on_uint64 : ℕ → Event
  on_double : ℕ → Event
  on_string : String → Event
  start_object : Event
  end_object : Event
  start_array : Event
  end_array : Event

pub data Error : Type 0 where
  expected_key expected_object : Error
  pop_of_empty_stack : Error

-- `added` holds the calls `_facts.add(key, value)`, first call first.
pub record Handler : Type 0 where
  pub initialized : Bool
  pub key : String
  pub stack : List (String × Value)
  pub added : List (String × Value)

abbrev pub initial : Handler
initial = record { initialized = false; key = ""; stack = []; added = [] }

pub data Result : Type 0 where
  running : Handler → Result
  raised : Error → List (String × Value) → Result

infixl 5 ◌>>=◌
abbrev pub ◌>>=◌ : Result → (Handler → Result) → Result
running h >>= f = f h
raised e added >>= f = raised e added

unfoldable pub check_initialized : Handler → Result
check_initialized h = if h.initialized then running h else raised expected_object h.added

-- The rest of `add_value`, where the value on the top of the stack takes the new one.
abbrev add_to_top : Value → Value → List (String × Value) → String → Handler → Result
add_to_top (array_value hid xs) v rest key_below h =
    running (record h { stack = (key_below, array_value hid (add_element (some v) xs)) ∷ rest })
add_to_top (map_value hid fs) v rest key_below h =
    if is_empty_str h.key
    then raised expected_key h.added
    else running (record h {
      stack = (key_below, map_value hid (add_field h.key (some v) fs)) ∷ rest;
      key = "";
    })
add_to_top (string_value hid s) v rest key_below h = running h
add_to_top (integer_value hid n) v rest key_below h = running h
add_to_top (boolean_value hid b) v rest key_below h = running h
add_to_top (double_value hid d) v rest key_below h = running h

abbrev add_on_stack : List (String × Value) → Value → Handler → Result
add_on_stack [] v h =
    if is_empty_str h.key
    then raised expected_key h.added
    else running (record h { added = h.added ++ (to_lower h.key, v) ∷ []; key = "" })
add_on_stack ((key_below, top) ∷ rest) v h = add_to_top top v rest key_below h

unfoldable pub add_value : Value → Handler → Result
unfolding check_initialized add_element add_field
add_value v h = check_initialized h >>= λ h'. add_on_stack h'.stack v h'

-- Whether a string is a key: at the top level or in a map, while there is no key yet.
abbrev is_map : Value → Bool
is_map (map_value h fs) = true
is_map _ = false

abbrev takes_key : List (String × Value) → Bool
takes_key [] = true
takes_key ((k, top) ∷ rest) = is_map top

abbrev pop : List (String × Value) → Handler → Result
pop [] h = raised pop_of_empty_stack h.added
pop ((key_below, top) ∷ rest) h = add_value top (record h { stack = rest; key = key_below })

unfoldable pub handle : Event → Handler → Result
unfolding add_value check_initialized c_str
handle on_null h = check_initialized h >>= λ h'. running (record h' { key = "" })
handle (on_bool b) h = add_value (boolean_value false b) h
handle (on_int n) h = add_value (integer_value false (to_int64 (to_uint64 n))) h
handle (on_uint n) h = add_value (integer_value false (to_int64 n)) h
handle (on_int64 n) h = add_value (integer_value false n) h
handle (on_uint64 n) h = add_value (integer_value false (to_int64 n)) h
handle (on_double d) h = add_value (double_value false d) h
handle (on_string s) h =
    if takes_key h.stack && is_empty_str h.key
    then (check_initialized h >>= λ h'. running (record h' { key = c_str s }))
    else add_value (string_value false (c_str s)) h
handle start_object h =
    if not h.initialized
    then running (record h { initialized = true })
    else running (record h { stack = (h.key, map_value false end) ∷ h.stack; key = "" })
handle end_object h = elim h.stack [ [] ↦ running h | e ∷ rest ↦ pop h.stack h ]
handle start_array h = check_initialized h >>= λ h'.
    running (record h' { stack = (h'.key, array_value false nil) ∷ h'.stack; key = "" })
handle end_array h = pop h.stack h

unfoldable pub run : List Event → Handler → Result
unfolding handle
run [] h = running h
run (e ∷ es) h = handle e h >>= λ h'. run es h'
