-- ===== src/Resolvers/Gce.antt =====
-- lib/src/facts/resolvers/gce_resolver.cc: the handler of the events of Google's metadata, and the
-- resolver. What the request gives and what rapidjson's reader reports of it is a `Reply`. A `string`
-- that was moved from is empty.
pub mod Metadata
use Prim.Native.String.{[], ◌∷◌}
use facter.Base.{
  ℕ, String, Char, code, Bool, true, false, not, ◌&&◌, ◌||◌, Option, none, some, List, [], ◌∷◌,
  ◌==◌, ◌=?◌, if◌then◌else◌, is_empty_str,
}
use facter.Base.Text.{c_str}
use facter.Base.Int.{to_int64, to_uint64}
use facter.Values.{
  Value, Elements, Fields, string_value, integer_value, boolean_value, double_value, array_value,
  map_value, nil, end, add_element, add_field, no_fields,
}
use facter.Collection.{Action, done, add_fact, get_fact, Resolver}
use facter.Linux.Virtualization.{string_of}
use facter.Execution.Command.{trim}
use facter.External.Json.{
  Event, on_null, on_bool, on_int, on_uint, on_int64, on_uint64, on_double, on_string, start_object,
  end_object, start_array, end_array, Error, expected_key, expected_object, pop_of_empty_stack,
}

-- `root` is the map that is given to the handler.
pub record Handler : Type 0 where
  pub initialized : Bool
  pub root : Fields
  pub key : String
  pub stack : List (String × Value)

pub data Result : Type 0 where
  running : Handler → Result
  raised : Error → Result

infixl 5 ◌>>=◌
abbrev pub ◌>>=◌ : Result → (Handler → Result) → Result
running h >>= f = f h
raised e >>= f = raised e

abbrev pub initial : Handler
initial = record { initialized = false; root = end; key = ""; stack = [] }

unfoldable pub check_initialized : Handler → Result
check_initialized h = if h.initialized then running h else raised expected_object

abbrev add_to_top : Value → Value → List (String × Value) → String → Handler → Result
add_to_top (array_value hid xs) v rest below h =
    running (record h { stack = (below, array_value hid (add_element (some v) xs)) ∷ rest })
add_to_top (map_value hid fs) v rest below h =
    if is_empty_str h.key
    then raised expected_key
    else running
        (record h { stack = (below, map_value hid (add_field h.key (some v) fs)) ∷ rest; key = "" })
add_to_top (string_value hid s) v rest below h = running h
add_to_top (integer_value hid n) v rest below h = running h
add_to_top (boolean_value hid b) v rest below h = running h
add_to_top (double_value hid d) v rest below h = running h

abbrev add_on_stack : List (String × Value) → Value → Handler → Result
add_on_stack [] v h =
    if is_empty_str h.key
    then raised expected_key
    else running (record h { root = add_field h.key (some v) h.root; key = "" })
add_on_stack ((below, top) ∷ rest) v h = add_to_top top v rest below h

unfoldable pub add_value : Value → Handler → Result
unfolding check_initialized add_element add_field
add_value v h = check_initialized h >>= λ h'. add_on_stack h'.stack v h'

unfoldable pub key_array : List String → Elements → Elements
unfolding add_element
key_array [] xs = xs
key_array (k ∷ ks) xs = key_array ks (add_element (some (string_value false k)) xs)

-- What follows the last slash, if there is one.
unfoldable pub after_slash : String → Option String
after_slash [] = none
after_slash (c ∷ s) = elim (after_slash s) [
  | some t ↦ some t
  | none ↦ if code c =? b'/' then some s else none
]

abbrev last_name : String → String
unfolding after_slash
last_name s = elim (after_slash s) [ none ↦ s | some t ↦ t ]

abbrev pub is_qualified : String → Bool
is_qualified key = key == "image" || (key == "machineType" || (key == "zone" || key == "network"))

abbrev is_map : Value → Bool
is_map (map_value h fs) = true
is_map _ = false

abbrev pub takes_key : List (String × Value) → Bool
takes_key [] = true
takes_key ((k, top) ∷ rest) = is_map top

abbrev pop : List (String × Value) → Handler → Result
unfolding add_value
pop [] h = raised pop_of_empty_stack
pop ((below, top) ∷ rest) h = add_value top (record h { stack = rest; key = below })

-- The answer of the server, with what the reader reports for its body and whether it then fails.
pub record Reply : Type 0 where
  pub status_code : ℕ
  pub events : List Event
  pub has_parse_error : Bool

abbrev parsed : Bool → Result → Fields
parsed failed (raised e) = end
parsed failed (running h) = if failed then end else h.root

-- `split` is `boost::split` at newlines, where adjacent ones count as one.
module _ (split : String → List String) where
  -- What a text under that key is turned into.
  unfoldable pub text_value : String → String → Value
  unfolding key_array after_slash trim
  text_value key s =
      if key == "sshKeys"
      then array_value false (key_array (split (trim s)) nil)
      else if is_qualified key
      then string_value false (last_name s)
      else string_value false s

  unfoldable pub handle : Event → Handler → Result
  unfolding add_value check_initialized text_value c_str
  handle on_null h = check_initialized h >>= λ h'. running (record h' { key = "" })
  handle (on_bool b) h = add_value (boolean_value false b) h
  handle (on_int n) h = add_value (integer_value false (to_int64 (to_uint64 n))) h
  handle (on_uint n) h = add_value (integer_value false (to_int64 n)) h
  handle (on_int64 n) h = add_value (integer_value false (to_int64 (to_uint64 n))) h
  handle (on_uint64 n) h = add_value (integer_value false (to_int64 n)) h
  handle (on_double d) h = add_value (double_value false d) h
  handle (on_string s) h =
      if takes_key h.stack && is_empty_str h.key
      then (check_initialized h >>= λ h'. running (record h' { key = c_str s }))
      else add_value (text_value h.key s) h
  handle start_object h =
      if not h.initialized
      then running (record h { initialized = true })
      else running (record h { stack = (h.key, map_value false end) ∷ h.stack; key = "" })
  handle end_object h = elim h.stack [ [] ↦ running h | e ∷ rest ↦ pop h.stack h ]
  handle start_array h = check_initialized h >>= λ h'.
      running (record h' { stack = (h'.key, array_value false nil) ∷ h'.stack; key = "" })
  handle end_array h = pop h.stack h

  unfoldable pub run : List Event → Handler → Result
  unfolding handle
  run [] h = running h
  run (e ∷ es) h = handle e h >>= λ h'. run es h'

  -- The data that the resolver has in the end; `none` is a request that throws.
  unfoldable pub metadata : Option Reply → Fields
  unfolding run
  metadata none = end
  metadata (some r) =
      let result = run r.events initial in
      if r.status_code =? 200 then parsed r.has_parse_error result else end

  abbrev add_metadata : Fields → Action
  add_metadata m = if no_fields m then done else add_fact "gce" (some (map_value false m)) done

  unfoldable pub gce_action : Option Reply → Action
  unfolding metadata
  gce_action reply = get_fact "virtualization" λ v. elim (string_of v) [
    | none ↦ done
    | some vm ↦ if vm == "gce" then add_metadata (metadata reply) else done
  ]

  unfoldable pub gce_resolver : Option Reply → Resolver
  unfolding gce_action
  gce_resolver reply = record {
    name = "GCE";
    names = "gce" ∷ [];
    regexes = [];
    body = gce_action reply;
  }
