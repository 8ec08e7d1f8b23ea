-- ===== src/Ruby/Written.antt =====
-- How Ruby values are written: lib/src/ruby/ruby_value.cc, and `to_ruby` of lib/src/ruby/api.cc. A
-- key of a hash is the text that it is converted to. `small` says which numbers Ruby keeps as
-- fixnums; a larger one is an object of no class that is asked for.
pub mod Agrees
pub mod Falsehood
use facter.Base.Text.{c_str}
use facter.Base.{
  ℕ, zero, suc, ◌+◌, ◌-◌, ◌*◌, String, Bool, true, false, Option, none, some, List, ◌∷◌,
  if◌then◌else◌, ◌<>◌,
}
use facter.Base.Int.{ℤ, pos, to_int64, to_uint64}
use facter.Values.{
  Value, Elements, Fields, string_value, integer_value, boolean_value, double_value, array_value,
  map_value, nil, cons, end, field,
}
use facter.External.Json.Document.{
  Json, json_null, json_bool, json_int64, json_double, json_string, json_array, json_object, Items,
  no_items, item, Members, no_members, member,
}
use facter.Output.{
  Printer, fill, Token, begin_map, end_map, begin_seq, end_seq, key_mark, value_mark, null, text,
  integer, boolean, double, emit_text,
}

mutual
  pub data Object : Type 0 where
    true_object false_object : Object
    string symbol : String → Object
    fixnum : ℤ → Object
    float : ℕ → Object
    array : Objects → Object
    hash : Pairs → Object
    other : Object

  pub data Objects : Type 0 where
    no_objects : Objects
    object : Object → Objects → Objects

  pub data Pairs : Type 0 where
    no_pairs : Pairs
    pair : String → Object → Pairs → Pairs

unfoldable mutual
  unfolding c_str

  pub object_json : Object → Json
  object_json true_object = json_bool true
  object_json false_object = json_bool true
  object_json (string s) = json_string s
  object_json (symbol s) = json_string s
  object_json (fixnum n) = json_int64 (to_int64 (to_uint64 n))
  object_json (float d) = json_double d
  object_json (array xs) = json_array (objects_json xs)
  object_json (hash ps) = json_object (pairs_json ps)
  object_json other = json_null

  pub objects_json : Objects → Items
  objects_json no_objects = no_items
  objects_json (object x xs) = item (object_json x) (objects_json xs)

  pub pairs_json : Pairs → Members
  pairs_json no_pairs = no_members
  pairs_json (pair k v ps) = member (c_str k) (object_json v) (pairs_json ps)

abbrev pub no_more : Objects → Bool
no_more no_objects = true
no_more (object x xs) = false

abbrev pub no_pair : Pairs → Bool
no_pair no_pairs = true
no_pair (pair k v ps) = false

abbrev in_quotes : Bool → String → String
in_quotes quoted s = if quoted then "\"" <> (s <> "\"") else s

-- Numbers are printed as they are converted by `rb_num2ulong`.
module _ (printer : Printer) where
  unfoldable mutual
    unfolding fill

    pub write_object : Bool → ℕ → Object → String
    write_object quoted level true_object = "true"
    write_object quoted level false_object = "false"
    write_object quoted level (string s) = in_quotes quoted s
    write_object quoted level (symbol s) = in_quotes quoted s
    write_object quoted level (fixnum n) = printer.print_int (pos (to_uint64 n))
    write_object quoted level (float d) = printer.print_double d
    write_object quoted level (array xs) =
        if no_more xs
        then "[]"
        else "[\n" <> (write_objects true level xs <> ("\n" <> (fill ((level - 1) * 2) <> "]")))
    write_object quoted level (hash ps) =
        if no_pair ps
        then "{}"
        else "{\n" <> (write_pairs true level ps <> ("\n" <> (fill ((level - 1) * 2) <> "}")))
    write_object quoted level other = ""

    pub write_objects : Bool → ℕ → Objects → String
    write_objects first level no_objects = ""
    write_objects first level (object x xs) =
        (if first then "" else ",\n")
        <> (fill (level * 2) <> (write_object true (level + 1) x <> write_objects false level xs))

    pub write_pairs : Bool → ℕ → Pairs → String
    write_pairs first level no_pairs = ""
    write_pairs first level (pair k v ps) =
        (if first then "" else ",\n")
        <> (fill (level * 2)
            <> (k <> (" => " <> (write_object true (level + 1) v <> write_pairs false level ps))))

unfoldable mutual
  unfolding emit_text

  pub emit_object : Object → List Token → List Token
  emit_object true_object rest = boolean true ∷ rest
  emit_object false_object rest = boolean false ∷ rest
  emit_object (string s) rest = emit_text s rest
  emit_object (symbol s) rest = emit_text s rest
  emit_object (fixnum n) rest = integer (pos (to_uint64 n)) ∷ rest
  emit_object (float d) rest = double d ∷ rest
  emit_object (array xs) rest = begin_seq ∷ emit_objects xs (end_seq ∷ rest)
  emit_object (hash ps) rest = begin_map ∷ emit_pairs ps (end_map ∷ rest)
  emit_object other rest = null ∷ rest

  pub emit_objects : Objects → List Token → List Token
  emit_objects no_objects rest = rest
  emit_objects (object x xs) rest = emit_object x (emit_objects xs rest)

  pub emit_pairs : Pairs → List Token → List Token
  emit_pairs no_pairs rest = rest
  emit_pairs (pair k v ps) rest =
      key_mark ∷ text k ∷ value_mark ∷ emit_object v (emit_pairs ps rest)

-- `to_ruby`; the names of a map are distinct, so that each makes a pair of its own.
module _ (small : ℤ → Bool) where
  unfoldable mutual
    pub to_ruby : Value → Object
    to_ruby (string_value h s) = string s
    to_ruby (integer_value h n) = if small n then fixnum n else other
    to_ruby (boolean_value h b) = if b then true_object else false_object
    to_ruby (double_value h d) = float d
    to_ruby (array_value h xs) = array (elements_to_ruby xs)
    to_ruby (map_value h fs) = hash (fields_to_ruby fs)

    pub elements_to_ruby : Elements → Objects
    elements_to_ruby nil = no_objects
    elements_to_ruby (cons x xs) = object (to_ruby x) (elements_to_ruby xs)

    pub fields_to_ruby : Fields → Pairs
    fields_to_ruby end = no_pairs
    fields_to_ruby (field k v fs) = pair k (to_ruby v) (fields_to_ruby fs)
