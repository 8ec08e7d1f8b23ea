-- ===== src/Output.antt =====
-- How values and facts are written: `write` and `to_json` of lib/src/facts/scalar_value.cc,
-- array_value.cc and map_value.cc, and `write` of lib/src/facts/collection.cc. A function gives what
-- its source appends to the stream. A JSON document is the tree that rapidjson is handed, and YAML
-- the tokens that go to the emitter of yaml-cpp: what these libraries print is theirs.
pub mod Shown
pub mod Lines
pub mod Rebuild
pub mod Reread
pub mod Agree
use Prim.Native.String.{[], ◌∷◌}
use facter.Base.Text.{c_str}
use facter.Base.{
  ℕ, zero, suc, ◌+◌, ◌-◌, ◌*◌, String, Char, code, Bool, true, false, not, ◌&&◌, Option, none, some,
  List, [], ◌∷◌, ◌++◌, ◌=?◌, if◌then◌else◌, is_empty, length, ◌<>◌,
}
use facter.Base.Int.{ℤ}
use facter.Values.{
  Value, Elements, Fields, string_value, integer_value, boolean_value, double_value, array_value,
  map_value, nil, cons, end, field, hidden, no_elements, no_fields,
}
use facter.Collection.{Action, Resolver, Collection, Outcome, returned, ◌>>=◌, resolve_facts, exec}
use facter.Query.{query_value}
use facter.External.Json.Document.{
  Json, json_bool, json_int64, json_double, json_string, json_array, json_object, Items, no_items,
  item, Members, no_members, member,
}
use facter.Text.{needs_quotation}

-- `fill_n(ostream_iterator<char>(os), n, ' ')`
unfoldable pub fill : ℕ → String
fill zero = ""
fill (suc n) = " " <> fill n

-- How `operator<<` prints the numbers.
pub record Printer : Type 0 where
  pub print_int : ℤ → String
  pub print_double : ℕ → String

module _ (printer : Printer) where
  unfoldable mutual
    unfolding fill

    pub write_value : Bool → ℕ → Value → String
    write_value quoted level (string_value h s) = if quoted then "\"" <> (s <> "\"") else s
    write_value quoted level (integer_value h n) = printer.print_int n
    write_value quoted level (boolean_value h b) = if b then "true" else "false"
    write_value quoted level (double_value h d) = printer.print_double d
    write_value quoted level (array_value h xs) =
        if no_elements xs
        then "[]"
        else "[\n" <> (write_elements true level xs <> ("\n" <> (fill ((level - 1) * 2) <> "]")))
    write_value quoted level (map_value h fs) =
        if no_fields fs
        then "{}"
        else "{\n" <> (write_fields true level fs <> ("\n" <> (fill ((level - 1) * 2) <> "}")))

    pub write_elements : Bool → ℕ → Elements → String
    write_elements first level nil = ""
    write_elements first level (cons x xs) =
        (if first then "" else ",\n")
        <> (fill (level * 2) <> (write_value true (level + 1) x <> write_elements false level xs))

    pub write_fields : Bool → ℕ → Fields → String
    write_fields first level end = ""
    write_fields first level (field k v fs) =
        (if first then "" else ",\n")
        <> (fill (level * 2)
            <> (k <> (" => " <> (write_value true (level + 1) v <> write_fields false level fs))))

unfoldable mutual
  unfolding c_str

  pub to_json : Value → Json
  to_json (string_value h s) = json_string s
  to_json (integer_value h n) = json_int64 n
  to_json (boolean_value h b) = json_bool b
  to_json (double_value h d) = json_double d
  to_json (array_value h xs) = json_array (to_items xs)
  to_json (map_value h fs) = json_object (to_members fs)

  pub to_items : Elements → Items
  to_items nil = no_items
  to_items (cons x xs) = item (to_json x) (to_items xs)

  pub to_members : Fields → Members
  to_members end = no_members
  to_members (field k v fs) = member (c_str k) (to_json v) (to_members fs)

-- What is handed to the emitter.
pub data Token : Type 0 where
  begin_map end_map begin_seq end_seq key_mark value_mark double_quoted : Token
  null : Token
  text : String → Token
  integer : ℤ → Token
  boolean : Bool → Token
  double : ℕ → Token

unfoldable pub emit_text : String → List Token → List Token
unfolding needs_quotation
emit_text s rest = if needs_quotation s then double_quoted ∷ text s ∷ rest else text s ∷ rest

-- The tokens of a value, and then those that follow it.
unfoldable mutual
  unfolding emit_text

  pub emit : Value → List Token → List Token
  emit (string_value h s) rest = emit_text s rest
  emit (integer_value h n) rest = integer n ∷ rest
  emit (boolean_value h b) rest = boolean b ∷ rest
  emit (double_value h d) rest = double d ∷ rest
  emit (array_value h xs) rest = begin_seq ∷ emit_elements xs (end_seq ∷ rest)
  emit (map_value h fs) rest = begin_map ∷ emit_fields fs (end_map ∷ rest)

  pub emit_elements : Elements → List Token → List Token
  emit_elements nil rest = rest
  emit_elements (cons x xs) rest = emit x (emit_elements xs rest)

  pub emit_fields : Fields → List Token → List Token
  emit_fields end rest = rest
  emit_fields (field k v fs) rest =
      key_mark ∷ emit_text k (value_mark ∷ emit v (emit_fields fs rest))

-- The names and values that a writer goes over; `none` is a null. `all`: there are no queries.
abbrev pub Entries : Type 0
Entries = List (String × Option Value)

abbrev pub entries : Fields → Entries
entries end = []
entries (field k v fs) = (k, some v) ∷ entries fs

unfoldable pub is_left_out : Bool → Option Value → Bool
unfolding hidden
is_left_out all none = false
is_left_out all (some v) = all && hidden v

module _ (printer : Printer) where
  abbrev pub write_optional : Option Value → String
  write_optional none = ""
  write_optional (some v) = write_value printer false 1 v

  -- The calls of `writer` in `write_hash`.
  unfoldable pub hash_entries : Bool → Bool → Entries → String
  unfolding write_value is_left_out
  hash_entries all first [] = ""
  hash_entries all first ((k, v) ∷ es) = elim (is_left_out all v) [
    | true ↦ hash_entries all first es
    | false ↦
        (if first then "" else "\n")
        <> (k <> (" => " <> (write_optional v <> hash_entries all false es)))
  ]

abbrev pub json_optional : Option Value → Json
json_optional none = json_string ""
json_optional (some v) = to_json v

-- The calls of `builder` in `write_json`.
unfoldable pub json_entries : Bool → Entries → Members
unfolding to_json is_left_out c_str
json_entries all [] = no_members
json_entries all ((k, v) ∷ es) =
    let rest = json_entries all es in
    if is_left_out all v then rest else member (c_str k) (json_optional v) rest

abbrev pub emit_optional : Option Value → List Token → List Token
emit_optional none rest = double_quoted ∷ text "" ∷ rest
emit_optional (some v) rest = emit v rest

-- The calls of `writer` in `write_yaml`.
unfoldable pub yaml_entries : Bool → Entries → List Token → List Token
unfolding emit is_left_out
yaml_entries all [] rest = rest
yaml_entries all ((k, v) ∷ es) rest =
    let later = yaml_entries all es rest in
    if is_left_out all v then later else key_mark ∷ emit_text k (value_mark ∷ emit_optional v later)

pub data Format : Type 0 where
  hash json yaml : Format

-- What a writer appends to the stream, or hands to a library that does.
pub data Printed : Type 0 where
  hash_text : String → Printed
  json_document : Json → Printed
  yaml_tokens : List Token → Printed

module _ (printer : Printer) where
  abbrev write_only : Option Value → Printed
  write_only v = hash_text (write_optional printer v)

  -- The output of a format for the names and values that its writer goes over.
  unfoldable pub print_entries : Format → Bool → Entries → Printed
  unfolding hash_entries json_entries yaml_entries
  print_entries hash all es = hash_text (hash_entries printer all true es)
  print_entries json all es = json_document (json_object (json_entries all es))
  print_entries yaml all es = yaml_tokens (begin_map ∷ yaml_entries all es (end_map ∷ []))

  -- In `write_hash` the result of a single query stands alone.
  abbrev print_queries : Format → Entries → Printed
  print_queries hash ((query, v) ∷ []) = write_only v
  print_queries fmt es = print_entries fmt false es

  module _ (heap : ℕ → Resolver) (resolve : Action → Collection → Outcome Collection) where
    -- The values of the queries, in the order of their set.
    unfoldable pub query_all : List String → Collection → Outcome (Entries × Collection)
    unfolding query_value
    query_all [] c = returned ([], c)
    query_all (query ∷ queries) c = query_value heap resolve query c >>= λ (v, c').
        query_all queries c' >>= λ (es, c''). returned ((query, v) ∷ es, c'')

    unfoldable pub write_queries :
        Format → List String → Collection → Outcome (Printed × Collection)
    unfolding query_all print_entries
    write_queries fmt queries c =
        query_all queries c >>= λ (es, c'). returned (print_queries fmt es, c')

  -- `collection::write`; the queries are a set, in its order.
  unfoldable pub write :
      (ℕ → Resolver) → Format → List String → Collection → Outcome (Printed × Collection)
  unfolding resolve_facts write_queries print_entries
  write heap fmt queries c =
      if is_empty queries
      then (resolve_facts heap c >>= λ c'. returned (print_entries fmt true (entries c'.facts), c'))
      else write_queries heap (exec heap (length c.resolvers)) fmt queries c
