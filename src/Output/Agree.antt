-- ===== src/Output/Agree.antt =====
-- One tree in two formats: `write_json` and `write_yaml` of lib/src/facts/collection.cc.
use mathlib.Core.Path.{ap₂}
use facter.Base.Text.{c_str}
use facter.Base.{
  String, ◌≡◌, refl, ap, ◌∙◌, Bool, Option, none, some, List, [], ◌∷◌, Bool-cases, inl, inr,
}
use facter.Values.{
  Value, Elements, Fields, string_value, integer_value, boolean_value, double_value, array_value,
  map_value, nil, cons, end, field,
}
use facter.External.Json.Document.{
  Json, json_null, json_bool, json_int, json_int64, json_uint, json_uint64, json_double,
  json_string, json_array, json_object, Items, no_items, item, Members, no_members, member,
}
use facter.Base.Int.{pos}
use facter.Text.{needs_quotation}
use facter.Output.{
  Token, begin_map, end_map, begin_seq, end_seq, key_mark, value_mark, text, integer, boolean,
  double, to_json, to_items, to_members, emit, emit_text, emit_elements, emit_fields, Entries,
  is_left_out, json_entries, yaml_entries, emit_optional, json_optional,
}

-- The tokens that a tree stands for.
unfoldable mutual
  unfolding emit_text

  pub tokens : Json → List Token → List Token
  tokens json_null rest = text "null" ∷ rest
  tokens (json_bool b) rest = boolean b ∷ rest
  tokens (json_int n) rest = integer n ∷ rest
  tokens (json_int64 n) rest = integer n ∷ rest
  tokens (json_uint n) rest = integer (pos n) ∷ rest
  tokens (json_uint64 n) rest = integer (pos n) ∷ rest
  tokens (json_double d) rest = double d ∷ rest
  tokens (json_string s) rest = emit_text s rest
  tokens (json_array xs) rest = begin_seq ∷ item_tokens xs (end_seq ∷ rest)
  tokens (json_object ms) rest = begin_map ∷ member_tokens ms (end_map ∷ rest)

  pub item_tokens : Items → List Token → List Token
  item_tokens no_items rest = rest
  item_tokens (item j xs) rest = tokens j (item_tokens xs rest)

  pub member_tokens : Members → List Token → List Token
  member_tokens no_members rest = rest
  member_tokens (member k j ms) rest =
      key_mark ∷ emit_text k (value_mark ∷ tokens j (member_tokens ms rest))

-- No name has a null character.
abbrev pub IsSpelled : String → Type 0
IsSpelled k = c_str k ≡ k

abbrev mutual
  pub NamesSpelled : Value → Type 0
  NamesSpelled (array_value h xs) = ElementsSpelled xs
  NamesSpelled (map_value h fs) = FieldsSpelled fs
  NamesSpelled _ = Unit

  pub ElementsSpelled : Elements → Type 0
  ElementsSpelled nil = Unit
  ElementsSpelled (cons x xs) = NamesSpelled x × ElementsSpelled xs

  pub FieldsSpelled : Fields → Type 0
  FieldsSpelled end = Unit
  FieldsSpelled (field k v fs) = IsSpelled k × (NamesSpelled v × FieldsSpelled fs)

mutual
  unfolding tokens to_json emit

  tokens-to_json :
      (v : Value) (rest : List Token) → NamesSpelled v → tokens (to_json v) rest ≡ emit v rest
  tokens-to_json (string_value h s) rest n = refl
  tokens-to_json (integer_value h i) rest n = refl
  tokens-to_json (boolean_value h b) rest n = refl
  tokens-to_json (double_value h d) rest n = refl
  tokens-to_json (array_value h xs) rest n =
      ap (λ ts. begin_seq ∷ ts) (item_tokens-to_items xs (end_seq ∷ rest) n)
  tokens-to_json (map_value h fs) rest n =
      ap (λ ts. begin_map ∷ ts) (member_tokens-to_members fs (end_map ∷ rest) n)

  item_tokens-to_items :
      (xs : Elements) (rest : List Token)
      → ElementsSpelled xs
      → item_tokens (to_items xs) rest ≡ emit_elements xs rest
  item_tokens-to_items nil rest n = refl
  item_tokens-to_items (cons x xs) rest (n, m) =
      tokens-to_json x (item_tokens (to_items xs) rest) n
      ∙ ap (λ ts. emit x ts) (item_tokens-to_items xs rest m)

  member_tokens-to_members :
      (fs : Fields) (rest : List Token)
      → FieldsSpelled fs
      → member_tokens (to_members fs) rest ≡ emit_fields fs rest
  member_tokens-to_members end rest n = refl
  member_tokens-to_members (field k v fs) rest (e, (n, m)) =
      ap₂ (λ j ts. key_mark ∷ emit_text j (value_mark ∷ ts)) e
        (tokens-to_json v (member_tokens (to_members fs) rest) n
          ∙ ap (λ ts. emit v ts) (member_tokens-to_members fs rest m))

abbrev pub OptionSpelled : Option Value → Type 0
OptionSpelled none = Unit
OptionSpelled (some v) = NamesSpelled v

abbrev pub EntriesSpelled : Entries → Type 0
EntriesSpelled [] = Unit
EntriesSpelled ((k, v) ∷ es) = IsSpelled k × (OptionSpelled v × EntriesSpelled es)

tokens-json_optional :
    (v : Option Value) (rest : List Token)
    → OptionSpelled v
    → tokens (json_optional v) rest ≡ emit_optional v rest
unfolding tokens emit_text needs_quotation
tokens-json_optional none rest n = refl
tokens-json_optional (some v) rest n = tokens-to_json v rest n

-- Where no name has a null character, the YAML tokens that are written are those of the JSON
-- document for the same facts or queries: the same names in the same order, with the same values.
pub member_tokens-json_entries :
    (all : Bool) (es : Entries) (rest : List Token)
    → EntriesSpelled es
    → member_tokens (json_entries all es) rest ≡ yaml_entries all es rest
unfolding tokens json_entries yaml_entries
member_tokens-json_entries all [] rest n = refl
member_tokens-json_entries all ((k, v) ∷ es) rest (e, (n, m)) =
    elim (Bool-cases (is_left_out all v)) [
      | inl h ↦ rw h (member_tokens-json_entries all es rest m)
      | inr h ↦
          rw (h, e, member_tokens-json_entries all es rest m)
            (ap (λ ts. key_mark ∷ emit_text k (value_mark ∷ ts))
              (tokens-json_optional v (yaml_entries all es rest) n))
    ]
