-- ===== src/Ruby/Written/Agrees.antt =====
-- Ruby values beside the built-in ones: lib/src/ruby/ruby_value.cc.
use mathlib.Core.Path.{ap₂}
use facter.Base.Text.{c_str}
use facter.Base.{ℕ, ◌+◌, ◌<◌, ◌^◌, String, ◌≡◌, refl, ap, ◌∙◌, Bool, true, false, List, ◌∷◌, arith}
use facter.Base.Int.{ℤ, pos, negsuc, to_uint64, to_int64-to_uint64}
use facter.Values.{
  Value, Elements, Fields, string_value, integer_value, boolean_value, double_value, array_value,
  map_value, nil, cons, end, field, no_elements, no_fields,
}
use facter.External.Json.Document.{json_int64, json_array, json_object, item, member}
use facter.Text.{needs_quotation}
use facter.Output.{
  Printer, Token, begin_map, end_map, begin_seq, end_seq, key_mark, value_mark, text, integer,
  emit_text, to_json, to_items, to_members, write_value, write_elements, write_fields, emit,
  emit_elements, emit_fields,
}
use facter.Ruby.Written.{
  object_json, objects_json, pairs_json, write_object, write_objects, write_pairs, emit_object,
  emit_objects, emit_pairs, to_ruby, elements_to_ruby, fields_to_ruby, no_more, no_pair,
}

-- A fixnum that is not negative.
abbrev pub IsCount : (ℤ → Bool) → ℤ → Type 0
IsCount small (pos n) = (small (pos n) ≡ true) × (n < 2 ^ 63)
IsCount small (negsuc n) = ⊥

-- There is no false, no number that is negative or no fixnum, and no name that would be quoted.
abbrev mutual
  pub IsCommon : (ℤ → Bool) → Value → Type 0
  IsCommon small (integer_value h n) = IsCount small n
  IsCommon small (boolean_value h b) = b ≡ true
  IsCommon small (array_value h xs) = AllCommon small xs
  IsCommon small (map_value h fs) = EachCommon small fs
  IsCommon small _ = Unit

  pub AllCommon : (ℤ → Bool) → Elements → Type 0
  AllCommon small nil = Unit
  AllCommon small (cons x xs) = IsCommon small x × AllCommon small xs

  pub EachCommon : (ℤ → Bool) → Fields → Type 0
  EachCommon small end = Unit
  EachCommon small (field k v fs) =
      (needs_quotation k ≡ false) × (IsCommon small v × EachCommon small fs)

module _ (small : ℤ → Bool) where
  mutual
    unfolding object_json to_ruby to_json

    json-to_ruby : (v : Value) → IsCommon small v → object_json (to_ruby small v) ≡ to_json v
    json-to_ruby (string_value h s) c = refl
    json-to_ruby (integer_value h (pos n)) (c, l) =
        rw c (ap json_int64 (to_int64-to_uint64 (pos n) l))
    json-to_ruby (integer_value h (negsuc n)) c = absurd c
    json-to_ruby (boolean_value h b) c = rw c refl
    json-to_ruby (double_value h d) c = refl
    json-to_ruby (array_value h xs) c = ap json_array (items-to_ruby xs c)
    json-to_ruby (map_value h fs) c = ap json_object (members-to_ruby fs c)

    items-to_ruby :
        (xs : Elements)
        → AllCommon small xs
        → objects_json (elements_to_ruby small xs) ≡ to_items xs
    items-to_ruby nil c = refl
    items-to_ruby (cons x xs) (c, d) = ap₂ item (json-to_ruby x c) (items-to_ruby xs d)

    members-to_ruby :
        (fs : Fields) → EachCommon small fs → pairs_json (fields_to_ruby small fs) ≡ to_members fs
    members-to_ruby end c = refl
    members-to_ruby (field k v fs) (q, (c, d)) =
        ap₂ (member (c_str k)) (json-to_ruby v c) (members-to_ruby fs d)

  uint64-pos : (n : ℕ) → n < 2 ^ 63 → to_uint64 (pos n) ≡ n
  unfolding to_uint64
  uint64-pos n h = ground arith

  emit_text-plain :
      (k : String) (rest : List Token)
      → needs_quotation k ≡ false
      → text k ∷ rest ≡ emit_text k rest
  unfolding emit_text
  emit_text-plain k rest h = rw h refl

  mutual
    unfolding emit_object to_ruby emit

    emit-to_ruby :
        (v : Value) (rest : List Token)
        → IsCommon small v
        → emit_object (to_ruby small v) rest ≡ emit v rest
    emit-to_ruby (string_value h s) rest c = refl
    emit-to_ruby (integer_value h (pos n)) rest (c, l) =
        rw c (ap (λ m. integer (pos m) ∷ rest) (uint64-pos n l))
    emit-to_ruby (integer_value h (negsuc n)) rest c = absurd c
    emit-to_ruby (boolean_value h b) rest c = rw c refl
    emit-to_ruby (double_value h d) rest c = refl
    emit-to_ruby (array_value h xs) rest c =
        ap (λ ts. begin_seq ∷ ts) (emit_elements-to_ruby xs (end_seq ∷ rest) c)
    emit-to_ruby (map_value h fs) rest c =
        ap (λ ts. begin_map ∷ ts) (emit_fields-to_ruby fs (end_map ∷ rest) c)

    emit_elements-to_ruby :
        (xs : Elements) (rest : List Token)
        → AllCommon small xs
        → emit_objects (elements_to_ruby small xs) rest ≡ emit_elements xs rest
    emit_elements-to_ruby nil rest c = refl
    emit_elements-to_ruby (cons x xs) rest (c, d) =
        emit-to_ruby x (emit_objects (elements_to_ruby small xs) rest) c
        ∙ ap (λ ts. emit x ts) (emit_elements-to_ruby xs rest d)

    emit_fields-to_ruby :
        (fs : Fields) (rest : List Token)
        → EachCommon small fs
        → emit_pairs (fields_to_ruby small fs) rest ≡ emit_fields fs rest
    emit_fields-to_ruby end rest c = refl
    emit_fields-to_ruby (field k v fs) rest (q, (c, d)) =
        ap (λ ts. key_mark ∷ text k ∷ value_mark ∷ ts)
          (emit-to_ruby v (emit_pairs (fields_to_ruby small fs) rest) c
            ∙ ap (λ ts. emit v ts) (emit_fields-to_ruby fs rest d))
        ∙ ap (λ ts. key_mark ∷ ts) (emit_text-plain k (value_mark ∷ emit v (emit_fields fs rest)) q)

  module _ (printer : Printer) where
    no_more-to_ruby : (xs : Elements) → no_more (elements_to_ruby small xs) ≡ no_elements xs
    unfolding to_ruby
    no_more-to_ruby nil = refl
    no_more-to_ruby (cons x xs) = refl

    no_pair-to_ruby : (fs : Fields) → no_pair (fields_to_ruby small fs) ≡ no_fields fs
    unfolding to_ruby
    no_pair-to_ruby end = refl
    no_pair-to_ruby (field k v fs) = refl

    mutual
      unfolding write_object to_ruby write_value

      write-to_ruby :
          (quoted : Bool) (level : ℕ) (v : Value)
          → IsCommon small v
          → write_object printer quoted level (to_ruby small v) ≡ write_value printer quoted level v
      write-to_ruby quoted level (string_value h s) c = refl
      write-to_ruby quoted level (integer_value h (pos n)) (c, l) =
          rw c (ap (λ m. printer.print_int (pos m)) (uint64-pos n l))
      write-to_ruby quoted level (integer_value h (negsuc n)) c = absurd c
      write-to_ruby quoted level (boolean_value h b) c = rw c refl
      write-to_ruby quoted level (double_value h d) c = refl
      write-to_ruby quoted level (array_value h xs) c =
          rw (no_more-to_ruby xs, write_elements-to_ruby true level xs c) refl
      write-to_ruby quoted level (map_value h fs) c =
          rw (no_pair-to_ruby fs, write_fields-to_ruby true level fs c) refl

      write_elements-to_ruby :
          (first : Bool) (level : ℕ) (xs : Elements)
          → AllCommon small xs
          → write_objects printer first level (elements_to_ruby small xs)
            ≡ write_elements printer first level xs
      write_elements-to_ruby first level nil c = refl
      write_elements-to_ruby first level (cons x xs) (c, d) =
          rw (write-to_ruby true (level + 1) x c, write_elements-to_ruby false level xs d) refl

      write_fields-to_ruby :
          (first : Bool) (level : ℕ) (fs : Fields)
          → EachCommon small fs
          → write_pairs printer first level (fields_to_ruby small fs)
            ≡ write_fields printer first level fs
      write_fields-to_ruby first level end c = refl
      write_fields-to_ruby first level (field k v fs) (q, (c, d)) =
          rw (write-to_ruby true (level + 1) v c, write_fields-to_ruby false level fs d) refl

    -- A value without false, without negative numbers and numbers that are no fixnums, and without
    -- names that would be quoted, is written in each format as the Ruby value that it converts to.
    pub to_ruby-agrees :
        (quoted : Bool) (level : ℕ) (v : Value) (rest : List Token)
        → IsCommon small v
        → (object_json (to_ruby small v) ≡ to_json v)
          × (emit_object (to_ruby small v) rest ≡ emit v rest)
          × (write_object printer quoted level (to_ruby small v)
              ≡ write_value printer quoted level v)
    to_ruby-agrees quoted level v rest c =
        (json-to_ruby v c, emit-to_ruby v rest c, write-to_ruby quoted level v c)
