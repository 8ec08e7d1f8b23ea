-- ===== src/Output/Lines.antt =====
-- Facts as text, one under the other: `write_hash` of lib/src/facts/collection.cc, and the elements
-- of a value, of lib/src/facts/array_value.cc and map_value.cc.
use facter.Base.{
  ℕ, ◌+◌, ◌-◌, ◌*◌, String, ◌≡◌, refl, ap, sym, Bool, true, false, Option, List, [], ◌∷◌,
  if◌then◌else◌, Bool-cases, inl, inr, ◌<>◌,
}
use text.Mathlib.TextLemmas.{append_assoc, nil-append}
use facter.Values.{Value, array_value, map_value, Elements, Fields, nil, cons, end, field}
use facter.Output.{
  Printer, Entries, is_left_out, hash_entries, fill, write_value, write_elements, write_fields,
  write_optional,
}

-- The texts with a separator between each two.
abbrev pub prefixed : String → List String → String
prefixed separator [] = ""
prefixed separator (s ∷ ss) = separator <> (s <> prefixed separator ss)

abbrev pub joined : String → List String → String
joined separator [] = ""
joined separator (s ∷ ss) = s <> prefixed separator ss

module _ (printer : Printer) where
  abbrev pub entry_line : String × Option Value → String
  entry_line (k, v) = k <> (" => " <> write_optional printer v)

  -- The entries that are not left out.
  unfoldable pub entry_lines : Bool → Entries → List String
  unfolding is_left_out
  entry_lines all [] = []
  entry_lines all ((k, v) ∷ es) =
      let rest = entry_lines all es in if is_left_out all v then rest else entry_line (k, v) ∷ rest

  line_assoc : (k v rest : String) → k <> (" => " <> (v <> rest)) ≡ (k <> (" => " <> v)) <> rest
  line_assoc k v rest = rw (append_assoc, append_assoc) refl

  hash_entries-prefixed :
      (all : Bool) (es : Entries)
      → hash_entries printer all false es ≡ prefixed "\n" (entry_lines all es)
  unfolding hash_entries entry_lines
  hash_entries-prefixed all [] = refl
  hash_entries-prefixed all ((k, v) ∷ es) = elim (Bool-cases (is_left_out all v)) [
    | inl h ↦ rw (h, hash_entries) (hash_entries-prefixed all es)
    | inr h ↦
        rw (h, hash_entries, hash_entries-prefixed all es)
          (ap (λ x. "\n" <> x)
            (line_assoc k (write_optional printer v) (prefixed "\n" (entry_lines all es))))
  ]

  -- One line for each fact that is not left out, its name and its value; nothing at the end.
  hash_entries-joined :
      (all : Bool) (es : Entries)
      → hash_entries printer all true es ≡ joined "\n" (entry_lines all es)
  unfolding hash_entries entry_lines
  hash_entries-joined all [] = refl
  hash_entries-joined all ((k, v) ∷ es) = elim (Bool-cases (is_left_out all v)) [
    | inl h ↦ rw (h, hash_entries) (hash_entries-joined all es)
    | inr h ↦
        rw (h, hash_entries, hash_entries-prefixed all es)
          (rw nil-append
            (line_assoc k (write_optional printer v) (prefixed "\n" (entry_lines all es))))
  ]

  -- The lines of a value's elements, and of its fields.
  unfoldable pub element_lines : ℕ → Elements → List String
  unfolding write_value fill
  element_lines level nil = []
  element_lines level (cons x xs) =
      (fill (level * 2) <> write_value printer true (level + 1) x) ∷ element_lines level xs

  unfoldable pub field_lines : ℕ → Fields → List String
  unfolding write_value fill
  field_lines level end = []
  field_lines level (field k v fs) =
      (fill (level * 2) <> (k <> (" => " <> write_value printer true (level + 1) v)))
      ∷ field_lines level fs

  write_elements-prefixed :
      (level : ℕ) (xs : Elements)
      → write_elements printer false level xs ≡ prefixed ",\n" (element_lines level xs)
  unfolding write_elements element_lines
  write_elements-prefixed level nil = refl
  write_elements-prefixed level (cons x xs) =
      rw (write_elements-prefixed level xs, append_assoc) refl

  write_fields-prefixed :
      (level : ℕ) (fs : Fields)
      → write_fields printer false level fs ≡ prefixed ",\n" (field_lines level fs)
  unfolding write_fields field_lines
  write_fields-prefixed level end = refl
  write_fields-prefixed level (field k v fs) =
      rw (write_fields-prefixed level fs, append_assoc, append_assoc, append_assoc) refl

  abbrev pub block : String → String → ℕ → List String → String
  block opening closing level lines =
      opening <> (joined ",\n" lines <> ("\n" <> (fill ((level - 1) * 2) <> closing)))

  element_assoc : (f w p : String) → f <> (w <> p) ≡ (f <> w) <> p
  element_assoc f w p = sym (append_assoc f w p)

  field_assoc :
      (f k w p : String) → f <> (k <> (" => " <> (w <> p))) ≡ (f <> (k <> (" => " <> w))) <> p
  field_assoc f k w p = rw (append_assoc, append_assoc, append_assoc) refl

  closed :
      (opening closing : String) (level : ℕ) {a b : String}
      → a ≡ b
      → opening <> (a <> ("\n" <> (fill ((level - 1) * 2) <> closing)))
        ≡ opening <> (b <> ("\n" <> (fill ((level - 1) * 2) <> closing)))
  closed opening closing level e =
      ap (λ x. opening <> (x <> ("\n" <> (fill ((level - 1) * 2) <> closing)))) e

  -- An array or a map that is not empty is written as a block: the bracket, a line for each element
  -- or field at the level's indentation with commas between them, and the bracket one level out.
  write_value-block :
      (quoted h : Bool) (level : ℕ) (x : Value) (xs : Elements) (k : String) (fs : Fields)
      → (write_value printer quoted level (array_value h (cons x xs))
          ≡ block "[\n" "]" level (element_lines level (cons x xs)))
        × (write_value printer quoted level (map_value h (field k x fs))
            ≡ block "{\n" "}" level (field_lines level (field k x fs)))
  unfolding write_value element_lines field_lines
  write_value-block quoted h level x xs k fs = (
    rw (write_elements-prefixed level xs, nil-append)
        (closed "[\n" "]" level (
          element_assoc (fill (level * 2)) (write_value printer true (level + 1) x)
            (prefixed ",\n" (element_lines level xs)))),
    rw (write_fields-prefixed level fs, nil-append)
        (closed "{\n" "}" level (
          field_assoc (fill (level * 2)) k (write_value printer true (level + 1) x)
            (prefixed ",\n" (field_lines level fs)))),
  )
