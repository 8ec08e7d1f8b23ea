-- ===== src/Output/Shown.antt =====
-- Facts with hidden values, when everything is written: lib/src/facts/collection.cc.
use facter.Base.{
  ◌≡◌, refl, ap, Bool, true, false, List, [], ◌∷◌, if◌then◌else◌, Bool-cases, inl, inr,
}
use facter.Values.{Fields, end, field, hidden}
use facter.Output.{
  Printer, Format, hash, json, yaml, hash_text, json_document, yaml_tokens, Token, entries,
  hash_entries, json_entries, yaml_entries, print_entries, begin_map, end_map,
}
use facter.External.Json.Document.{json_object}

-- The facts without those that are hidden.
unfoldable pub visible : Fields → Fields
unfolding hidden
visible end = end
visible (field k v fs) = let rest = visible fs in if hidden v then rest else field k v rest

module _ (printer : Printer) where
  hash_entries-visible :
      (first : Bool) (fs : Fields)
      → hash_entries printer true first (entries fs)
        ≡ hash_entries printer true first (entries (visible fs))
  unfolding hash_entries visible
  hash_entries-visible first end = refl
  hash_entries-visible first (field k v fs) = elim (Bool-cases (hidden v)) [
    | inl h ↦ rw (h, hash_entries) (hash_entries-visible first fs)
    | inr h ↦ rw (h, hash_entries, h, hash_entries-visible false fs) refl
  ]

json_entries-visible :
    (fs : Fields) → json_entries true (entries fs) ≡ json_entries true (entries (visible fs))
unfolding json_entries visible
json_entries-visible end = refl
json_entries-visible (field k v fs) = elim (Bool-cases (hidden v)) [
  | inl h ↦ rw (h, json_entries-visible fs) refl
  | inr h ↦ rw (h, json_entries-visible fs) (rw h refl)
]

yaml_entries-visible :
    (fs : Fields) (rest : List Token)
    → yaml_entries true (entries fs) rest ≡ yaml_entries true (entries (visible fs)) rest
unfolding yaml_entries visible
yaml_entries-visible end rest = refl
yaml_entries-visible (field k v fs) rest = elim (Bool-cases (hidden v)) [
  | inl h ↦ rw (h, yaml_entries-visible fs rest) refl
  | inr h ↦ rw (h, yaml_entries-visible fs rest) (rw h refl)
]

-- The output of all facts, in each format, is that of the facts without the hidden ones.
pub print_entries-visible :
    (printer : Printer) (fmt : Format) (fs : Fields)
    → print_entries printer fmt true (entries fs)
      ≡ print_entries printer fmt true (entries (visible fs))
unfolding print_entries
print_entries-visible printer hash fs = ap hash_text (hash_entries-visible printer true fs)
print_entries-visible printer json fs =
    ap (λ ms. json_document (json_object ms)) (json_entries-visible fs)
print_entries-visible printer yaml fs =
    ap (λ ts. yaml_tokens (begin_map ∷ ts)) (yaml_entries-visible fs (end_map ∷ []))
