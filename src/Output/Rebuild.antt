-- ===== src/Output/Rebuild.antt =====
-- Values that are written as JSON, `to_json` of lib/src/facts/array_value.cc and map_value.cc, and
-- built again by lib/src/facts/external/json_resolver.cc.
use mathlib.Core.Path.{ap₂}
use facter.Base.{
  String, ◌≡◌, refl, ap, ◌∙◌, sym, true, false, none, some, is_empty_str, arith, eq_iff,
}
use facter.Base.Text.{c_str, str_ltb, str_ltb_irrefl, str_ltb_trans}
use facter.Values.{
  Value, Elements, Fields, string_value, integer_value, boolean_value, double_value, array_value,
  map_value, nil, cons, end, field, find, assign, emplace, add_field, add_element,
}
use facter.Values.Sorted.{Above, IsSorted}
use facter.External.Json.Document.{value_of, items_onto, members_onto}
use facter.Output.{to_json, to_items, to_members}
use facter.Output.Agree.{IsSpelled}

-- The value with no hidden flags, each text up to its first null character.
unfoldable mutual
  unfolding c_str

  pub plain : Value → Value
  plain (string_value h s) = string_value false (c_str s)
  plain (integer_value h n) = integer_value false n
  plain (boolean_value h b) = boolean_value false b
  plain (double_value h d) = double_value false d
  plain (array_value h xs) = array_value false (plain_elements xs)
  plain (map_value h fs) = map_value false (plain_fields fs)

  pub plain_elements : Elements → Elements
  plain_elements nil = nil
  plain_elements (cons x xs) = cons (plain x) (plain_elements xs)

  pub plain_fields : Fields → Fields
  plain_fields end = end
  plain_fields (field k v fs) = field k (plain v) (plain_fields fs)

-- Every name has a character, and none that is null; the names of a map rise.
abbrev pub IsName : String → Type 0
IsName k = (is_empty_str k ≡ false) × IsSpelled k

abbrev mutual
  pub IsOrdered : Value → Type 0
  IsOrdered (array_value h xs) = ElementsOrdered xs
  IsOrdered (map_value h fs) = IsSorted fs × FieldsOrdered fs
  IsOrdered _ = Unit

  pub ElementsOrdered : Elements → Type 0
  ElementsOrdered nil = Unit
  ElementsOrdered (cons x xs) = IsOrdered x × ElementsOrdered xs

  pub FieldsOrdered : Fields → Type 0
  FieldsOrdered end = Unit
  FieldsOrdered (field k v fs) = IsName k × (IsOrdered v × FieldsOrdered fs)

-- A field behind the others.
abbrev snoc : String → Value → Fields → Fields
snoc k v end = field k v end
snoc k v (field j w fs) = field j w (snoc k v fs)

abbrev AllBelow : String → Fields → Type 0
AllBelow k end = Unit
AllBelow k (field j w fs) = (str_ltb j k ≡ true) × AllBelow k fs

abbrev append_fields : Fields → Fields → Fields
append_fields end gs = gs
append_fields (field k v fs) gs = field k v (append_fields fs gs)

abbrev append_elements : Elements → Elements → Elements
append_elements nil ys = ys
append_elements (cons x xs) ys = cons x (append_elements xs ys)

find-AllBelow : (k : String) (fs : Fields) → AllBelow k fs → find k fs ≡ none
unfolding find
find-AllBelow k end h = refl
find-AllBelow k (field j w fs) (h, t) =
    ground (arith, eq_iff j k, str_ltb_irrefl k, find-AllBelow k fs t, h)

assign-AllBelow :
    (k : String) (v : Value) (fs : Fields) → AllBelow k fs → assign k v fs ≡ snoc k v fs
unfolding assign
assign-AllBelow k v end h = refl
assign-AllBelow k v (field j w fs) (h, t) =
    rw (assign-AllBelow k v fs t)
      (ground (arith, eq_iff j k, str_ltb_irrefl k, str_ltb_trans k j k, h))

add_field-AllBelow :
    (k : String) (v : Value) (fs : Fields) → AllBelow k fs → add_field k (some v) fs ≡ snoc k v fs
unfolding add_field emplace
add_field-AllBelow k v fs h = rw (find-AllBelow k fs h, emplace) (assign-AllBelow k v fs h)

snoc-AllBelow :
    (j k : String) (v : Value) (fs : Fields)
    → str_ltb k j ≡ true
    → AllBelow k fs
    → AllBelow j (snoc k v fs)
snoc-AllBelow j k v end h t = (h, tt)
snoc-AllBelow j k v (field i w fs) h (b, t) = (str_ltb_trans i k j b h, snoc-AllBelow j k v fs h t)

append-snoc :
    (k : String) (v : Value) (fs gs : Fields)
    → append_fields (snoc k v fs) gs ≡ append_fields fs (field k v gs)
append-snoc k v end gs = refl
append-snoc k v (field j w fs) gs = ap (λ x. field j w x) (append-snoc k v fs gs)

append_fields-end : (fs : Fields) → append_fields fs end ≡ fs
append_fields-end end = refl
append_fields-end (field k v fs) = ap (λ x. field k v x) (append_fields-end fs)

append_elements-nil : (xs : Elements) → append_elements xs nil ≡ xs
append_elements-nil nil = refl
append_elements-nil (cons x xs) = ap (λ y. cons x y) (append_elements-nil xs)

append-add_element :
    (v : Value) (xs ys : Elements)
    → append_elements (add_element (some v) xs) ys ≡ append_elements xs (cons v ys)
unfolding add_element
append-add_element v nil ys = refl
append-add_element v (cons x xs) ys = ap (λ y. cons x y) (append-add_element v xs ys)

-- The keys of `acc` all stand below those of the fields.
abbrev Follows : Fields → Fields → Type 0
Follows acc end = Unit
Follows acc (field k v fs) = AllBelow k acc × Above k fs

follows :
    (k : String) (v w : Value) (acc fs : Fields)
    → Follows acc (field k v fs)
    → Follows (snoc k w acc) fs
follows k v w acc end h = tt
follows k v w acc (field j u fs) (b, (a, s)) = (snoc-AllBelow j k w acc a b, s)

mutual
  unfolding value_of to_json plain

  pub value_of-to_json : (v : Value) → IsOrdered v → value_of (to_json v) ≡ some (plain v)
  value_of-to_json (string_value h s) o = refl
  value_of-to_json (integer_value h n) o = refl
  value_of-to_json (boolean_value h b) o = refl
  value_of-to_json (double_value h d) o = refl
  value_of-to_json (array_value h xs) o =
      ap (λ y. some (array_value false y)) (items_onto-to_items xs nil o)
  value_of-to_json (map_value h end) (s, o) = refl
  value_of-to_json (map_value h (field k v fs)) (s, o) =
      ap (λ y. some (map_value false y)) (members_onto-to_members (field k v fs) end (tt, s) o)

  items_onto-to_items :
      (xs acc : Elements)
      → ElementsOrdered xs
      → items_onto (to_items xs) acc ≡ append_elements acc (plain_elements xs)
  items_onto-to_items nil acc o = sym (append_elements-nil acc)
  items_onto-to_items (cons x xs) acc (o, p) =
      ap (λ v. items_onto (to_items xs) (add_element v acc)) (value_of-to_json x o)
      ∙ (items_onto-to_items xs (add_element (some (plain x)) acc) p
          ∙ append-add_element (plain x) acc (plain_elements xs))

  members_onto-to_members :
      (fs acc : Fields)
      → Follows acc fs
      → FieldsOrdered fs
      → members_onto (to_members fs) acc ≡ append_fields acc (plain_fields fs)
  members_onto-to_members end acc f o = sym (append_fields-end acc)
  members_onto-to_members (field k v fs) acc f ((n, e), (o, p)) =
      ap₂ (λ j w. members_onto (to_members fs) (add_field j w acc)) (ap c_str e ∙ e)
        (value_of-to_json v o)
      ∙ (ap (λ y. members_onto (to_members fs) y) (add_field-AllBelow k (plain v) acc f.0)
          ∙ (members_onto-to_members fs (snoc k (plain v) acc) (follows k v (plain v) acc fs f) p
              ∙ append-snoc k (plain v) acc (plain_fields fs)))
