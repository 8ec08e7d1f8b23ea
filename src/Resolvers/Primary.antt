-- ===== src/Resolvers/Primary.antt =====
-- The primary interface in the networking fact: lib/src/facts/resolvers/networking_resolver.cc.
use facter.Base.{
  String, ◌≡◌, refl, ap, ◌∙◌, false, Option, none, some, List, [], ◌∷◌, ◌==◌, eq_iff, arith,
  if◌then◌else◌, is_empty_str, Bool-cases, Option-cases, inl, inr,
}
use facter.Values.{Value, string_value, map_value, Fields, end, no_fields, find}
use facter.Values.Lookup.{find-add_field, or_else}
use facter.Resolvers.{text_field, map_field}
use facter.Resolvers.Networking.{
  Networking, Interface, interface_fields, primary_onto, networking_fields, interfaces_onto,
  host_fields, mtu_field,
}

abbrev pub text_value : String → Option Value
text_value s = if is_empty_str s then none else some (string_value false s)

-- What the first of the interfaces of that name that has an IPv4 address says.
abbrev pub primary_ip : String → List Interface → Option Value
primary_ip name [] = none
primary_ip name (i ∷ is) =
    if i.name == name
    then or_else (text_value i.address.v4) (primary_ip name is)
    else primary_ip name is

find-text_field :
    (k j s : String) (m : Fields)
    → find j (text_field k s m) ≡ (if k == j then or_else (find k m) (text_value s) else find j m)
unfolding text_field
find-text_field k j s m = elim (Bool-cases (is_empty_str s)) [
  | inl e ↦ rw e (ground (arith, eq_iff k j, Option-cases (find k m)))
  | inr e ↦ rw e (find-add_field k j (some (string_value false s)) m)
]

find-mtu_field : (i : Interface) (m : Fields) → find "ip" (mtu_field i.mtu m) ≡ find "ip" m
unfolding mtu_field
find-mtu_field i m = elim (Option-cases i.mtu) [
  | inl e ↦ rw e
  | inr (n, e) ↦ rw (e, find-add_field)
]

find-interface_fields :
    (i : Interface) (m : Fields)
    → find "ip" (interface_fields i m) ≡ or_else (find "ip" m) (text_value i.address.v4)
unfolding interface_fields
find-interface_fields i m = simp (find-mtu_field i, find-text_field)

or_else_assoc : (a b c : Option Value) → or_else (or_else a b) c ≡ or_else a (or_else b c)
or_else_assoc none b c = refl
or_else_assoc (some v) b c = refl

find-primary_onto :
    (name : String) (is : List Interface) (m : Fields)
    → find "ip" (primary_onto name is m) ≡ or_else (find "ip" m) (primary_ip name is)
unfolding primary_onto
find-primary_onto name [] m = ground (arith, Option-cases (find "ip" m))
find-primary_onto name (i ∷ is) m = elim (Bool-cases (i.name == name)) [
  | inl e ↦ rw e (
      find-primary_onto name is (interface_fields i m)
      ∙ ap (λ o. or_else o (primary_ip name is)) (find-interface_fields i m)
      ∙ or_else_assoc (find "ip" m) (text_value i.address.v4) (primary_ip name is))
  | inr e ↦ rw e (find-primary_onto name is m)
]

find-map_field : (inner m : Fields) → find "ip" (map_field "interfaces" inner m) ≡ find "ip" m
unfolding map_field
find-map_field inner m = elim (Bool-cases (no_fields inner)) [
  | inl e ↦ rw e
  | inr e ↦ rw e (find-add_field "interfaces" "ip" (some (map_value false inner)) m)
]

find-host_fields : (d : Networking) → find "ip" (host_fields d) ≡ none
unfolding host_fields
find-host_fields d = simp find-text_field

-- The `ip` of the networking fact is the IPv4 address of the first interface with the primary
-- interface's name that has one, and is absent where there is none.
pub networking_fields-ip :
    (d : Networking) → find "ip" (networking_fields d) ≡ primary_ip d.primary_interface d.interfaces
unfolding networking_fields
networking_fields-ip d =
    find-map_field (interfaces_onto d.interfaces end)
      (primary_onto d.primary_interface d.interfaces (host_fields d))
    ∙ find-primary_onto d.primary_interface d.interfaces (host_fields d)
    ∙ ap (λ o. or_else o (primary_ip d.primary_interface d.interfaces)) (find-host_fields d)
