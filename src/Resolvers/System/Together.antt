-- ===== src/Resolvers/System/Together.antt =====
-- Versions of macOS: lib/src/facts/resolvers/operating_system_resolver.cc.
use Prim.Native.String.{[], ◌∷◌}
use text.Mathlib.TextLemmas.{cons-append, nil-append}
use text.Mathlib.TextEquality.{Char-path}
use facter.Base.{
  String, Char, ◌≡◌, refl, sym, ap, ◌∙◌, ◌⊎◌, inl, inr, Bool, true, false, ◌||◌, Option, none, some,
  ◌<>◌, arith, Bool-cases, if◌then◌else◌,
}
use facter.Query.Paths.{has_char, is_dot}
use facter.Resolvers.System.{split_last_dot, mac_parts_of, mac_parts}

-- The parts that a text was split into at its last dot.
abbrev IsSplit : String → Option (String × String) → Type 0
IsSplit s none = has_char is_dot s ≡ false
IsSplit s (some (major, minor)) = (major <> ("." <> minor) ≡ s) × (has_char is_dot minor ≡ false)

dot-first : (c : Char) (s : String) → is_dot c ≡ true → "" <> ("." <> s) ≡ c ∷ s
dot-first c s e =
    nil-append ("." <> s)
    ∙ (cons-append "." "" s
        ∙ (ap (λ x. "." ∷ x) (nil-append s)
            ∙ ap (λ d. d ∷ s) (sym (Char-path c "." (ground (arith, e))))))

both-false : (a b : Bool) → a ≡ false → b ≡ false → (a || b) ≡ false
both-false a b h k = ground (arith, h, k)

cons-IsSplit :
    (c : Char) (s : String) (o : Option (String × String))
    → IsSplit s o
    → IsSplit (c ∷ s) (elim o [
      | some (major, minor) ↦ some (c ∷ major, minor)
      | none ↦ if is_dot c then some ([], s) else none
    ])
cons-IsSplit c s none h = elim (Bool-cases (is_dot c)) [
  | inl e ↦ rw e (dot-first c s e, h)
  | inr e ↦ rw e (both-false (is_dot c) (has_char is_dot s) e h)
]
cons-IsSplit c s (some (major, minor)) (e, h) =
    (cons-append c major ("." <> minor) ∙ ap (λ x. c ∷ x) e, h)

split_last_dot-IsSplit : (s : String) → IsSplit s (split_last_dot s)
unfolding split_last_dot
split_last_dot-IsSplit [] = refl
split_last_dot-IsSplit (c ∷ s) = cons-IsSplit c s (split_last_dot s) (split_last_dot-IsSplit s)

parts-together :
    (version : String) (o : Option (String × String))
    → IsSplit version o
    → has_char is_dot version ≡ true
    → (((mac_parts_of version o).0 <> ("." <> (mac_parts_of version o).1)) ≡ version)
      ⊎ (((mac_parts_of version o).0 ≡ version) × ((mac_parts_of version o).1 ≡ "0"))
parts-together version none h d = absurd (ground (arith, h, d))
parts-together version (some (major, minor)) (e, h) d = elim (Bool-cases (has_char is_dot major)) [
  | inl k ↦ inl (rw k e)
  | inr k ↦ inr (rw k (refl, refl))
]

-- A version of macOS that has a dot: the major and the minor part make it up again with a dot
-- between them, or the major part is the whole version and the minor one is 0.
mac_parts-together :
    (version : String)
    → has_char is_dot version ≡ true
    → (((mac_parts version).0 <> ("." <> (mac_parts version).1)) ≡ version)
      ⊎ (((mac_parts version).0 ≡ version) × ((mac_parts version).1 ≡ "0"))
unfolding mac_parts
mac_parts-together version d =
    parts-together version (split_last_dot version) (split_last_dot-IsSplit version) d
