-- ===== src/Text/Numerals.antt =====
-- The numbers that YAML output puts in quotes: `needs_quotation` of lib/src/util/string.cc.
use Prim.Native.String.{[], ◌∷◌}
use text.Mathlib.TextLemmas.{cons-append, nil-append}
use facter.Base.{
  String, Char, code, ◌≡◌, refl, sym, ◌∙◌, ap, ◌↔◌, ◌⊎◌, inl, inr, true, false, ◌=?◌, arith,
  Bool-cases, ◌<>◌, is_empty_str,
}
use facter.Query.{is_digit}
use facter.Text.{is_separator, is_sign, all_numeric, needs_quotation}

abbrev pub AllDigits : String → Type 0
AllDigits [] = Unit
AllDigits (c ∷ s) = (is_digit c ≡ true) × AllDigits s

-- What may follow the whole part: nothing, or a separator and digits.
abbrev pub IsFraction : String → Type 0
IsFraction [] = Unit
IsFraction (c ∷ s) = (is_separator c ≡ true) × AllDigits s

-- Digits with at most one separator among them.
abbrev pub IsDecimal : String → Type 0
IsDecimal s =
    (whole fraction : String) × (s ≡ whole <> fraction) × AllDigits whole × IsFraction fraction

abbrev pub IsSigned : String → Type 0
IsSigned [] = ⊥
IsSigned (c ∷ s) = (is_sign c ≡ true) × IsDecimal s

abbrev pub StartsWithColon : String → Type 0
StartsWithColon [] = ⊥
StartsWithColon (c ∷ s) = (code c =? b':') ≡ true

digits-all_numeric : (s : String) → AllDigits s → all_numeric false true s ≡ true
unfolding all_numeric
digits-all_numeric [] h = refl
digits-all_numeric (c ∷ s) h = ground (arith, digits-all_numeric s h.1, h.0)

decimal-all_numeric :
    (whole fraction : String)
    → AllDigits whole
    → IsFraction fraction
    → all_numeric false false (whole <> fraction) ≡ true
unfolding all_numeric
decimal-all_numeric [] [] h k = refl
decimal-all_numeric [] (c ∷ s) h k = rw nil-append (ground (arith, digits-all_numeric s k.1, k.0))
decimal-all_numeric (c ∷ s) fraction h k =
    rw cons-append (ground (arith, decimal-all_numeric s fraction h.1 k, h.0))

all_numeric-digits : (s : String) → all_numeric false true s ≡ true → AllDigits s
unfolding all_numeric
all_numeric-digits [] h = tt
all_numeric-digits (c ∷ s) h = ground (arith, all_numeric-digits s)

prepend-IsDecimal : (c : Char) (s : String) → is_digit c ≡ true → IsDecimal s → IsDecimal (c ∷ s)
prepend-IsDecimal c s h (whole, fraction, e, w, f) =
    (c ∷ whole, fraction, ap (λ x. c ∷ x) e ∙ sym (cons-append c whole fraction), (h, w), f)

separator-IsDecimal :
    (c : Char) (s : String) → is_separator c ≡ true → AllDigits s → IsDecimal (c ∷ s)
separator-IsDecimal c s h d = ("", c ∷ s, sym (nil-append (c ∷ s)), tt, (h, d))

numeric-step :
    (c : Char) (s : String)
    → all_numeric false false (c ∷ s) ≡ true
    → ((is_separator c ≡ true) × (all_numeric false true s ≡ true))
      ⊎ ((is_digit c ≡ true) × (all_numeric false false s ≡ true))
unfolding all_numeric
numeric-step c s h = elim (Bool-cases (is_separator c)) [
  | inl e ↦ inl (e, ground arith)
  | inr e ↦ inr (ground arith, ground arith)
]

all_numeric-IsDecimal : (s : String) → all_numeric false false s ≡ true → IsDecimal s
all_numeric-IsDecimal [] h = ("", "", sym (nil-append ""), tt, tt)
all_numeric-IsDecimal (c ∷ s) h = elim (numeric-step c s h) [
  | inl (e, k) ↦ separator-IsDecimal c s e (all_numeric-digits s k)
  | inr (e, k) ↦ prepend-IsDecimal c s e (all_numeric-IsDecimal s k)
]

IsDecimal-all_numeric : (s : String) → IsDecimal s → all_numeric false false s ≡ true
IsDecimal-all_numeric s (whole, fraction, e, w, f) = rw e (decimal-all_numeric whole fraction w f)

-- After the first character there is no sign.
first-sign :
    (c : Char) (s : String)
    → is_sign c ≡ true
    → all_numeric true false (c ∷ s) ≡ all_numeric false false s
unfolding all_numeric
first-sign c s h = ground arith

first-plain :
    (c : Char) (s : String)
    → is_sign c ≡ false
    → all_numeric true false (c ∷ s) ≡ all_numeric false false (c ∷ s)
unfolding all_numeric
first-plain c s h = ground arith

signed-refused :
    (c : Char) (s : String) → is_sign c ≡ true → all_numeric false false (c ∷ s) ≡ false
unfolding all_numeric
signed-refused c s h = ground arith

true-false : {A : Type 0} → true ≡ false → A
true-false h = absurd (ground (arith, h))

first-numeral :
    (c : Char) (s : String)
    → (all_numeric true false (c ∷ s) ≡ true) ↔ (IsSigned (c ∷ s) ⊎ IsDecimal (c ∷ s))
first-numeral c s = (there, back)
  where
    there : all_numeric true false (c ∷ s) ≡ true → IsSigned (c ∷ s) ⊎ IsDecimal (c ∷ s)
    there h = elim (Bool-cases (is_sign c)) [
      | inl e ↦ inl (e, all_numeric-IsDecimal s (sym (first-sign c s e) ∙ h))
      | inr e ↦ inr (all_numeric-IsDecimal (c ∷ s) (sym (first-plain c s e) ∙ h))
    ]

    back : IsSigned (c ∷ s) ⊎ IsDecimal (c ∷ s) → all_numeric true false (c ∷ s) ≡ true
    back (inl (e, d)) = first-sign c s e ∙ IsDecimal-all_numeric s d
    back (inr d) = elim (Bool-cases (is_sign c)) [
      | inl e ↦ true-false (sym (IsDecimal-all_numeric (c ∷ s) d) ∙ signed-refused c s e)
      | inr e ↦ first-plain c s e ∙ IsDecimal-all_numeric (c ∷ s) d
    ]

no-colon :
    (c : Char) (s : String)
    → (code c =? b':') ≡ false
    → needs_quotation (c ∷ s) ≡ all_numeric true false (c ∷ s)
unfolding needs_quotation
no-colon c s h = ground arith

-- A text is put in quotes exactly where it is empty, starts with a colon, or is digits with at most
-- one point or comma among them, perhaps behind a sign.
pub needs_quotation-IsNumeral :
    (s : String)
    → (needs_quotation s ≡ true)
      ↔ ((is_empty_str s ≡ true) ⊎ (StartsWithColon s ⊎ (IsSigned s ⊎ IsDecimal s)))
unfolding needs_quotation
needs_quotation-IsNumeral [] = ((λ h. inl refl), (λ h. refl))
needs_quotation-IsNumeral (c ∷ s) = elim (Bool-cases (code c =? b':')) [
  | inl e ↦ ((λ h. inr (inl e)), (λ h. rw e refl))
  | inr e ↦
      let (there, back) = first-numeral c s in
      (
        (λ h. inr (inr (there (sym (no-colon c s e) ∙ h)))),
        (λ h. no-colon c s e ∙ elim h [
          | inl k ↦ true-false (sym k)
          | inr k ↦ elim k [ inl j ↦ true-false (sym j ∙ e) | inr j ↦ back j ]
        ]),
      )
]
