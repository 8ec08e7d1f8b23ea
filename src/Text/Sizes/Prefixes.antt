-- ===== src/Text/Sizes/Prefixes.antt =====
-- The accesses to `prefixes` in lib/src/util/string.cc.
use facter.Base.{
  ◌<>◌, ℕ, zero, suc, ◌<◌, Bool, String, ◌≡◌, refl, ap, inl, inr, true, false, Option, some, List,
  [], ◌∷◌, length, leb, ltb, if◌then◌else◌, arith, Bool-cases,
}
use facter.Base.Int.{ℤ, pos, negsuc}
use facter.Text.Sizes.{
  si_prefixes, frequency_prefixes, Floats, element, index_of, with_prefix, next_unit, in_unit,
  si_string, frequency,
}

element-some : (xs : List String) (i : ℕ) → i < length xs → (x : String) × (element xs i ≡ some x)
unfolding element
element-some [] i h = absurd (omega arith)
element-some (x ∷ xs) zero h = (x, refl)
element-some (x ∷ xs) (suc i) h = element-some xs i (omega arith)

abbrev pub IsText : Option String → Type 0
IsText o = (s : String) × (o ≡ some s)

if-IsText :
    (b : Bool) (x y : Option String)
    → IsText x
    → (b ≡ false → IsText y)
    → IsText (if b then x else y)
if-IsText true x y h k = h
if-IsText false x y h k = k refl

module _ (f : Floats) where
  in_unit-some :
      (prefixes : List String) (unit plain : String) (converted : f.Double) (exp : ℕ)
      → IsText (in_unit f prefixes unit plain (converted, exp))
  unfolding in_unit
  in_unit-some prefixes unit plain converted exp =
      if-IsText (leb (length prefixes) (index_of f exp)) _ _ (plain, refl)
        (λ e. in_range (ground (arith, e)))
    where
      in_range :
          index_of f exp < length prefixes
          → IsText (with_prefix f " " unit converted (element prefixes (index_of f exp)))
      in_range h =
          let (x, g) = element-some prefixes (index_of f exp) h in
          (_, ap (with_prefix f " " unit converted) g)

  shown-some :
      (prefixes : List String) (unit plain : String) (base exp : ℕ) (converted : f.Double)
      → IsText (in_unit f prefixes unit plain (next_unit f base exp converted))
  shown-some prefixes unit plain base exp converted = elim (Bool-cases (f.is_near converted base)) [
    | inl e ↦ rw e (in_unit-some prefixes unit plain _ _)
    | inr e ↦ rw e (in_unit-some prefixes unit plain converted exp)
  ]

  -- Whatever floating-point arithmetic gives, a size and a frequency are turned into a text, and no
  -- unit is read outside of the array of prefixes.
  pub si_string-frequency :
      (print_int : ℤ → String) (size : ℕ) (freq : ℤ)
      → IsText (si_string f size) × IsText (frequency f print_int freq)
  unfolding si_string frequency
  si_string-frequency print_int size freq = (size_some, frequency_some freq)
    where
      size_some : IsText (si_string f size)
      size_some =
          if-IsText (ltb size 1024) _ _ (f.to_string size <> " bytes", refl)
            (λ e.
              shown-some si_prefixes "iB" (f.to_string size <> " bytes") 1024
                (f.exponent_of_1024 size) (f.scaled size 1024 (f.exponent_of_1024 size)))

      frequency_some : (n : ℤ) → IsText (frequency f print_int n)
      frequency_some (negsuc n) = (print_int (negsuc n) <> " Hz", refl)
      frequency_some (pos n) =
          if-IsText (ltb n 1000) _ _ (print_int (pos n) <> " Hz", refl)
            (λ e.
              shown-some frequency_prefixes "Hz" (print_int (pos n) <> " Hz") 1000
                (f.exponent_of_1000 n) (f.scaled n 1000 (f.exponent_of_1000 n)))
