-- ===== src/Text/Sizes.antt =====
-- `si_string`, `percentage` and `frequency` of lib/src/util/string.cc. What floating-point
-- arithmetic gives is a parameter, and so is `to_string`; an access outside of an array gives
-- nothing.
pub mod Prefixes
use facter.Base.{
  ℕ, zero, suc, ◌+◌, ◌-◌, ◌%◌, ◌^◌, String, Bool, true, false, ◌||◌, Option, none, some, List, [],
  ◌∷◌, ◌=?◌, ltb, leb, if◌then◌else◌, ◌<>◌, length,
}
use facter.Base.Int.{ℤ, pos, negsuc}

pub record Floats : Type 1 where
  pub Double : Type 0
  -- `floor(log2(size) / 10.0)` and `floor(log10(freq) / 3.0)`, as an `unsigned int`
  pub exponent_of_1024 : ℕ → ℕ
  pub exponent_of_1000 : ℕ → ℕ
  -- `round(100.0 * (size / pow(base, exp))) / 100.0`
  pub scaled : ℕ → ℕ → ℕ → Double
  -- `round(10000.0 * (used / static_cast<double>(total))) / 100.0`
  pub percent : ℕ → ℕ → Double
  -- whether the difference from a number is below epsilon
  pub is_near : Double → ℕ → Bool
  pub one : Double
  pub percent_99_99 : Double
  -- the number with two digits behind the point
  pub print_fixed : Double → String
  pub to_string : ℕ → String

-- `a[i]`
unfoldable pub element : List String → ℕ → Option String
element [] i = none
element (x ∷ xs) zero = some x
element (x ∷ xs) (suc i) = element xs i

abbrev pub si_prefixes : List String
si_prefixes = "K" ∷ "M" ∷ "G" ∷ "T" ∷ "P" ∷ "E" ∷ []

abbrev pub frequency_prefixes : List String
frequency_prefixes = "k" ∷ "M" ∷ "G" ∷ "T" ∷ []

module _ (f : Floats) where
  -- The number and the exponent, where rounding reached the next unit.
  abbrev pub next_unit : ℕ → ℕ → f.Double → f.Double × ℕ
  next_unit base exp converted =
      if f.is_near converted base then (f.one, (exp + 1) % 2 ^ 32) else (converted, exp)

  -- `exp - 1` of an `unsigned int`
  abbrev pub index_of : ℕ → ℕ
  index_of exp = (exp + (2 ^ 32 - 1)) % 2 ^ 32

  abbrev pub with_prefix : String → String → f.Double → Option String → Option String
  with_prefix space unit converted none = none
  with_prefix space unit converted (some prefix) =
      some (f.print_fixed converted <> (space <> (prefix <> unit)))

  unfoldable pub in_unit : List String → String → String → f.Double × ℕ → Option String
  unfolding element
  in_unit prefixes unit plain (converted, exp) =
      if leb (length prefixes) (index_of exp)
      then some plain
      else with_prefix " " unit converted (element prefixes (index_of exp))

  unfoldable pub si_string : ℕ → Option String
  unfolding in_unit
  si_string size =
      if ltb size 1024
      then some (f.to_string size <> " bytes")
      else let exp = f.exponent_of_1024 size in
        in_unit si_prefixes "iB" (f.to_string size <> " bytes")
          (next_unit 1024 exp (f.scaled size 1024 exp))

  unfoldable pub percentage : ℕ → ℕ → String
  percentage used total =
      if total =? 0 || leb total used
      then "100%"
      else if used =? 0
      then "0%"
      else let converted = f.percent used total in
        f.print_fixed (if f.is_near converted 100 then f.percent_99_99 else converted) <> "%"

  -- `to_string` of a number that may be negative is `print_int`.
  unfoldable pub frequency : (ℤ → String) → ℤ → Option String
  unfolding in_unit
  frequency print_int (negsuc n) = some (print_int (negsuc n) <> " Hz")
  frequency print_int (pos freq) =
      if ltb freq 1000
      then some (print_int (pos freq) <> " Hz")
      else let exp = f.exponent_of_1000 freq in
        in_unit frequency_prefixes "Hz" (print_int (pos freq) <> " Hz")
          (next_unit 1000 exp (f.scaled freq 1000 exp))
