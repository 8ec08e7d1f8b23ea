-- ===== src/Tests/Texts.antt =====
-- Concrete texts.
use facter.Base.{
  ℕ, suc, ◌*◌, ◌/◌, ◌^◌, ◌=?◌, String, ◌≡◌, ◌↔◌, ◌⊎◌, refl, Bool, true, false, some, List, [], ◌∷◌,
  ◌==◌, is_empty_str, not,
}
use facter.Text.{needs_quotation, to_hex}
use facter.Base.Int.{ℤ}
use facter.Text.Sizes.{Floats, si_string}
use facter.Text.Numerals.{StartsWithColon, IsSigned, IsDecimal, needs_quotation-IsNumeral}
use facter.Text.Lines.{visit, AllLines}

needs_quotation-IsNumeral_example : (needs_quotation "-12.5" ≡ true) ↔ (
    (is_empty_str "-12.5" ≡ true)
    ⊎ (StartsWithColon "-12.5" ⊎ (IsSigned "-12.5" ⊎ IsDecimal "-12.5")))
needs_quotation-IsNumeral_example = needs_quotation-IsNumeral "-12.5"

quoted_numeral : needs_quotation "-12.5" ≡ true
unfolding needs_quotation
quoted_numeral = refl

plain_version : needs_quotation "1.2.3" ≡ false
unfolding needs_quotation
plain_version = refl

-- It counts the lines up to the one that reads `stop`.
abbrev counter : String → ℕ → Bool × ℕ
counter line n = (not (line == "stop"), suc n)

abbrev some_lines : List (String × Bool)
some_lines = ("a=1", true) ∷ ("stop", false) ∷ ("b=2", false) ∷ []

some_lines-AllLines : AllLines some_lines
some_lines-AllLines = ((refl, refl), ((refl, refl), ((refl, refl), tt)))

two_visited : visit counter some_lines 0 ≡ 2
two_visited = refl

hex_address : to_hex (some (2 ∷ 171 ∷ [])) false ≡ "02ab"
unfolding to_hex
hex_address = refl

-- Hundredths, rounded down.
abbrev floats : Floats
floats = record {
  Double = ℕ;
  exponent_of_1024 = λ n. 1;
  exponent_of_1000 = λ n. 1;
  scaled = λ n base exp. n * 100 / base ^ exp;
  percent = λ used total. used * 10000 / total;
  is_near = λ d n. d =? n * 100;
  one = 100;
  percent_99_99 = 9999;
  print_fixed = λ d. "2.00";
  to_string = λ n. "7";
}

abbrev print_number : ℤ → String
print_number n = "7"

two_kibibytes : si_string floats 2048 ≡ some "2.00 KiB"
unfolding si_string
two_kibibytes = refl
