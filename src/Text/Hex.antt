-- ===== src/Text/Hex.antt =====
-- Hexadecimal digits: `to_hex` of lib/src/util/string.cc.
use Prim.Native.String.{[], ◌∷◌}
use mathlib.Core.Path.{ap₂}
use text.Mathlib.TextLemmas.{cons-append, nil-append}
use facter.Base.{
  ℕ, zero, suc, ◌+◌, ◌-◌, ◌*◌, ◌/◌, ◌%◌, ◌<◌, String, Char, code, ◌≡◌, refl, ap, ◌∙◌, Bool, true,
  false, some, List, [], ◌∷◌, All, arith, if◌then◌else◌, leb, ◌<>◌,
}
use facter.Text.{hex_digits, char_at, to_hex_bytes, to_hex}

abbrev digit_value : Char → ℕ
digit_value c =
    if leb b'a' (code c)
    then code c - b'a' + 10
    else if leb b'A' (code c)
    then code c - b'A' + 10
    else code c - b'0'

-- Two digits for each byte.
abbrev from_hex : String → List ℕ
from_hex [] = []
from_hex (c ∷ []) = []
from_hex (c ∷ d ∷ s) = (digit_value c * 16 + digit_value d) ∷ from_hex s

-- The characters stand for the numbers from `n` on.
abbrev IsTable : ℕ → String → Type 0
IsTable n [] = Unit
IsTable n (c ∷ s) = (digit_value c ≡ n) × IsTable (suc n) s

abbrev str_length : String → ℕ
str_length [] = 0
str_length (c ∷ s) = suc (str_length s)

char_at-IsTable :
    (m : ℕ) (s : String) (n : ℕ)
    → IsTable m s
    → n < str_length s
    → (c : Char) × (char_at s n ≡ (c ∷ "")) × (digit_value c ≡ n + m)
unfolding char_at
char_at-IsTable m [] n t h = absurd (omega (arith, h))
char_at-IsTable m (c ∷ s) zero t h = (c, refl, omega (arith, t.0))
char_at-IsTable m (c ∷ s) (suc n) t h =
    let (d, e, v) = char_at-IsTable (suc m) s n t.1 (omega (arith, h)) in (d, e, omega (arith, v))

-- The digit is one character, and its value is the number.
digit-char :
    (uppercase : Bool) (n : ℕ)
    → n < 16
    → (c : Char) × (char_at (hex_digits uppercase) n ≡ (c ∷ "")) × (digit_value c ≡ n + 0)
digit-char true n h =
    char_at-IsTable 0 "0123456789ABCDEF" n
      (
        refl,
        (
          refl,
          (
            refl,
            (
              refl,
              (
                refl,
                (
                  refl,
                  (
                    refl,
                    (refl, (refl, (refl, (refl, (refl, (refl, (refl, (refl, (refl, tt))))))))),
                  ),
                ),
              ),
            ),
          ),
        ),
      )
      h
digit-char false n h =
    char_at-IsTable 0 "0123456789abcdef" n
      (
        refl,
        (
          refl,
          (
            refl,
            (
              refl,
              (
                refl,
                (
                  refl,
                  (
                    refl,
                    (refl, (refl, (refl, (refl, (refl, (refl, (refl, (refl, (refl, tt))))))))),
                  ),
                ),
              ),
            ),
          ),
        ),
      )
      h

from_hex-pair :
    {x y : String} (s : String) (m n : ℕ)
    → (c : Char) × (x ≡ (c ∷ "")) × (digit_value c ≡ m + 0)
    → (d : Char) × (y ≡ (d ∷ "")) × (digit_value d ≡ n + 0)
    → from_hex (x <> (y <> s)) ≡ (m * 16 + n) ∷ from_hex s
from_hex-pair s m n (c, e, v) (d, e', v') =
    rw (e, e', cons-append, nil-append, cons-append, nil-append)
      (ap (λ x. x ∷ from_hex s) (omega (arith, v, v')))

-- Reading the digits back gives the bytes, in either case of letters.
from_hex-to_hex :
    (bytes : List ℕ) (uppercase : Bool)
    → All (λ b. b < 256) bytes
    → from_hex (to_hex (some bytes) uppercase) ≡ bytes
unfolding to_hex to_hex_bytes
from_hex-to_hex [] uppercase h = refl
from_hex-to_hex (b ∷ bytes) uppercase (k, h) =
    from_hex-pair (to_hex_bytes uppercase bytes) (b / 16) (b % 16)
      (digit-char uppercase (b / 16) (omega (arith, k)))
      (digit-char uppercase (b % 16) (omega arith))
    ∙ ap₂ ◌∷◌ (omega arith) (from_hex-to_hex bytes uppercase h)
