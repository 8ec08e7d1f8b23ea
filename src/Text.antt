-- ===== src/Text.antt =====
-- Routines on texts: lib/src/util/string.cc. Bytes are numbers below 256. The streams of the C++
-- library read a text up to the next newline; what follows the last one is a line if it is not empty.
pub mod Sizes
pub mod Numerals
pub mod Lines
pub mod Hex
use Prim.Native.String.{[], ◌∷◌}
use facter.Base.{
  ℕ, String, Char, code, Bool, true, false, not, ◌&&◌, ◌||◌, Option, none, some, List, [], ◌∷◌,
  ◌=?◌, zero, suc, ◌/◌, ◌%◌, if◌then◌else◌, is_empty_str, ◌<>◌,
}
use facter.Query.{is_digit}

abbrev pub newline : Char
newline = "\n"

abbrev pub carriage_return : Char
carriage_return = "\r"

-- The lines that `getline` reads, one after the other.
abbrev pub onto_first : Char → List String → List String
onto_first c [] = (c ∷ []) ∷ []
onto_first c (line ∷ lines) = (c ∷ line) ∷ lines

unfoldable pub get_lines : String → List String
get_lines [] = []
get_lines (c ∷ s) =
    let lines = get_lines s in if code c =? b'\n' then "" ∷ lines else onto_first c lines

-- Without the carriage return at the end of a line.
unfoldable pub pop_return : String → String
pop_return [] = []
pop_return (c ∷ s) =
    let rest = pop_return s in
    if is_empty_str s then (if code c =? b'\r' then [] else c ∷ []) else c ∷ rest

abbrev pub continue {ℓ} : {S : Type ℓ} → Bool × S → (S → S) → S
continue (true, st) rest = rest st
continue (false, st) rest = st

-- The callback says whether it wants the next line; what it changes is its state.
module _ {ℓ} {S : Type ℓ} (callback : String → S → Bool × S) where
  unfoldable pub each_of : List String → S → S
  unfolding pop_return
  each_of [] st = st
  each_of (line ∷ lines) st = continue (callback (pop_return line) st) (λ st'. each_of lines st')

  unfoldable pub each_line : String → S → S
  unfolding each_of get_lines
  each_line s st = each_of (get_lines s) st

abbrev pub is_separator : Char → Bool
is_separator c = code c =? b'.' || code c =? b','

abbrev pub is_sign : Char → Bool
is_sign c = code c =? b'+' || code c =? b'-'

-- The loop over the characters; `first` says that the index is 0.
unfoldable pub all_numeric : Bool → Bool → String → Bool
all_numeric first has_separator [] = true
all_numeric first has_separator (c ∷ s) = elim (first && is_sign c) [
  | true ↦ all_numeric false has_separator s
  | false ↦ elim (is_separator c) [
    | true ↦ elim has_separator [ true ↦ false | false ↦ all_numeric false true s ]
    | false ↦ elim (is_digit c) [ true ↦ all_numeric false has_separator s | false ↦ false ]
  ]
]

unfoldable pub needs_quotation : String → Bool
unfolding all_numeric
needs_quotation [] = true
needs_quotation (c ∷ s) = if code c =? b':' then true else all_numeric true false (c ∷ s)

abbrev pub hex_digits : Bool → String
hex_digits true = "0123456789ABCDEF"
hex_digits false = "0123456789abcdef"

-- The character at an index, as a text.
unfoldable pub char_at : String → ℕ → String
char_at [] i = []
char_at (c ∷ s) zero = c ∷ []
char_at (c ∷ s) (suc i) = char_at s i

unfoldable pub to_hex_bytes : Bool → List ℕ → String
unfolding char_at
to_hex_bytes uppercase [] = []
to_hex_bytes uppercase (b ∷ bytes) =
    char_at (hex_digits uppercase) (b / 16)
    <> (char_at (hex_digits uppercase) (b % 16) <> to_hex_bytes uppercase bytes)

-- No bytes at all are a null pointer.
unfoldable pub to_hex : Option (List ℕ) → Bool → String
unfolding to_hex_bytes
to_hex none uppercase = []
to_hex (some bytes) uppercase = to_hex_bytes uppercase bytes
