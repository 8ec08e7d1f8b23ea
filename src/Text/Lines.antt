-- ===== src/Text/Lines.antt =====
-- The lines of a text: `each_line` of lib/src/util/string.cc.
use Prim.Native.String.{[], ◌∷◌}
use text.Mathlib.TextLemmas.{cons-append, nil-append}
use facter.Base.{
  String, Char, code, ◌≡◌, refl, sym, ap, Bool, true, false, ◌||◌, List, [], ◌∷◌, ◌=?◌, arith,
  if◌then◌else◌, ◌<>◌, is_empty_str,
}
use facter.Query.Paths.{has_char}
use facter.Text.{continue, newline, carriage_return, get_lines, pop_return, each_of, each_line}

abbrev pub is_newline : Char → Bool
is_newline c = code c =? b'\n'

abbrev ends_in_return : String → Bool
ends_in_return [] = false
ends_in_return (c ∷ s) = if is_empty_str s then code c =? b'\r' else ends_in_return s

-- A line holds no newline, and does not end in a carriage return.
abbrev pub IsLine : String → Type 0
IsLine line = (has_char is_newline line ≡ false) × (ends_in_return line ≡ false)

abbrev with_end : String → Bool → String → String
with_end line windows rest =
    line <> (if windows then carriage_return ∷ newline ∷ rest else newline ∷ rest)

-- Each line with its end, as on Windows or not.
abbrev pub with_ends : List (String × Bool) → String
with_ends [] = ""
with_ends ((line, windows) ∷ lines) = with_end line windows (with_ends lines)

abbrev pub AllLines : List (String × Bool) → Type 0
AllLines [] = Unit
AllLines ((line, windows) ∷ lines) = IsLine line × AllLines lines

module _ {ℓ} {S : Type ℓ} (callback : String → S → Bool × S) where
  abbrev pub visit : List (String × Bool) → S → S
  visit [] st = st
  visit ((line, windows) ∷ lines) st = continue (callback line st) (λ st'. visit lines st')

either-false : (a b : Bool) → (a || b) ≡ false → (a ≡ false) × (b ≡ false)
either-false a b h = (ground (arith, h), ground (arith, h))

get_lines-line :
    (line rest : String)
    → has_char is_newline line ≡ false
    → get_lines (line <> (newline ∷ rest)) ≡ line ∷ get_lines rest
unfolding get_lines
get_lines-line [] rest h = rw nil-append refl
get_lines-line (c ∷ s) rest h =
    let (here, later) = either-false (is_newline c) (has_char is_newline s) h in
    rw (cons-append, get_lines, get_lines-line s rest later, here) refl

-- The same line with a carriage return at its end.
get_lines-windows :
    (line rest : String)
    → has_char is_newline line ≡ false
    → get_lines (line <> (carriage_return ∷ newline ∷ rest))
      ≡ (line <> (carriage_return ∷ "")) ∷ get_lines rest
unfolding get_lines
get_lines-windows [] rest h = rw nil-append refl
get_lines-windows (c ∷ s) rest h =
    let (here, later) = either-false (is_newline c) (has_char is_newline s) h in
    rw (cons-append, get_lines, get_lines-windows s rest later, here)
      (ap (λ x. x ∷ get_lines rest) (sym (cons-append c s (carriage_return ∷ ""))))

pop_return-line : (line : String) → ends_in_return line ≡ false → pop_return line ≡ line
unfolding pop_return
pop_return-line [] h = refl
pop_return-line (c ∷ []) h = rw h refl
pop_return-line (c ∷ d ∷ s) h = ap (λ x. c ∷ x) (pop_return-line (d ∷ s) h)

pop_return-windows : (line : String) → pop_return (line <> (carriage_return ∷ "")) ≡ line
unfolding pop_return
pop_return-windows [] = refl
pop_return-windows (c ∷ []) = rw cons-append refl
pop_return-windows (c ∷ d ∷ s) =
    rw (cons-append, pop_return, pop_return-windows (d ∷ s), cons-append) refl

module _ {ℓ} {S : Type ℓ} (callback : String → S → Bool × S) where
  continue-cong :
      (r : Bool × S) {f g : S → S} → ((st : S) → f st ≡ g st) → continue r f ≡ continue r g
  continue-cong (true, st) h = h st
  continue-cong (false, st) h = refl

  each_line-step :
      (line : String) (windows : Bool) (rest : String) (st : S)
      → IsLine line
      → each_line callback (with_end line windows rest) st
        ≡ continue (callback line st) (each_line callback rest)
  unfolding each_line each_of
  each_line-step line true rest st (n, r) =
      rw (get_lines-windows line rest n, each_of, pop_return-windows line) refl
  each_line-step line false rest st (n, r) =
      rw (get_lines-line line rest n, each_of, pop_return-line line r) refl

  -- For lines without newlines, none ending in a carriage return, each followed by a newline, or by
  -- a carriage return and a newline: the callback is called with the lines, in order, up to the
  -- first that it refuses.
  pub each_line-visit :
      (lines : List (String × Bool)) (st : S)
      → AllLines lines
      → each_line callback (with_ends lines) st ≡ visit callback lines st
  unfolding each_line get_lines each_of
  each_line-visit [] st h = refl
  each_line-visit ((line, windows) ∷ lines) st ((n, r), h) =
      rw (each_line-step line windows (with_ends lines) st (n, r))
        (continue-cong (callback line st) (λ st'. each_line-visit lines st' h))
