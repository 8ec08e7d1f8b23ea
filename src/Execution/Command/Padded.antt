-- ===== src/Execution/Command/Padded.antt =====
-- Commands with white space before them: lib/src/execution/execution.cc.
use Prim.Native.String.{[], ◌∷◌}
use text.Mathlib.TextLemmas.{cons-append, nil-append}
use facter.Base.{
  ℕ, zero, suc, ◌+◌, ◌<◌, String, Char, ◌≡◌, refl, ap, ◌∙◌, false, none, some, ◌<>◌, arith,
}
use facter.Query.Paths.{has_char}
use facter.Execution.Command.{trim, find_char, substr, is_quote, is_blank, expand_command}
use facter.Execution.Command.Expands.{
  str_length, blank, spelled, plain-throws, expand_command-plain, find_char-spelled, either-false,
}

length-append_str : (s t : String) → str_length (s <> t) ≡ str_length s + str_length t
length-append_str [] t = rw nil-append (omega arith)
length-append_str (c ∷ s) t = rw cons-append (omega (arith, length-append_str s t))

length-spelled :
    (c : Char) (name arguments : String)
    → str_length (spelled c name arguments) ≡ suc (str_length name + suc (str_length arguments))
length-spelled c name arguments = ap suc (length-append_str name (blank ∷ arguments))

-- Text before it moves the position on.
find_char-pad :
    (pad s : String) (pos : ℕ)
    → has_char is_blank pad ≡ false
    → find_char is_blank s ≡ some pos
    → find_char is_blank (pad <> s) ≡ some (str_length pad + pos)
unfolding find_char
find_char-pad [] s pos h e = rw (nil-append, e) (ap some (omega arith))
find_char-pad (d ∷ pad) s pos h e =
    let (here, later) = either-false (is_blank d) (has_char is_blank pad) h in
    rw (cons-append, find_char, here, find_char-pad pad s pos later e) (ap some (omega arith))

substr-beyond : (n : ℕ) (s : String) → str_length s < n → substr n s ≡ none
unfolding substr
substr-beyond zero s h = absurd (omega (arith, h))
substr-beyond (suc n) [] h = refl
substr-beyond (suc n) (c ∷ s) h = substr-beyond n s (omega (arith, h))

-- Where white space without a blank, such as tabs, stands before a command and is longer than the
-- blank and the arguments behind the program's name, an exception is thrown.
pub expand_command-padded :
    (which : String → String) (pad : String) (c : Char) (name arguments : String)
    → is_quote c ≡ false
    → is_blank c ≡ false
    → has_char is_blank name ≡ false
    → has_char is_blank pad ≡ false
    → trim (pad <> spelled c name arguments) ≡ spelled c name arguments
    → str_length arguments + 1 < str_length pad
    → expand_command which (pad <> spelled c name arguments) ≡ none
expand_command-padded which pad c name arguments q b n p t l =
    expand_command-plain which (pad <> spelled c name arguments) c (name <> (blank ∷ arguments)) t q
    ∙ plain-throws which (pad <> spelled c name arguments) (spelled c name arguments)
        (str_length pad + suc (str_length name))
        (find_char-pad pad (spelled c name arguments) (suc (str_length name)) p
          (find_char-spelled which c name arguments b n))
        (substr-beyond (str_length pad + suc (str_length name)) (spelled c name arguments)
          (omega (arith, l, length-spelled c name arguments)))
