-- ===== src/Execution/Command/Expands.antt =====
-- Commands with no white space around them: lib/src/execution/execution.cc.
use Prim.Native.String.{[], ◌∷◌}
use text.Mathlib.TextLemmas.{cons-append, nil-append}
use facter.Base.{
  ℕ, suc, String, Char, ◌≡◌, refl, ap, ◌∙◌, Bool, true, false, ◌||◌, none, some, [], ◌∷◌, ◌<>◌,
  arith,
}
use facter.Query.Paths.{has_char}
use facter.Execution.Command.{
  trim, find_char, str_take, substr, is_quote, put_back, cut, cut_at, is_blank, plain,
  expand_command,
}

abbrev pub str_length : String → ℕ
str_length [] = 0
str_length (c ∷ s) = suc (str_length s)

pub either-false : (a b : Bool) → (a || b) ≡ false → (a ≡ false) × (b ≡ false)
either-false a b h = (ground (arith, h), ground (arith, h))

-- The position of a character that the text before it does not have.
find_char-append :
    (p : Char → Bool) (s t : String) (c : Char)
    → has_char p s ≡ false
    → p c ≡ true
    → find_char p (s <> (c ∷ t)) ≡ some (str_length s)
unfolding find_char
find_char-append p [] t c h k = rw (nil-append, k) refl
find_char-append p (d ∷ s) t c h k =
    let (here, later) = either-false (p d) (has_char p s) h in
    rw (cons-append, find_char, here, find_char-append p s t c later k) refl

str_take-append : (s t : String) → str_take (str_length s) (s <> t) ≡ s
unfolding str_take
str_take-append [] t = refl
str_take-append (c ∷ s) t = rw cons-append (ap (λ x. c ∷ x) (str_take-append s t))

substr-append : (s t : String) → substr (str_length s) (s <> t) ≡ some t
unfolding substr
substr-append [] t = rw nil-append refl
substr-append (c ∷ s) t = rw cons-append (substr-append s t)

abbrev pub blank : Char
blank = " "

-- The name of a program, that has no blank and does not start with a quote, and what follows it.
abbrev pub spelled : Char → String → String → String
spelled c name arguments = c ∷ (name <> (blank ∷ arguments))

module _ (which : String → String) where
  plain-found :
      (command result file remainder : String) (pos : ℕ)
      → find_char is_blank command ≡ some pos
      → substr pos result ≡ some remainder
      → str_take pos result ≡ file
      → plain which command result ≡ some (put_back which result "" file remainder)
  unfolding plain cut
  plain-found command result file remainder pos e f g =
      ap (cut_at which result) e
      ∙ (ap (cut which pos result) f ∙ ap (λ x. some (put_back which result "" x remainder)) g)

  pub plain-throws :
      (command result : String) (pos : ℕ)
      → find_char is_blank command ≡ some pos
      → substr pos result ≡ none
      → plain which command result ≡ none
  unfolding plain cut
  plain-throws command result pos e f = ap (cut_at which result) e ∙ ap (cut which pos result) f

  pub expand_command-plain :
      (command : String) (c : Char) (s : String)
      → trim command ≡ c ∷ s
      → is_quote c ≡ false
      → expand_command which command ≡ plain which command (c ∷ s)
  unfolding expand_command
  expand_command-plain command c s t q = rw (t, q) refl

  pub find_char-spelled :
      (c : Char) (name arguments : String)
      → is_blank c ≡ false
      → has_char is_blank name ≡ false
      → find_char is_blank (spelled c name arguments) ≡ some (suc (str_length name))
  unfolding find_char
  find_char-spelled c name arguments b n =
      rw (b, find_char-append is_blank name arguments blank n refl) refl

  -- A command with no white space around it, whose program's name has no blank and does not start
  -- with a quote: the name is replaced by the path of the program, where one is found, and the blank
  -- and the arguments behind it stay; where none is found, the command stays.
  pub expand_command-spelled :
      (c : Char) (name arguments : String)
      → is_quote c ≡ false
      → is_blank c ≡ false
      → has_char is_blank name ≡ false
      → trim (spelled c name arguments) ≡ spelled c name arguments
      → expand_command which (spelled c name arguments)
        ≡ some (put_back which (spelled c name arguments) "" (c ∷ name) (blank ∷ arguments))
  unfolding substr str_take
  expand_command-spelled c name arguments q b n t =
      expand_command-plain (spelled c name arguments) c (name <> (blank ∷ arguments)) t q
      ∙ plain-found _ _ (c ∷ name) (blank ∷ arguments) (suc (str_length name))
          (find_char-spelled c name arguments b n) (substr-append name (blank ∷ arguments))
          (ap (λ x. c ∷ x) (str_take-append name (blank ∷ arguments)))
