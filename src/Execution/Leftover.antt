-- ===== src/Execution/Leftover.antt =====
-- The line end that `process_data` of lib/src/execution/execution.cc leaves in the buffer.
use Prim.Native.String.{[], ◌∷◌}
use text.Mathlib.TextLemmas.{nil-append, cons-append}
use facter.Base.{
  String, Char, ◌≡◌, refl, ap, ◌∙◌, Bool, true, false, none, some, List, [], ◌∷◌, ◌++◌,
  is_empty_str, ◌<>◌, arith,
}
use facter.Execution.{last_newline, Stream, going, pass, pass_all, process_data, process_pieces}

not_empty :
    (piece : String) {before rest : String}
    → last_newline piece ≡ some (before, rest)
    → is_empty_str piece ≡ false
unfolding last_newline
not_empty [] h = ground arith
not_empty (c ∷ s) h = refl

abbrev pub go_on : List String → String → Bool
go_on lines line = true

abbrev pub nothing : Stream
nothing = record { buffer = ""; lines = [] }

abbrev b_newline : Char
b_newline = "\n"

newline-append : (s : String) → "\n" <> s ≡ (b_newline ∷ s)
newline-append s = cons-append "\n" [] s ∙ ap (λ x. b_newline ∷ x) (nil-append s)

step :
    (split : String → List String) (p a : String) (st : Stream)
    → last_newline p ≡ some (a, "\n")
    → split a ≡ a ∷ []
    → is_empty_str (st.buffer <> a) ≡ false
    → process_data split none (some go_on) p st
      ≡ going (record { buffer = "\n"; lines = st.lines ++ (st.buffer <> a) ∷ [] })
unfolding process_data pass_all pass
step split p a st l s h = rw (not_empty p l, l, s, pass_all, pass, h) refl

-- Without trimming, where two pieces each end with a line end and are one line before it, the
-- second line is passed with the line end of the first before it.
pub process_pieces-newline :
    (split : String → List String) (p q a b : String)
    → last_newline p ≡ some (a, "\n")
    → last_newline q ≡ some (b, "\n")
    → split a ≡ a ∷ []
    → split b ≡ b ∷ []
    → is_empty_str a ≡ false
    → process_pieces split none (some go_on) (p ∷ q ∷ []) nothing
      ≡ going (record { buffer = "\n"; lines = a ∷ ("\n" <> b) ∷ [] })
unfolding process_pieces
process_pieces-newline split p q a b lp lq sa sb h =
    let one : Stream = record { buffer = "\n"; lines = a ∷ [] } in
    let first : process_data split none (some go_on) p nothing ≡ going one =
      step split p a nothing lp sa (rw (nil-append a) h)
      ∙ ap (λ x. going (record { buffer = "\n"; lines = x ∷ [] })) (nil-append a) in
    rw (process_pieces, first) (rw (step split q b one lq sb (rw (newline-append b) refl)) refl)
