-- ===== src/Tests/Commands.antt =====
-- The output of a command that was read in three pieces, and a splitting at every line end.
use Prim.Native.String.{[], ◌∷◌}
use text.Mathlib.TextLemmas.{append-nil, nil-append, cons-append}
use facter.Base.{
  String, Char, ◌≡◌, refl, ap, ◌∙◌, false, none, some, List, [], ◌∷◌, is_empty, if◌then◌else◌,
  arith, Bool-cases, inl, inr,
}
use facter.Execution.{is_newline, last_newline, going, process_pieces}
use facter.Execution.Pieces.{joined, without_newlines, IsKept, process_pieces-IsKept}
use facter.Execution.Leftover.{go_on, nothing, process_pieces-newline}

abbrev push : Char → List String → List String
push c [] = (c ∷ []) ∷ []
push c (t ∷ ts) = (c ∷ t) ∷ ts

unfoldable split : String → List String
split [] = [] ∷ []
split (c ∷ s) = let rest = split s in if is_newline c then [] ∷ rest else push c rest

push_full : (c : Char) (l : List String) → is_empty (push c l) ≡ false
push_full c [] = refl
push_full c (t ∷ ts) = refl

split_full : (s : String) → is_empty (split s) ≡ false
unfolding split
split_full [] = refl
split_full (c ∷ s) = ground (arith, push_full c (split s))

joined-push : (c : Char) (l : List String) → joined (push c l) ≡ c ∷ joined l
unfolding joined
joined-push c [] = append-nil (c ∷ [])
joined-push c (t ∷ ts) = cons-append c t (joined ts)

without-split : (s : String) → without_newlines (joined (split s)) ≡ without_newlines s
unfolding split joined without_newlines
without-split [] = ap without_newlines (append-nil [])
without-split (c ∷ s) = elim (Bool-cases (is_newline c)) [
  | inl e ↦ rw e (ap without_newlines (nil-append (joined (split s))) ∙ without-split s)
  | inr e ↦ rw e (
      ap without_newlines (joined-push c (split s))
      ∙ rw (without_newlines, e) (ap (λ x. c ∷ x) (without-split s)))
]

abbrev pieces : List String
pieces = "os=Deb" ∷ "ian\nkernel=Li" ∷ "nux\n" ∷ []

process_pieces-IsKept_example :
    IsKept (joined pieces) nothing (process_pieces split none (some go_on) pieces nothing)
process_pieces-IsKept_example =
    process_pieces-IsKept split go_on split_full without-split pieces nothing

first_ends : last_newline "a=1\n" ≡ some ("a=1", "\n")
unfolding last_newline
first_ends = refl

second_ends : last_newline "b=2\n" ≡ some ("b=2", "\n")
unfolding last_newline
second_ends = refl

first_splits : split "a=1" ≡ "a=1" ∷ []
unfolding split
first_splits = refl

second_splits : split "b=2" ≡ "b=2" ∷ []
unfolding split
second_splits = refl

process_pieces-newline_example :
    process_pieces split none (some go_on) ("a=1\n" ∷ "b=2\n" ∷ []) nothing
    ≡ going (record { buffer = "\n"; lines = "a=1" ∷ "\nb=2" ∷ [] })
process_pieces-newline_example =
    process_pieces-newline split "a=1\n" "b=2\n" "a=1" "b=2" first_ends second_ends first_splits
      second_splits refl
