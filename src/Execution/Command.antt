-- ===== src/Execution/Command.antt =====
-- The expansion of a command to the path of its program: `expand_command` of
-- lib/src/execution/execution.cc, and `which` of lib/src/execution/posix/execution.cc.
pub mod Expands
pub mod Padded
use Prim.Native.String.{[], ◌∷◌}
use facter.Base.{
  ℕ, zero, suc, String, Char, code, Bool, true, false, ◌&&◌, ◌||◌, Option, none, some, List, [],
  ◌∷◌, ◌=?◌, if◌then◌else◌, is_empty_str, ◌<>◌,
}
use facter.Query.{is_space}

-- `boost::trim`, in the classic locale
unfoldable pub trim_left : String → String
trim_left [] = []
trim_left (c ∷ s) = let rest = trim_left s in if is_space c then rest else c ∷ s

unfoldable pub trim_right : String → String
trim_right [] = []
trim_right (c ∷ s) =
    let rest = trim_right s in if is_empty_str rest && is_space c then [] else c ∷ rest

unfoldable pub trim : String → String
unfolding trim_left trim_right
trim s = trim_right (trim_left s)

-- `string::find` of a character: its position
unfoldable pub find_char : (Char → Bool) → String → Option ℕ
find_char p [] = none
find_char p (c ∷ s) =
    if p c then some zero else elim (find_char p s) [ none ↦ none | some i ↦ some (suc i) ]

-- `substr(0, pos)`
unfoldable pub str_take : ℕ → String → String
str_take zero s = []
str_take (suc n) [] = []
str_take (suc n) (c ∷ s) = c ∷ str_take n s

-- `substr(pos)`; `none` is the exception `out_of_range`.
unfoldable pub substr : ℕ → String → Option String
substr zero s = some s
substr (suc n) [] = none
substr (suc n) (c ∷ s) = substr n s

abbrev pub is_quote : Char → Bool
is_quote c = code c =? b'"' || code c =? b'\''

abbrev pub is_blank : Char → Bool
is_blank c = code c =? b' '

-- How the path of a file in a directory is written, and what is executable.
pub record Paths : Type 0 where
  pub is_absolute : String → Bool
  pub join : String → String → String
  pub is_executable : String → Bool

-- The first directory that has an executable file of the name.
unfoldable pub search_path : Paths → String → List String → String
search_path paths file [] = ""
search_path paths file (dir ∷ dirs) =
    let rest = search_path paths file dirs in
    let p = paths.join dir file in if paths.is_executable p then p else rest

unfoldable pub which : Paths → List String → String → String
unfolding search_path
which paths directories file =
    if paths.is_absolute file
    then (if paths.is_executable file then file else "")
    else search_path paths file directories

module _ (which : String → String) where
  -- The last part: where no program is found, the trimmed command is the result.
  abbrev pub put_back : String → String → String → String → String
  put_back result quote file remainder =
      let found = which file in if is_empty_str found then result else quote <> (found <> remainder)

  -- The program's name in quotes; `result` is the character and what follows it.
  unfoldable pub quoted : Char → String → String
  unfolding find_char str_take substr
  quoted q s = elim (find_char (λ c. code c =? code q) s) [
    | none ↦ put_back (q ∷ s) (q ∷ "") s ""
    | some pos ↦ elim (substr pos s) [
      | none ↦ put_back (q ∷ s) (q ∷ "") (str_take pos s) ""
      | some remainder ↦ put_back (q ∷ s) (q ∷ "") (str_take pos s) remainder
    ]
  ]

  -- `none` is the exception `out_of_range`.
  unfoldable pub cut : ℕ → String → Option String → Option String
  unfolding str_take
  cut pos result none = none
  cut pos result (some remainder) = some (put_back result "" (str_take pos result) remainder)

  unfoldable pub cut_at : String → Option ℕ → Option String
  unfolding substr cut
  cut_at result none = some (put_back result "" result "")
  cut_at result (some pos) = cut pos result (substr pos result)

  unfoldable pub plain : String → String → Option String
  unfolding find_char cut_at
  plain command result = cut_at result (find_char is_blank command)

  -- The space is looked for in the command as it was given.
  unfoldable pub expand_result : String → String → Option String
  unfolding quoted plain
  expand_result command [] = some ""
  expand_result command (c ∷ s) = if is_quote c then some (quoted c s) else plain command (c ∷ s)

  unfoldable pub expand_command : String → Option String
  unfolding trim expand_result
  expand_command command = expand_result command (trim command)
