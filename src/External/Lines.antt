-- ===== src/External/Lines.antt =====
-- Facts that are spelled `name=value`: the lines of lib/src/facts/external/text_resolver.cc, the
-- output lines of execution_resolver.cc, the variables of lib/src/util/posix/environment.cc, and
-- `collection::add_environment_facts` of lib/src/facts/collection.cc.
pub mod Split
use Prim.Native.String.{[], ◌∷◌}
use facter.Base.{
  ℕ, String, Char, code, Bool, true, false, Option, none, some, List, [], ◌∷◌, ◌++◌, ◌=?◌, ◌==◌,
  if◌then◌else◌,
}
use facter.Base.Lower.{to_lower, iends_with}
use facter.Values.{Value, string_value}

-- What stands before the first `=` and behind it; `none` where there is none.
unfoldable pub split_pair : String → Option (String × String)
split_pair [] = none
split_pair (c ∷ s) = elim (code c =? b'=') [
  | true ↦ some ("", s)
  | false ↦ elim (split_pair s) [ none ↦ none | some (name, value) ↦ some (c ∷ name, value) ]
]

-- The callback that both external resolvers give to `each_line`: a line with no `=` is ignored.
unfoldable pub line_fact : String → List (String × Option Value) → List (String × Option Value)
unfolding split_pair
line_fact line added = elim (split_pair line) [
  | none ↦ added
  | some (name, value) ↦ added ++ (to_lower name, some (string_value false value)) ∷ []
]

-- The calls of `collection::add` for the lines of a file, first call first.
unfoldable pub line_facts :
    List String → List (String × Option Value) → List (String × Option Value)
unfolding line_fact
line_facts [] added = added
line_facts (line ∷ lines) added = line_facts lines (line_fact line added)

-- `environment::each`: a variable with no `=` has its whole text for a name.
unfoldable pub variable : String → String × String
unfolding split_pair
variable pair = elim (split_pair pair) [ none ↦ (pair, "") | some p ↦ p ]

-- `boost::istarts_with(name, prefix)` and `name.substr(prefix.size())`; the prefix is in lower case.
unfoldable pub strip_prefix : String → String → Option String
strip_prefix [] name = some name
strip_prefix (p ∷ prefix) [] = none
strip_prefix (p ∷ prefix) (c ∷ name) =
    let rest = strip_prefix prefix name in if to_lower (c ∷ []) == (p ∷ []) then rest else none

unfoldable pub environment_fact :
    String → List (String × Option Value) → List (String × Option Value)
unfolding variable strip_prefix to_lower
environment_fact pair added =
    let (name, value) = variable pair in
    elim (strip_prefix "facter_" name) [
      | none ↦ added
      | some fact ↦ added ++ (to_lower fact, some (string_value false value)) ∷ []
    ]

unfoldable pub add_environment_facts :
    List String → List (String × Option Value) → List (String × Option Value)
unfolding environment_fact
add_environment_facts [] added = added
add_environment_facts (pair ∷ pairs) added =
    add_environment_facts pairs (environment_fact pair added)

-- Which resolver of `get_external_resolvers` (lib/src/facts/posix/collection.cc) a file goes to.
-- `which` says whether the path is that of an executable.
pub data Kind : Type 0 where
  text yaml json execution : Kind

unfoldable pub can_resolve : (String → Bool) → Kind → String → Bool
unfolding iends_with
can_resolve which text path = iends_with path ".txt"
can_resolve which yaml path = iends_with path ".yaml"
can_resolve which json path = iends_with path ".json"
can_resolve which execution path = which path

abbrev pub external_resolvers : List Kind
external_resolvers = text ∷ yaml ∷ json ∷ execution ∷ []

unfoldable pub pick : (String → Bool) → List Kind → String → Option Kind
unfolding can_resolve
pick which [] path = none
pick which (k ∷ ks) path =
    let rest = pick which ks path in if can_resolve which k path then some k else rest
