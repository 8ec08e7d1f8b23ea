-- ===== src/External/Lines/Split.antt =====
-- Lines and variables written as `name=value`.
use Prim.Native.String.{[], ◌∷◌}
use text.Mathlib.TextLemmas.{cons-append, nil-append}
use facter.Base.{
  String, code, ◌≡◌, refl, ap, ◌∙◌, Bool, true, false, Option, some, List, [], ◌∷◌, ◌++◌, map, ◌=?◌,
  arith, ◌<>◌, eq_refl,
}
use facter.Base.Lower.{to_lower, lower_char}
use facter.Values.{Value, string_value}
use facter.External.Lines.{
  split_pair, line_fact, line_facts, variable, strip_prefix, environment_fact,
}

abbrev pub has_equals : String → Bool
has_equals [] = false
has_equals (c ∷ s) = elim (code c =? b'=') [ true ↦ true | false ↦ has_equals s ]

abbrev pub equation : String × String → String
equation (name, value) = name <> ("=" <> value)

split_pair-equation :
    (name value : String)
    → has_equals name ≡ false
    → split_pair (equation (name, value)) ≡ some (name, value)
unfolding split_pair
split_pair-equation [] value h =
    rw (nil-append ("=" <> value), cons-append "=" [] value, nil-append value)
split_pair-equation (c ∷ name) value h =
    rw (cons-append c name ("=" <> value)) (ground (arith, split_pair-equation name value))

line_fact-equation :
    (name value : String) (added : List (String × Option Value))
    → has_equals name ≡ false
    → line_fact (equation (name, value)) added
      ≡ added ++ (to_lower name, some (string_value false value)) ∷ []
unfolding line_fact
line_fact-equation name value added h = rw (split_pair-equation name value h, line_fact)

abbrev pub AllNames : List (String × String) → Type 0
AllNames [] = Unit
AllNames ((name, value) ∷ ps) = (has_equals name ≡ false) × AllNames ps

abbrev pub facts_of :
    List (String × String) → List (String × Option Value) → List (String × Option Value)
facts_of [] added = added
facts_of ((name, value) ∷ ps) added =
    facts_of ps (added ++ (to_lower name, some (string_value false value)) ∷ [])

-- Lines written as `name=value`, with no `=` in a name, add exactly these facts, with their names in
-- lower case: the value is all that stands behind the first `=`, and may itself hold more.
pub line_facts-equation :
    (ps : List (String × String)) (added : List (String × Option Value))
    → AllNames ps
    → line_facts (map equation ps) added ≡ facts_of ps added
unfolding line_facts
line_facts-equation [] added h = refl
line_facts-equation ((name, value) ∷ ps) added h =
    ap (λ a. line_facts (map equation ps) a) (line_fact-equation name value added h.0)
    ∙ line_facts-equation ps (added ++ (to_lower name, some (string_value false value)) ∷ []) h.1

variable-equation :
    (name value : String)
    → has_equals name ≡ false
    → variable (equation (name, value)) ≡ (name, value)
unfolding variable
variable-equation name value h = rw (split_pair-equation name value h, variable)

strip_prefix-append :
    (prefix name : String) → strip_prefix (to_lower prefix) (prefix <> name) ≡ some name
unfolding strip_prefix to_lower
strip_prefix-append [] name = rw (nil-append name)
strip_prefix-append (c ∷ prefix) name =
    rw (cons-append c prefix name)
      (ground (arith, strip_prefix-append prefix name, eq_refl (lower_char c ∷ [])))

-- A variable of the environment whose name is FACTER_ in any case and a fact's name sets that fact,
-- in lower case, to the text behind the first `=`.
pub environment_fact-equation :
    (prefix name value : String) (added : List (String × Option Value))
    → to_lower prefix ≡ "facter_"
    → has_equals (prefix <> name) ≡ false
    → environment_fact (equation (prefix <> name, value)) added
      ≡ added ++ (to_lower name, some (string_value false value)) ∷ []
unfolding environment_fact
environment_fact-equation prefix name value added lower h =
    let stripped : strip_prefix "facter_" (prefix <> name) ≡ some name =
      rw (← lower) (strip_prefix-append prefix name) in
    ground (arith, variable-equation (prefix <> name) value h, stripped)
