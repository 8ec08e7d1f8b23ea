-- ===== src/CommandLine/Accepted.antt =====
-- Options that do not conflict: exe/facter.cc.
use facter.Base.{
  ◌≡◌, ◌↔◌, refl, Bool, true, false, not, ◌&&◌, Option, none, some, [], ◌∷◌, if◌then◌else◌,
  is_empty, arith, ◌+◌, ltb,
}
use facter.CommandLine.{
  Options, Error, conflict, format_of, gather, steps, add_default_facts, add_external_facts,
  add_environment_facts, load_custom_facts, write_facts, count_if, is_given,
}

-- At most one of the three.
abbrev pub at_most_one : Bool → Bool → Bool → Bool
at_most_one true b c = not b && not c
at_most_one false b c = not (b && c)

-- No two options that contradict each other.
pub record IsConsistent (o : Options) : Type 0 where
  pub colors : (o.color && o.no_color) ≡ false
  pub formats : (o.has_json && o.has_yaml) ≡ false
  pub external : (o.no_external_facts && not (is_empty o.external_dirs)) ≡ false
  pub custom : (o.no_custom_facts && not (is_empty o.custom_dirs)) ≡ false
  pub levels : at_most_one o.has_debug o.has_verbose (is_given o.log_level) ≡ true
  pub ruby : (o.no_ruby && not (is_empty o.custom_dirs)) ≡ false

none-some : {e : Error} {A : Type 0} → some e ≡ none → A
none-some h = absurd (ground (arith, h))

checked :
    (b : Bool) (e : Error) (rest : Option Error)
    → (if b then some e else rest) ≡ none
    → (b ≡ false) × (rest ≡ none)
checked true e rest h = none-some h
checked false e rest h = (refl, h)

levels-counted :
    (a b c : Bool) → ltb 1 (count_if a + count_if b + count_if c) ≡ not (at_most_one a b c)
levels-counted true true true = refl
levels-counted true true false = refl
levels-counted true false true = refl
levels-counted true false false = refl
levels-counted false true true = refl
levels-counted false true false = refl
levels-counted false false true = refl
levels-counted false false false = refl

negated : (a b : Bool) → a ≡ not b → a ≡ false → b ≡ true
negated a b h k = ground (arith, h, k)

consistent : (o : Options) → conflict o ≡ none → IsConsistent o
unfolding conflict
consistent o h =
    let (colors, h₁) = checked _ _ _ h in
    let (formats, h₂) = checked _ _ _ h₁ in
    let (external, h₃) = checked _ _ _ h₂ in
    let (custom, h₄) = checked _ _ _ h₃ in
    let (levels, h₅) = checked _ _ _ h₄ in
    let (ruby, h₆) = checked _ _ _ h₅ in
    record {
      colors = colors;
      formats = formats;
      external = external;
      custom = custom;
      levels = negated _ _ (levels-counted o.has_debug o.has_verbose (is_given o.log_level)) levels;
      ruby = ruby;
    }

negated_back : (a b : Bool) → a ≡ not b → b ≡ true → a ≡ false
negated_back a b h k = ground (arith, h, k)

accepted : (o : Options) → IsConsistent o → conflict o ≡ none
unfolding conflict
accepted o c =
    rw
      (
        c.colors,
        c.formats,
        c.external,
        c.custom,
        negated_back _ _ (levels-counted o.has_debug o.has_verbose (is_given o.log_level)) c.levels,
        c.ruby,
      )
      refl

-- Options are accepted exactly where no two of them contradict each other.
conflict-IsConsistent : (o : Options) → (conflict o ≡ none) ↔ IsConsistent o
conflict-IsConsistent o = (consistent o, accepted o)

unless : (a b : Bool) → (a && not b) ≡ false → b ≡ false → a ≡ false
unless a b h k = ground (arith, h, k)

-- Where options with no conflict name directories of external and of custom facts, and Ruby is
-- loaded, all facts are added in this order, from those directories, and are written at last.
pub steps-directories :
    (o : Options)
    → conflict o ≡ none
    → is_empty o.external_dirs ≡ false
    → is_empty o.custom_dirs ≡ false
    → steps o true
      ≡ add_default_facts true
        ∷ add_external_facts o.external_dirs
        ∷ add_environment_facts
        ∷ load_custom_facts o.custom_dirs
        ∷ write_facts (format_of o) (gather o.queries [])
        ∷ []
unfolding steps
steps-directories o h external custom =
    let c = consistent o h in
    rw (unless _ _ c.external external, unless _ _ c.custom custom, unless _ _ c.ruby custom) refl
