-- ===== src/CommandLine.antt =====
-- The program's command line: exe/facter.cc. What `program_options` parsed is an argument, as is
-- whether Ruby could be loaded; the log and the colours are left to the logger.
pub mod Normal
pub mod Accepted
use Prim.Native.String.{[], ◌∷◌}
use facter.Base.{
  ℕ, zero, suc, ◌+◌, String, Char, code, Bool, true, false, not, ◌&&◌, ◌||◌, Option, none, some,
  List, [], ◌∷◌, ◌=?◌, ◌==◌, ltb, if◌then◌else◌, is_empty_str, is_empty,
}
use facter.Base.Text.{str_ltb}
use facter.Query.{is_space}
use facter.Output.{Format, hash, json, yaml}

-- The levels of the logger.
pub data Level : Type 0 where
  no_level trace debug info warning error fatal : Level

-- Whether an option is given (`count`), and the values of those that have some. No log level is
-- the default one.
pub record Options : Type 0 where
  pub color : Bool
  pub no_color : Bool
  pub help : Bool
  pub has_json : Bool
  pub has_yaml : Bool
  pub has_debug : Bool
  pub has_verbose : Bool
  pub version : Bool
  pub no_ruby : Bool
  pub no_custom_facts : Bool
  pub no_external_facts : Bool
  pub has_trace : Bool
  pub log_level : Option Level
  pub custom_dirs : List String
  pub external_dirs : List String
  pub queries : List String

pub data Error : Type 0 where
  color_conflict format_conflict external_conflict : Error
  custom_conflict level_conflict ruby_conflict : Error

abbrev pub count_if : Bool → ℕ
count_if b = if b then 1 else 0

abbrev pub is_given : Option Level → Bool
is_given none = false
is_given (some l) = true

-- The checks that throw `po::error`, in their order.
unfoldable pub conflict : Options → Option Error
conflict o =
    if o.color && o.no_color
    then some color_conflict
    else if o.has_json && o.has_yaml
    then some format_conflict
    else if o.no_external_facts && not (is_empty o.external_dirs)
    then some external_conflict
    else if o.no_custom_facts && not (is_empty o.custom_dirs)
    then some custom_conflict
    else if ltb 1 (count_if o.has_debug + count_if o.has_verbose + count_if (is_given o.log_level))
    then some level_conflict
    else if o.no_ruby && not (is_empty o.custom_dirs)
    then some ruby_conflict
    else none

unfoldable pub level_of : Options → Level
level_of o =
    if o.has_debug
    then debug
    else if o.has_verbose
    then info
    else elim o.log_level [ none ↦ warning | some level ↦ level ]

unfoldable pub format_of : Options → Format
format_of o = if o.has_json then json else if o.has_yaml then yaml else hash

abbrev pub is_delimiter : Char → Bool
is_delimiter c = code c =? b'.'

abbrev pub is_trimmed : Char → Bool
is_trimmed c = is_delimiter c || is_space c

unfoldable pub trim_left : String → String
trim_left [] = []
trim_left (c ∷ s) = let rest = trim_left s in if is_trimmed c then rest else c ∷ s

unfoldable pub trim_right : String → String
trim_right [] = []
trim_right (c ∷ s) =
    let rest = trim_right s in if is_empty_str rest && is_trimmed c then [] else c ∷ rest

-- `unique`: a delimiter that follows one is dropped. The flag says whether one was kept last.
unfoldable pub unique_from : Bool → String → String
unique_from after [] = []
unique_from after (c ∷ s) =
    let rest = unique_from (is_delimiter c) s in if after && is_delimiter c then rest else c ∷ rest

unfoldable pub normalize : String → String
unfolding trim_left trim_right unique_from
normalize q = unique_from false (trim_right (trim_left q))

-- `set::emplace`
unfoldable pub emplace_query : String → List String → List String
emplace_query q [] = q ∷ []
emplace_query q (p ∷ queries) =
    let rest = emplace_query q queries in
    if p == q then p ∷ queries else if str_ltb q p then q ∷ p ∷ queries else p ∷ rest

unfoldable pub gather : List String → List String → List String
unfolding normalize emplace_query
gather [] queries = queries
gather (q ∷ qs) queries =
    let query = normalize q in
    if is_empty_str query then gather qs queries else gather qs (emplace_query query queries)

-- What is called on the collection, in order.
pub data Step : Type 0 where
  add_default_facts : Bool → Step
  add_external_facts : List String → Step
  add_environment_facts : Step
  load_custom_facts : List String → Step
  write_facts : Format → List String → Step

abbrev external_steps : Options → List Step → List Step
external_steps o rest =
    if not o.no_external_facts then add_external_facts o.external_dirs ∷ rest else rest

abbrev custom_steps : Options → Bool → List Step → List Step
custom_steps o ruby rest =
    if ruby && not o.no_custom_facts then load_custom_facts o.custom_dirs ∷ rest else rest

-- `loads` says whether `facter::ruby::initialize` succeeds.
unfoldable pub steps : Options → Bool → List Step
unfolding format_of gather
steps o loads =
    let ruby = not o.no_ruby && loads in
    add_default_facts ruby
    ∷ external_steps o (
        add_environment_facts
        ∷ custom_steps o ruby (write_facts (format_of o) (gather o.queries []) ∷ []))

pub data Command : Type 0 where
  show_help : Command
  fail : Error → Command
  show_version : Command
  run : Level → List Step → Command

unfoldable pub command : Options → Bool → Command
unfolding conflict level_of steps
command o loads = if o.help then show_help else elim (conflict o) [
  | some e ↦ fail e
  | none ↦ if o.version then show_version else run (level_of o) (steps o loads)
]
