-- ===== src/Tests/Overrides.antt =====
-- The search paths of custom facts, and variables of the environment in the place of custom facts.
use facter.Base.{
  any, ltb, String, ◌≡◌, refl, arith, Bool, true, false, Option, none, some, List, [], ◌∷◌, ◌==◌,
  if◌then◌else◌, eq_iff,
}
use facter.Ruby.Value.{Ruby, ruby_nil, text, symbol, ok}
use facter.Ruby.Resolution.{Resolution, weight}
use facter.Ruby.Fact.Choice.{IsChosen}
use facter.Ruby.Fact.{flush_resolutions, Fact, fact_value, flush}
use facter.Ruby.Module.{find_fact, add_fact, new_fact}
use facter.Ruby.Module.Execute.{Shell, executed, ExecuteOptions, ruby_execute, execute_command}
use facter.Ruby.Module.Paths.{Directories, Paths, initialize_search_paths, ruby_search}
use facter.Ruby.Module.Paths.Canonical.{
  IsStable, AreCanonical, start, next, search, Reach-AreCanonical,
}
use facter.Ruby.Module.Population.{set_value, add_environment}
use facter.Ruby.Module.Population.Override.{
  Definition, define_all, last_value, add_environment-wins, fact_value-flush,
}
use facter.Tests.Customs.{interpreter, weighing}
use facter.Tests.Scripts.{fresh}
use facter.Tests.Sorting.{sort, sort-IsSort}

-- Search paths: one directory that is there, under two names.
abbrev canonical_of : String → Option String
canonical_of s =
    if s == "/opt/facts"
    then some "/opt/facts"
    else if s == "/facts"
    then some "/opt/facts"
    else none

abbrev directories : Directories
directories = record {
  canonical = canonical_of;
  is_regular_file = λ s. false;
  is_directory = λ s. true;
  load_path = [];
  facterlib = some ("/facts" ∷ "/gone" ∷ []);
}

directories-IsStable : IsStable directories
directories-IsStable s t h =
    let there : t ≡ "/opt/facts" = ground (arith, h, eq_iff s "/opt/facts", eq_iff s "/facts") in
    rw there (refl, refl)

abbrev no_paths : Paths
no_paths = record { search_paths = []; additional_search_paths = []; external_search_paths = [] }

Reach-AreCanonical_example : AreCanonical directories (
    ruby_search directories
      (text "/facts" ∷ ruby_nil ∷ text "/gone" ∷ [])
      (initialize_search_paths directories ("/opt/facts" ∷ []) no_paths))
Reach-AreCanonical_example =
    Reach-AreCanonical directories directories-IsStable ("/opt/facts" ∷ []) (
      next {q = initialize_search_paths directories ("/opt/facts" ∷ []) no_paths} start
        (search (text "/facts" ∷ ruby_nil ∷ text "/gone" ∷ []) _))

-- Two variables for one fact, whose name also has a resolution.
abbrev environment : List (String × Ruby)
environment = ("role", text "web") ∷ ("site", text "north") ∷ ("role", text "mail") ∷ []

role_last : last_value "role" environment ≡ some (text "mail")
role_last = refl

abbrev constant : Definition
constant = record {
  name = ruby_nil;
  options = [];
  block = some (λ r. (ok ruby_nil, record r { block = some (ok (text "custom")) }));
}

add_environment-wins_example :
    (f : Fact) × (find_fact "role"
        (add_fact "role"
          (define_all interpreter (constant ∷ []))
          (add_environment environment fresh)).facts
      ≡ some f)
    × ((fact_value interpreter sort (some (text "old")) f).result ≡ ok (text "mail"))
add_environment-wins_example =
    add_environment-wins interpreter sort "role" (text "mail") environment fresh refl role_last
      (constant ∷ []) (some (text "old"))

abbrev heavy : List Resolution
heavy = weighing 5 (ok (text "custom")) ∷ []

heavy_weighs : any (λ r. ltb 0 (weight r)) heavy ≡ true
unfolding weight
heavy_weighs = refl

heavy_is_calm : flush_resolutions heavy ≡ ok ruby_nil
unfolding flush_resolutions
heavy_is_calm = refl

fact_value-flush_example :
    let set = set_value (text "web") (record (new_fact "role") { resolutions = heavy }) in
    ((fact_value interpreter sort none set).result ≡ ok (text "web"))
    × (w : Ruby) × ((fact_value interpreter sort none (flush set).1).result ≡ ok w)
    × ((fact_value interpreter sort none (flush set).1).added ≡ some w)
    × IsChosen interpreter heavy w
fact_value-flush_example =
    fact_value-flush interpreter sort sort-IsSort "role" (text "web") none heavy heavy_weighs
      ruby_nil heavy_is_calm

-- A shell with one command, which fails.
abbrev symbols_equal : Ruby → Ruby → Bool
symbols_equal (symbol s) (symbol t) = s == t
symbols_equal _ _ = false

abbrev failing : Shell
failing = record {
  which = λ s. "/bin/false";
  expand_command = λ s. s;
  execute = λ s n. executed false "";
  equals = symbols_equal;
  num2ulong = λ n. n;
}

abbrev with_default : ExecuteOptions
with_default = record { timeout = ruby_nil; on_fail = some (text "unknown") }

default_given : ruby_execute failing "false" (some with_default) ≡ ok (text "unknown")
unfolding ruby_execute execute_command
default_given = refl
