-- ===== src/Tests/Options.antt =====
-- Command lines.
use facter.Base.{String, ◌≡◌, refl, true, false, none, List, [], ◌∷◌, All}
use facter.Base.Text.{str_ltb}
use facter.CommandLine.{Options, conflict, gather}
use facter.CommandLine.Normal.{Rises, IsQuery, gather-Rises}

abbrev asked : List String
asked = " os..name." ∷ "." ∷ "kernel" ∷ "os.name" ∷ []

abbrev options : Options
options = record {
  color = false;
  no_color = true;
  help = false;
  has_json = true;
  has_yaml = false;
  has_debug = false;
  has_verbose = true;
  version = false;
  no_ruby = false;
  no_custom_facts = false;
  no_external_facts = false;
  has_trace = false;
  log_level = none;
  custom_dirs = "custom" ∷ [];
  external_dirs = "facts.d" ∷ [];
  queries = asked;
}

gather-Rises_example : Rises (gather asked []) × All IsQuery (gather asked [])
gather-Rises_example = gather-Rises asked [] tt tt

gathered : gather asked [] ≡ "kernel" ∷ "os.name" ∷ []
unfolding gather str_ltb
gathered = refl

no_conflict : conflict options ≡ none
unfolding conflict
no_conflict = refl
