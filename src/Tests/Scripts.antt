-- ===== src/Tests/Scripts.antt =====
-- Two files of custom facts, each of which asks for the other's fact.
use facter.Base.{◌≤◌, true, false, [], ◌∷◌, ◌==◌, if◌then◌else◌, arith, ◌<>◌}
use facter.Ruby.Module.{
  Script, finished, raised, add, ask, Disk, Registry, contains, load, load_fact,
}
use facter.Ruby.Module.Loading.{remaining, IsWellFormed}
use facter.Ruby.Module.Ensures.{Ensures}
use facter.Ruby.Module.Search.{Thoroughly, load_fact-Thoroughly}

abbrev role_script : Script
role_script = ask "site" λ there. if there then raised else add "role" (λ f. f) finished

abbrev site_script : Script
site_script = ask "role" λ there. add "site" (λ f. f) finished

abbrev disk : Disk
disk = record {
  files = "facts/role.rb" ∷ "facts/places.rb" ∷ [];
  is_listed = λ dir file. true;
  path = λ dir file. dir <> ("/" <> file);
  script = λ file. if file == "facts/role.rb" then role_script else site_script;
}

abbrev pub fresh : Registry
fresh = record { facts = []; loaded_files = []; loaded_all = false; search_paths = "facts" ∷ [] }

fresh-IsWellFormed : IsWellFormed disk fresh
fresh-IsWellFormed = record { once = tt; thorough = λ h. absurd (ground (arith, h)) }

two_left : remaining disk.files fresh.loaded_files ≤ 2
unfolding remaining contains
two_left = omega arith

load_fact-Thoroughly_example :
    Ensures
      (Thoroughly disk (λ name. false) "role" fresh)
      (load_fact disk (λ name. false) (load disk (λ name. false) 2) "role" fresh)
load_fact-Thoroughly_example =
    load_fact-Thoroughly disk (λ name. false) 2 "role" fresh fresh-IsWellFormed two_left
