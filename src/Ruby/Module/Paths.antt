-- ===== src/Ruby/Module/Paths.antt =====
-- The search paths of lib/src/ruby/module.cc: `initialize_search_paths`, `Facter.search`,
-- `Facter.search_external` and `Facter.reset`. The directories are asked through `Directories`.
pub mod Canonical
use facter.Base.{
  String, Bool, true, false, not, Option, none, some, List, [], ◌∷◌, ◌++◌, map, keep, if◌then◌else◌,
  is_empty_str, ◌<>◌,
}
use facter.Ruby.Value.{Ruby, text}

pub record Directories : Type 0 where
  -- `canonical`, if there is no error
  pub canonical : String → Option String
  pub is_regular_file : String → Bool
  pub is_directory : String → Bool
  -- Ruby's load path
  pub load_path : List String
  -- the variable FACTERLIB, if it is set, split at the path separators
  pub facterlib : Option (List String)

-- The members of `module` that are paths.
pub record Paths : Type 0 where
  pub search_paths : List String
  pub additional_search_paths : List String
  pub external_search_paths : List String

module _ (d : Directories) where
  abbrev pub facter_directory : String → List String
  facter_directory dir =
      if d.is_regular_file (dir <> "/facter.rb")
      then []
      else if not (d.is_directory (dir <> "/facter"))
      then []
      else (dir <> "/facter") ∷ []

  abbrev pub if_canonical : (String → List String) → Option String → List String
  if_canonical f none = []
  if_canonical f (some dir) = f dir

  -- The subdirectories of the load path that are called facter.
  unfoldable pub from_load_path : List String → List String
  from_load_path [] = []
  from_load_path (dir ∷ dirs) =
      if_canonical facter_directory (d.canonical dir) ++ from_load_path dirs

  abbrev pub path_or_empty : Option String → String
  path_or_empty none = ""
  path_or_empty (some dir) = dir

  abbrev pub paths_or_none : Option (List String) → List String
  paths_or_none none = []
  paths_or_none (some paths) = paths

  unfoldable pub initialize_search_paths : List String → Paths → Paths
  unfolding from_load_path
  initialize_search_paths paths p =
      let all = from_load_path d.load_path ++ (paths_or_none d.facterlib ++ paths) in
      record p {
        search_paths =
            keep (λ s. not (is_empty_str s)) (map (λ s. path_or_empty (d.canonical s)) all);
        additional_search_paths = [];
      }

  abbrev pub push_canonical : Option String → Paths → Paths
  push_canonical none p = p
  push_canonical (some dir) p = record p { search_paths = p.search_paths ++ dir ∷ [] }

  abbrev pub search_one : Ruby → Paths → Paths
  search_one (text s) p =
      push_canonical (d.canonical s)
        (record p { additional_search_paths = p.additional_search_paths ++ s ∷ [] })
  search_one _ p = p

  -- `Facter.search`
  unfoldable pub ruby_search : List Ruby → Paths → Paths
  ruby_search [] p = p
  ruby_search (v ∷ vs) p = ruby_search vs (search_one v p)

  abbrev pub search_external_one : Ruby → Paths → Paths
  search_external_one (text s) p = record p {
    external_search_paths = p.external_search_paths ++ s ∷ [];
  }
  search_external_one _ p = p

  -- `Facter.search_external`
  unfoldable pub ruby_search_external : List Ruby → Paths → Paths
  ruby_search_external [] p = p
  ruby_search_external (v ∷ vs) p = ruby_search_external vs (search_external_one v p)

  -- What `Facter.reset` does to the paths.
  unfoldable pub reset_paths : Paths → Paths
  unfolding initialize_search_paths
  reset_paths p = record (initialize_search_paths [] p) { external_search_paths = [] }
