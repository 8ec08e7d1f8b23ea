-- ===== src/Resolvers/Tools.antt =====
-- What tools and the system say: lib/src/facts/resolvers/zfs_resolver.cc, zpool_resolver.cc,
-- augeas_resolver.cc, timezone_resolver.cc, load_average_resolver.cc and path_resolver.cc. The lines
-- of a tool's output, and the first group of a regular expression, are parameters.
use facter.Base.{
  ℕ, String, true, false, Option, none, some, List, [], ◌∷◌, ◌++◌, if◌then◌else◌, is_empty_str,
  is_empty,
}
use facter.Values.{end, string_value, double_value, map_value, add_field}
use facter.Collection.{Resolver}
use facter.Resolvers.{Adds, publish}
use facter.Resolvers.Filesystem.{join}
use facter.Resolvers.Kernel.{visible_fact}

-- The first group of a text that a regular expression is found in.
abbrev pub Search : Type 0
Search = String → String → Option String

pub record Tool : Type 0 where
  pub version : String
  pub features : List String

module _ (search : Search) where
  -- A callback that ends the loop where it finds the version.
  unfoldable pub first_found : String → List String → String
  first_found regex [] = ""
  first_found regex (line ∷ lines) = elim (search line regex) [
    | some version ↦ version
    | none ↦ first_found regex lines
  ]

  abbrev pub one_feature : Option String → List String
  one_feature none = []
  one_feature (some feature) = feature ∷ []

  unfoldable pub zfs_features : List String → List String
  zfs_features [] = []
  zfs_features (line ∷ lines) = one_feature (search line "\\s*(\\d+)[ ]") ++ zfs_features lines

  unfoldable pub collect_zfs : List String → List String → Tool
  unfolding first_found zfs_features
  collect_zfs upgrade upgrade_v = record {
    version = first_found "currently running ZFS filesystem version (\\d+)[.]" upgrade;
    features = zfs_features upgrade_v;
  }

  -- One loop that does not end early: the last version, and the features of the other lines.
  abbrev pub zpool_line : Option String → Option String → Tool → Tool
  zpool_line (some version) feature t = record t { version = version }
  zpool_line none feature t = record t { features = t.features ++ one_feature feature }

  unfoldable pub read_zpool : List String → Tool → Tool
  read_zpool [] t = t
  read_zpool (line ∷ lines) t =
      read_zpool lines
        (zpool_line (search line "ZFS pool version (\\d+)[.]") (search line "\\s*(\\d+)[ ]") t)

  unfoldable pub collect_zpool : List String → Tool
  unfolding read_zpool
  collect_zpool upgrade_v = read_zpool upgrade_v (record { version = ""; features = [] })

  unfoldable pub augeas_version : List String → String
  unfolding first_found
  augeas_version lines = first_found "^augtool (\\d+\\.\\d+\\.\\d+)" lines

unfoldable pub tool_adds : String → String → Tool → Adds
unfolding join
tool_adds version_name features_name t =
    visible_fact version_name t.version
    ++ (if is_empty t.features
        then []
        else (features_name, string_value false (join t.features)) ∷ [])

unfoldable pub zfs_resolver : Tool → Resolver
unfolding publish tool_adds
zfs_resolver t = record {
  name = "ZFS";
  names = "zfs_version" ∷ "zfs_featurenumbers" ∷ [];
  regexes = [];
  body = publish (tool_adds "zfs_version" "zfs_featurenumbers" t);
}

unfoldable pub zpool_resolver : Tool → Resolver
unfolding publish tool_adds
zpool_resolver t = record {
  name = "ZFS storage pool";
  names = "zpool_version" ∷ "zpool_featurenumbers" ∷ [];
  regexes = [];
  body = publish (tool_adds "zpool_version" "zpool_featurenumbers" t);
}

unfoldable pub augeas_adds : String → Adds
unfolding add_field
augeas_adds version =
    if is_empty_str version
    then []
    else ("augeasversion", string_value true version)
      ∷ ("augeas", map_value false (add_field "version" (some (string_value false version)) end))
      ∷ []

unfoldable pub augeas_resolver : String → Resolver
unfolding publish augeas_adds
augeas_resolver version = record {
  name = "augeas";
  names = "augeas" ∷ "augeasversion" ∷ [];
  regexes = [];
  body = publish (augeas_adds version);
}

unfoldable pub timezone_resolver : String → Resolver
unfolding publish
timezone_resolver timezone = record {
  name = "timezone";
  names = "timezone" ∷ [];
  regexes = [];
  body = publish (visible_fact "timezone" timezone);
}

-- The averages are the bits of doubles.
unfoldable pub load_average_adds : Option (ℕ × ℕ × ℕ) → Adds
unfolding add_field
load_average_adds none = []
load_average_adds (some (one, five, fifteen)) =
    (
      "load_averages",
      map_value false (
          add_field "15m" (some (double_value false fifteen)) (
            add_field "5m" (some (double_value false five))
              (add_field "1m" (some (double_value false one)) end))),
    )
    ∷ []

unfoldable pub load_average_resolver : Option (ℕ × ℕ × ℕ) → Resolver
unfolding publish load_average_adds
load_average_resolver averages = record {
  name = "load_average";
  names = "load_averages" ∷ [];
  regexes = [];
  body = publish (load_average_adds averages);
}

-- A variable that is set may be empty.
abbrev pub path_adds : Option String → Adds
path_adds none = []
path_adds (some value) = ("path", string_value false value) ∷ []

unfoldable pub path_resolver : Option String → Resolver
unfolding publish
path_resolver value = record {
  name = "path";
  names = "path" ∷ [];
  regexes = [];
  body = publish (path_adds value);
}
