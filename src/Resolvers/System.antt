-- ===== src/Resolvers/System.antt =====
-- lib/src/facts/resolvers/operating_system_resolver.cc, with the data of
-- lib/inc/internal/facts/resolvers/operating_system_resolver.hpp.
pub mod Together
use Prim.Native.String.{[], ◌∷◌}
use facter.Base.{
  String, Char, code, Bool, true, false, Option, none, some, List, [], ◌∷◌, ◌++◌, ◌=?◌,
  if◌then◌else◌, is_empty_str,
}
use facter.Values.{Value, string_value, boolean_value, map_value, Fields, end, add_field, no_fields}
use facter.Collection.{Resolver}
use facter.Query.Paths.{has_char, is_dot}
use facter.Resolvers.{Adds, publish, map_facts, map_field}
use facter.Resolvers.Both.{Both, both, both_truth, only_field, nest, nest_always, unless_empty}
use facter.Linux.{Machine}
use facter.Linux.Release.{parse_distro}

pub record Distribution : Type 0 where
  pub id : String
  pub release : String
  pub codename : String
  pub description : String

pub record Mac : Type 0 where
  pub product : String
  pub build : String
  pub version : String

pub record Selinux : Type 0 where
  pub supported : Bool
  pub enabled : Bool
  pub enforced : Bool
  pub policy_version : String
  pub current_mode : String
  pub config_mode : String
  pub config_policy : String

pub record System : Type 0 where
  pub name : String
  pub family : String
  pub release : String
  pub major : String
  pub minor : String
  pub hardware : String
  pub architecture : String
  pub specification_version : String
  pub distro : Distribution
  pub osx : Mac
  pub system32 : String
  pub selinux : Selinux

-- What stands before the last dot, and behind it.
unfoldable pub split_last_dot : String → Option (String × String)
split_last_dot [] = none
split_last_dot (c ∷ s) = elim (split_last_dot s) [
  | some (major, minor) ↦ some (c ∷ major, minor)
  | none ↦ if is_dot c then some ([], s) else none
]

-- A major version without a dot is not one: the whole version is, and the minor one is 0.
abbrev pub mac_parts_of : String → Option (String × String) → String × String
mac_parts_of version none = ("", "")
mac_parts_of version (some (major, minor)) =
    if has_char is_dot major then (major, minor) else (version, "0")

unfoldable pub mac_parts : String → String × String
unfolding split_last_dot
mac_parts version = mac_parts_of version (split_last_dot version)

abbrev pub system_names : List String
system_names =
    "os" ∷ "operatingsystem" ∷ "osfamily" ∷ "operatingsystemrelease" ∷ "operatingsystemmajrelease"
    ∷ "hardwaremodel" ∷ "architecture" ∷ "lsbdistid" ∷ "lsbdistrelease" ∷ "lsbdistcodename"
    ∷ "lsbdistdescription" ∷ "lsbmajdistrelease" ∷ "lsbminordistrelease" ∷ "lsbrelease"
    ∷ "macosx_buildversion" ∷ "macosx_productname" ∷ "macosx_productversion"
    ∷ "macosx_productversion_major" ∷ "macosx_productversion_minor" ∷ "system32" ∷ "selinux"
    ∷ "selinux_enforced" ∷ "selinux_policyversion" ∷ "selinux_current_mode" ∷ "selinux_config_mode"
    ∷ "selinux_config_policy" ∷ []

module _ (m : Machine) where
  unfoldable pub release_fields : System → Both → Both
  unfolding both only_field
  release_fields d b =
      both "operatingsystemrelease" "full" d.release
        (only_field "minor" d.minor (both "operatingsystemmajrelease" "major" d.major b))

  unfoldable pub distro_parts : System → String × String
  unfolding parse_distro
  distro_parts d = parse_distro m d.name d.distro.release

  unfoldable pub distro_major : System → String
  unfolding distro_parts
  distro_major d =
      let major = (distro_parts d).0 in if is_empty_str major then d.distro.release else major

  unfoldable pub distro_release_fields : System → Both → Both
  unfolding both distro_major distro_parts
  distro_release_fields d b = both "lsbdistrelease" "full" d.distro.release (
      both "lsbminordistrelease" "minor" ((distro_parts d).1)
        (both "lsbmajdistrelease" "major" (distro_major d) b))

  unfoldable pub distro_fields : System → Both → Both
  unfolding both nest_always distro_release_fields
  distro_fields d b = both "lsbrelease" "specification" d.specification_version (
      unless_empty d.distro.release (nest_always "release" (distro_release_fields d)) (
        both "lsbdistdescription" "description" d.distro.description (
          both "lsbdistcodename" "codename" d.distro.codename
            (both "lsbdistid" "id" d.distro.id b))))

  unfoldable pub mac_version_fields : Mac → Both → Both
  unfolding both mac_parts
  mac_version_fields d b =
      let (major, minor) = mac_parts d.version in
      both "macosx_productversion" "full" d.version (
        both "macosx_productversion_minor" "minor" minor
          (both "macosx_productversion_major" "major" major b))

  unfoldable pub mac_fields : Mac → Both → Both
  unfolding both nest_always mac_version_fields
  mac_fields d b =
      unless_empty d.version (nest_always "version" (mac_version_fields d)) (
        both "macosx_buildversion" "build" d.build
          (both "macosx_productname" "product" d.product b))

  unfoldable pub selinux_modes : Selinux → Both → Both
  unfolding both both_truth
  selinux_modes d b = both "selinux_policyversion" "policy_version" d.policy_version (
      both "selinux_config_policy" "config_policy" d.config_policy (
        both "selinux_config_mode" "config_mode" d.config_mode (
          both "selinux_current_mode" "current_mode" d.current_mode
            (both_truth "selinux_enforced" "enforced" d.enforced b))))

  unfoldable pub selinux_fields : Selinux → Both → Both
  unfolding both both_truth selinux_modes
  selinux_fields d b =
      let added = both_truth "selinux" "enabled" d.enabled b in
      if d.enabled then selinux_modes d added else added

  -- The name goes in after the distribution's facts, and before its map.
  unfoldable pub name_and_distro : System → Both → Both
  unfolding both distro_fields map_field
  name_and_distro d (adds, os) =
      let (adds', distro) = distro_fields d (adds, end) in
      let (adds'', os') = both "operatingsystem" "name" d.name (adds', os) in
      (adds'', map_field "distro" distro os')

  unfoldable pub selinux_part : Selinux → Both → Both
  unfolding nest_always selinux_fields
  selinux_part d b = if d.supported then nest_always "selinux" (selinux_fields d) b else b

  unfoldable pub system_both : System → Both
  unfolding both nest nest_always release_fields name_and_distro mac_fields selinux_part
  system_both d = selinux_part d.selinux (
      nest "windows" (both "system32" "system32" d.system32) (
        nest "macosx" (mac_fields d.osx) (
          name_and_distro d (
            both "architecture" "architecture" d.architecture (
              both "hardwaremodel" "hardware" d.hardware (
                unless_empty d.release (nest_always "release" (release_fields d))
                  (both "osfamily" "family" d.family ([], end))))))))

  unfoldable pub system_adds : System → Adds
  unfolding system_both map_facts
  system_adds d = let (adds, os) = system_both d in adds ++ map_facts "os" false os

  unfoldable pub system_resolver : System → Resolver
  unfolding publish system_adds
  system_resolver d = record {
    name = "operating system";
    names = system_names;
    regexes = [];
    body = publish (system_adds d);
  }
