-- ===== src/Resolvers/Declared/System.antt =====
-- The names that lib/src/facts/resolvers/operating_system_resolver.cc declares, and those that it adds.
use facter.Base.{◌≡◌, refl, true, false, []}
use facter.Values.{end}
use facter.Collection.{is_match}
use facter.Resolvers.Both.{Both, both, nest, nest_always, unless_empty}
use facter.Resolvers.Declared.{are_declared, are_declared-append, are_declared-map_facts}
use facter.Resolvers.System.{
  System, system_both, system_adds, system_resolver, release_fields, name_and_distro, distro_fields,
  distro_release_fields, mac_fields, mac_version_fields, selinux_part, selinux_fields,
  selinux_modes,
}
use facter.Linux.{Machine}
use facter.Resolvers.Declared.Both.{Declared, both-Declared, nest-Declared, declaring}

module _ (m : Machine) (d : System) where
  abbrev IsListed : Both → Type 0
  IsListed b = Declared (system_resolver m d) b

  release_fields-IsListed : (b : Both) → IsListed b → IsListed (release_fields m d b)
  unfolding release_fields system_resolver is_match
  release_fields-IsListed b h = search declaring depth 30

  distro_release_fields-IsListed : (b : Both) → IsListed b → IsListed (distro_release_fields m d b)
  unfolding distro_release_fields system_resolver is_match
  distro_release_fields-IsListed b h = search declaring depth 30

  distro_fields-IsListed : (b : Both) → IsListed b → IsListed (distro_fields m d b)
  unfolding distro_fields system_resolver is_match
  distro_fields-IsListed b h = search (declaring, distro_release_fields-IsListed) depth 30

  mac_version_fields-IsListed : (b : Both) → IsListed b → IsListed (mac_version_fields m d.osx b)
  unfolding mac_version_fields system_resolver is_match
  mac_version_fields-IsListed b h = search (declaring) depth 30

  mac_fields-IsListed : (b : Both) → IsListed b → IsListed (mac_fields m d.osx b)
  unfolding mac_fields system_resolver is_match
  mac_fields-IsListed b h = search (declaring, mac_version_fields-IsListed) depth 30

  selinux_modes-IsListed : (b : Both) → IsListed b → IsListed (selinux_modes m d.selinux b)
  unfolding selinux_modes system_resolver is_match
  selinux_modes-IsListed b h = search (declaring) depth 30

  selinux_fields-IsListed : (b : Both) → IsListed b → IsListed (selinux_fields m d.selinux b)
  unfolding selinux_fields system_resolver is_match
  selinux_fields-IsListed b h = search (declaring, selinux_modes-IsListed) depth 30

  selinux_part-IsListed : (b : Both) → IsListed b → IsListed (selinux_part m d.selinux b)
  unfolding selinux_part system_resolver is_match
  selinux_part-IsListed b h = search (declaring, selinux_fields-IsListed) depth 30

  name_and_distro-IsListed : (b : Both) → IsListed b → IsListed (name_and_distro m d b)
  unfolding name_and_distro system_resolver is_match
  name_and_distro-IsListed (adds, os) h =
      both-Declared (system_resolver m d) "operatingsystem" "name" d.name _ refl
        (distro_fields-IsListed (adds, end) h)

  abbrev hardware_both : Both
  hardware_both = both "architecture" "architecture" d.architecture (
      both "hardwaremodel" "hardware" d.hardware (
        unless_empty d.release (nest_always "release" (release_fields m d))
          (both "osfamily" "family" d.family ([], end))))

  hardware-IsListed : IsListed hardware_both
  unfolding are_declared system_resolver is_match
  hardware-IsListed = search (declaring, release_fields-IsListed) depth 30

  mac-IsListed : (b : Both) → IsListed b → IsListed (nest "macosx" (mac_fields m d.osx) b)
  mac-IsListed (adds, fields) h =
      nest-Declared (system_resolver m d) "macosx" (mac_fields m d.osx) (adds, fields)
        (mac_fields-IsListed (adds, end) h)

  windows-IsListed :
      (b : Both) → IsListed b → IsListed (nest "windows" (both "system32" "system32" d.system32) b)
  unfolding system_resolver is_match
  windows-IsListed (adds, fields) h =
      nest-Declared (system_resolver m d) "windows" (both "system32" "system32" d.system32)
        (adds, fields)
        (both-Declared (system_resolver m d) "system32" "system32" d.system32 (adds, end) refl h)

  system_both-IsListed : IsListed (system_both m d)
  unfolding system_both
  system_both-IsListed =
      let named : Both = name_and_distro m d hardware_both in
      let with_mac : Both = nest "macosx" (mac_fields m d.osx) named in
      let with_windows : Both = nest "windows" (both "system32" "system32" d.system32) with_mac in
      selinux_part-IsListed with_windows (
        windows-IsListed with_mac
          (mac-IsListed named (name_and_distro-IsListed hardware_both hardware-IsListed)))

  pub system_adds-are_declared : are_declared (system_resolver m d) (system_adds m d) ≡ true
  unfolding system_adds system_resolver is_match
  system_adds-are_declared =
      are_declared-append (system_resolver m d) (system_both m d).0 _ system_both-IsListed
        (are_declared-map_facts (system_resolver m d) "os" false (system_both m d).1 refl)
