-- ===== src/Linux/Collecting.antt =====
-- What is collected of a Linux system: lib/src/facts/linux/operating_system_resolver.cc, on top of
-- lib/src/facts/posix/operatingsystem_resolver.cc and `collect_data` of
-- lib/src/facts/resolvers/operating_system_resolver.cc, with the systems of
-- lib/inc/internal/facts/linux/os_cumulus.hpp, os_coreos.hpp and os_cisco.hpp.
pub mod Family
use Prim.Native.String.{[], ◌∷◌}
use facter.Base.{
  ℕ, zero, suc, Char, code, String, Bool, true, false, not, ◌&&◌, ◌||◌, Option, none, some, List,
  [], ◌∷◌, ◌=?◌, ◌==◌, if◌then◌else◌, is_empty_str, ◌<>◌,
}
use facter.Resolvers.{starts_with}
use facter.Resolvers.System.{System, Distribution, Mac, Selinux}
use facter.Linux.{Machine, Uname, is_match, lines_of}
use facter.Linux.System.{get_name, get_family}
use facter.Linux.Release.{get_release, parse_distro, first_group}
use facter.Linux.ReleaseInfo.{Info, find_info, key_value_file}

-- The class that `get_os` makes an object of, with its release info.
pub data OsLinux : Type 0 where
  os_linux : OsLinux
  os_cumulus os_coreos os_cisco : Info → OsLinux

-- An entry that is found, or an empty text; `map::operator[]`
unfoldable pub info_or_empty : String → Info → String
unfolding find_info
info_or_empty key info = elim (find_info key info) [ none ↦ "" | some value ↦ value ]

-- `substr(0, release.find('('))`
unfoldable pub before_parenthesis : String → String
before_parenthesis [] = []
before_parenthesis (c ∷ s) =
    let rest = before_parenthesis s in if code c =? b'(' then [] else c ∷ rest

unfoldable pub drop : ℕ → String → String
drop zero s = s
drop (suc n) [] = []
drop (suc n) (c ∷ s) = drop n s

abbrev pub mountpoint_of : Option (List String) → String → String
mountpoint_of none rest = rest
mountpoint_of (some groups) rest = first_group groups

abbrev pub with_enforce : String → Selinux → Selinux
with_enforce enforce d =
    if is_empty_str enforce
    then d
    else if enforce == "1"
    then record d { enforced = true; current_mode = "enforcing" }
    else record d { current_mode = "permissive" }

abbrev pub config_line : Option (List String) → Option (List String) → Selinux → Selinux
config_line (some groups) policy d = record d { config_mode = first_group groups }
config_line none (some groups) d = record d { config_policy = first_group groups }
config_line none none d = d

abbrev pub no_selinux : Selinux
no_selinux = record {
  supported = true;
  enabled = false;
  enforced = false;
  policy_version = "";
  current_mode = "";
  config_mode = "";
  config_policy = "";
}

abbrev pub hardware_of : Option Uname → String
hardware_of none = ""
hardware_of (some u) = u.machine

abbrev pub text_of : Option String → String
text_of none = ""
text_of (some s) = s

abbrev pub if_filled : String → String → String
if_filled s other = if is_empty_str s then other else s

module _ (m : Machine) where
  unfoldable pub get_os : OsLinux
  unfolding key_value_file info_or_empty
  get_os =
      let info = key_value_file m "/etc/os-release" ("NAME" ∷ "CISCO_RELEASE_INFO" ∷ []) in
      let name = info_or_empty "NAME" info in
      let cisco = info_or_empty "CISCO_RELEASE_INFO" info in
      if name == "Cumulus Linux"
      then os_cumulus (key_value_file m "/etc/os-release" ("VERSION_ID" ∷ []))
      else if name == "CoreOS"
      then os_coreos (key_value_file m "/etc/os-release" ("VERSION_ID" ∷ []))
      else if not (is_empty_str cisco) && m.is_regular_file cisco
      then os_cisco (key_value_file m cisco ("ID" ∷ "ID_LIKE" ∷ "VERSION" ∷ []))
      else os_linux

  unfoldable pub os_name : OsLinux → String → String
  unfolding get_name info_or_empty
  os_name os_linux distro_id = get_name m distro_id
  os_name (os_cumulus info) distro_id = "CumulusLinux"
  os_name (os_coreos info) distro_id = "CoreOS"
  os_name (os_cisco info) distro_id = info_or_empty "ID" info

  unfoldable pub os_family : OsLinux → String → String
  unfolding get_family info_or_empty
  os_family os_linux name = get_family name
  os_family (os_cumulus info) name = "Debian"
  os_family (os_coreos info) name = "CoreOS"
  os_family (os_cisco info) name = info_or_empty "ID_LIKE" info

  unfoldable pub os_release : OsLinux → String → String → String
  unfolding get_release info_or_empty
  os_release os_linux name distro_release = get_release m name distro_release
  os_release (os_cumulus info) name distro_release = info_or_empty "VERSION_ID" info
  os_release (os_coreos info) name distro_release = info_or_empty "VERSION_ID" info
  os_release (os_cisco info) name distro_release = info_or_empty "VERSION" info

  unfoldable pub parse_release : OsLinux → String → String → String × String
  unfolding parse_distro before_parenthesis
  parse_release (os_cisco info) name release = (before_parenthesis release, "")
  parse_release os_linux name release = parse_distro m name release
  parse_release (os_cumulus info) name release = parse_distro m name release
  parse_release (os_coreos info) name release = parse_distro m name release

  -- The callback on the lines of lsb_release.
  unfoldable pub read_lsb : String → System → System
  unfolding starts_with drop
  read_lsb line d =
      if starts_with "LSB Version:" line
      then record d { specification_version = m.trim (drop 12 line) }
      else if starts_with "Distributor ID:" line
      then record d { distro = record d.distro { id = m.trim (drop 15 line) } }
      else if starts_with "Description:" line
      then record d { distro = record d.distro { description = m.trim (drop 12 line) } }
      else if starts_with "Codename:" line
      then record d { distro = record d.distro { codename = m.trim (drop 9 line) } }
      else if starts_with "Release:" line
      then record d { distro = record d.distro { release = m.trim (drop 8 line) } }
      else d

  unfoldable pub read_lsb_lines : List String → System → System
  unfolding read_lsb
  read_lsb_lines [] d = d
  read_lsb_lines (line ∷ lines) d = read_lsb_lines lines (read_lsb line d)

  unfoldable pub get_selinux_mountpoint : List String → String
  get_selinux_mountpoint [] = ""
  get_selinux_mountpoint (line ∷ lines) =
      mountpoint_of (m.search line "\\S+ (\\S+) selinuxfs") (get_selinux_mountpoint lines)

  unfoldable pub read_config : List String → Selinux → Selinux
  read_config [] d = d
  read_config (line ∷ lines) d = read_config lines (
      config_line (m.search line "(?m)^SELINUX=(\\w+)$") (m.search line "(?m)^SELINUXTYPE=(\\w+)$")
        d)

  unfoldable pub collect_selinux_data : Selinux
  unfolding get_selinux_mountpoint read_config
  collect_selinux_data =
      let mountpoint = get_selinux_mountpoint (lines_of m "/proc/self/mounts") in
      if is_empty_str mountpoint
      then no_selinux
      else read_config (lines_of m "/etc/selinux/config") (
          with_enforce (m.contents (mountpoint <> "/enforce")) (record no_selinux {
            enabled = true;
            policy_version = m.contents (mountpoint <> "/policyvers");
          }))

  -- For certain distros `amd64` or `x86`.
  unfoldable pub architecture_of : String → String → String
  architecture_of name architecture =
      if architecture == "x86_64"
        && (name == "Debian" || (name == "Gentoo" || (name == "GNU/kFreeBSD" || name == "Ubuntu")))
      then "amd64"
      else if is_match m architecture "i[3456]86|pentium"
      then (if name == "Gentoo" then "x86" else "i386")
      else architecture

  -- `collect_data` of the base classes, for the values of the facts kernel and kernelrelease.
  unfoldable pub collect_base : Option String → Option String → System
  collect_base kernel kernel_release = record {
    name = text_of kernel;
    family = text_of kernel;
    release = text_of kernel_release;
    major = "";
    minor = "";
    hardware = hardware_of m.uname;
    architecture = hardware_of m.uname;
    specification_version = "";
    distro = record { id = ""; release = ""; codename = ""; description = "" };
    osx = record { product = ""; build = ""; version = "" };
    system32 = "";
    selinux = record no_selinux { supported = false };
  }

  abbrev pub with_release : OsLinux → String → System → System
  unfolding parse_release
  with_release os release d =
      if is_empty_str release
      then d
      else let (major, minor) = parse_release os d.name release in
        record d { release = release; major = major; minor = minor }

  -- The name, then the family of that name, then the release.
  unfoldable pub apply_os : OsLinux → System → System
  unfolding os_name os_family os_release parse_release
  apply_os os d =
      let name = if_filled (os_name os d.distro.id) d.name in
      let family = if_filled (os_family os name) d.family in
      with_release os (os_release os name d.distro.release)
        (record d { name = name; family = family })

  unfoldable pub collect_system : Option String → Option String → System
  unfolding collect_base read_lsb_lines get_os apply_os architecture_of collect_selinux_data
  collect_system kernel kernel_release =
      let d =
        apply_os get_os
          (read_lsb_lines (m.output_lines "lsb_release") (collect_base kernel kernel_release)) in
      record d {
        architecture = architecture_of d.name d.architecture;
        selinux = collect_selinux_data;
      }
