-- ===== src/Linux/System.antt =====
-- The name and the family of a Linux system: lib/src/facts/linux/os_linux.cc, with the names of
-- lib/inc/facter/facts/os.hpp and os_family.hpp and the files of
-- lib/inc/internal/facts/linux/release_file.hpp.
use facter.Base.{String, ◌||◌, Option, none, some, List, [], ◌∷◌, ◌==◌, if◌then◌else◌, is_empty_str}
use facter.Linux.{Machine, first_match, first_file}

abbrev pub redhat_names : List (String × String)
redhat_names =
    ("(?i)centos", "CentOS")
    ∷ ("(?i)scientific linux CERN", "SLC")
    ∷ ("(?i)scientific linux release", "Scientific")
    ∷ ("(?im)^cloudlinux", "CloudLinux")
    ∷ ("(?i)Ascendos", "Ascendos")
    ∷ ("(?im)^XenServer", "XenServer")
    ∷ ("XCP", "XCP")
    ∷ ("(?im)^Parallels Server Bare Metal", "PSBM")
    ∷ ("(?m)^Fedora release", "Fedora")
    ∷ []

abbrev pub suse_names : List (String × String)
suse_names =
    ("(?im)^SUSE LINUX Enterprise Server", "SLES")
    ∷ ("(?im)^SUSE LINUX Enterprise Desktop", "SLED")
    ∷ ("(?im)^openSUSE", "OpenSuSE")
    ∷ []

abbrev pub other_files : List (String × String)
other_files =
    ("/etc/openwrt_release", "OpenWrt")
    ∷ ("/etc/gentoo-release", "Gentoo")
    ∷ ("/etc/mandriva-release", "Mandriva")
    ∷ ("/etc/mandrake-release", "Mandrake")
    ∷ ("/etc/meego-release", "MeeGo")
    ∷ ("/etc/arch-release", "Archlinux")
    ∷ ("/etc/oracle-release", "OracleLinux")
    ∷ ("/etc/vmware-release", "VMWareESX")
    ∷ ("/etc/slackware-version", "Slackware")
    ∷ ("/etc/alpine-release", "Alpine")
    ∷ ("/etc/mageia-release", "Mageia")
    ∷ ("/etc/system-release", "Amazon")
    ∷ ("/etc/Eos-release", "AristaEOS")
    ∷ []

abbrev pub name_or : String → Option String → String
name_or other none = other
name_or other (some name) = name

-- Where a check finds nothing, the next one is made.
abbrev pub if_empty : String → String → String
if_empty value next = if is_empty_str value then next else value

module _ (m : Machine) where
  unfoldable pub check_debian_linux : String → String
  check_debian_linux distro_id =
      if m.is_regular_file "/etc/debian_version"
      then (if distro_id == "Ubuntu" || distro_id == "LinuxMint" then distro_id else "Debian")
      else ""

  unfoldable pub check_oracle_linux : String
  check_oracle_linux =
      if m.is_regular_file "/etc/enterprise-release"
      then (if m.is_regular_file "/etc/ovs-release" then "OVS" else "OEL")
      else ""

  -- `file::read` and `boost::trim`, and the first regular expression that matches.
  abbrev pub trimmed : String → String
  trimmed file = m.trim (m.contents file)

  unfoldable pub check_redhat_linux : String
  unfolding first_match
  check_redhat_linux =
      if m.is_regular_file "/etc/redhat-release"
      then name_or "RedHat" (first_match m redhat_names (trimmed "/etc/redhat-release"))
      else ""

  unfoldable pub check_suse_linux : String
  unfolding first_match
  check_suse_linux =
      if m.is_regular_file "/etc/SuSE-release"
      then name_or "SuSE" (first_match m suse_names (trimmed "/etc/SuSE-release"))
      else ""

  unfoldable pub check_other_linux : String
  unfolding first_file
  check_other_linux = first_file m other_files

  unfoldable pub get_name : String → String
  unfolding check_debian_linux check_oracle_linux check_redhat_linux check_suse_linux
      check_other_linux
  get_name distro_id = if_empty (check_debian_linux distro_id) (
      if_empty check_oracle_linux
        (if_empty check_redhat_linux (if_empty check_suse_linux check_other_linux)))

abbrev systems : List (String × String)
systems =
    ("RedHat", "RedHat")
    ∷ ("Fedora", "RedHat")
    ∷ ("CentOS", "RedHat")
    ∷ ("Scientific", "RedHat")
    ∷ ("SLC", "RedHat")
    ∷ ("Ascendos", "RedHat")
    ∷ ("CloudLinux", "RedHat")
    ∷ ("PSBM", "RedHat")
    ∷ ("OracleLinux", "RedHat")
    ∷ ("OVS", "RedHat")
    ∷ ("OEL", "RedHat")
    ∷ ("Amazon", "RedHat")
    ∷ ("XenServer", "RedHat")
    ∷ ("LinuxMint", "Debian")
    ∷ ("Ubuntu", "Debian")
    ∷ ("Debian", "Debian")
    ∷ ("SLES", "Suse")
    ∷ ("SLED", "Suse")
    ∷ ("OpenSuSE", "Suse")
    ∷ ("SuSE", "Suse")
    ∷ ("Gentoo", "Gentoo")
    ∷ ("Archlinux", "Archlinux")
    ∷ ("Mandrake", "Mandrake")
    ∷ ("Mandriva", "Mandrake")
    ∷ ("Mageia", "Mandrake")
    ∷ []

-- `map::find`, or an empty text
unfoldable pub find_text : String → List (String × String) → String
find_text name [] = ""
find_text name ((k, v) ∷ table) = let rest = find_text name table in if k == name then v else rest

unfoldable pub get_family : String → String
unfolding find_text
get_family name = find_text name systems
