-- ===== src/Linux/Release.antt =====
-- The release of a Linux system: `get_release` of lib/src/facts/linux/os_linux.cc, and
-- `parse_distro` of lib/src/facts/resolvers/operating_system_resolver.cc.
use Prim.Native.String.{[], ◌∷◌}
use text.Mathlib.TextLemmas.{cons-append, nil-append}
use facter.Base.{
  String, code, ◌≡◌, refl, sym, ap, ◌∙◌, Bool, true, false, not, ◌&&◌, Option, none, some, List, [],
  ◌∷◌, ◌=?◌, ◌==◌, if◌then◌else◌, is_empty_str, ◌<>◌, any, All, Bool-cases, Option-cases, inl, inr,
  arith,
}
use text.Mathlib.TextEquality.{Char-path}
use facter.Base.Lower.{ends_with}
use facter.Linux.{Machine}
use facter.Linux.System.{find_text}

-- The files with `release X.X.X` on the first line.
abbrev release_files : List (String × String)
release_files =
    ("CentOS", "/etc/redhat-release")
    ∷ ("RedHat", "/etc/redhat-release")
    ∷ ("Scientific", "/etc/redhat-release")
    ∷ ("SLC", "/etc/redhat-release")
    ∷ ("Ascendos", "/etc/redhat-release")
    ∷ ("CloudLinux", "/etc/redhat-release")
    ∷ ("PSBM", "/etc/redhat-release")
    ∷ ("XenServer", "/etc/redhat-release")
    ∷ ("Fedora", "/etc/fedora-release")
    ∷ ("MeeGo", "/etc/meego-release")
    ∷ ("OracleLinux", "/etc/oracle-release")
    ∷ ("OEL", "/etc/enterprise-release")
    ∷ ("OVS", "/etc/ovs-release")
    ∷ ("AristaEOS", "/etc/Eos-release")
    ∷ []

-- A version file, and the regular expression whose first group is the release.
abbrev version_files : List (String × String × String)
version_files =
    ("Ubuntu", "/etc/lsb-release", "(?m)^DISTRIB_RELEASE=(\\d+\\.\\d+)(?:\\.\\d+)*")
    ∷ ("Slackware", "/etc/slackware-version", "Slackware ([0-9.]+)")
    ∷ ("Mageia", "/etc/mageia-release", "Mageia release ([0-9.]+)")
    ∷ ("LinuxMint", "/etc/linuxmint/info", "(?m)^RELEASE=(\\d+)")
    ∷ ("OpenWrt", "/etc/openwrt_version", "(?m)^(\\d+\\.\\d+.*)")
    ∷ ("AristaEOS", "/etc/Eos-release", "Arista Networks EOS (\\d+\\.\\d+\\.\\d+[A-M]?)")
    ∷ []

abbrev pub suse_systems : List String
suse_systems = "SuSE" ∷ "SLES" ∷ "SLED" ∷ "OpenSuSE" ∷ []

-- A variable that `re_search` fills with a group; one that it does not reach stays empty.
abbrev pub first_group : List String → String
first_group [] = ""
first_group (g ∷ gs) = g

abbrev second_group : List String → String
second_group [] = ""
second_group (g ∷ gs) = first_group gs

abbrev first_line : List String → String
first_line [] = ""
first_line (line ∷ lines) = line

-- Where the value is still empty and the test holds, it is computed.
abbrev fill_in : Bool → String → String → String
fill_in test next value = if is_empty_str value && test then next else value

module _ (m : Machine) where
  abbrev capture : String → String → String
  capture text regex = elim (m.search text regex) [ none ↦ "" | some groups ↦ first_group groups ]

  unfoldable pub line_release : String → String
  unfolding find_text ends_with
  line_release name =
      let file = find_text name release_files in
      if is_empty_str file then "" else elim (m.lines file) [
        | none ↦ ""
        | some lines ↦
            if ends_with (first_line lines) "(Rawhide)"
            then "Rawhide"
            else capture (first_line lines) "release (\\d[\\d.]*)"
      ]

  abbrev patch_level : String → String
  patch_level contents = elim (m.search contents "(?m)^PATCHLEVEL\\s*=\\s*(\\d+)") [
    | none ↦ "0"
    | some groups ↦ first_group groups
  ]

  unfoldable pub suse_release : String
  suse_release =
      let contents = m.contents "/etc/SuSE-release" in
      elim (m.search contents "(?m)^VERSION\\s*=\\s*(\\d+)\\.?(\\d+)?") [
        | none ↦ "unknown"
        | some groups ↦
            let minor = second_group groups in
            first_group groups
            <> ("." <> (if is_empty_str minor then patch_level contents else minor))
      ]

  unfoldable pub version_release : List (String × String × String) → String → String
  version_release [] name = ""
  version_release ((k, file, regex) ∷ table) name =
      let rest = version_release table name in
      if k == name then capture (m.contents file) regex else rest

  abbrev vmware_release : String
  vmware_release = elim (m.execute "vmware" ("-v" ∷ [])) [
    | none ↦ ""
    | some output ↦ capture output "VMware ESX .*?(\\d.*)"
  ]

  -- `get_release` up to the systems of SuSE, which follow the first three.
  unfoldable pub first_release : String → String
  unfolding line_release suse_release
  first_release name = fill_in (any (λ suse. suse == name) suse_systems) suse_release (
      fill_in (name == "Alpine") (m.trim_right (m.contents "/etc/alpine-release")) (
        fill_in (name == "Debian") (m.trim_right (m.contents "/etc/debian_version"))
          (line_release name)))

  unfoldable pub get_release : String → String → String
  unfolding first_release version_release
  get_release name distro_release = fill_in (name == "Amazon") distro_release (
      fill_in (name == "VMWareESX") vmware_release
        (fill_in true (version_release version_files name) (first_release name)))

-- What stands before the first dot, and behind it.
unfoldable pub split_dot : String → String × Option String
split_dot [] = ("", none)
split_dot (c ∷ s) =
    let (before, after) = split_dot s in
    if code c =? b'.' then ("", some s) else (c ∷ before, after)

abbrev parts : String → String × Option String → String × String
parts release (major, none) = (release, "")
parts release (major, some after) = (major, (split_dot after).0)

-- The parts of a release of Ubuntu are found by a regular expression.
unfoldable pub parse_distro : Machine → String → String → String × String
unfolding split_dot
parse_distro m name release =
    if not (name == "Ubuntu")
    then parts release (split_dot release)
    else elim (m.search release "(\\d+\\.\\d*)\\.?(\\d*)") [
      | none ↦ ("", "")
      | some groups ↦ (first_group groups, second_group groups)
    ]

module _ (m : Machine) where
  append-filled : (a b : String) → is_empty_str (a <> ("." <> b)) ≡ false
  append-filled [] b = rw (nil-append, cons-append) refl
  append-filled (c ∷ s) b = rw cons-append refl

  suse_release-filled : is_empty_str (suse_release m) ≡ false
  unfolding suse_release
  suse_release-filled =
      elim (Option-cases
        (m.search (m.contents "/etc/SuSE-release") "(?m)^VERSION\\s*=\\s*(\\d+)\\.?(\\d+)?")) [
          | inl e ↦ rw (suse_release, e) refl
          | inr (groups, e) ↦ rw (suse_release, e) (append-filled (first_group groups) _)
        ]

  fill_in-filled :
      (test : Bool) (next value : String)
      → is_empty_str value ≡ false
      → is_empty_str (fill_in test next value) ≡ false
  fill_in-filled test next value e = rw (e) e

  get_release-filled :
      (name distro_release : String)
      → is_empty_str (first_release m name) ≡ false
      → is_empty_str (get_release m name distro_release) ≡ false
  unfolding get_release
  get_release-filled name distro_release e =
      fill_in-filled _ _ _ (fill_in-filled _ _ _ (fill_in-filled _ _ _ e))

  -- A release is found for each of the systems of SuSE, whatever its release file holds.
  get_release-suse :
      (distro_release : String)
      → All (λ name. is_empty_str (get_release m name distro_release) ≡ false) suse_systems
  unfolding first_release line_release find_text
  get_release-suse distro_release = (
    get_release-filled "SuSE" distro_release suse_release-filled,
    (
      get_release-filled "SLES" distro_release suse_release-filled,
      (
        get_release-filled "SLED" distro_release suse_release-filled,
        (get_release-filled "OpenSuSE" distro_release suse_release-filled, tt),
      ),
    ),
  )

-- A release is its text before the first dot, the text up to the second, and the rest.
abbrev pub dotted : Option String → String
dotted none = ""
dotted (some s) = "." <> s

split_dot-dotted : (s : String) → (split_dot s).0 <> dotted ((split_dot s).1) ≡ s
unfolding split_dot
split_dot-dotted [] = refl
split_dot-dotted (c ∷ s) = elim (Bool-cases (code c =? b'.')) [
  | inl e ↦
      rw (e, nil-append, cons-append, nil-append)
        (ap (λ d. d ∷ s) (sym (Char-path c "." (ground (arith, e)))))
  | inr e ↦ rw (e, cons-append) (ap (λ t. c ∷ t) (split_dot-dotted s))
]

-- A release put together from its parts and what follows them.
abbrev pub put_together : String × String → Option (Option String) → String
put_together (major, minor) none = major
put_together (major, minor) (some rest) = major <> ("." <> (minor <> dotted rest))

parts-together :
    (release : String) (split : String × Option String)
    → split.0 <> dotted (split.1) ≡ release
    → (rest : Option (Option String)) × (put_together (parts release split) rest ≡ release)
parts-together release (major, none) h = (none, refl)
parts-together release (major, some after) h =
    (some ((split_dot after).1), ap (λ t. major <> ("." <> t)) (split_dot-dotted after) ∙ h)

-- The major release, the minor one and what may follow it make up the release again, except on
-- Ubuntu; without a dot the major one is the whole release.
pub parse_distro-together :
    (m : Machine) (name release : String)
    → (name == "Ubuntu") ≡ false
    → (rest : Option (Option String)) × (put_together (parse_distro m name release) rest ≡ release)
unfolding parse_distro
parse_distro-together m name release h =
    rw h (parts-together release (split_dot release) (split_dot-dotted release))
