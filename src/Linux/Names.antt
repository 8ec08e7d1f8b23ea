-- ===== src/Linux/Names.antt =====
-- Release files and the families that they stand for: lib/src/facts/linux/os_linux.cc.
use facter.Base.{
  String, ◌≡◌, refl, Bool, true, false, ◌||◌, List, [], ◌∷◌, ◌==◌, if◌then◌else◌, is_empty_str,
  Bool-cases, inl, inr, arith, eq_iff, All,
}
use facter.Linux.{Machine, first_match, first_file, is_match}
use facter.Linux.System.{
  name_or, trimmed, check_debian_linux, check_oracle_linux, check_redhat_linux, check_suse_linux,
  check_other_linux, other_files, if_empty, get_name, get_family, redhat_names, suse_names,
}

-- The family that a release file stands for, in the order in which the files are looked for.
abbrev pub file_families : List (String × String)
file_families =
    ("/etc/openwrt_release", "")
    ∷ ("/etc/gentoo-release", "Gentoo")
    ∷ ("/etc/mandriva-release", "Mandrake")
    ∷ ("/etc/mandrake-release", "Mandrake")
    ∷ ("/etc/meego-release", "")
    ∷ ("/etc/arch-release", "Archlinux")
    ∷ ("/etc/oracle-release", "RedHat")
    ∷ ("/etc/vmware-release", "")
    ∷ ("/etc/slackware-version", "")
    ∷ ("/etc/alpine-release", "")
    ∷ ("/etc/mageia-release", "Mandrake")
    ∷ ("/etc/system-release", "RedHat")
    ∷ ("/etc/Eos-release", "")
    ∷ []

if_empty-take : (v next : String) → is_empty_str v ≡ false → if_empty v next ≡ v
if_empty-take v next e = rw e refl

-- The tables have the same files, with a name in one and its family in the other.
abbrev SameFiles : List (String × String) → List (String × String) → Type 0
SameFiles [] [] = Unit
SameFiles [] (e ∷ families) = ⊥
SameFiles (e ∷ names) [] = ⊥
SameFiles ((file, name) ∷ names) ((file', family) ∷ families) =
    (file ≡ file') × ((get_family name ≡ family) × SameFiles names families)

module _ (m : Machine) where
  -- A release file of Red Hat's that names the Xen Cloud Platform, and none before it.
  abbrev pub is_xcp : Bool
  is_xcp = name_or "RedHat" (first_match m redhat_names (trimmed m "/etc/redhat-release")) == "XCP"

  abbrev pub family_of_files : String
  family_of_files =
      if m.is_regular_file "/etc/debian_version"
      then "Debian"
      else if m.is_regular_file "/etc/enterprise-release"
      then "RedHat"
      else if m.is_regular_file "/etc/redhat-release"
      then (if is_xcp then "" else "RedHat")
      else if m.is_regular_file "/etc/SuSE-release"
      then "Suse"
      else first_file m file_families

  -- Each name of a table has the property, and so has the name that is given if none matches.
  first_match-All :
      (P : String → Type 0) (other text : String) (table : List (String × String))
      → P other
      → All (λ entry. P (entry.1)) table
      → P (name_or other (first_match m table text))
  unfolding first_match
  first_match-All P other text [] p a = p
  first_match-All P other text ((regex, name) ∷ table) p (q, a) =
      elim (Bool-cases (is_match m text regex)) [
        | inl e ↦ rw e q
        | inr e ↦ rw e (first_match-All P other text table p a)
      ]

  -- A name that is found, with its family.
  abbrev Names : (String → String) → String → Type 0
  Names family name = (is_empty_str name ≡ false) × (get_family name ≡ family name)

  abbrev of_redhat : String → String
  of_redhat name = if name == "XCP" then "" else "RedHat"

  redhat-Names :
      (text : String) → Names of_redhat (name_or "RedHat" (first_match m redhat_names text))
  unfolding get_family
  redhat-Names text =
      first_match-All (Names of_redhat) "RedHat" text redhat_names (refl, refl)
        (
          (refl, refl),
          (
            (refl, refl),
            (
              (refl, refl),
              (
                (refl, refl),
                ((refl, refl), ((refl, refl), ((refl, refl), ((refl, refl), ((refl, refl), tt))))),
              ),
            ),
          ),
        )

  suse-Names :
      (text : String) → Names (λ name. "Suse") (name_or "SuSE" (first_match m suse_names text))
  unfolding get_family
  suse-Names text =
      first_match-All (Names (λ name. "Suse")) "SuSE" text suse_names (refl, refl)
        ((refl, refl), ((refl, refl), ((refl, refl), tt)))

  debian-Names :
      (distro_id : String) (known : Bool)
      → (distro_id == "Ubuntu" || distro_id == "LinuxMint") ≡ known
      → Names (λ name. "Debian") (if known then distro_id else "Debian")
  unfolding get_family
  debian-Names distro_id false h = (refl, refl)
  debian-Names distro_id true h = elim (Bool-cases (distro_id == "Ubuntu")) [
    | inl e ↦ rw ((eq_iff distro_id "Ubuntu").0 e) (refl, refl)
    | inr e ↦ rw ((eq_iff distro_id "LinuxMint").0 (ground arith)) (refl, refl)
  ]

  first_file-families :
      (names families : List (String × String))
      → SameFiles names families
      → get_family (first_file m names) ≡ first_file m families
  unfolding first_file get_family
  first_file-families [] [] h = refl
  first_file-families [] (e ∷ families) h = absurd h
  first_file-families (e ∷ names) [] h = absurd h
  first_file-families ((file, name) ∷ names) ((file', family) ∷ families) (f, (n, h)) =
      elim (Bool-cases (m.is_regular_file file')) [
        | inl e ↦ rw (f, e) n
        | inr e ↦ rw (f, e) (first_file-families names families h)
      ]

  family-other : get_family (check_other_linux m) ≡ first_file m file_families
  unfolding get_family check_other_linux
  family-other = first_file-families other_files file_families (
    refl,
    (
      refl,
      (
        refl,
        (
          refl,
          (
            refl,
            (
              refl,
              (
                refl,
                (
                  refl,
                  (
                    refl,
                    (
                      refl,
                      (
                        refl,
                        (
                          refl,
                          (
                            refl,
                            (
                              refl,
                              (
                                refl,
                                (
                                  refl,
                                  (
                                    refl,
                                    (
                                      refl,
                                      (
                                        refl,
                                        (refl, (refl, (refl, (refl, (refl, (refl, (refl, tt))))))),
                                      ),
                                    ),
                                  ),
                                ),
                              ),
                            ),
                          ),
                        ),
                      ),
                    ),
                  ),
                ),
              ),
            ),
          ),
        ),
      ),
    ),
  )

  oracle-Names : (ovs : Bool) → Names (λ name. "RedHat") (if ovs then "OVS" else "OEL")
  unfolding get_family
  oracle-Names true = (refl, refl)
  oracle-Names false = (refl, refl)

  -- A check that finds the name where its file is there.
  check-family :
      (family : String → String) (there : Bool) (name next rest : String)
      → Names family name
      → get_family next ≡ rest
      → get_family (if_empty (if there then name else "") next)
        ≡ (if there then family name else rest)
  check-family family true name next rest (e, f) h = rw (e) f
  check-family family false name next rest n h = h

  -- The family of the name that `get_name` finds is that of the first release file that is there;
  -- `/etc/redhat-release` stands for none where it names the Xen Cloud Platform.
  pub get_family-get_name :
      (distro_id : String) → get_family (get_name m distro_id) ≡ family_of_files
  unfolding get_name check_debian_linux check_oracle_linux check_redhat_linux check_suse_linux
  get_family-get_name distro_id =
      check-family (λ name. "Debian") (m.is_regular_file "/etc/debian_version") _ _ _
        (debian-Names distro_id (distro_id == "Ubuntu" || distro_id == "LinuxMint") refl)
        (check-family (λ name. "RedHat") (m.is_regular_file "/etc/enterprise-release") _ _ _
          (oracle-Names (m.is_regular_file "/etc/ovs-release"))
          (check-family of_redhat (m.is_regular_file "/etc/redhat-release") _ _ _
            (redhat-Names (trimmed m "/etc/redhat-release"))
            (check-family (λ name. "Suse") (m.is_regular_file "/etc/SuSE-release") _ _ _
              (suse-Names (trimmed m "/etc/SuSE-release")) family-other)))
