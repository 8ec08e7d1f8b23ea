-- ===== src/Linux/Collecting/Family.antt =====
-- The family of the system that lib/src/facts/linux/operating_system_resolver.cc collects.
use Prim.Native.String.{[], ◌∷◌}
use facter.Base.{
  String, ◌≡◌, refl, ◌∙◌, ap, Option, List, is_empty_str, arith, Bool-cases, inl, inr,
}
use facter.Resolvers.System.{System}
use facter.Linux.{Machine}
use facter.Linux.System.{get_name, get_family, find_text}
use facter.Linux.Names.{family_of_files, get_family-get_name}
use facter.Linux.Collecting.{
  OsLinux, os_linux, get_os, os_name, os_family, read_lsb, read_lsb_lines, text_of, collect_base,
  if_filled, with_release, os_release, apply_os, collect_system,
}

-- What lsb_release says changes neither the name nor the family.
abbrev SameName : System → System → Type 0
SameName d d' = (d'.name ≡ d.name) × (d'.family ≡ d.family)

-- A kernel's name has no family of its own, so that none is found where no name is.
get_family-if_filled :
    (name kernel : String)
    → get_family kernel ≡ ""
    → if_filled (get_family (if_filled name kernel)) kernel ≡ if_filled (get_family name) kernel
unfolding get_family find_text
get_family-if_filled [] kernel h = rw h refl
get_family-if_filled (c ∷ s) kernel h = refl

module _ (m : Machine) where
  read_lsb-SameName : (line : String) (d : System) → SameName d (read_lsb m line d)
  unfolding read_lsb
  read_lsb-SameName line d = ground arith

  read_lsb_lines-SameName :
      (lines : List String) (d : System) → SameName d (read_lsb_lines m lines d)
  unfolding read_lsb_lines
  read_lsb_lines-SameName List.[] d = (refl, refl)
  read_lsb_lines-SameName (List.◌∷◌ line lines) d =
      let rest = read_lsb_lines-SameName lines (read_lsb m line d) in
      let step = read_lsb-SameName line d in (rest.0 ∙ step.0, rest.1 ∙ step.1)

  family-with_release :
      (os : OsLinux) (release : String) (d : System)
      → (with_release m os release d).family ≡ d.family
  unfolding with_release
  family-with_release os release d = elim (Bool-cases (is_empty_str release)) [
    | inl e ↦ rw e refl
    | inr e ↦ rw e refl
  ]

  family-apply_os :
      (d : System) (kernel : String)
      → d.name ≡ kernel
      → d.family ≡ kernel
      → get_family kernel ≡ ""
      → (apply_os m os_linux d).family ≡ if_filled (family_of_files m) kernel
  unfolding apply_os os_name os_family
  family-apply_os d kernel n f h =
      family-with_release os_linux
        (os_release m os_linux (if_filled (get_name m d.distro.id) d.name) d.distro.release)
        (record d {
          name = if_filled (get_name m d.distro.id) d.name;
          family = if_filled (get_family (if_filled (get_name m d.distro.id) d.name)) d.family;
        })
      ∙ (ap (λ t. if_filled (get_family (if_filled (get_name m d.distro.id) t)) d.family) n
          ∙ (ap (if_filled (get_family (if_filled (get_name m d.distro.id) kernel))) f
              ∙ (get_family-if_filled (get_name m d.distro.id) kernel h
                  ∙ ap (λ t. if_filled t kernel) (get_family-get_name m d.distro.id))))

  -- Where os-release names none of the three special systems, the family that is collected is that
  -- of the first release file that is there, and the kernel's name if that file stands for no family
  -- or there is no such file.
  pub family-collect_system :
      (kernel kernel_release : Option String)
      → get_os m ≡ os_linux
      → get_family (text_of kernel) ≡ ""
      → (collect_system m kernel kernel_release).family
        ≡ if_filled (family_of_files m) (text_of kernel)
  unfolding collect_system collect_base
  family-collect_system kernel kernel_release plain h =
      let same =
        read_lsb_lines-SameName (m.output_lines "lsb_release")
          (collect_base m kernel kernel_release) in
      let d : System =
        read_lsb_lines m (m.output_lines "lsb_release") (collect_base m kernel kernel_release) in
      ap (λ os. (apply_os m os d).family) plain
      ∙ family-apply_os d (text_of kernel) (same.0) (same.1) h
