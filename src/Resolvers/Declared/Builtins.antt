-- ===== src/Resolvers/Declared/Builtins.antt =====
-- The names that the built-in resolvers of lib/src/facts/resolvers declare, and those that they add.
use text.Mathlib.TextLemmas.{append_assoc}
use facter.Base.{
  ℕ, Bool, List, ◌∷◌, ◌++◌, Bool-cases, inl, inr, is_empty_str, ◌<>◌, ◌==◌, All, any, ap, ◌∙◌, ◌||◌,
  String, ◌≡◌, refl, true, false, Option, none, some, [], arith,
}
use facter.Base.Int.{ℤ}
use facter.Values.{end}
use facter.Collection.{Resolver, is_match}
use facter.Resolvers.{Adds, starts_with, text_facts, map_facts}
use facter.Resolvers.Both.{Both}
use facter.Resolvers.Declared.{
  declares_name, are_declared-text_facts, are_declared, are_declared-append, are_declared-map_facts,
  dmi_adds-are_declared, uptime_adds-are_declared, ssh_adds-are_declared,
  networking_adds-are_declared, starts_with-append,
}
use facter.Resolvers.Declared.Both.{
  Declared, both-Declared, both_all-Declared, one_declared, only_field-Declared,
}
use facter.Resolvers.Declared.System.{system_adds-are_declared}
use facter.Resolvers.Sizes.{memory_adds-are_declared}
use facter.Resolvers.Profiler.{
  Profile, profile_entries, profile_adds, profile_both, profile_resolver,
}
use facter.Resolvers.Identity.{
  Identity, identity_adds, identity_both, identity_resolver, number_field,
}
use facter.Resolvers.Filesystem.{FilesystemData, filesystem_adds, filesystem_resolver}
use facter.Resolvers.Memory.{Units, Memory, memory_adds, memory_resolver}
use facter.Resolvers.Dmi.{Dmi, dmi_adds, dmi_resolver}
use facter.Resolvers.Uptime.{Format, uptime_adds, uptime_resolver}
use facter.Resolvers.Ssh.{SshData, ssh_adds, ssh_resolver}
use facter.Resolvers.Networking.{Networking, networking_adds, networking_resolver}
use facter.Resolvers.System.{System, system_adds, system_resolver}
use facter.Resolvers.Disk.{
  Disk, no_listing, disk_adds, disk_resolver, Listing, add_disk, add_disks, disk_both, prefix_of,
}
use facter.Linux.{Machine}

profile_adds-are_declared :
    (d : Profile) → are_declared (profile_resolver d) (profile_adds d) ≡ true
unfolding profile_adds profile_both profile_resolver is_match are_declared
profile_adds-are_declared d =
    are_declared-append (profile_resolver d) (profile_both d).0 _
      (both_all-Declared (profile_resolver d) (profile_entries d) ([], end) refl refl)
      (are_declared-map_facts (profile_resolver d) "system_profiler" false (profile_both d).1 refl)

module _ (d : Identity) where
  number_field-Declared :
      (key : String) (n : Option ℤ) (b : Both)
      → Declared (identity_resolver d) b
      → Declared (identity_resolver d) (number_field key n b)
  unfolding number_field
  number_field-Declared key none b h = h
  number_field-Declared key (some n) b h = h

  identity_adds-are_declared : are_declared (identity_resolver d) (identity_adds d) ≡ true
  unfolding identity_adds identity_both identity_resolver is_match are_declared
  identity_adds-are_declared =
      are_declared-append (identity_resolver d) (identity_both d).0 _
        (search (both-Declared, number_field-Declared) depth 20)
        (are_declared-map_facts (identity_resolver d) "identity" false (identity_both d).1 refl)

filesystem_adds-are_declared :
    (units : Units) (d : FilesystemData)
    → are_declared (filesystem_resolver units d) (filesystem_adds units d) ≡ true
unfolding filesystem_adds filesystem_resolver is_match are_declared
filesystem_adds-are_declared units d = ground arith

or_true : (b : Bool) → (b || (true || false)) ≡ true
or_true b = ground arith

module _ (si_string : ℕ → String) (ds : List Disk) where
  abbrev IsListed : Adds → Type 0
  IsListed adds = are_declared (disk_resolver si_string ds) adds ≡ true

  prefix-declared :
      (d : Disk) (what : String)
      → declares_name (disk_resolver si_string ds) (prefix_of d <> what) ≡ true
  unfolding disk_resolver is_match
  prefix-declared d what =
      ap (λ b. any (λ n. n == prefix_of d <> what) ("blockdevices" ∷ "disks" ∷ []) || (b || false))
        (ap (starts_with "blockdevice_") (append_assoc "blockdevice_" (d.name <> "_") what)
          ∙ starts_with-append "blockdevice_" ((d.name <> "_") <> what))
      ∙ or_true (any (λ n. n == prefix_of d <> what) ("blockdevices" ∷ "disks" ∷ []))

  disk_both-declared :
      (d : Disk) (adds : Adds) → IsListed adds → IsListed (disk_both si_string d adds).0
  unfolding disk_both
  disk_both-declared d adds h =
      are_declared-append (disk_resolver si_string ds) _ _
        (search (both-Declared, only_field-Declared, prefix-declared) depth 20)
        (one_declared (disk_resolver si_string ds) _ _ (prefix-declared d "size"))

  add_disks-declared :
      (l : Listing) (rest : List Disk)
      → IsListed l.adds
      → IsListed (add_disks si_string rest l).adds
  unfolding add_disks add_disk
  add_disks-declared l [] h = h
  add_disks-declared l (d ∷ rest) h = add_disks-declared (add_disk si_string d l) rest added
    where
      added : IsListed (add_disk si_string d l).adds
      added = elim (Bool-cases (is_empty_str d.name)) [
        | inl e ↦ rw e h
        | inr e ↦ rw e (disk_both-declared d l.adds h)
      ]

  disk_adds-are_declared : are_declared (disk_resolver si_string ds) (disk_adds si_string ds) ≡ true
  unfolding disk_adds disk_resolver is_match are_declared
  disk_adds-are_declared =
      let r : Resolver = disk_resolver si_string ds in
      let l : Listing = add_disks si_string ds no_listing in
      let names : Adds = text_facts "blockdevices" l.listed in
      let structured : Adds = map_facts "disks" false l.disks in
      are_declared-append r l.adds (names ++ structured) (add_disks-declared no_listing ds refl) (
        are_declared-append r names structured
          (are_declared-text_facts r "blockdevices" l.listed refl)
          (are_declared-map_facts r "disks" false l.disks refl))

-- All that the machine reports to the resolvers.
pub record Reports : Type 0 where
  pub dmi : Dmi
  pub uptime : ℤ
  pub ssh : SshData
  pub networking : Networking
  pub memory : Memory
  pub system : System
  pub profile : Profile
  pub identity : Identity
  pub filesystem : FilesystemData
  pub disks : List Disk

-- Each resolver with the facts that it adds.
abbrev pub built_ins : Machine → Units → Format → Reports → List (Resolver × Adds)
built_ins m units format d =
    (dmi_resolver d.dmi, dmi_adds d.dmi)
    ∷ (uptime_resolver format d.uptime, uptime_adds format d.uptime)
    ∷ (ssh_resolver d.ssh, ssh_adds d.ssh)
    ∷ (networking_resolver d.networking, networking_adds d.networking)
    ∷ (memory_resolver units d.memory, memory_adds units d.memory)
    ∷ (system_resolver m d.system, system_adds m d.system)
    ∷ (profile_resolver d.profile, profile_adds d.profile)
    ∷ (identity_resolver d.identity, identity_adds d.identity)
    ∷ (filesystem_resolver units d.filesystem, filesystem_adds units d.filesystem)
    ∷ (disk_resolver units.si_string d.disks, disk_adds units.si_string d.disks)
    ∷ []

-- Whatever is reported to the ten resolvers, every fact that one of them adds has a name that it
-- declares, or one that a pattern of its own matches.
pub builtins-are_declared :
    (m : Machine) (units : Units) (format : Format) (d : Reports)
    → All (λ (r, adds). are_declared r adds ≡ true) (built_ins m units format d)
builtins-are_declared m units format d = (
  dmi_adds-are_declared d.dmi,
  (
    uptime_adds-are_declared format d.uptime,
    (
      ssh_adds-are_declared d.ssh,
      (
        networking_adds-are_declared d.networking,
        (
          memory_adds-are_declared units d.memory,
          (
            system_adds-are_declared m d.system,
            (
              profile_adds-are_declared d.profile,
              (
                identity_adds-are_declared d.identity,
                (
                  filesystem_adds-are_declared units d.filesystem,
                  (disk_adds-are_declared units.si_string d.disks, tt),
                ),
              ),
            ),
          ),
        ),
      ),
    ),
  ),
)
