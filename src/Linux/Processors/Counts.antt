-- ===== src/Linux/Processors/Counts.antt =====
-- The counts of processors: lib/src/facts/linux/processor_resolver.cc.
use facter.Base.{
  ℕ, suc, ◌+◌, ◌≤◌, String, ◌≡◌, refl, ◌∙◌, Bool, true, false, not, ◌&&◌, ◌||◌, Option, none, some,
  List, [], ◌∷◌, eq_iff, map, length, ltb, if◌then◌else◌, is_empty_str, arith, Bool-cases, inl, inr,
  subst, is_empty,
}
use facter.Linux.{Machine, Stoi, number, invalid_argument, out_of_range, lines_of}
use facter.Resolvers.Processors.{Processors}
use facter.Linux.Processors.{
  Survey, is_seen, see, count_cpu, count_cpus, read_line, read_lines, package_of, cpu_directories,
  from_sysfs, survey, with_speed, collect_processors,
}

abbrev pub NoRepeats : List String → Type 0
NoRepeats [] = Unit
NoRepeats (x ∷ xs) = (is_seen x xs ≡ false) × NoRepeats xs

-- How many of the texts are empty.
abbrev pub count_empty : List String → ℕ
count_empty [] = 0
count_empty (x ∷ xs) = if is_empty_str x then suc (count_empty xs) else count_empty xs

-- What counting the processors with these ids makes of a survey.
abbrev Counts : List String → Survey → Survey → Type 0
Counts ids s s' =
    (s'.found.logical_count ≡ s.found.logical_count + length ids)
    × (s'.found.physical_count + length s.cpus
        ≡ s.found.physical_count + (length s'.cpus + count_empty ids))
    × (s'.found.physical_count + s.found.logical_count
        ≤ s.found.physical_count + s'.found.logical_count)
    × (NoRepeats s.cpus → NoRepeats s'.cpus)
    × ((x : String)
        → is_seen x s'.cpus ≡ (is_seen x s.cpus || (not (is_empty_str x) && is_seen x ids)))

count_cpu-Counts : (id : String) (s : Survey) → Counts (id ∷ []) s (count_cpu id s)
unfolding count_cpu see
count_cpu-Counts id s = elim (Bool-cases (is_empty_str id)) [
  | inl e ↦
      rw e (omega arith, omega arith, omega arith, λ h. h, λ x. ground (arith, e, eq_iff id x))
  | inr e ↦ elim (Bool-cases (is_seen id s.cpus)) [
    | inl f ↦
        rw (e, f)
          (omega arith, omega arith, omega arith, λ h. h, λ x. ground (arith, f, eq_iff id x))
    | inr f ↦
        rw (e, f)
          (omega arith, omega arith, omega arith, λ h. (f, h), λ x. ground (arith, e, eq_iff id x))
  ]
]

or_assoc : (a b n p q : Bool) → ((a || (n && p)) || (n && q)) ≡ (a || (n && (p || q)))
or_assoc a b n p q = ground arith

module _ (m : Machine) where
  abbrev pub ids_of : List String → List String
  ids_of cpus = map (package_of m) cpus

  count_cpus-Counts :
      (cpus : List String) (s : Survey) → Counts (ids_of cpus) s (count_cpus m cpus s)
  unfolding count_cpus
  count_cpus-Counts [] s = (omega arith, omega arith, omega arith, λ h. h, λ x. ground arith)
  count_cpus-Counts (cpu ∷ cpus) s =
      let s' = count_cpu (package_of m cpu) s in
      let step = count_cpu-Counts (package_of m cpu) s in
      let rest = count_cpus-Counts cpus s' in
      (
        omega arith,
        ground (arith, step.1, rest.1),
        omega arith,
        λ h. rest.3 (step.3 h),
        λ x. ground (arith, step.4 x, rest.4 x),
      )

  -- Where sysfs gave counts, /proc/cpuinfo gives models only.
  read_line-counts :
      (line : String) (s : Survey)
      → ((read_line m true line s).found.logical_count ≡ s.found.logical_count)
        × ((read_line m true line s).found.physical_count ≡ s.found.physical_count)
  unfolding read_line
  read_line-counts line s = ground arith

  read_lines-counts :
      (lines : List String) (s : Survey)
      → ((read_lines m true lines s).found.logical_count ≡ s.found.logical_count)
        × ((read_lines m true lines s).found.physical_count ≡ s.found.physical_count)
  unfolding read_lines
  read_lines-counts [] s = (refl, refl)
  read_lines-counts (line ∷ lines) s =
      let rest = read_lines-counts lines (read_line m true line s) in
      let step = read_line-counts line s in (rest.0 ∙ step.0, rest.1 ∙ step.1)

  -- The numbers of logical and of physical processors, for the ids of the packages that the logical
  -- processors belong to: each processor without an id counts for a physical one.
  abbrev pub Accounts : List String → Processors → Type 0
  Accounts ids d =
      (cpus : List String) × NoRepeats cpus
      × ((x : String) → is_seen x cpus ≡ (not (is_empty_str x) && is_seen x ids))
      × (d.physical_count ≡ length cpus + count_empty ids)
      × (d.logical_count ≡ length ids)
      × (d.physical_count ≤ d.logical_count)

  length-ids_of : (cpus : List String) → length (ids_of cpus) ≡ length cpus
  length-ids_of [] = refl
  length-ids_of (cpu ∷ cpus) = omega (arith, length-ids_of cpus)

  from_sysfs-Accounts : Accounts (ids_of (cpu_directories m)) (from_sysfs m).found
  unfolding from_sysfs
  from_sysfs-Accounts =
      let c = count_cpus-Counts (cpu_directories m) _ in
      ((from_sysfs m).cpus, c.3 tt, c.4, omega (arith, c.1), omega (arith, c.0), omega (arith, c.2))

  survey-Accounts :
      ltb 0 (from_sysfs m).found.logical_count ≡ true
      → Accounts (ids_of (cpu_directories m)) (survey m).found
  unfolding survey
  survey-Accounts e =
      let (cpus, distinct, known, physical, logical, bound) = from_sysfs-Accounts in
      let kept = read_lines-counts (lines_of m "/proc/cpuinfo") (from_sysfs m) in
      rw e
        (cpus, distinct, known, kept.1 ∙ physical, kept.0 ∙ logical, omega (arith, kept.0, kept.1))

  abbrev IfReturned : (Processors → Type 0) → Option Processors → Type 0
  IfReturned P none = Unit
  IfReturned P (some d) = P d

  with_speed-Accounts :
      (ids : List String) (speed : Stoi) (d : Processors)
      → Accounts ids d
      → IfReturned (Accounts ids) (with_speed m speed d)
  with_speed-Accounts ids (number n) d a = a
  with_speed-Accounts ids invalid_argument d a = a
  with_speed-Accounts ids out_of_range d a = tt

  returned-Accounts :
      (ids : List String) (is_silent : Bool) (speed : Stoi) (d : Processors)
      → Accounts ids d
      → IfReturned (Accounts ids) (if is_silent then some d else with_speed m speed d)
  returned-Accounts ids true speed d a = a
  returned-Accounts ids false speed d a = with_speed-Accounts ids speed d a

  some_counted :
      (cpus : List String) (n : ℕ)
      → is_empty cpus ≡ false
      → n ≡ length (ids_of cpus)
      → ltb 0 n ≡ true
  some_counted [] n h e = absurd (cc)
  some_counted (cpu ∷ cpus) n h e = ground (arith, e)

  -- Where sysfs lists a processor, the data that is collected, if no exception leaves, counts the
  -- listed processors, and of their packages each once, those without an id apart; so there are at
  -- most as many physical processors as logical ones, whatever /proc/cpuinfo says.
  pub collect_processors-Accounts :
      (d : Processors)
      → collect_processors m ≡ some d
      → is_empty (cpu_directories m) ≡ false
      → Accounts (ids_of (cpu_directories m)) d
  unfolding collect_processors
  collect_processors-Accounts d e h = subst (IfReturned (Accounts (ids_of (cpu_directories m)))) e (
      returned-Accounts _ _ _ _
        (survey-Accounts (some_counted (cpu_directories m) _ h (from_sysfs-Accounts).4)))
