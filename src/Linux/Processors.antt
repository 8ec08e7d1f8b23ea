-- ===== src/Linux/Processors.antt =====
-- lib/src/facts/linux/processor_resolver.cc, with
-- `collect_data` of lib/src/facts/posix/processor_resolver.cc.
pub mod Counts
use Prim.Native.String.{[], ◌∷◌}
use facter.Base.{
  ℕ, suc, ◌+◌, ◌*◌, String, code, Bool, true, false, not, ◌&&◌, ◌||◌, Option, none, some, List, [],
  ◌∷◌, ◌++◌, ◌=?◌, ◌==◌, any, ltb, if◌then◌else◌, is_empty_str, ◌<>◌,
}
use mathlib.Core.Option.{map}
use facter.Base.Int.{ℤ, pos, negsuc}
use facter.Resolvers.Processors.{Processors}
use facter.Linux.{Machine, Stoi, number, invalid_argument, out_of_range, lines_of}

-- The data with the ids of the physical processors that were seen, and with the id of the logical
-- processor that the lines are about.
pub record Survey : Type 0 where
  pub found : Processors
  pub cpus : List String
  pub id : String

abbrev pub is_seen : String → List String → Bool
is_seen id cpus = any (λ c. c == id) cpus

abbrev pub count_physical : Processors → Processors
count_physical d = record d { physical_count = d.physical_count + 1 }

abbrev pub count_logical : Processors → Processors
count_logical d = record d { logical_count = d.logical_count + 1 }

-- `cpus.emplace(id).second`, and the count if it is true.
unfoldable pub see : String → Survey → Survey
see id s =
    if is_seen id s.cpus then s else record s { cpus = id ∷ s.cpus; found = count_physical s.found }

-- The callback on the directories of the logical processors.
unfoldable pub count_cpu : String → Survey → Survey
unfolding see
count_cpu id s =
    let counted = record s { found = count_logical s.found } in
    if is_empty_str id
    then record counted { found = count_physical counted.found }
    else see id counted

-- What stands before the first colon, and behind it.
unfoldable pub split_colon : String → Option (String × String)
split_colon [] = none
split_colon (c ∷ s) =
    if code c =? b':' then some ([], s) else map (λ (key, value). (c ∷ key, value)) (split_colon s)

abbrev pub read_pair : Bool → String → String → Survey → Survey
unfolding see
read_pair have_counts key value s =
    if key == "processor"
    then (if have_counts
        then record s { id = value }
        else record s { id = value; found = count_logical s.found })
    else if not (is_empty_str s.id) && key == "model name"
    then record s { found = record s.found { models = s.found.models ++ value ∷ [] } }
    else if not have_counts && key == "physical id"
    then see value s
    else s

module _ (m : Machine) where
  abbrev pub package_of : String → String
  package_of cpu_directory = m.trim (m.contents (cpu_directory <> "/topology/physical_package_id"))

  unfoldable pub count_cpus : List String → Survey → Survey
  unfolding count_cpu
  count_cpus [] s = s
  count_cpus (cpu ∷ cpus) s = count_cpus cpus (count_cpu (package_of cpu) s)

  -- The callback on the lines of /proc/cpuinfo.
  unfoldable pub read_line : Bool → String → Survey → Survey
  unfolding split_colon see
  read_line have_counts line s = elim (split_colon line) [
    | none ↦ s
    | some (key, value) ↦ read_pair have_counts (m.trim key) (m.trim value) s
  ]

  unfoldable pub read_lines : Bool → List String → Survey → Survey
  unfolding read_line
  read_lines have_counts [] s = s
  read_lines have_counts (line ∷ lines) s =
      read_lines have_counts lines (read_line have_counts line s)

  abbrev pub isa_of : Option String → String
  isa_of none = ""
  isa_of (some output) = output

  -- `collect_data` of the base class
  abbrev pub no_processors : Processors
  no_processors = record {
    physical_count = 0;
    logical_count = 0;
    models = [];
    speed = pos 0;
    isa = isa_of (m.execute "uname" ("-p" ∷ []));
  }

  abbrev pub cpu_directories : List String
  cpu_directories = m.subdirectories "/sys/devices/system/cpu" "^cpu\\d+$"

  unfoldable pub from_sysfs : Survey
  unfolding count_cpus
  from_sysfs = count_cpus cpu_directories (record { found = no_processors; cpus = []; id = "" })

  unfoldable pub survey : Survey
  unfolding from_sysfs read_lines
  survey = read_lines (ltb 0 from_sysfs.found.logical_count) (lines_of m "/proc/cpuinfo") from_sysfs

  -- `stoi(speed) * 1000`; an `out_of_range` is not caught, and leaves the resolver.
  abbrev pub in_hertz : ℤ → ℤ
  in_hertz (pos n) = pos (n * 1000)
  in_hertz (negsuc n) = negsuc (n * 1000 + 999)

  abbrev pub with_speed : Stoi → Processors → Option Processors
  with_speed (number n) d = some (record d { speed = in_hertz n })
  with_speed invalid_argument d = some d
  with_speed out_of_range d = none

  unfoldable pub collect_processors : Option Processors
  unfolding survey
  collect_processors =
      let speed = m.contents "/sys/devices/system/cpu/cpu0/cpufreq/cpuinfo_max_freq" in
      if is_empty_str speed then some survey.found else with_speed (m.stoi speed) survey.found
