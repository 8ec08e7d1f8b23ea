-- ===== src/Tests/Surveys.antt =====
-- A machine with two processors of one package, and its memory.
use facter.Base.{
  ◌+◌, ◌*◌, ◌%◌, ◌^◌, String, ◌≡◌, refl, false, Option, none, some, List, [], ◌∷◌, ◌==◌,
  if◌then◌else◌, ◌||◌,
}
use facter.Base.Int.{pos}
use facter.Resolvers.Processors.{Processors}
use facter.Linux.{Machine, number, lines_of}
use facter.Linux.System.{get_family, find_text}
use facter.Linux.Meminfo.{collect_memory}
use facter.Linux.Meminfo.Sums.{total_under, collect_memory-sums}
use facter.Linux.Processors.{collect_processors}
use facter.Linux.Processors.Counts.{Accounts, collect_processors-Accounts}
use facter.Linux.ReleaseInfo.{find_info, key_value_file}
use facter.Linux.ReleaseInfo.Values.{find_info-key_value_file}
use facter.Linux.Collecting.{get_os, os_linux, collect_system}
use facter.Linux.Collecting.Family.{family-collect_system}

abbrev meminfo : List String
meminfo = "MemTotal: 7 kB" ∷ "MemFree: 7 kB" ∷ "Cached: 7 kB" ∷ "SwapTotal:" ∷ []

abbrev cpuinfo : List String
cpuinfo = "processor:0" ∷ "model name:Xeon" ∷ []

abbrev os_release_lines : List String
os_release_lines = "ID=debian" ∷ "VERSION_ID=8" ∷ "ID=ubuntu" ∷ []

abbrev lines : String → Option (List String)
lines file =
    if file == "/proc/meminfo"
    then some meminfo
    else if file == "/proc/cpuinfo"
    then some cpuinfo
    else if file == "/etc/os-release"
    then some os_release_lines
    else none

abbrev groups : String → Option (List String)
groups line =
    if line == "ID=debian"
    then some ("ID" ∷ "debian" ∷ [])
    else if line == "VERSION_ID=8"
    then some ("VERSION_ID" ∷ "8" ∷ [])
    else if line == "ID=ubuntu"
    then some ("ID" ∷ "ubuntu" ∷ [])
    else none

abbrev pub machine : Machine
machine = record {
  is_regular_file = λ file. file == "/etc/os-release" || file == "/etc/debian_version";
  is_directory = λ file. false;
  exists = λ file. false;
  is_empty_path = λ file. false;
  contents =
      λ file. if file == "/sys/devices/system/cpu/cpu0/cpufreq/cpuinfo_max_freq" then "7" else "0";
  lines = lines;
  output_lines = λ command. "Distributor ID: Debian" ∷ [];
  execute = λ command arguments. some "x86_64";
  split_spaces = λ line. line ∷ "7" ∷ "kB" ∷ [];
  split_colons = λ line. line ∷ [];
  subdirectories = λ directory regex. "/cpu0" ∷ "/cpu1" ∷ [];
  uname = some (record { sysname = "Linux"; release = "3.16.0-4-amd64"; machine = "x86_64" });
  lexical_cast = λ s. if s == "7" then some 7 else none;
  stoi = λ s. number (pos 7);
  trim = λ s. s;
  trim_right = λ s. s;
  search = λ s regex. groups s;
}

collect_memory-sums_example :
    let ls = lines_of machine "/proc/meminfo" in
    ((collect_memory machine).mem_total ≡ total_under machine "MemTotal:" ls % 2 ^ 64)
    × ((collect_memory machine).mem_free
        ≡ (total_under machine "MemFree:" ls
            + (total_under machine "Buffers:" ls + total_under machine "Cached:" ls))
          % 2 ^ 64)
    × ((collect_memory machine).swap_total ≡ total_under machine "SwapTotal:" ls % 2 ^ 64)
    × ((collect_memory machine).swap_free ≡ total_under machine "SwapFree:" ls % 2 ^ 64)
collect_memory-sums_example = collect_memory-sums machine

free_memory : (collect_memory machine).mem_free ≡ 2 * (7 * 1024)
unfolding collect_memory
free_memory = refl

abbrev processors : Processors
processors = record {
  physical_count = 1;
  logical_count = 2;
  models = "Xeon" ∷ [];
  speed = pos 7000;
  isa = "x86_64";
}

collected_processors : collect_processors machine ≡ some processors
unfolding collect_processors
collected_processors = refl

collect_processors-Accounts_example : Accounts machine ("0" ∷ "0" ∷ []) processors
collect_processors-Accounts_example =
    collect_processors-Accounts machine processors collected_processors refl

find_info-key_value_file_example :
    find_info "ID" (key_value_file machine "/etc/os-release" ("ID" ∷ "VERSION_ID" ∷ []))
    ≡ some "debian"
find_info-key_value_file_example =
    find_info-key_value_file machine "/etc/os-release" "ID" ("ID" ∷ "VERSION_ID" ∷ [])
      (refl, (refl, tt)) refl

plain_system : get_os machine ≡ os_linux
unfolding get_os
plain_system = refl

kernel_without_family : get_family "Linux" ≡ ""
unfolding get_family find_text
kernel_without_family = refl

family-collect_system_example :
    (collect_system machine (some "Linux") (some "3.16.0-4-amd64")).family ≡ "Debian"
family-collect_system_example =
    family-collect_system machine (some "Linux") (some "3.16.0-4-amd64") plain_system
      kernel_without_family
