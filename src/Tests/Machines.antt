-- ===== src/Tests/Machines.antt =====
-- A machine with a release file of Red Hat's, under KVM.
use facter.Base.{String, ◌≡◌, refl, true, false, Option, none, some, [], ◌∷◌, ◌==◌, if◌then◌else◌}
use facter.Values.{Value, string_value}
use facter.Linux.{Machine, invalid_argument, first_match}
use facter.Linux.Virtualization.{resolve}
use facter.Linux.Hypervisor.{
  additions, hypervisor_facts, or_physical, first_nonempty, findings, additions-resolve,
}
use facter.Linux.System.{get_name, get_family}
use facter.Linux.Names.{family_of_files, get_family-get_name}

abbrev machine : Machine
machine = record {
  is_regular_file = λ file. file == "/etc/redhat-release";
  is_directory = λ file. false;
  exists = λ file. false;
  is_empty_path = λ file. false;
  contents = λ file. "CentOS release 6.5 (Final)";
  lines = λ file. none;
  output_lines = λ command. "00:03.0 Ethernet controller: Virtio network device" ∷ [];
  execute = λ command arguments. none;
  split_spaces = λ line. line ∷ [];
  split_colons = λ line. line ∷ [];
  subdirectories = λ directory regex. [];
  uname = none;
  lexical_cast = λ s. if s == "7" then some 7 else none;
  stoi = λ s. invalid_argument;
  trim = λ s. s;
  trim_right = λ s. s;
  search = λ s regex. if regex == "(?i)centos" then some [] else none;
}

abbrev answer : String → Option Value
answer name = if name == "productname" then some (string_value true "KVM") else none

additions-resolve_example :
    additions answer (resolve machine)
    ≡ hypervisor_facts (or_physical (first_nonempty (findings machine answer)))
additions-resolve_example = additions-resolve answer machine

get_family-get_name_example : get_family (get_name machine "") ≡ family_of_files machine
get_family-get_name_example = get_family-get_name machine ""

redhat_family : family_of_files machine ≡ "RedHat"
unfolding first_match
redhat_family = refl
