-- ===== src/Linux/Virtualization.antt =====
-- Which hypervisor a machine runs on: lib/src/facts/linux/virtualization_resolver.cc and
-- lib/src/facts/resolvers/virtualization_resolver.cc, with the names of
-- lib/inc/facter/facts/vm.hpp. The build sets no `FACTER_PATH`.
use facter.Base.{
  String, Bool, false, not, ◌||◌, Option, none, some, List, [], ◌∷◌, ◌==◌, any, if◌then◌else◌,
  is_empty_str, ◌<>◌,
}
use facter.Base.Lower.{to_lower}
use facter.Values.{Value, string_value, boolean_value}
use facter.Collection.{Action, done, add_fact, get_fact}
use facter.Resolvers.{starts_with}
use facter.Linux.{Machine, has_text, first_value, lines_of, first_match}

module _ (m : Machine) where
  abbrev cgroup_part : List String → Option String
  cgroup_part (a ∷ b ∷ part ∷ rest) =
      if has_text "/docker" part
      then some "docker"
      else if has_text "/lxc" part
      then some "lxc"
      else none
  cgroup_part _ = none

  unfoldable pub get_cgroup_vm : String
  unfolding first_value has_text
  get_cgroup_vm =
      first_value (λ line. cgroup_part (m.split_colons line)) (lines_of m "/proc/1/cgroup")

  abbrev vserver_part : List String → Option String
  vserver_part (name ∷ value ∷ []) =
      if name == "s_context:" || name == "VxID:"
      then (if value == "0" then some "vserver_host" else some "vserver")
      else none
  vserver_part _ = none

  unfoldable pub get_vserver_vm : String
  unfolding first_value
  get_vserver_vm =
      first_value (λ line. vserver_part (m.split_spaces line)) (lines_of m "/proc/self/status")

  abbrev what_line : String → Option String
  what_line line = if starts_with "virt-what:" line then none else some line

  -- The normalization of what `virt-what` prints.
  unfoldable pub what_name : String → String
  unfolding get_vserver_vm
  what_name value =
      if value == "linux_vserver"
      then get_vserver_vm
      else if value == "xen-hvm"
      then "xenhvm"
      else if value == "xen-dom0"
      then "xen0"
      else if value == "xen-domu"
      then "xenu"
      else if value == "ibm_systemz"
      then "zlinux"
      else value

  unfoldable pub get_what_vm : String
  unfolding first_value starts_with what_name to_lower
  get_what_vm =
      let value = first_value what_line (m.output_lines "virt-what") in
      if is_empty_str value then value else what_name (to_lower value)

  abbrev vmware_name : List String → String
  vmware_name (a ∷ b ∷ rest) = to_lower a <> ("_" <> to_lower b)
  vmware_name _ = ""

  unfoldable pub get_vmware_vm : String
  unfolding to_lower
  get_vmware_vm = elim (m.execute "vmware" ("-v" ∷ [])) [
    | none ↦ ""
    | some output ↦ vmware_name (m.split_spaces output)
  ]

  abbrev openvz_part : List String → Option String
  openvz_part (name ∷ value ∷ []) =
      if name == "envID:" then (if value == "0" then some "openvzhn" else some "openvzve") else none
  openvz_part _ = none

  unfoldable pub get_openvz_vm : String
  unfolding first_value
  get_openvz_vm =
      if not (m.is_directory "/proc/vz")
        || m.is_regular_file "/proc/lve/list"
        || m.is_empty_path "/proc/vz"
      then ""
      else first_value (λ line. openvz_part (m.split_spaces line)) (lines_of m "/proc/self/status")

  unfoldable pub get_xen_vm : String
  get_xen_vm =
      if m.exists "/dev/xen/evtchn"
      then "xen0"
      else if m.exists "/proc/xen"
      then "xenu"
      else if m.exists "/dev/xvda1"
      then "xenu"
      else ""

  abbrev lspci_names : List (String × String)
  lspci_names =
      ("VM[wW]are", "vmware")
      ∷ ("VirtualBox", "virtualbox")
      ∷ ("1ab8:|[Pp]arallels", "parallels")
      ∷ ("XenSource", "xenhvm")
      ∷ ("Microsoft Corporation Hyper-V", "hyperv")
      ∷ ("Class 8007: Google, Inc", "gce")
      ∷ ("(?i)virtio", "kvm")
      ∷ []

  unfoldable pub get_lspci_vm : String
  unfolding first_value first_match
  get_lspci_vm = first_value (first_match m lspci_names) (m.output_lines "lspci")

-- `facts.get<string_value>`: a fact that is no string is a null.
abbrev pub string_of : Option Value → Option String
string_of (some (string_value h s)) = some s
string_of _ = none

unfoldable pub gce_vm : Option String → String
unfolding has_text
gce_vm none = ""
gce_vm (some vendor) = if has_text "Google" vendor then "gce" else ""

unfoldable pub find_product : List (String × String) → String → String
unfolding has_text
find_product [] value = ""
find_product ((part, name) ∷ table) value =
    let rest = find_product table value in if has_text part value then name else rest

abbrev product_names : List (String × String)
product_names =
    ("VMware", "vmware")
    ∷ ("VirtualBox", "virtualbox")
    ∷ ("Parallels", "parallels")
    ∷ ("KVM", "kvm")
    ∷ ("Virtual Machine", "hyperv")
    ∷ ("RHEV Hypervisor", "rhev")
    ∷ ("oVirt Node", "ovirt")
    ∷ ("HVM domU", "xenhvm")
    ∷ ("Bochs", "bochs")
    ∷ []

unfoldable pub product_name_vm : Option String → String
unfolding find_product
product_name_vm none = ""
product_name_vm (some value) = find_product product_names value

-- The hypervisors on which a machine is not virtual.
abbrev pub host_names : List String
host_names =
    "physical" ∷ "xen0" ∷ "vmware_server" ∷ "vmware_workstation" ∷ "openvzhn" ∷ "vserver_host" ∷ []

unfoldable pub is_virtual : String → Bool
is_virtual hypervisor = not (any (λ name. name == hypervisor) host_names)

-- The last part of `resolve`, with what the tests found.
unfoldable pub add_hypervisor : String → Action
unfolding is_virtual
add_hypervisor found =
    let hypervisor = if is_empty_str found then "physical" else found in
    add_fact "is_virtual" (some (boolean_value false (is_virtual hypervisor)))
      (add_fact "virtual" (some (string_value false hypervisor)) done)

-- Where a test found nothing, the next one is made.
abbrev pub if_found : String → Action → Action
if_found value next = if is_empty_str value then next else add_hypervisor value

module _ (m : Machine) where
  -- The tests from the product name on.
  unfoldable pub last_tests : Action
  unfolding product_name_vm get_lspci_vm add_hypervisor
  last_tests =
      get_fact "productname"
        (λ v. if_found (product_name_vm (string_of v)) (add_hypervisor (get_lspci_vm m)))

  unfoldable pub middle_tests : Action
  unfolding get_what_vm get_vmware_vm get_openvz_vm get_vserver_vm get_xen_vm last_tests
  middle_tests = if_found (get_what_vm m) (
      if_found (get_vmware_vm m) (
        if_found (get_openvz_vm m)
          (if_found (get_vserver_vm m) (if_found (get_xen_vm m) last_tests))))

  -- `resolve`, with `get_hypervisor`: a fact is asked for only where the tests before found nothing.
  unfoldable pub resolve : Action
  unfolding get_cgroup_vm gce_vm middle_tests add_hypervisor
  resolve =
      if_found (get_cgroup_vm m)
        (get_fact "bios_vendor" (λ v. if_found (gce_vm (string_of v)) middle_tests))
