-- ===== src/Tests/Builtins.antt =====
-- A machine with two interfaces, and a collection to which its facts are added.
use facter.Base.{ℕ, String, ◌≡◌, refl, arith, true, some, [], ◌∷◌}
use facter.Values.{string_value, find}
use facter.Values.Lookup.{or_else}
use facter.Collection.{
  Action, Resolver, Collection, Outcome, returned, ◌>>=◌, get_value, exec_with, empty_collection,
  has_entry, points_to,
}
use facter.Collection.Pending.{IsQuiet}
use facter.Resolvers.{Adds, publish}
use facter.Resolvers.Dmi.{Dmi, dmi_resolver}
use facter.Resolvers.Ssh.{SshKey, SshData}
use facter.Resolvers.Networking.{Address, Interface, Networking}
use facter.Resolvers.Memory.{Units, Memory, encrypted}
use facter.Resolvers.Publish.{last_added, assign_all, get_value-publish}

abbrev no_address : Address
no_address = record { v4 = ""; v6 = "" }

abbrev interface_of : String → String → Interface
interface_of name ip = record {
  name = name;
  dhcp_server = "";
  address = record { v4 = ip; v6 = "" };
  netmask = no_address;
  network = no_address;
  macaddress = "";
  mtu = some 1500;
}

abbrev pub machine : Networking
machine = record {
  hostname = "db1";
  domain = "example.com";
  fqdn = "";
  primary_interface = "eth1";
  interfaces = interface_of "eth0" "10.0.0.1" ∷ interface_of "eth1" "10.0.0.2" ∷ [];
}

abbrev key : SshKey
key = record { key = "AAAA"; sha1 = "SSHFP 1 1 aa"; sha256 = "SSHFP 1 2 bb" }

abbrev no_key : SshKey
no_key = record { key = ""; sha1 = ""; sha256 = "" }

abbrev pub keys : SshData
keys = record { dsa = no_key; rsa = key; ecdsa = no_key; ed25519 = key }

abbrev pub firmware : Dmi
firmware = record {
  bios_vendor = "QEMU";
  bios_version = "";
  bios_release_date = "04/01/2014";
  board_asset_tag = "";
  board_manufacturer = "";
  board_product_name = "";
  board_serial_number = "";
  chassis_asset_tag = "";
  manufacturer = "QEMU";
  product_name = "Standard PC";
  serial_number = "";
  uuid = "";
  chassis_type = "Other";
}

-- No resolver is left, so that no name runs one.
abbrev heap : ℕ → Resolver
heap p = dmi_resolver firmware

empty-IsQuiet : (name : String) → IsQuiet heap name empty_collection
unfolding has_entry points_to
empty-IsQuiet name = record { names = λ p. refl; patterns = λ p h. ground arith }

abbrev two_adds : Adds
two_adds =
    ("ipaddress", string_value true "10.0.0.1") ∷ ("ipaddress", string_value true "10.0.0.2") ∷ []

abbrev no_nested : Action → Collection → Outcome Collection
no_nested a c = returned c

get_value-publish_example :
    (exec_with heap no_nested (publish two_adds) empty_collection
      >>= get_value heap no_nested "ipaddress")
    ≡ returned (
      or_else (last_added "ipaddress" two_adds) (find "ipaddress" empty_collection.facts),
      record empty_collection { facts = assign_all two_adds empty_collection.facts },
    )
get_value-publish_example =
    get_value-publish heap no_nested two_adds empty_collection "ipaddress"
      (empty-IsQuiet "ipaddress", (empty-IsQuiet "ipaddress", tt)) (empty-IsQuiet "ipaddress")

abbrev pub plain_units : Units
plain_units = record { si_string = λ n. "bytes"; percentage = λ a b. "percent"; in_mb = λ n. n }

abbrev pub small_memory : Memory
small_memory = record {
  mem_total = 4096;
  mem_free = 1024;
  swap_total = 512;
  swap_free = 512;
  swap_encryption = encrypted;
}
