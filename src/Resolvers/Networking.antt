-- ===== src/Resolvers/Networking.antt =====
-- lib/src/facts/resolvers/networking_resolver.cc
use facter.Base.{
  ℕ, String, Bool, true, false, Option, none, some, List, [], ◌∷◌, ◌++◌, ◌==◌, if◌then◌else◌,
  is_empty_str, ◌<>◌, map,
}
use facter.Base.Int.{to_int64}
use facter.Values.{Fields, end, add_field, map_value, integer_value}
use facter.Collection.{Resolver}
use facter.Resolvers.{Adds, publish, text_facts, map_facts, text_field, map_field, starts_with}

pub record Address : Type 0 where
  pub v4 : String
  pub v6 : String

pub record Interface : Type 0 where
  pub name : String
  pub dhcp_server : String
  pub address : Address
  pub netmask : Address
  pub network : Address
  pub macaddress : String
  pub mtu : Option ℕ

pub record Networking : Type 0 where
  pub hostname : String
  pub domain : String
  pub fqdn : String
  pub primary_interface : String
  pub interfaces : List Interface

abbrev pub networking_names : List String
networking_names =
    "networking" ∷ "hostname" ∷ "ipaddress" ∷ "ipaddress6" ∷ "netmask" ∷ "netmask6" ∷ "network"
    ∷ "network6" ∷ "macaddress" ∷ "interfaces" ∷ "domain" ∷ "fqdn" ∷ "dhcp_servers" ∷ []

abbrev pub networking_prefixes : List String
networking_prefixes =
    "ipaddress_" ∷ "ipaddress6_" ∷ "mtu_" ∷ "netmask_" ∷ "netmask6_" ∷ "network_" ∷ "network6_"
    ∷ "macaddress_" ∷ []

unfoldable pub full_name : Networking → String
full_name d =
    if is_empty_str d.hostname
    then d.fqdn
    else if is_empty_str d.fqdn
    then d.hostname <> (if is_empty_str d.domain then String.[] else ".") <> d.domain
    else d.fqdn

-- A fact of the interface, and one under the plain name where it is the primary one.
unfoldable pub text_pair : Bool → String → String → String → String → Adds
unfolding text_facts
text_pair primary prefix plain name s =
    text_facts (prefix <> name) s ++ (if primary then text_facts plain s else [])

abbrev pub mtu_facts : String → Option ℕ → Adds
mtu_facts name none = []
mtu_facts name (some n) = ("mtu_" <> name, integer_value true (to_int64 n)) ∷ []

unfoldable pub mtu_field : Option ℕ → Fields → Fields
unfolding add_field
mtu_field none m = m
mtu_field (some n) m = add_field "mtu" (some (integer_value false (to_int64 n))) m

unfoldable pub interface_adds : String → Interface → Adds
unfolding text_pair
interface_adds primary_name i =
    let primary = i.name == primary_name in
    text_pair primary "ipaddress_" "ipaddress" i.name i.address.v4
    ++ (text_pair primary "ipaddress6_" "ipaddress6" i.name i.address.v6
        ++ (text_pair primary "netmask_" "netmask" i.name i.netmask.v4
            ++ (text_pair primary "netmask6_" "netmask6" i.name i.netmask.v6
                ++ (text_pair primary "network_" "network" i.name i.network.v4
                    ++ (text_pair primary "network6_" "network6" i.name i.network.v6
                        ++ (text_pair primary "macaddress_" "macaddress" i.name i.macaddress
                            ++ mtu_facts i.name i.mtu))))))

-- The fields of an interface: of its own value, and onto `networking` for the primary one.
unfoldable pub interface_fields : Interface → Fields → Fields
unfolding text_field mtu_field
interface_fields i m = mtu_field i.mtu (
    text_field "dhcp" i.dhcp_server (
      text_field "mac" i.macaddress (
        text_field "network6" i.network.v6 (
          text_field "network" i.network.v4 (
            text_field "netmask6" i.netmask.v6 (
              text_field "netmask" i.netmask.v4
                (text_field "ip6" i.address.v6 (text_field "ip" i.address.v4 m))))))))

unfoldable pub primary_onto : String → List Interface → Fields → Fields
unfolding interface_fields
primary_onto primary_name [] m = m
primary_onto primary_name (i ∷ is) m =
    primary_onto primary_name is (if i.name == primary_name then interface_fields i m else m)

unfoldable pub dhcp_onto : String → List Interface → Fields → Fields
unfolding text_field
dhcp_onto primary_name [] m = m
dhcp_onto primary_name (i ∷ is) m = dhcp_onto primary_name is (
    text_field i.name i.dhcp_server
      (if i.name == primary_name then text_field "system" i.dhcp_server m else m))

unfoldable pub interfaces_onto : List Interface → Fields → Fields
unfolding interface_fields add_field
interfaces_onto [] m = m
interfaces_onto (i ∷ is) m =
    interfaces_onto is (add_field i.name (some (map_value false (interface_fields i end))) m)

unfoldable pub interface_names : List Interface → String → String
interface_names [] names = names
interface_names (i ∷ is) names =
    interface_names is ((if is_empty_str names then String.[] else names <> ",") <> i.name)

unfoldable pub all_interface_adds : String → List Interface → Adds
unfolding interface_adds
all_interface_adds primary_name [] = []
all_interface_adds primary_name (i ∷ is) =
    interface_adds primary_name i ++ all_interface_adds primary_name is

unfoldable pub host_fields : Networking → Fields
unfolding text_field full_name
host_fields d =
    text_field "fqdn" (full_name d)
      (text_field "domain" d.domain (text_field "hostname" d.hostname end))

unfoldable pub networking_fields : Networking → Fields
unfolding primary_onto map_field interfaces_onto host_fields
networking_fields d =
    map_field "interfaces" (interfaces_onto d.interfaces end)
      (primary_onto d.primary_interface d.interfaces (host_fields d))

unfoldable pub networking_adds : Networking → Adds
unfolding text_facts map_facts all_interface_adds interface_names dhcp_onto networking_fields
    full_name
networking_adds d =
    text_facts "hostname" d.hostname
    ++ (text_facts "domain" d.domain
        ++ (text_facts "fqdn" (full_name d)
            ++ (all_interface_adds d.primary_interface d.interfaces
                ++ (text_facts "interfaces" (interface_names d.interfaces String.[])
                    ++ (map_facts "dhcp_servers" true
                          (dhcp_onto d.primary_interface d.interfaces end)
                        ++ map_facts "networking" false (networking_fields d))))))

unfoldable pub networking_resolver : Networking → Resolver
unfolding publish networking_adds starts_with
networking_resolver d = record {
  name = "networking";
  names = networking_names;
  regexes = map starts_with networking_prefixes;
  body = publish (networking_adds d);
}
