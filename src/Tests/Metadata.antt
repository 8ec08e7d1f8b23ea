-- ===== src/Tests/Metadata.antt =====
-- The metadata of machines of Google's and Amazon's.
use facter.Base.Text.{c_str}
use facter.Base.{
  String, List, keep, not, is_empty_str, ◌≡◌, refl, ◌<◌, arith, true, ◌++◌, none, some, [], map,
  ◌==◌, if◌then◌else◌,
}
use facter.Values.{end}
use facter.External.Json.Document.{
  Members, no_members, member, no_items, item, json_string, json_object, json_array, json_null,
  json_uint, events,
}
use facter.Text.{get_lines, pop_return}
use facter.Resolvers.{starts_with}
use facter.Resolvers.Ec2.{
  Reply, replied, Service, ends_with_slash, is_ec2, resolve_ec2, metadata_adds, userdata_adds,
}
use facter.Resolvers.Ec2.Walk.{
  Entries, no_entries, value, credentials, category, listing, depth, fields_of, Serves,
  resolve_ec2-Serves,
}
use facter.Resolvers.Gce.{running, initial, run}
use facter.Resolvers.Gce.Metadata.{fields_onto, at, run-metadata}

-- In the place of `boost::split`
abbrev split_lines : String → List String
unfolding get_lines
split_lines s = keep (λ line. not (is_empty_str line)) (get_lines s)

abbrev attributes : Members
attributes =
    member "sshKeys" (json_string " a:1\n\nb:2\n")
      (member "zone" (json_array (item (json_string "x/y") no_items)) no_members)

abbrev instance_data : Members
instance_data = member "attributes" (json_object attributes) (
    member "image" (json_string "projects/p/debian")
      (member "tags" json_null (member "id" (json_uint 7) no_members)))

run-metadata_example :
    run split_lines (events (json_object instance_data) []) initial
    ≡ running (at "" [] (fields_onto split_lines instance_data end))
unfolding c_str
run-metadata_example =
    run-metadata split_lines instance_data
      (refl, ((refl, (tt, (refl, ((tt, tt), tt)))), (refl, (tt, (refl, (tt, (refl, (tt, tt))))))))

-- The metadata of an instance of Amazon's, with a key in an array.
abbrev keys : Entries
keys = category "0=alice" "0/" (value "openssh-key" " ssh-rsa " no_entries) no_entries

abbrev instance_entries : Entries
instance_entries =
    value "ami-id" "ami-1"
      (credentials "security-credentials/" (category "public-keys/" "public-keys/" keys no_entries))

abbrev answer_to : String → Reply
answer_to url =
    if url == "http://169.254.169.254/latest/meta-data/"
    then replied 200 "ami-id\nsecurity-credentials/\npublic-keys/"
    else if url == "http://169.254.169.254/latest/meta-data/ami-id"
    then replied 200 "ami-1"
    else if url == "http://169.254.169.254/latest/meta-data/public-keys/"
    then replied 200 "0=alice\r\n"
    else if url == "http://169.254.169.254/latest/meta-data/public-keys/0/"
    then replied 200 "openssh-key"
    else if url == "http://169.254.169.254/latest/meta-data/public-keys/0/openssh-key"
    then replied 200 " ssh-rsa "
    else if url == "http://169.254.169.254/latest/user-data/"
    then replied 200 "#!/bin/sh"
    else replied 404 ""

abbrev amazon : Service
amazon = record {
  get = answer_to;
  array_index = λ line. if line == "0=alice" then some "0" else none;
}

keys_served : Serves amazon "http://169.254.169.254/latest/meta-data/public-keys/" keys
unfolding ends_with_slash get_lines pop_return
keys_served = (
  (refl, refl),
  refl,
  refl,
  ("openssh-key", refl, refl),
  (((refl, refl), refl, refl), refl, tt),
  tt,
)

instance_served : Serves amazon "http://169.254.169.254/latest/meta-data/" instance_entries
unfolding ends_with_slash get_lines pop_return
instance_served = (
  ((refl, refl), refl, refl),
  refl,
  ((refl, refl), ((refl, refl), refl, refl, ("0=alice\r\n", refl, refl), keys_served, tt)),
)

entries_listed :
    map pop_return (get_lines "ami-id\nsecurity-credentials/\npublic-keys/")
    ≡ listing instance_entries
unfolding get_lines pop_return
entries_listed = refl

two_deep : depth instance_entries < 3
two_deep = omega arith

is_xen : is_ec2 amazon (some "xenhvm") ≡ true
unfolding is_ec2 starts_with
is_xen = refl

resolve_ec2-Serves_example :
    resolve_ec2 amazon 3 (some "xenhvm")
    ≡ some (
        metadata_adds amazon (fields_of instance_entries end)
        ++ userdata_adds amazon (replied 200 "#!/bin/sh"))
resolve_ec2-Serves_example =
    resolve_ec2-Serves amazon 3 (some "xenhvm") "ami-id\nsecurity-credentials/\npublic-keys/"
      instance_entries is_xen two_deep refl entries_listed instance_served
