-- ===== src/Resolvers/Ssh.antt =====
-- lib/src/facts/resolvers/ssh_resolver.cc
use facter.Base.{String, List, [], ◌∷◌, ◌++◌, if◌then◌else◌, is_empty_str, ◌<>◌, true, false, some}
use facter.Values.{Fields, end, add_field, map_value, string_value}
use facter.Collection.{Resolver}
use facter.Resolvers.{Adds, publish, text_facts, map_facts, text_field, map_field}

pub record SshKey : Type 0 where
  pub key : String
  pub sha1 : String
  pub sha256 : String

pub record SshData : Type 0 where
  pub dsa : SshKey
  pub rsa : SshKey
  pub ecdsa : SshKey
  pub ed25519 : SshKey

abbrev pub ssh_names : List String
ssh_names =
    "ssh" ∷ "sshdsakey" ∷ "sshrsakey" ∷ "sshecdsakey" ∷ "sshed25519key" ∷ "sshfp_dsa" ∷ "sshfp_rsa"
    ∷ "sshfp_ecdsa" ∷ "sshfp_ed25519" ∷ []

unfoldable pub fingerprint : SshKey → String
fingerprint k =
    if is_empty_str k.sha256
    then k.sha1
    else if is_empty_str k.sha1
    then k.sha256
    else k.sha1 <> "\n" <> k.sha256

abbrev key_fields : SshKey → Fields
unfolding text_field map_field
key_fields k =
    map_field "fingerprints" (text_field "sha256" k.sha256 (text_field "sha1" k.sha1 end))
      (text_field "key" k.key end)

-- `add_key`: what it adds to the collection, and to the structured fact.
unfoldable pub key_adds : SshKey → String → String → Adds
unfolding text_facts fingerprint
key_adds k key_fact_name fingerprint_fact_name =
    if is_empty_str k.key
    then []
    else (key_fact_name, string_value true k.key) ∷ text_facts fingerprint_fact_name (fingerprint k)

unfoldable pub key_onto : SshKey → String → Fields → Fields
unfolding add_field text_field map_field
key_onto k name m =
    if is_empty_str k.key then m else add_field name (some (map_value false (key_fields k))) m

unfoldable pub ssh_adds : SshData → Adds
unfolding key_adds key_onto map_facts
ssh_adds d =
    key_adds d.dsa "sshdsakey" "sshfp_dsa"
    ++ (key_adds d.rsa "sshrsakey" "sshfp_rsa"
        ++ (key_adds d.ecdsa "sshecdsakey" "sshfp_ecdsa"
            ++ (key_adds d.ed25519 "sshed25519key" "sshfp_ed25519"
                ++ map_facts "ssh" false (
                    key_onto d.ed25519 "ed25519" (
                      key_onto d.ecdsa "ecdsa"
                        (key_onto d.rsa "rsa" (key_onto d.dsa "dsa" end)))))))

unfoldable pub ssh_resolver : SshData → Resolver
unfolding publish ssh_adds
ssh_resolver d = record {
  name = "ssh";
  names = ssh_names;
  regexes = [];
  body = publish (ssh_adds d);
}
