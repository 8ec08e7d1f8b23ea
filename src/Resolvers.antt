-- ===== src/Resolvers.antt =====
-- The built-in resolvers of lib/src/facts/resolvers: what each adds to the collection, in order,
-- given the data that the platform collected. `text_facts`, `text_field` and the like are the tests
-- `!empty()` that the resolvers repeat.
pub mod Dmi
pub mod Networking
pub mod Uptime
pub mod Ssh
pub mod Declared
pub mod Both
pub mod Processors
pub mod Disk
pub mod Filesystem
pub mod Zone
pub mod Profiler
pub mod Identity
pub mod Kernel
pub mod Tools
pub mod Beginnings
pub mod Memory
pub mod Gce
pub mod Ec2
pub mod Sizes
pub mod Primary
pub mod Publish
pub mod System
use facter.Base.{
  String, Bool, true, false, not, ◌||◌, Option, none, some, List, [], ◌∷◌, ◌++◌, any, ◌==◌,
  if◌then◌else◌, is_empty_str,
}
use facter.Values.{Value, string_value, map_value, Fields, end, add_field, no_fields}
use facter.Collection.{Action, done, add_fact, Resolver}

-- The calls of `collection::add`.
abbrev pub Adds : Type 0
Adds = List (String × Value)

unfoldable pub publish : Adds → Action
publish [] = done
publish ((name, v) ∷ adds) = add_fact name (some v) (publish adds)

-- A hidden fact for a text that is not empty.
unfoldable pub text_facts : String → String → Adds
text_facts name s = if is_empty_str s then [] else (name, string_value true s) ∷ []

unfoldable pub map_facts : String → Bool → Fields → Adds
map_facts name is_hidden m = if no_fields m then [] else (name, map_value is_hidden m) ∷ []

unfoldable pub text_field : String → String → Fields → Fields
unfolding add_field
text_field key s m = if is_empty_str s then m else add_field key (some (string_value false s)) m

unfoldable pub map_field : String → Fields → Fields → Fields
unfolding add_field
map_field key inner m =
    if no_fields inner then m else add_field key (some (map_value false inner)) m

-- `re_search` for `^prefix`
unfoldable pub starts_with : String → String → Bool
starts_with String.[] s = true
starts_with (String.◌∷◌ a p) String.[] = false
starts_with (String.◌∷◌ a p) (String.◌∷◌ b s) =
    let rest = starts_with p s in
    if String.◌∷◌ a String.[] == String.◌∷◌ b String.[] then rest else false
