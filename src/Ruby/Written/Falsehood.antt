-- ===== src/Ruby/Written/Falsehood.antt =====
-- False in the JSON of Ruby values: lib/src/ruby/ruby_value.cc.
use facter.Base.{true, ◌≡◌, refl}
use facter.External.Json.Document.{
  Json, json_bool, json_array, json_object, Items, no_items, item, Members, no_members, member,
}
use facter.Ruby.Written.{
  Object, Objects, Pairs, true_object, false_object, string, symbol, fixnum, float, array, hash,
  other, no_objects, object, no_pairs, pair, object_json, objects_json, pairs_json,
}

-- Every truth value in the tree is true.
abbrev mutual
  pub AllTrue : Json → Type 0
  AllTrue (json_bool b) = b ≡ true
  AllTrue (json_array xs) = ItemsTrue xs
  AllTrue (json_object ms) = MembersTrue ms
  AllTrue _ = Unit

  pub ItemsTrue : Items → Type 0
  ItemsTrue no_items = Unit
  ItemsTrue (item j xs) = AllTrue j × ItemsTrue xs

  pub MembersTrue : Members → Type 0
  MembersTrue no_members = Unit
  MembersTrue (member k j ms) = AllTrue j × MembersTrue ms

mutual
  unfolding object_json

  all_true : (v : Object) → AllTrue (object_json v)
  all_true true_object = refl
  all_true false_object = refl
  all_true (string s) = tt
  all_true (symbol s) = tt
  all_true (fixnum n) = tt
  all_true (float d) = tt
  all_true (array xs) = objects_json-ItemsTrue xs
  all_true (hash ps) = pairs_json-MembersTrue ps
  all_true other = tt

  objects_json-ItemsTrue : (xs : Objects) → ItemsTrue (objects_json xs)
  objects_json-ItemsTrue no_objects = tt
  objects_json-ItemsTrue (object x xs) = (all_true x, objects_json-ItemsTrue xs)

  pairs_json-MembersTrue : (ps : Pairs) → MembersTrue (pairs_json ps)
  pairs_json-MembersTrue no_pairs = tt
  pairs_json-MembersTrue (pair k v ps) = (all_true v, pairs_json-MembersTrue ps)

-- No JSON that is made of a Ruby value has false in it: the value false becomes true.
pub object_json-AllTrue : (v : Object) → AllTrue (object_json v)
object_json-AllTrue v = all_true v
