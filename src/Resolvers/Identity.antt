-- ===== src/Resolvers/Identity.antt =====
-- lib/src/facts/resolvers/identity_resolver.cc, with the data of
-- lib/inc/internal/facts/resolvers/identity_resolver.hpp.
use facter.Base.{String, false, Option, none, some, [], ◌∷◌, ◌++◌}
use facter.Base.Int.{ℤ}
use facter.Values.{end, integer_value, add_field}
use facter.Collection.{Resolver}
use facter.Resolvers.{Adds, publish, map_facts}
use facter.Resolvers.Both.{Both, both}

pub record Identity : Type 0 where
  pub user_id : Option ℤ
  pub user_name : String
  pub group_id : Option ℤ
  pub group_name : String

-- A field for a number that is there.
unfoldable pub number_field : String → Option ℤ → Both → Both
unfolding add_field
number_field key none b = b
number_field key (some n) (adds, m) = (adds, add_field key (some (integer_value false n)) m)

unfoldable pub identity_both : Identity → Both
unfolding both number_field
identity_both d = number_field "gid" d.group_id (
    both "gid" "group" d.group_name
      (number_field "uid" d.user_id (both "id" "user" d.user_name ([], end))))

unfoldable pub identity_adds : Identity → Adds
unfolding identity_both map_facts
identity_adds d = let (adds, fields) = identity_both d in adds ++ map_facts "identity" false fields

unfoldable pub identity_resolver : Identity → Resolver
unfolding publish identity_adds
identity_resolver d = record {
  name = "id";
  names = "id" ∷ "gid" ∷ "identity" ∷ [];
  regexes = [];
  body = publish (identity_adds d);
}
