-- ===== src/Resolvers/Zone.antt =====
-- lib/src/facts/resolvers/zone_resolver.cc, with the data of
-- lib/inc/internal/facts/resolvers/zone_resolver.hpp.
use facter.Base.{String, Bool, true, false, some, List, [], ◌∷◌, ◌++◌, if◌then◌else◌, ◌<>◌}
use facter.Base.Int.{pos}
use facter.Values.{Fields, end, integer_value, map_value, add_field, count_fields, no_fields}
use facter.Collection.{Resolver}
use facter.Resolvers.{Adds, publish, text_facts, text_field}
use facter.Resolvers.Both.{Both, both}

pub record Zone : Type 0 where
  pub id : String
  pub name : String
  pub status : String
  pub path : String
  pub uuid : String
  pub brand : String
  pub ip_type : String

abbrev pub zone_fact : Zone → String → String
zone_fact z what = "zone_" <> (z.name <> ("_" <> what))

-- The name has no field of its own: it is the key of the zone.
unfoldable pub zone_name_facts : Zone → Both → Both
unfolding text_facts
zone_name_facts z (adds, m) = (adds ++ text_facts (zone_fact z "name") z.name, m)

unfoldable pub zone_both : Zone → Adds → Both
unfolding both zone_name_facts
zone_both z adds = both (zone_fact z "iptype") "ip_type" z.ip_type (
    both (zone_fact z "brand") "brand" z.brand (
      both (zone_fact z "uuid") "uuid" z.uuid (
        both (zone_fact z "path") "path" z.path (
          both (zone_fact z "status") "status" z.status
            (zone_name_facts z (both (zone_fact z "id") "id" z.id (adds, end)))))))

unfoldable pub zones_both : List Zone → Both → Both
unfolding zone_both add_field
zones_both [] b = b
zones_both (z ∷ zs) (adds, zones) =
    let (adds', m) = zone_both z adds in
    zones_both zs (adds', add_field z.name (some (map_value false m)) zones)

unfoldable pub solaris_facts : String → Fields → Adds
unfolding add_field text_field
solaris_facts current zones =
    if no_fields zones
    then []
    else (
      "solaris_zones",
      map_value false
          (add_field "zones" (some (map_value false zones)) (text_field "current" current end)),
    )
      ∷ []

unfoldable pub zone_adds : List Zone → String → Adds
unfolding zones_both solaris_facts text_facts count_fields
zone_adds zs current =
    let (adds, zones) = zones_both zs ([], end) in
    adds
    ++ ("zones", integer_value true (pos (count_fields zones)))
      ∷ (solaris_facts current zones ++ text_facts "zonename" current)

-- The regular expressions are `^zone_.+_` with the seven endings.
unfoldable pub zone_resolver : List (String → Bool) → List Zone → String → Resolver
unfolding publish zone_adds
zone_resolver patterns zs current = record {
  name = "Solaris zone";
  names = "zones" ∷ "zonename" ∷ "solaris_zones" ∷ [];
  regexes = patterns;
  body = publish (zone_adds zs current);
}
