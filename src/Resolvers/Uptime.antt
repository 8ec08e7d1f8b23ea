-- ===== src/Resolvers/Uptime.antt =====
-- lib/src/facts/resolvers/uptime_resolver.cc. `boost::format` is a parameter: `days` is `%d days`,
-- and `clock` is `%d:%02d hours`.
use facter.Base.{ℕ, ◌/◌, ◌%◌, ◌*◌, String, List, [], ◌∷◌, ◌=?◌, if◌then◌else◌, true, false, some}
use facter.Base.Int.{ℤ, pos, negsuc}
use facter.Values.{Fields, end, add_field, string_value, integer_value, map_value}
use facter.Collection.{Resolver}
use facter.Resolvers.{Adds, publish}

pub record Format : Type 0 where
  pub clock : ℕ → ℕ → String
  pub days : ℕ → String

abbrev pub uptime_names : List String
uptime_names = "system_uptime" ∷ "uptime" ∷ "uptime_days" ∷ "uptime_hours" ∷ "uptime_seconds" ∷ []

unfoldable pub describe : Format → ℕ → String
describe format seconds =
    let minutes = seconds / 60 % 60 in
    let hours = seconds / (60 * 60) in
    let days = seconds / (60 * 60 * 24) in
    if days =? 0
    then format.clock hours minutes
    else if days =? 1
    then "1 day"
    else format.days days

abbrev uptime_fields : Format → ℕ → Fields
unfolding add_field describe
uptime_fields format seconds =
    add_field "uptime" (some (string_value false (describe format seconds))) (
      add_field "days" (some (integer_value false (pos (seconds / (60 * 60 * 24))))) (
        add_field "hours" (some (integer_value false (pos (seconds / (60 * 60)))))
          (add_field "seconds" (some (integer_value false (pos seconds))) end)))

unfoldable pub uptime_adds : Format → ℤ → Adds
unfolding add_field describe
uptime_adds format (negsuc n) = []
uptime_adds format (pos seconds) =
    ("uptime_seconds", integer_value true (pos seconds))
    ∷ ("uptime_hours", integer_value true (pos (seconds / (60 * 60))))
    ∷ ("uptime_days", integer_value true (pos (seconds / (60 * 60 * 24))))
    ∷ ("uptime", string_value true (describe format seconds))
    ∷ ("system_uptime", map_value false (uptime_fields format seconds))
    ∷ []

unfoldable pub uptime_resolver : Format → ℤ → Resolver
unfolding publish uptime_adds
uptime_resolver format seconds = record {
  name = "uptime";
  names = uptime_names;
  regexes = [];
  body = publish (uptime_adds format seconds);
}
