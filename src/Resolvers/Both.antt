-- ===== src/Resolvers/Both.antt =====
-- What the resolvers repeat: a hidden fact and a field of the structured one for the same text.
use facter.Base.{String, Bool, true, false, some, List, [], ◌∷◌, ◌++◌, if◌then◌else◌, is_empty_str}
use facter.Values.{string_value, boolean_value, map_value, Fields, end, add_field}
use facter.Resolvers.{Adds, map_field}

-- The facts that were added, and the map that is being filled.
abbrev pub Both : Type 0
Both = Adds × Fields

-- A text that is not empty: a hidden fact, and a field of the map.
unfoldable pub both : String → String → String → Both → Both
unfolding add_field
both fact key s (adds, m) =
    if is_empty_str s
    then (adds, m)
    else (adds ++ (fact, string_value true s) ∷ [], add_field key (some (string_value false s)) m)

unfoldable pub both_truth : String → String → Bool → Both → Both
unfolding add_field
both_truth fact key b (adds, m) =
    (adds ++ (fact, boolean_value true b) ∷ [], add_field key (some (boolean_value false b)) m)

unfoldable pub only_field : String → String → Both → Both
unfolding add_field
only_field key s (adds, m) =
    if is_empty_str s then (adds, m) else (adds, add_field key (some (string_value false s)) m)

-- A map of its own, put under a key of the outer one: if it is not empty, or always.
unfoldable pub nest : String → (Both → Both) → Both → Both
unfolding map_field
nest key fill (adds, m) = let (adds', inner) = fill (adds, end) in (adds', map_field key inner m)

unfoldable pub nest_always : String → (Both → Both) → Both → Both
unfolding add_field
nest_always key fill (adds, m) =
    let (adds', inner) = fill (adds, end) in (adds', add_field key (some (map_value false inner)) m)

abbrev pub unless_empty : String → (Both → Both) → Both → Both
unless_empty s fill b = if is_empty_str s then b else fill b

-- The same for one text after the other, each with the name of its fact and its key.
abbrev pub Entry : Type 0
Entry = String × String × String

unfoldable pub both_all : List Entry → Both → Both
unfolding both
both_all [] b = b
both_all ((fact, key, s) ∷ entries) b = both_all entries (both fact key s b)
