-- ===== src/Linux/ReleaseInfo.antt =====
-- `key_value_file` of lib/src/facts/linux/os_linux.cc. The map is the list of its entries, the
-- latest first.
pub mod Values
use facter.Base.{
  ℕ, String, Bool, true, false, not, ◌&&◌, Option, none, some, List, [], ◌∷◌, ◌=?◌, ◌==◌, any,
  is_empty, length, if◌then◌else◌,
}
use facter.Linux.{Machine, lines_of}

abbrev pub Info : Type 0
Info = List (String × String)

-- `map::find`
unfoldable pub find_info : String → Info → Option String
find_info key [] = none
find_info key ((k, v) ∷ info) = let rest = find_info key info in if k == key then some v else rest

-- `set::count`
abbrev pub is_item : String → List String → Bool
is_item key items = any (λ i. i == key) items

-- `map::insert` leaves an entry that is there.
abbrev pub insert_info : String → String → Option String → Info → Info
insert_info key value (some old) info = info
insert_info key value none info = (key, value) ∷ info

-- The key and the value that a line gives.
abbrev pub pair_of : Option (List String) → Option (String × String)
pair_of (some (key ∷ value ∷ rest)) = some (key, value)
pair_of _ = none

abbrev pub line_regex : String
line_regex = "(?m)^(\\w+)=[\"']?(.+?)[\"']?$"

abbrev pub add_pair : List String → Option (String × String) → Info → Info
unfolding find_info
add_pair items none info = info
add_pair items (some (key, value)) info =
    if is_item key items then insert_info key value (find_info key info) info else info

module _ (m : Machine) where
  abbrev pub line_pair : String → Option (String × String)
  line_pair line = pair_of (m.search line line_regex)

  -- The loop ends where every item has a value.
  unfoldable pub read_info : List String → List String → Info → Info
  unfolding find_info
  read_info items [] info = info
  read_info items (line ∷ lines) info =
      let rest = read_info items lines (add_pair items (line_pair line) info) in
      let stop = add_pair items (line_pair line) info in
      if length items =? length stop then stop else rest

  unfoldable pub key_value_file : String → List String → Info
  unfolding read_info
  key_value_file file items =
      if not (is_empty items) && m.is_regular_file file
      then read_info items (lines_of m file) []
      else []
