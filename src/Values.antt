-- ===== src/Values.antt =====
-- The values of facts: lib/inc/facter/facts/value.hpp, scalar_value.hpp, array_value.hpp and
-- map_value.hpp with lib/src/facts/array_value.cc and map_value.cc. `Fields` is the
-- `map<string, unique_ptr<value>>` of `map_value::_elements` and of `collection::_facts`, in the
-- order in which it is iterated. A `unique_ptr<value>` that may be null is an `Option Value`.
pub mod Lookup
pub mod Sorted
use facter.Base.{ℕ, zero, suc, String, Bool, false, true, Option, none, some, ◌==◌, if◌then◌else◌}
use facter.Base.Int.{ℤ}
use facter.Base.Text.{str_ltb}

-- Each constructor's first field is the hidden flag. The bits of a double stand for it.
mutual
  pub data Value : Type 0 where
    string_value : Bool → String → Value
    integer_value : Bool → ℤ → Value
    boolean_value : Bool → Bool → Value
    double_value : Bool → ℕ → Value
    array_value : Bool → Elements → Value
    map_value : Bool → Fields → Value

  pub data Elements : Type 0 where
    nil : Elements
    cons : Value → Elements → Elements

  pub data Fields : Type 0 where
    end : Fields
    field : String → Value → Fields → Fields

unfoldable pub hidden : Value → Bool
hidden (string_value h s) = h
hidden (integer_value h n) = h
hidden (boolean_value h b) = h
hidden (double_value h d) = h
hidden (array_value h xs) = h
hidden (map_value h fs) = h

-- `array_value::add`: a null is not added.
unfoldable pub add_element : Option Value → Elements → Elements
add_element none xs = xs
add_element (some v) nil = cons v nil
add_element (some v) (cons x xs) = cons x (add_element (some v) xs)

unfoldable pub count_elements : Elements → ℕ
count_elements nil = 0
count_elements (cons x xs) = suc (count_elements xs)

-- `array_value::operator[]`
unfoldable pub element_at : Elements → ℕ → Option Value
element_at nil i = none
element_at (cons x xs) zero = some x
element_at (cons x xs) (suc i) = element_at xs i

-- `map::find`, and `map_value::operator[]`
unfoldable pub find : String → Fields → Option Value
find k end = none
find k (field j v fs) = if j == k then some v else find k fs

-- `map[k] = v`
unfoldable pub assign : String → Value → Fields → Fields
assign k v end = field k v end
assign k v (field j w fs) =
    let rest = assign k v fs in
    if j == k
    then field k v fs
    else if str_ltb k j
    then field k v (field j w fs)
    else field j w rest

-- `map::erase`
unfoldable pub erase : String → Fields → Fields
erase k end = end
erase k (field j v fs) = let rest = erase k fs in if j == k then rest else field j v rest

-- `map::emplace` leaves an entry that is there.
unfoldable pub emplace : String → Value → Fields → Fields
unfolding find assign
emplace k v fs = elim (find k fs) [ none ↦ assign k v fs | some w ↦ fs ]

-- `map_value::add`: a null is not added.
unfoldable pub add_field : String → Option Value → Fields → Fields
unfolding emplace
add_field k none fs = fs
add_field k (some v) fs = emplace k v fs

unfoldable pub count_fields : Fields → ℕ
count_fields end = 0
count_fields (field k v fs) = suc (count_fields fs)

abbrev pub no_fields : Fields → Bool
no_fields end = true
no_fields (field k v fs) = false

abbrev pub no_elements : Elements → Bool
no_elements nil = true
no_elements (cons v xs) = false
