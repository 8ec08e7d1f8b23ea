-- ===== src/Values/Sorted.antt =====
-- The order of the keys in a `map`, of lib/src/facts/map_value.cc and of the collection's facts.
use facter.Base.{String, ◌≡◌, true, Option, none, some, Option-cases, inl, inr, arith, eq_iff}
use facter.Base.Text.{str_ltb, str_ltb_trans, str_ltb_total}
use facter.Values.{Value, Fields, end, field, find, assign, erase, emplace, add_field}

-- Every key stands above `k`, and the keys rise.
abbrev pub Above : String → Fields → Type 0
Above k end = Unit
Above k (field j v fs) = (str_ltb k j ≡ true) × Above j fs

abbrev pub IsSorted : Fields → Type 0
IsSorted end = Unit
IsSorted (field k v fs) = Above k fs

Above-trans : (i j : String) (fs : Fields) → str_ltb i j ≡ true → Above j fs → Above i fs
Above-trans i j end h a = tt
Above-trans i j (field k v fs) h a = (str_ltb_trans i j k h a.0, a.1)

Above-assign :
    (i k : String) (v : Value) (fs : Fields)
    → str_ltb i k ≡ true
    → Above i fs
    → Above i (assign k v fs)
unfolding assign
Above-assign i k v end h a = (h, tt)
Above-assign i k v (field j w fs) h a =
    ground (arith, eq_iff j k, str_ltb_total j k, Above-assign j k v fs)

pub assign-IsSorted :
    (k : String) (v : Value) (fs : Fields) → IsSorted fs → IsSorted (assign k v fs)
unfolding assign
assign-IsSorted k v end h = tt
assign-IsSorted k v (field j w fs) h =
    ground (arith, eq_iff j k, str_ltb_total j k, Above-assign j k v fs)

Above-erase : (i k : String) (fs : Fields) → Above i fs → Above i (erase k fs)
unfolding erase
Above-erase i k end a = tt
Above-erase i k (field j v fs) a =
    ground (arith, Above-erase j k fs a.1, Above-erase i k fs, Above-trans i j fs)

pub erase-IsSorted : (k : String) (fs : Fields) → IsSorted fs → IsSorted (erase k fs)
unfolding erase
erase-IsSorted k end h = tt
erase-IsSorted k (field j v fs) h = ground (arith, Above-erase j k fs h)

-- Adding to a map, null or not, keeps its order.
add_field-IsSorted :
    (k : String) (v : Option Value) (fs : Fields) → IsSorted fs → IsSorted (add_field k v fs)
unfolding add_field
add_field-IsSorted k none fs h = h
add_field-IsSorted k (some v) fs h = elim (Option-cases (find k fs)) [
  | inl e ↦ rw (e, emplace) (assign-IsSorted k v fs h)
  | inr (w, e) ↦ rw (e, emplace) h
]
