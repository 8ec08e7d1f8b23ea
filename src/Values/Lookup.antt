-- ===== src/Values/Lookup.antt =====
-- Looking up a key of a `map` after it has been written to.
use facter.Base.{
  String, ◌≡◌, refl, Option, none, some, arith, ◌==◌, eq_iff, Option-cases, inl, inr, if◌then◌else◌,
}
use facter.Values.{Value, Fields, end, field, find, assign, erase, emplace, add_field}

pub find-assign :
    (k j : String) (v : Value) (fs : Fields)
    → find j (assign k v fs) ≡ (if k == j then some v else find j fs)
unfolding find assign
find-assign k j v end = refl
find-assign k j v (field i w fs) =
    ground (arith, eq_iff k j, eq_iff i k, eq_iff i j, find-assign k j v fs)

pub find-erase :
    (k j : String) (fs : Fields) → find j (erase k fs) ≡ (if k == j then none else find j fs)
unfolding find erase
find-erase k j end = ground arith
find-erase k j (field i v fs) =
    ground (arith, eq_iff k j, eq_iff i k, eq_iff i j, find-erase k j fs)

abbrev pub or_else : Option Value → Option Value → Option Value
or_else (some v) w = some v
or_else none w = w

-- After an addition to a map a key has the entry that was there, or else the value that was added
-- under it, if it was not null; the other keys keep theirs.
pub find-add_field :
    (k j : String) (v : Option Value) (fs : Fields)
    → find j (add_field k v fs) ≡ (if k == j then or_else (find k fs) v else find j fs)
unfolding add_field
find-add_field k j none fs = ground (arith, eq_iff k j, Option-cases (find k fs))
find-add_field k j (some v) fs = elim (Option-cases (find k fs)) [
  | inl e ↦ rw (e, emplace) (find-assign k j v fs)
  | inr (w, e) ↦ rw (e, emplace) (ground (arith, eq_iff k j))
]
