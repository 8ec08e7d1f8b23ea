-- ===== src/Linux/ReleaseInfo/Values.antt =====
-- What `key_value_file` of lib/src/facts/linux/os_linux.cc finds.
use facter.Base.{
  ℕ, suc, ◌+◌, String, ◌≡◌, refl, ◌∙◌, ap, sym, Bool, true, false, not, Option, none, some, List,
  [], ◌∷◌, ◌=?◌, ◌==◌, eq_iff, keep, length, if◌then◌else◌, arith, Bool-cases, Option-cases, inl,
  inr,
}
use facter.Linux.{Machine, lines_of}
use facter.Linux.ReleaseInfo.{
  Info, find_info, is_item, add_pair, line_pair, read_info, key_value_file,
}

-- Without repetition
abbrev pub AreDistinct : List String → Type 0
AreDistinct [] = Unit
AreDistinct (x ∷ xs) = (is_item x xs ≡ false) × AreDistinct xs

abbrev has_info : String → Info → Bool
has_info key info = elim (find_info key info) [ none ↦ false | some v ↦ true ]

abbrev missing : List String → Info → ℕ
missing items info = length (keep (λ i. not (has_info i info)) items)

-- The value that the first line with the key gives.
abbrev pub value_if : String → Option (String × String) → Option String → Option String
value_if key none rest = rest
value_if key (some (k, v)) rest = if k == key then some v else rest

module _ (m : Machine) where
  abbrev pub first_of : String → List String → Option String
  first_of key [] = none
  first_of key (line ∷ lines) = value_if key (line_pair m line) (first_of key lines)

missing-other :
    (items : List String) (k v : String) (info : Info)
    → is_item k items ≡ false
    → missing items ((k, v) ∷ info) ≡ missing items info
unfolding find_info
missing-other [] k v info h = refl
missing-other (i ∷ items) k v info h =
    ground (arith, h, eq_iff k i, eq_iff i k, missing-other items k v info)

missing-add :
    (items : List String) (k v : String) (info : Info)
    → AreDistinct items
    → is_item k items ≡ true
    → find_info k info ≡ none
    → missing items info ≡ suc (missing items ((k, v) ∷ info))
unfolding find_info
missing-add [] k v info s h n = absurd (ground (arith, h))
missing-add (i ∷ items) k v info s h n = ground (
  arith,
  h,
  n,
  s,
  eq_iff k i,
  eq_iff i k,
  missing-other items k v info,
  missing-add items k v info,
)

missing-nothing : (items : List String) → missing items [] ≡ length items
unfolding find_info
missing-nothing [] = refl
missing-nothing (i ∷ items) = ap suc (missing-nothing items)

-- Where nothing is missing, an item has a value.
missing-zero :
    (k : String) (items : List String) (info : Info)
    → missing items info ≡ 0
    → is_item k items ≡ true
    → has_info k info ≡ true
missing-zero k [] info z h = absurd (ground (arith, h))
missing-zero k (i ∷ items) info z h = ground (arith, z, h, eq_iff i k, missing-zero k items info)

-- Each value is that of an item.
abbrev IsPartial : List String → Info → Type 0
IsPartial items info = missing items info + length info ≡ length items

add_pair-IsPartial :
    (items : List String) (p : Option (String × String)) (info : Info)
    → AreDistinct items
    → IsPartial items info
    → IsPartial items (add_pair items p info)
unfolding find_info
add_pair-IsPartial items none info s h = h
add_pair-IsPartial items (some (k, v)) info s h = elim (Bool-cases (is_item k items)) [
  | inr e ↦ rw e h
  | inl e ↦ elim (Option-cases (find_info k info)) [
    | inl n ↦ rw (e, n) (omega (arith, h, missing-add items k v info s e n))
    | inr (old, n) ↦ rw (e, n) h
  ]
]

abbrev or_first : Option String → Option String → Option String
or_first (some v) rest = some v
or_first none rest = rest

find_info-add_pair :
    (key : String) (items : List String) (p : Option (String × String)) (info : Info)
    → is_item key items ≡ true
    → find_info key (add_pair items p info) ≡ or_first (find_info key info) (value_if key p none)
unfolding find_info
find_info-add_pair key items none info h = ground (arith, Option-cases (find_info key info))
find_info-add_pair key items (some (k, v)) info h =
    ground
      (arith, h, eq_iff k key, Option-cases (find_info k info), Option-cases (find_info key info))

find_info-others :
    (key : String) (items : List String) (p : Option (String × String)) (info : Info)
    → is_item key items ≡ false
    → find_info key (add_pair items p info) ≡ find_info key info
unfolding find_info
find_info-others key items none info h = refl
find_info-others key items (some (k, v)) info h =
    ground (arith, h, eq_iff k key, Option-cases (find_info k info))

is_there : Option String → Bool
is_there none = false
is_there (some v) = true

has_info-is_there : (key : String) (info : Info) → has_info key info ≡ is_there (find_info key info)
unfolding is_there
has_info-is_there key info = ground (arith, Option-cases (find_info key info))

value_if-settled :
    (key : String) (p : Option (String × String)) (o rest : Option String)
    → is_there (or_first o (value_if key p none)) ≡ true
    → or_first o (value_if key p none) ≡ or_first o (value_if key p rest)
unfolding is_there
value_if-settled key none none rest h = absurd (ground (arith, h))
value_if-settled key none (some v) rest h = refl
value_if-settled key (some (k, v)) (some w) rest h = refl
value_if-settled key (some (k, v)) none rest h = ground (arith, h)

value_if-then :
    (key : String) (p : Option (String × String)) (o rest : Option String)
    → or_first (or_first o (value_if key p none)) rest ≡ or_first o (value_if key p rest)
value_if-then key p (some w) rest = refl
value_if-then key none none rest = refl
value_if-then key (some (k, v)) none rest = ground arith

module _ (m : Machine) where
  find_info-read_info :
      (key : String) (items lines : List String) (info : Info)
      → AreDistinct items
      → IsPartial items info
      → is_item key items ≡ true
      → find_info key (read_info m items lines info)
        ≡ or_first (find_info key info) (first_of m key lines)
  unfolding read_info
  find_info-read_info key items [] info s h k = ground (arith, Option-cases (find_info key info))
  find_info-read_info key items (line ∷ lines) info s h k =
      elim (Bool-cases (length items =? length stop)) [
        | inl e ↦
            rw e
              (found ∙ value_if-settled key p (find_info key info) _ (settled (ground (arith, e))))
        | inr e ↦ rw e (
            find_info-read_info key items lines stop s (add_pair-IsPartial items p info s h) k
            ∙ (ap (λ o. or_first o (first_of m key lines)) found
                ∙ value_if-then key p (find_info key info) (first_of m key lines)))
      ]
    where
      p : Option (String × String)
      p = line_pair m line

      stop : Info
      stop = add_pair items (line_pair m line) info

      found :
          find_info key stop ≡ or_first (find_info key info) (value_if key (line_pair m line) none)
      found = find_info-add_pair key items (line_pair m line) info k

      settled :
          length items ≡ length stop
          → is_there (or_first (find_info key info) (value_if key (line_pair m line) none)) ≡ true
      settled e =
          ap is_there (sym found)
          ∙ (sym (has_info-is_there key stop)
              ∙ missing-zero key items stop (omega (arith, e, add_pair-IsPartial items p info s h))
                  k)

  find_info-read_others :
      (key : String) (items lines : List String) (info : Info)
      → is_item key items ≡ false
      → find_info key (read_info m items lines info) ≡ find_info key info
  unfolding read_info
  find_info-read_others key items [] info k = refl
  find_info-read_others key items (line ∷ lines) info k =
      elim (Bool-cases (length items =? length (add_pair items (line_pair m line) info))) [
        | inl e ↦ rw e (find_info-others key items (line_pair m line) info k)
        | inr e ↦ rw e (
            find_info-read_others key items lines (add_pair items (line_pair m line) info) k
            ∙ find_info-others key items (line_pair m line) info k)
      ]

  -- A file that is there gives an item the value of the first line that has it for a key, though the
  -- reading ends as soon as every item has a value; it gives nothing for other keys.
  pub find_info-key_value_file :
      (file key : String) (items : List String)
      → AreDistinct items
      → m.is_regular_file file ≡ true
      → find_info key (key_value_file m file items)
        ≡ (if is_item key items then first_of m key (lines_of m file) else none)
  unfolding key_value_file find_info
  find_info-key_value_file file key [] s f = refl
  find_info-key_value_file file key (i ∷ items) s f = elim (Bool-cases (is_item key (i ∷ items))) [
    | inl k ↦
        rw (f, k)
          (find_info-read_info key (i ∷ items) (lines_of m file) [] s
            (omega (arith, missing-nothing (i ∷ items))) k)
    | inr k ↦ rw (f, k) (find_info-read_others key (i ∷ items) (lines_of m file) [] k)
  ]
