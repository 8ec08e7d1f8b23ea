-- ===== src/Query.antt =====
-- Queries of facts: `collection::query_value` and `collection::lookup` in
-- lib/src/facts/collection.cc. `stoi` is that of the C++ library, on an `int` of 32 bits.
pub mod Paths
use Prim.Native.String.{[], ◌∷◌}
use facter.Base.{
  ℕ, zero, suc, ◌+◌, ◌-◌, ◌*◌, ◌^◌, String, Char, code, Bool, true, false, not, ◌&&◌, ◌||◌, Option,
  none, some, ◌=?◌, leb, ltb, if◌then◌else◌, push_back, is_empty_str,
}
use facter.Base.Int.{ℤ, pos, negsuc}
use facter.Values.{
  Value, string_value, integer_value, boolean_value, double_value, array_value, map_value, find,
  element_at, no_elements, count_elements,
}
use facter.Collection.{Action, Resolver, Collection, Outcome, returned, ◌>>=◌, get_value}

abbrev pub is_digit : Char → Bool
is_digit c = leb b'0' (code c) && leb (code c) b'9'

abbrev pub is_space : Char → Bool
is_space c = code c =? b' ' || leb 9 (code c) && leb (code c) 13

-- The number that the leading digits spell, on top of `n`.
take_digits : ℕ → String → ℕ
take_digits n [] = n
take_digits n (c ∷ s) =
    let more = take_digits (n * 10 + (code c - b'0')) s in if is_digit c then more else n

-- `none` is the exception `invalid_argument`.
digits : String → Option ℕ
unfolding take_digits
digits [] = none
digits (c ∷ s) = if is_digit c then some (take_digits 0 (c ∷ s)) else none

-- `none` is the exception `out_of_range`.
abbrev signed : Bool → Option ℕ → Option ℤ
signed minus none = none
signed false (some n) = if ltb n (2 ^ 31) then some (pos n) else none
signed true (some zero) = some (pos 0)
signed true (some (suc n)) = if ltb n (2 ^ 31) then some (negsuc n) else none

unfoldable pub stoi : String → Option ℤ
unfolding digits
stoi [] = none
stoi (c ∷ s) =
    let trimmed = stoi s in
    if is_space c
    then trimmed
    else if code c =? b'-'
    then signed true (digits s)
    else if code c =? b'+'
    then signed false (digits s)
    else signed false (digits (c ∷ s))

-- The part of `lookup` that has a value to look into.
unfoldable pub lookup_in : Value → String → Option Value
unfolding stoi find element_at count_elements
lookup_in (map_value h fs) name = find name fs
lookup_in (array_value h xs) name = elim (stoi name) [
  | none ↦ none
  | some index ↦ elim index [
    | negsuc n ↦ none
    | pos n ↦
        if no_elements xs then none else if leb (count_elements xs) n then none else element_at xs n
  ]
]
lookup_in (string_value h s) name = none
lookup_in (integer_value h n) name = none
lookup_in (boolean_value h b) name = none
lookup_in (double_value h d) name = none

module _ (heap : ℕ → Resolver) (resolve : Action → Collection → Outcome Collection) where
  unfoldable pub lookup : Option Value → String → Collection → Outcome (Option Value × Collection)
  unfolding lookup_in
  lookup none name c = get_value heap resolve name c
  lookup (some v) name c = returned (lookup_in v name, c)

  -- The loop over the characters of the query: whether it is inside quotes, the segment so far and
  -- the value so far.
  unfoldable pub query_loop :
      Bool → String → Option Value → String → Collection → Outcome (Option Value × Collection)
  unfolding lookup
  query_loop in_quotes segment current [] c =
      if is_empty_str segment then returned (current, c) else lookup current segment c
  query_loop in_quotes segment current (ch ∷ query) c = elim (code ch =? b'"') [
    | true ↦ query_loop (not in_quotes) segment current query c
    | false ↦ elim (in_quotes || not (code ch =? b'.')) [
      | true ↦ query_loop in_quotes (push_back segment ch) current query c
      | false ↦ lookup current segment c >>= λ (v, c'). elim v [
        | none ↦ returned (none, c')
        | some w ↦ query_loop in_quotes [] (some w) query c'
      ]
    ]
  ]

  unfoldable pub query_value : String → Collection → Outcome (Option Value × Collection)
  unfolding query_loop
  query_value query c = get_value heap resolve query c >>= λ (v, c'). elim v [
    | none ↦ query_loop false [] none query c'
    | some w ↦ returned (some w, c')
  ]
