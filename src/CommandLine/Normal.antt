-- ===== src/CommandLine/Normal.antt =====
-- Queries as they are put into their set: exe/facter.cc.
use Prim.Native.String.{[], ◌∷◌}
use facter.Base.{
  String, Char, ◌≡◌, refl, subst, ap, ◌∙◌, Bool, true, false, ◌&&◌, List, [], ◌∷◌, ◌==◌,
  is_empty_str, Bool-cases, inl, inr, arith, All, eq_iff,
}
use facter.Base.Text.{str_ltb, str_ltb_total}
use facter.CommandLine.{
  is_delimiter, is_trimmed, trim_left, trim_right, unique_from, normalize, emplace_query, gather,
}

-- No delimiter follows a delimiter.
abbrev pub NoDouble : Bool → String → Type 0
NoDouble after [] = Unit
NoDouble after (c ∷ s) = ((after && is_delimiter c) ≡ false) × NoDouble (is_delimiter c) s

-- The text is empty, or its first character is neither a delimiter nor white space.
abbrev pub StartsPlain : String → Type 0
StartsPlain [] = Unit
StartsPlain (c ∷ s) = is_trimmed c ≡ false

-- The text is empty, or its last character is neither.
abbrev pub EndsPlain : String → Type 0
EndsPlain [] = Unit
EndsPlain (c ∷ []) = is_trimmed c ≡ false
EndsPlain (c ∷ d ∷ s) = EndsPlain (d ∷ s)

pub record IsNormal (q : String) : Type 0 where
  pub starts : StartsPlain q
  pub ends : EndsPlain q
  pub single : NoDouble false q

trim_left-StartsPlain : (s : String) → StartsPlain (trim_left s)
unfolding trim_left
trim_left-StartsPlain [] = tt
trim_left-StartsPlain (c ∷ s) = elim (Bool-cases (is_trimmed c)) [
  | inl e ↦ rw e (trim_left-StartsPlain s)
  | inr e ↦ rw e e
]

trim_right-StartsPlain : (s : String) → StartsPlain s → StartsPlain (trim_right s)
unfolding trim_right
trim_right-StartsPlain [] h = tt
trim_right-StartsPlain (c ∷ s) h = elim (Bool-cases (is_empty_str (trim_right s) && is_trimmed c)) [
  | inl e ↦ rw e tt
  | inr e ↦ rw e h
]

EndsPlain-cons :
    (c : Char) (s : String)
    → EndsPlain s
    → (is_empty_str s && is_trimmed c) ≡ false
    → EndsPlain (c ∷ s)
EndsPlain-cons c [] h e = e
EndsPlain-cons c (d ∷ s) h e = h

trim_right-EndsPlain : (s : String) → EndsPlain (trim_right s)
unfolding trim_right
trim_right-EndsPlain [] = tt
trim_right-EndsPlain (c ∷ s) = elim (Bool-cases (is_empty_str (trim_right s) && is_trimmed c)) [
  | inl e ↦ rw e tt
  | inr e ↦ rw e (EndsPlain-cons c (trim_right s) (trim_right-EndsPlain s) e)
]

and-same : (a b : Bool) → (a && b) ≡ true → b ≡ a
and-same a b h = ground (arith, h)

unique_from-NoDouble : (after : Bool) (s : String) → NoDouble after (unique_from after s)
unfolding unique_from
unique_from-NoDouble after [] = tt
unique_from-NoDouble after (c ∷ s) = elim (Bool-cases (after && is_delimiter c)) [
  | inl e ↦ rw e (
      subst (λ b. NoDouble b (unique_from (is_delimiter c) s)) (and-same after (is_delimiter c) e)
        (unique_from-NoDouble (is_delimiter c) s))
  | inr e ↦ rw e (e, unique_from-NoDouble (is_delimiter c) s)
]

unique_from-StartsPlain : (s : String) → StartsPlain s → StartsPlain (unique_from false s)
unfolding unique_from
unique_from-StartsPlain [] h = tt
unique_from-StartsPlain (c ∷ s) h = h

plain-delimiter : (c : Char) → is_trimmed c ≡ false → is_delimiter c ≡ false
plain-delimiter c h = ground (arith, h)

and-false : (a b : Bool) → b ≡ false → (a && b) ≡ false
and-false a b h = ground (arith, h)

and-left : (a b : Bool) → a ≡ false → (a && b) ≡ false
and-left a b h = ground (arith, h)

-- The last character stays.
unique_from-EndsPlain :
    (after : Bool) (c : Char) (s : String)
    → EndsPlain (c ∷ s)
    → EndsPlain (unique_from after (c ∷ s)) × (is_empty_str (unique_from after (c ∷ s)) ≡ false)
unfolding unique_from
unique_from-EndsPlain after c [] h =
    rw (and-false after (is_delimiter c) (plain-delimiter c h)) (h, refl)
unique_from-EndsPlain after c (d ∷ s) h =
    let (rest, filled) = unique_from-EndsPlain (is_delimiter c) d s h in
    elim (Bool-cases (after && is_delimiter c)) [
      | inl e ↦ rw e (rest, filled)
      | inr e ↦ rw e (
        EndsPlain-cons c (unique_from (is_delimiter c) (d ∷ s)) rest
            (and-left (is_empty_str (unique_from (is_delimiter c) (d ∷ s))) (is_trimmed c) filled),
        refl,
      )
    ]

unique-EndsPlain : (s : String) → EndsPlain s → EndsPlain (unique_from false s)
unfolding unique_from
unique-EndsPlain [] h = tt
unique-EndsPlain (c ∷ s) h = (unique_from-EndsPlain false c s h).0

-- What a query is turned into starts and ends with neither a delimiter nor white space, and has no
-- two delimiters in a row.
normalize-IsNormal : (q : String) → IsNormal (normalize q)
unfolding normalize
normalize-IsNormal q = record {
  starts =
      unique_from-StartsPlain (trim_right (trim_left q))
        (trim_right-StartsPlain (trim_left q) (trim_left-StartsPlain q));
  ends = unique-EndsPlain (trim_right (trim_left q)) (trim_right-EndsPlain (trim_left q));
  single = unique_from-NoDouble false (trim_right (trim_left q));
}

trim_left-plain : (s : String) → StartsPlain s → trim_left s ≡ s
unfolding trim_left
trim_left-plain [] h = refl
trim_left-plain (c ∷ s) h = rw h refl

trim_right-cons :
    (c : Char) (s t : String)
    → trim_right s ≡ t
    → is_empty_str t ≡ false
    → trim_right (c ∷ s) ≡ c ∷ t
unfolding trim_right
trim_right-cons c s t e f = rw (trim_right, e, f) refl

trim_right-plain : (s : String) → EndsPlain s → trim_right s ≡ s
unfolding trim_right
trim_right-plain [] h = refl
trim_right-plain (c ∷ []) h = rw h refl
trim_right-plain (c ∷ d ∷ s) h = trim_right-cons c (d ∷ s) (d ∷ s) (trim_right-plain (d ∷ s) h) refl

unique_from-single : (after : Bool) (s : String) → NoDouble after s → unique_from after s ≡ s
unfolding unique_from
unique_from-single after [] h = refl
unique_from-single after (c ∷ s) (e, h) =
    rw e (ap (λ t. c ∷ t) (unique_from-single (is_delimiter c) s h))

normal-normalize : (q : String) → IsNormal q → normalize q ≡ q
unfolding normalize
normal-normalize q n =
    ap (λ s. unique_from false (trim_right s)) (trim_left-plain q n.starts)
    ∙ (ap (unique_from false) (trim_right-plain q n.ends) ∙ unique_from-single false q n.single)

-- Turning it once more changes nothing.
normalize-normalize : (q : String) → normalize (normalize q) ≡ normalize q
normalize-normalize q = normal-normalize (normalize q) (normalize-IsNormal q)

-- The queries rise, so that none is there twice.
abbrev pub Above : String → List String → Type 0
Above q [] = Unit
Above q (p ∷ ps) = (str_ltb q p ≡ true) × Above p ps

abbrev pub Rises : List String → Type 0
Rises [] = Unit
Rises (q ∷ qs) = Above q qs

abbrev pub IsQuery : String → Type 0
IsQuery q = (is_empty_str q ≡ false) × IsNormal q

Above-emplace_query :
    (p q : String) (qs : List String)
    → str_ltb p q ≡ true
    → Above p qs
    → Above p (emplace_query q qs)
unfolding emplace_query
Above-emplace_query p q [] h a = (h, tt)
Above-emplace_query p q (r ∷ qs) h a =
    ground (arith, eq_iff r q, str_ltb_total r q, Above-emplace_query r q qs)

emplace_query-Rises : (q : String) (qs : List String) → Rises qs → Rises (emplace_query q qs)
unfolding emplace_query
emplace_query-Rises q [] r = tt
emplace_query-Rises q (p ∷ qs) r =
    ground (arith, eq_iff p q, str_ltb_total p q, Above-emplace_query p q qs)

emplace_query-All :
    (q : String) (qs : List String) → IsQuery q → All IsQuery qs → All IsQuery (emplace_query q qs)
unfolding emplace_query
emplace_query-All q [] n a = (n, tt)
emplace_query-All q (p ∷ qs) n (m, a) = elim (Bool-cases (p == q)) [
  | inl e ↦ rw e (m, a)
  | inr e ↦ rw e (elim (Bool-cases (str_ltb q p)) [
    | inl f ↦ rw f (n, (m, a))
    | inr f ↦ rw f (m, emplace_query-All q qs n a)
  ])
]

-- The set that the queries are gathered in rises, and holds normal queries only, none empty.
pub gather-Rises :
    (qs queries : List String)
    → Rises queries
    → All IsQuery queries
    → Rises (gather qs queries) × All IsQuery (gather qs queries)
unfolding gather
gather-Rises [] queries r a = (r, a)
gather-Rises (q ∷ qs) queries r a = elim (Bool-cases (is_empty_str (normalize q))) [
  | inl e ↦ rw e (gather-Rises qs queries r a)
  | inr e ↦ rw e (
      gather-Rises qs (emplace_query (normalize q) queries)
        (emplace_query-Rises (normalize q) queries r)
        (emplace_query-All (normalize q) queries (e, normalize-IsNormal q) a))
]
