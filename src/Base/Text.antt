-- ===== src/Base/Text.antt =====
-- The order of `std::string`, which is that of the bytes and so that of the code points.
use Prim.Native.Nat.{compare, Ordering}
use Prim.Native.Char.{code}
use Prim.Native.String.{String, [], ◌∷◌}
use mathlib.Core.Path.{◌≡◌, refl, ap₂}
use mathlib.Core.Bool.{Bool, true, false}
use native.Mathlib.Omega.{arith}
use text.Mathlib.TextEquality.{Char-path}

abbrev below : Ordering → Bool → Bool
below Ordering.lt b = true
below Ordering.eq b = b
below Ordering.gt b = false

unfoldable pub str_ltb : String → String → Bool
str_ltb [] [] = false
str_ltb [] (d ∷ t) = true
str_ltb (c ∷ s) [] = false
str_ltb (c ∷ s) (d ∷ t) = below (compare (code c) (code d)) (str_ltb s t)

-- What a `char const*` spells: up to the first null.
unfoldable pub c_str : String → String
c_str [] = []
c_str (c ∷ s) = let rest = c_str s in elim (compare (code c) 0) [ Ordering.eq ↦ [] | _ ↦ c ∷ rest ]

pub str_ltb_irrefl : (s : String) → str_ltb s s ≡ false
unfolding str_ltb
str_ltb_irrefl [] = refl
str_ltb_irrefl (c ∷ s) = ground (arith, str_ltb_irrefl s)

pub str_ltb_trans : (s t u : String) → str_ltb s t ≡ true → str_ltb t u ≡ true → str_ltb s u ≡ true
unfolding str_ltb
str_ltb_trans [] [] u h k = ground arith
str_ltb_trans [] (d ∷ t) [] h k = ground arith
str_ltb_trans [] (d ∷ t) (e ∷ u) h k = refl
str_ltb_trans (c ∷ s) [] u h k = ground arith
str_ltb_trans (c ∷ s) (d ∷ t) [] h k = ground arith
str_ltb_trans (c ∷ s) (d ∷ t) (e ∷ u) h k = ground (arith, str_ltb_trans s t u)

pub str_ltb_total : (s t : String) → str_ltb s t ≡ false → str_ltb t s ≡ false → s ≡ t
unfolding str_ltb
str_ltb_total [] [] h k = refl
str_ltb_total [] (d ∷ t) h k = ground arith
str_ltb_total (c ∷ s) [] h k = ground arith
str_ltb_total (c ∷ s) (d ∷ t) h k =
    ap₂ ◌∷◌ (Char-path c d (ground arith)) (str_ltb_total s t (ground arith) (ground arith))
