-- ===== src/Base/Lower.antt =====
-- `boost::to_lower` and `boost::iends_with`, in the classic locale: ASCII letters alone have a case.
use Prim.Native.String.{String, [], ◌∷◌}
use Prim.Native.Char.{Char, code}
use mathlib.Core.Bool.{Bool, ◌||◌}
use text.Mathlib.Text.{◌==◌}
use facter.Base.{◌=?◌, if◌then◌else◌}

-- The character of the second text that stands where the first has `c`, or `c` itself.
translate : String → String → Char → Char
translate [] to c = c
translate (u ∷ from) [] c = c
translate (u ∷ from) (l ∷ to) c =
    let rest = translate from to c in if code u =? code c then l else rest

unfoldable pub lower_char : Char → Char
unfolding translate
lower_char = translate "ABCDEFGHIJKLMNOPQRSTUVWXYZ" "abcdefghijklmnopqrstuvwxyz"

unfoldable pub to_lower : String → String
unfolding lower_char
to_lower [] = []
to_lower (c ∷ s) = lower_char c ∷ to_lower s

unfoldable pub ends_with : String → String → Bool
ends_with [] t = [] == t
ends_with (c ∷ s) t = (c ∷ s) == t || ends_with s t

unfoldable pub iends_with : String → String → Bool
unfolding ends_with to_lower
iends_with s t = ends_with (to_lower s) (to_lower t)
