-- ===== src/Prelude/Text.antt =====
-- What the source uses of texts beyond equality: white space and `str::trim`.
use Prim.Native.Nat.{ℕ}
use Prim.Native.Char.{code}
use Prim.Native.String.{String}
use mathlib.Core.Bool.{Bool, true, false, ◌&&◌, ◌||◌}
use mathlib.Core.List.{List, [], ◌∷◌, reverse}
use malkuth.Prelude.Tests.{leb, eqb, if◌then◌else◌}

-- The code points of a text.
abbrev pub codes : String → List ℕ
codes String.[] = []
codes (String.◌∷◌ c s) = code c ∷ codes s

-- `char::is_whitespace`: the code points with the Unicode property White_Space.
unfoldable pub is_ws : ℕ → Bool
is_ws c =
    (leb 0x09 c && leb c 0x0d)
    || eqb c 0x20
    || eqb c 0x85
    || eqb c 0xa0
    || eqb c 0x1680
    || (leb 0x2000 c && leb c 0x200a)
    || eqb c 0x2028
    || eqb c 0x2029
    || eqb c 0x202f
    || eqb c 0x205f
    || eqb c 0x3000

unfoldable pub trim_start : List ℕ → List ℕ
unfolding is_ws
trim_start [] = []
trim_start (c ∷ cs) = if is_ws c then trim_start cs else c ∷ cs

unfoldable pub trim_end : List ℕ → List ℕ
unfolding trim_start
trim_end cs = reverse (trim_start (reverse cs))

unfoldable pub trim : List ℕ → List ℕ
unfolding trim_start trim_end
trim cs = trim_end (trim_start cs)

abbrev pub is_empty {ℓ} : {A : Type ℓ} → List A → Bool
is_empty [] = true
is_empty (_ ∷ _) = false

-- `s.trim().is_empty()`
unfoldable pub is_blank : String → Bool
unfolding trim
is_blank s = is_empty (trim (codes s))
