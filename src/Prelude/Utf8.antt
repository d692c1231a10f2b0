-- ===== src/Prelude/Utf8.antt =====
-- Texts as code points, with their UTF-8 length: the byte positions at which `str` can be cut, and
-- the operations that panic elsewhere.
use Prim.Native.Nat.{ℕ, zero, suc, ◌+◌, ◌-◌, ◌≤◌}
use mathlib.Core.Path.{◌≡◌, refl}
use mathlib.Core.Bool.{Bool, true, false}
use mathlib.Core.List.{List, [], ◌∷◌}
use mathlib.Core.Option.{Option, none, some}
use native.Mathlib.Omega.{arith}
use malkuth.Prelude.Tests.{ltb, leb, eqb, if◌then◌else◌}

-- `char::len_utf8`
abbrev pub len_utf8 : ℕ → ℕ
len_utf8 c = if ltb c 0x80 then 1 else if ltb c 0x800 then 2 else if ltb c 0x10000 then 3 else 4

-- `str::len`
unfoldable pub byte_len : List ℕ → ℕ
byte_len [] = 0
byte_len (c ∷ cs) = len_utf8 c + byte_len cs

-- `str::is_char_boundary`
unfoldable pub is_char_boundary : List ℕ → ℕ → Bool
is_char_boundary [] i = eqb i 0
is_char_boundary (c ∷ cs) i =
    if eqb i 0
    then true
    else if ltb i (len_utf8 c)
    then false
    else is_char_boundary cs (i - len_utf8 c)

-- The characters that end at or before byte `i`: `&s[..i]` at a boundary.
unfoldable pub prefix : List ℕ → ℕ → List ℕ
prefix [] i = []
prefix (c ∷ cs) i = if ltb i (len_utf8 c) then [] else c ∷ prefix cs (i - len_utf8 c)

-- `String::truncate`: `none` is its panic.
unfoldable pub truncate : List ℕ → ℕ → Option (List ℕ)
unfolding byte_len is_char_boundary prefix
truncate s n =
    if leb n (byte_len s) then if is_char_boundary s n then some (prefix s n) else none else some s

-- `while cut > 0 && !s.is_char_boundary(cut) { cut -= 1; }`
unfoldable pub floor_boundary : List ℕ → ℕ → ℕ
unfolding is_char_boundary
floor_boundary s zero = zero
floor_boundary s (suc cut) = if is_char_boundary s (suc cut) then suc cut else floor_boundary s cut

is_char_boundary-zero : (s : List ℕ) → is_char_boundary s 0 ≡ true
unfolding is_char_boundary
is_char_boundary-zero [] = refl
is_char_boundary-zero (c ∷ cs) = refl

pub floor_boundary-is_char_boundary :
    (s : List ℕ) (cut : ℕ) → is_char_boundary s (floor_boundary s cut) ≡ true
unfolding floor_boundary
floor_boundary-is_char_boundary s zero = is_char_boundary-zero s
floor_boundary-is_char_boundary s (suc cut) = ground (arith, floor_boundary-is_char_boundary s cut)

pub floor_boundary-le : (s : List ℕ) (cut : ℕ) → floor_boundary s cut ≤ cut
unfolding floor_boundary
floor_boundary-le s zero = omega arith
floor_boundary-le s (suc cut) = ground (arith, floor_boundary-le s cut)

pub byte_len-prefix : (s : List ℕ) (i : ℕ) → byte_len (prefix s i) ≤ i
unfolding byte_len prefix
byte_len-prefix [] i = omega arith
byte_len-prefix (c ∷ cs) i = ground (arith, byte_len-prefix cs (i - len_utf8 c))
