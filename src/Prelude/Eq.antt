-- ===== src/Prelude/Eq.antt =====
-- The equality test of keys, as an interface with its law, for numbers and for texts.
use Prim.Native.Nat.{ℕ}
use Prim.Native.String.{String}
use mathlib.Core.Path.{◌≡◌, refl}
use mathlib.Core.Logic.{◌↔◌, ◌≢◌}
use mathlib.Core.Bool.{Bool, true, false}
use native.Mathlib.Omega.{arith}
use text.Mathlib.Text.{◌==◌ as same_text}
use text.Mathlib.TextEquality.{eq_iff as same_text_iff}
use malkuth.Prelude.Tests.{eqb, eqb_iff}

-- `Eq + Hash` of the source's keys: a test that decides equality.
pub record Key {ℓ} (K : Type ℓ) : Type ℓ where
  pub test : K → K → Bool
  pub decides : (x y : K) → (test x y ≡ true) ↔ (x ≡ y)

instance abbrev pub string_key : Key String
string_key = record { decides = same_text_iff; test = same_text }

instance abbrev pub ℕ_key : Key ℕ
ℕ_key = record { decides = eqb_iff; test = eqb }

module _ {ℓ} {K : Type ℓ} ⦃key : Key K⦄ where
  infix 50 ◌==◌
  abbrev pub ◌==◌ : K → K → Bool
  x == y = key.test x y

  pub eq_iff : (x y : K) → ((x == y) ≡ true) ↔ (x ≡ y)
  eq_iff = key.decides

  pub eq_refl : (x : K) → (x == x) ≡ true
  eq_refl x = (key.decides x x).1 refl

  pub ne→beq : (x y : K) → x ≢ y → (x == y) ≡ false
  ne→beq x y h = ground (arith, key.decides x y)
