-- ===== src/Prelude/Maps.antt =====
-- A `HashMap` as an association list with at most one entry per key: `get`, `insert`, `remove`, the
-- write through `get_mut`, and their laws in the form of a test on the keys.
use mathlib.Core.Path.{◌≡◌, refl}
use mathlib.Core.List.{List, [], ◌∷◌}
use mathlib.Core.Option.{Option, none, some}
use native.Mathlib.Omega.{arith}
use malkuth.Prelude.Tests.{if◌then◌else◌}
use malkuth.Prelude.Eq.{Key, ◌==◌, eq_refl}

abbrev pub Dict {ℓ κ} : Type ℓ → Type κ → Type (ℓ ⊔ κ)
Dict K V = List (K × V)

module _ {ℓ κ} {K : Type ℓ} {V : Type κ} ⦃key : Key K⦄ where
  unfoldable pub get : K → Dict K V → Option V
  get k [] = none
  get k ((i, w) ∷ rest) = if i == k then some w else get k rest

  unfoldable pub insert : K → V → Dict K V → Dict K V
  insert k v [] = (k, v) ∷ []
  insert k v ((i, w) ∷ rest) = if i == k then (i, v) ∷ rest else (i, w) ∷ insert k v rest

  unfoldable pub remove : K → Dict K V → Dict K V
  remove k [] = []
  remove k ((i, w) ∷ rest) = if i == k then remove k rest else (i, w) ∷ remove k rest

  -- `if let Some(v) = m.get_mut(k) { *v = f(v) }`
  unfoldable pub adjust : K → (V → V) → Dict K V → Dict K V
  adjust k f [] = []
  adjust k f ((i, w) ∷ rest) = if i == k then (i, f w) ∷ rest else (i, w) ∷ adjust k f rest

  pub get-remove :
      (k j : K) (m : Dict K V) → get j (remove k m) ≡ (if k == j then none else get j m)
  unfolding get remove
  get-remove k j [] = ground arith
  get-remove k j ((i, w) ∷ rest) =
      ground (arith, get-remove k j rest, key.decides i j, key.decides i k, key.decides k j)

  pub get-insert :
      (k j : K) (v : V) (m : Dict K V) → get j (insert k v m) ≡ (if k == j then some v else get j m)
  unfolding get insert
  get-insert k j v [] = refl
  get-insert k j v ((i, w) ∷ rest) =
      ground (arith, get-insert k j v rest, key.decides i j, key.decides i k, key.decides k j)

  pub get-adjust :
      (k j : K) (f : V → V) (m : Dict K V)
      → get j (adjust k f m)
        ≡ (if k == j then elim (get j m) [ none ↦ none | some v ↦ some (f v) ] else get j m)
  unfolding get adjust
  get-adjust k j f [] = ground arith
  get-adjust k j f ((i, w) ∷ rest) =
      ground (arith, get-adjust k j f rest, key.decides i j, key.decides i k, key.decides k j)

  pub get-insert_self : (k : K) (v : V) (m : Dict K V) → get k (insert k v m) ≡ some v
  get-insert_self k v m = simp (get-insert, eq_refl)
