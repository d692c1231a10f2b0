-- ===== src/Mcp/Arguments/Ids.antt =====
-- Which lists of ids `validate_worker_ids` of src/mcp.rs takes.
use malkuth.Prelude.{
  Bool-cases, ℕ_key, string_key, ◌==◌, eq_iff, any, All, ok, String, ◌≡◌, refl, ◌↔◌, inl, inr, Bool,
  false, List, [], ◌∷◌, arith,
}
use malkuth.Mcp.Arguments.{trimmed, is_empty_text, validate_loop, validate_worker_ids}

abbrev named : String → String → Bool
named name id = trimmed id == name

-- No id is blank, and no two are the same once they are trimmed.
abbrev pub Addressable : List String → Type 0
Addressable [] = Unit
Addressable (id ∷ ids) =
    (is_empty_text (trimmed id) ≡ false) × (any (named (trimmed id)) ids ≡ false) × Addressable ids

-- None of the ids is among those seen.
abbrev Fresh : List String → List String → Type 0
Fresh seen ids = All (λ id. any (λ s. s == trimmed id) seen ≡ false) ids

Fresh-cons :
    (name : String) (seen ids : List String)
    → Fresh (name ∷ seen) ids ↔ ((any (named name) ids ≡ false) × Fresh seen ids)
Fresh-cons name seen [] = (λ h. (refl, tt), λ h. tt)
Fresh-cons name seen (id ∷ ids) =
    let ih = Fresh-cons name seen ids in
    let flip = eq_iff name (trimmed id) in
    let flip' = eq_iff (trimmed id) name in
    (
      λ h.
          let (f, rest) = ih.0 h.1 in
          (ground (arith, h.0, f, flip, flip'), (ground (arith, h.0), rest)),
      λ h.
          let none_here : (named name id ≡ false) × (any (named name) ids ≡ false) =
            ground (arith, h.0) in
          (ground (arith, none_here.0, h.1.0, flip, flip'), ih.1 (none_here.1, h.1.1)),
    )

validate_loop-ok :
    (seen ids : List String) → (validate_loop seen ids ≡ ok tt) ↔ (Fresh seen ids × Addressable ids)
unfolding validate_loop
validate_loop-ok seen [] = (λ h. (tt, tt), λ h. refl)
validate_loop-ok seen (id ∷ ids) =
    let name = trimmed id in
    let ih = validate_loop-ok (name ∷ seen) ids in
    let fresh = Fresh-cons name seen ids in
    elim (Bool-cases (is_empty_text name)) [
      | inl e ↦ (λ h. absurd (cc (rw e at h)), λ h. absurd (cc (h.1.0, e)))
      | inr e ↦ elim (Bool-cases (any (λ s. s == name) seen)) [
        | inl u ↦ (λ h. absurd (cc (rw u at (rw e at h))), λ h. absurd (cc (h.0.0, u)))
        | inr u ↦ (
          λ h.
              let (f, a) = ih.0 (rw u at (rw e at h)) in
              let (n, f') = fresh.0 f in ((u, f'), (e, n, a)),
          λ h. rw e (rw u (ih.1 (fresh.1 (h.1.1, h.0.1), h.1.2))),
        )
      ]
    ]

All-Fresh_nil : (ids : List String) → Fresh [] ids
All-Fresh_nil [] = tt
All-Fresh_nil (id ∷ ids) = (refl, All-Fresh_nil ids)

-- The workers of a supervision are taken exactly if they can be told apart by their ids: none is blank, and
-- no two are the same up to the white space around them.
pub validate_worker_ids-Addressable :
    (ids : List String) → (validate_worker_ids ids ≡ ok tt) ↔ Addressable ids
unfolding validate_worker_ids
validate_worker_ids-Addressable ids =
    let both = validate_loop-ok [] ids in (λ h. (both.0 h).1, λ a. both.1 (All-Fresh_nil ids, a))
