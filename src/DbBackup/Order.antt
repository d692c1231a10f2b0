-- ===== src/DbBackup/Order.antt =====
-- The order of file names in src/bin/malkuth/db_backup.rs.
use malkuth.Prelude.{
  eqb, eqb_iff, Bool-cases, ℕ_key, string_key, ◌≡◌, refl, ◌↔◌, inl, inr, true, false, [], ◌∷◌,
  arith,
}
use malkuth.LogRing.{Text}
use malkuth.DbBackup.{same_text, is_before}

pub same_text_iff : (s t : Text) → (same_text s t ≡ true) ↔ (s ≡ t)
unfolding same_text
same_text_iff [] [] = (λ h. refl, λ e. refl)
same_text_iff [] (d ∷ t) = (λ h. absurd (cc h), λ e. absurd (cc e))
same_text_iff (c ∷ s) [] = (λ h. absurd (cc h), λ e. absurd (cc e))
same_text_iff (c ∷ s) (d ∷ t) =
    let (there, back) = same_text_iff s t in
    (
      λ h.
          let parts : (eqb c d ≡ true) × (same_text s t ≡ true) = ground (arith, h) in
          let heads : c ≡ d = (eqb_iff c d).0 parts.0 in
          let tails : s ≡ t = there parts.1 in cc (heads, tails),
      λ e.
          let heads : c ≡ d = cc e in
          let tails : s ≡ t = cc e in ground (arith, (eqb_iff c d).1 heads, back tails),
    )

pub not_before_self : (s : Text) → is_before s s ≡ false
unfolding is_before
not_before_self [] = refl
not_before_self (c ∷ s) = ground (arith, not_before_self s)

pub before_trans :
    (s t u : Text) → is_before s t ≡ true → is_before t u ≡ true → is_before s u ≡ true
unfolding is_before
before_trans [] [] u h k = absurd (cc h)
before_trans [] (d ∷ t) [] h k = absurd (cc k)
before_trans [] (d ∷ t) (e ∷ u) h k = refl
before_trans (c ∷ s) [] u h k = absurd (cc h)
before_trans (c ∷ s) (d ∷ t) [] h k = absurd (cc k)
before_trans (c ∷ s) (d ∷ t) (e ∷ u) h k = ground (arith, h, k, before_trans s t u)

pub before_total :
    (s t : Text) → same_text s t ≡ false → is_before s t ≡ false → is_before t s ≡ true
unfolding is_before same_text
before_total [] [] h k = absurd (cc h)
before_total [] (d ∷ t) h k = absurd (cc k)
before_total (c ∷ s) [] h k = refl
before_total (c ∷ s) (d ∷ t) h k = ground (arith, h, k, before_total s t)

pub before_asym : (s t : Text) → is_before s t ≡ true → is_before t s ≡ false
before_asym s t h = elim (Bool-cases (is_before t s)) [
  | inr e ↦ e
  | inl e ↦ absurd (cc (before_trans s t s h e, not_before_self s))
]
