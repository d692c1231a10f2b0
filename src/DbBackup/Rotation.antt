-- ===== src/DbBackup/Rotation.antt =====
-- The directory after `rotate` of src/bin/malkuth/db_backup.rs.
use malkuth.Prelude.{
  ltb, leb, if◌then◌else◌, ltb→le, Bool-cases, Option-cases, ℕ_key, string_key, length, take,
  retain, any, count_by, ℕ, ◌-◌, ◌≡◌, refl, sym, ap, subst, ◌∙◌, inl, inr, Bool, true, false, not,
  ◌&&◌, ◌||◌, Option, none, some, List, [], ◌∷◌, arith,
}
use malkuth.LogRing.{Text}
use malkuth.DbBackup.{
  same_text, is_before, sort, stale, group_of, group_files, is_rotated_out, rotate,
}
use malkuth.DbBackup.Order.{same_text_iff}
use malkuth.DbBackup.Stale.{
  among, Distinct, newer, newer-lt, take-newer, any-sort, count_by-sort, length-sort,
  sort-Ascending,
}

-- Of a group of files those are removed that have `keep` newer ones at least.
stale-newer :
    (keep : ℕ) (f : Text) (fs : List Text)
    → Distinct fs
    → among f fs ≡ true
    → among f (stale keep fs) ≡ leb keep (newer f fs)
unfolding stale
stale-newer keep f fs d h = elim (Bool-cases (ltb keep (length fs))) [
  | inl e ↦
      let there : among f (sort fs) ≡ true = any-sort (λ h. same_text h f) fs ∙ h in
      let lem = take-newer keep f (sort fs) (sort-Ascending fs d) there in
      rw e (
        ap (λ n. among f (take (n - keep) (sort fs))) (sym (length-sort fs))
        ∙ lem
        ∙ ap (leb keep) (count_by-sort (λ h. is_before f h) fs))
  | inr e ↦
      let few : leb keep (newer f fs) ≡ false =
        ground (arith, newer-lt f fs h, ltb→le keep (length fs) e) in
      rw e (sym few)
]

abbrev pub is_group : Text → Option Text → Bool
is_group g none = false
is_group g (some h) = same_text h g

-- The dumps of group `g`.
abbrev in_group : Text → Text → Bool
in_group g f = is_group g (group_of f)

group_files-cons :
    (g f : Text) (fs : List Text)
    → group_files g (f ∷ fs) ≡ (if in_group g f then f ∷ group_files g fs else group_files g fs)
unfolding group_files
group_files-cons g f fs = elim (Option-cases (group_of f)) [
  | inl e ↦ rw (e, group_files) refl
  | inr (h, e) ↦ rw (e, group_files) refl
]

any-group_files :
    (p : Text → Bool) (g : Text) (fs : List Text)
    → any p (group_files g fs) ≡ any (λ h. in_group g h && p h) fs
unfolding group_files
any-group_files p g [] = refl
any-group_files p g (f ∷ fs) =
    ap (any p) (group_files-cons g f fs) ∙ ground (arith, any-group_files p g fs)

-- How many dumps of the group of `f` are newer.
abbrev pub newer_of_group : Text → Text → List Text → ℕ
newer_of_group g f fs = count_by (λ h. in_group g h && is_before f h) fs

newer-group_files :
    (f g : Text) (fs : List Text) → newer f (group_files g fs) ≡ newer_of_group g f fs
unfolding group_files
newer-group_files f g [] = refl
newer-group_files f g (h ∷ fs) =
    ap (newer f) (group_files-cons g h fs) ∙ ground (arith, newer-group_files f g fs)

any-none :
    (p q : Text → Bool) (fs : List Text) → any p fs ≡ false → any (λ h. q h && p h) fs ≡ false
any-none p q [] h = refl
any-none p q (f ∷ fs) h = ground (arith, h, any-none p q fs)

group_files-Distinct : (g : Text) (fs : List Text) → Distinct fs → Distinct (group_files g fs)
group_files-Distinct g [] d = unfold group_files in tt
group_files-Distinct g (f ∷ fs) d =
    let rest = group_files-Distinct g fs d.1 in
    let alone : among f (group_files g fs) ≡ false =
      any-group_files (λ h. same_text h f) g fs
      ∙ any-none (λ h. same_text h f) (in_group g) fs d.0 in
    subst Distinct (sym (group_files-cons g f fs))
      (elim (Bool-cases (in_group g f)) [ inl e ↦ rw e (alone, rest) | inr e ↦ rw e rest ])

among-group_files :
    (f g : Text) (fs : List Text)
    → in_group g f ≡ true
    → among f fs ≡ true
    → among f (group_files g fs) ≡ true
among-group_files f g [] e h = absurd (cc h)
among-group_files f g (x ∷ fs) e h =
    ap (among f) (group_files-cons g x fs) ∙ elim (Bool-cases (same_text x f)) [
      | inl u ↦
          let same : x ≡ f = (same_text_iff x f).0 u in
          let grouped : in_group g x ≡ true = ap (in_group g) same ∙ e in
          rw grouped (ground (arith, u))
      | inr u ↦ let rest = among-group_files f g fs e (rw u at h) in ground (arith, u, rest)
    ]

among-retain :
    (f : Text) (p : Text → Bool) (fs : List Text) → among f fs ≡ true → among f (retain p fs) ≡ p f
among-retain f p [] h = absurd (cc h)
among-retain f p (x ∷ fs) h = elim (Bool-cases (same_text x f)) [
  | inl u ↦
      let same : x ≡ f = (same_text_iff x f).0 u in
      let p_same : p x ≡ p f = ap p same in
      elim (Bool-cases (p x)) [
        | inl e ↦ rw e (ground (arith, u, e, p_same))
        | inr e ↦ rw e (still_not f x fs same e)
      ]
  | inr u ↦
      let rest = among-retain f p fs (rw u at h) in
      elim (Bool-cases (p x)) [ inl e ↦ rw e (ground (arith, u, rest)) | inr e ↦ rw e rest ]
]
  where
    still_not : (f x : Text) (fs : List Text) → x ≡ f → p x ≡ false → among f (retain p fs) ≡ p f
    still_not f x [] same e = sym (sym (ap p same) ∙ e)
    still_not f x (y ∷ fs) same e = elim (Bool-cases (same_text y f)) [
      | inl v ↦
          let y_is : y ≡ f = (same_text_iff y f).0 v in
          let not_kept : p y ≡ false = ap p (y_is ∙ sym same) ∙ e in
          rw not_kept (still_not f x fs same e)
      | inr v ↦
          let rest = still_not f x fs same e in
          elim (Bool-cases (p y)) [ inl w ↦ rw w (ground (arith, v, rest)) | inr w ↦ rw w rest ]
    ]

-- What stays of a file in the directory: everything that is no dump, and of each group of dumps those with
-- fewer than `keep` newer ones.
abbrev pub stays : ℕ → List Text → Text → Option Text → Bool
stays keep dir f none = true
stays keep dir f (some g) = ltb (newer_of_group g f dir) keep

-- A file of the directory is still there after the rotation exactly if it is no dump, or fewer than `keep`
-- dumps of its group come after it in the order of the file names, or the system does not let it be
-- removed.
pub rotate-stays :
    (keep : ℕ) (removable : Text → Bool) (dir : List Text) (f : Text)
    → Distinct dir
    → among f dir ≡ true
    → among f (rotate keep removable dir) ≡ (stays keep dir f (group_of f) || not (removable f))
unfolding rotate is_rotated_out
rotate-stays keep removable dir f d h =
    among-retain f (λ x. not (is_rotated_out keep dir x && removable x)) dir h
    ∙ elim (Option-cases (group_of f)) [
      | inl e ↦ rw (e, is_rotated_out) refl
      | inr (g, e) ↦
          let mine : in_group g f ≡ true = rw e ((same_text_iff g g).1 refl) in
          let out =
            stale-newer keep f (group_files g dir) (group_files-Distinct g dir d)
              (among-group_files f g dir mine h)
            ∙ ap (leb keep) (newer-group_files f g dir) in
          rw (e, is_rotated_out) (ground (arith, out))
    ]
