-- ===== src/DbBackup/Stale.antt =====
-- Which files `rotate` of src/bin/malkuth/db_backup.rs removes.
use malkuth.Prelude.{
  leb, Bool-cases, ℕ_key, string_key, length, take, any, count_by, All, ℕ, suc, ◌-◌, ◌≤◌, ◌<◌, ◌≡◌,
  refl, sym, ap, subst, ◌∙◌, inl, inr, Bool, true, false, ◌||◌, List, [], ◌∷◌, arith,
}
use malkuth.LogRing.{Text}
use malkuth.DbBackup.{same_text, is_before, insert_file, sort}
use malkuth.DbBackup.Order.{same_text_iff, not_before_self, before_trans, before_total, before_asym}

abbrev pub among : Text → List Text → Bool
among f fs = any (λ h. same_text h f) fs

-- No file name stands twice in the list.
abbrev pub Distinct : List Text → Type 0
Distinct [] = Unit
Distinct (f ∷ fs) = (among f fs ≡ false) × Distinct fs

-- How many files of the list are newer by their names.
abbrev pub newer : Text → List Text → ℕ
newer f fs = count_by (λ h. is_before f h) fs

abbrev pub Ascending : List Text → Type 0
Ascending [] = Unit
Ascending (f ∷ fs) = All (λ h. is_before f h ≡ true) fs × Ascending fs

any-insert_file :
    (p : Text → Bool) (f : Text) (fs : List Text) → any p (insert_file f fs) ≡ (p f || any p fs)
unfolding insert_file
any-insert_file p f [] = refl
any-insert_file p f (g ∷ fs) = ground (arith, any-insert_file p f fs)

count_by-insert_file :
    (p : Text → Bool) (f : Text) (fs : List Text)
    → count_by p (insert_file f fs) ≡ count_by p (f ∷ fs)
unfolding insert_file
count_by-insert_file p f [] = refl
count_by-insert_file p f (g ∷ fs) = ground (arith, count_by-insert_file p f fs)

length-insert_file : (f : Text) (fs : List Text) → length (insert_file f fs) ≡ suc (length fs)
unfolding insert_file
length-insert_file f [] = refl
length-insert_file f (g ∷ fs) = ground (arith, length-insert_file f fs)

pub any-sort : (p : Text → Bool) (fs : List Text) → any p (sort fs) ≡ any p fs
unfolding sort
any-sort p [] = refl
any-sort p (f ∷ fs) = any-insert_file p f (sort fs) ∙ ap (λ b. p f || b) (any-sort p fs)

pub count_by-sort : (p : Text → Bool) (fs : List Text) → count_by p (sort fs) ≡ count_by p fs
unfolding sort
count_by-sort p [] = refl
count_by-sort p (f ∷ fs) = count_by-insert_file p f (sort fs) ∙ ground (arith, count_by-sort p fs)

pub length-sort : (fs : List Text) → length (sort fs) ≡ length fs
unfolding sort
length-sort [] = refl
length-sort (f ∷ fs) = length-insert_file f (sort fs) ∙ ap suc (length-sort fs)

All-insert_file :
    (P : Text → Type 0) (f : Text) (fs : List Text) → P f → All P fs → All P (insert_file f fs)
unfolding insert_file
All-insert_file P f [] h a = (h, tt)
All-insert_file P f (g ∷ fs) h a = elim (Bool-cases (is_before f g)) [
  | inl e ↦ rw e (h, a)
  | inr e ↦ rw e (a.0, All-insert_file P f fs h a.1)
]

All-before :
    (f g : Text) (fs : List Text)
    → is_before f g ≡ true
    → All (λ h. is_before g h ≡ true) fs
    → All (λ h. is_before f h ≡ true) fs
All-before f g [] e a = tt
All-before f g (h ∷ fs) e a = (before_trans f g h e a.0, All-before f g fs e a.1)

insert_file-Ascending :
    (f : Text) (fs : List Text) → among f fs ≡ false → Ascending fs → Ascending (insert_file f fs)
unfolding insert_file
insert_file-Ascending f [] n a = (tt, tt)
insert_file-Ascending f (g ∷ fs) n a = elim (Bool-cases (is_before f g)) [
  | inl e ↦ rw e ((e, All-before f g fs e a.0), a)
  | inr e ↦
      let parts : (same_text g f ≡ false) × (among f fs ≡ false) = ground (arith, n) in
      let other : same_text f g ≡ false =
        ground (arith, parts.0, same_text_iff f g, same_text_iff g f) in
      rw e (
        All-insert_file (λ h. is_before g h ≡ true) f fs (before_total f g other e) a.0,
        insert_file-Ascending f fs parts.1 a.1,
      )
]

pub sort-Ascending : (fs : List Text) → Distinct fs → Ascending (sort fs)
unfolding sort
sort-Ascending [] d = tt
sort-Ascending (f ∷ fs) d =
    insert_file-Ascending f (sort fs) (any-sort (λ h. same_text h f) fs ∙ d.0)
      (sort-Ascending fs d.1)

newer-All :
    (f : Text) (fs : List Text) → All (λ h. is_before f h ≡ true) fs → newer f fs ≡ length fs
newer-All f [] a = refl
newer-All f (h ∷ fs) a = ground (arith, a.0, newer-All f fs a.1)

pub newer-le : (f : Text) (fs : List Text) → newer f fs ≤ length fs
newer-le f [] = omega arith
newer-le f (h ∷ fs) = ground (arith, newer-le f fs)

-- A file is not newer than itself.
pub newer-lt : (f : Text) (fs : List Text) → among f fs ≡ true → newer f fs < length fs
newer-lt f [] h = absurd (cc h)
newer-lt f (x ∷ fs) h = elim (Bool-cases (same_text x f)) [
  | inl e ↦
      let same : x ≡ f = (same_text_iff x f).0 e in
      let me : is_before f x ≡ false = ap (is_before f) same ∙ not_before_self f in
      ground (arith, me, newer-le f fs)
  | inr e ↦ let rest = newer-lt f fs (rw e at h) in ground (arith, rest)
]

before_among :
    (x f : Text) (fs : List Text)
    → All (λ h. is_before x h ≡ true) fs
    → among f fs ≡ true
    → is_before x f ≡ true
before_among x f [] a h = absurd (cc h)
before_among x f (g ∷ fs) a h = elim (Bool-cases (same_text g f)) [
  | inl e ↦ let same : g ≡ f = (same_text_iff g f).0 e in subst (λ y. is_before x y ≡ true) same a.0
  | inr e ↦ before_among x f fs a.1 (rw e at h)
]

-- Of a list in ascending order all but the last `keep` are those with `keep` newer ones at least.
pub take-newer :
    (keep : ℕ) (f : Text) (fs : List Text)
    → Ascending fs
    → among f fs ≡ true
    → among f (take (length fs - keep) fs) ≡ leb keep (newer f fs)
take-newer keep f [] a h = absurd (cc h)
take-newer keep f (x ∷ fs) a h = elim (Bool-cases (leb keep (length fs))) [
  | inr over ↦
      let none_left : suc (length fs) - keep ≡ 0 = ground (arith, over) in
      let few : leb keep (newer f (x ∷ fs)) ≡ false = elim (Bool-cases (same_text x f)) [
        | inl e ↦
            let same : x ≡ f = (same_text_iff x f).0 e in
            let me : is_before f x ≡ false = ap (is_before f) same ∙ not_before_self f in
            ground (arith, over, me, newer-le f fs)
        | inr e ↦
            let later : is_before x f ≡ true = before_among x f fs a.0 (rw e at h) in
            let not_me : is_before f x ≡ false = before_asym x f later in
            ground (arith, over, not_me, newer-le f fs)
      ] in
      ap (λ n. among f (take n (x ∷ fs))) none_left ∙ sym few
  | inl within ↦
      let some_left : suc (length fs) - keep ≡ suc (length fs - keep) = ground (arith, within) in
      elim (Bool-cases (same_text x f)) [
        | inl e ↦
            let same : x ≡ f = (same_text_iff x f).0 e in
            let me : is_before f x ≡ false = ap (is_before f) same ∙ not_before_self f in
            let all_newer : newer f fs ≡ length fs =
              newer-All f fs (subst (λ y. All (λ h. is_before y h ≡ true) fs) same a.0) in
            ap (λ n. among f (take n (x ∷ fs))) some_left ∙ ground (arith, e, me, all_newer, within)
        | inr e ↦
            let here : among f fs ≡ true = rw e at h in
            let later : is_before x f ≡ true = before_among x f fs a.0 here in
            let not_me : is_before f x ≡ false = before_asym x f later in
            let rest = take-newer keep f fs a.1 here in
            ap (λ n. among f (take n (x ∷ fs))) some_left ∙ ground (arith, e, not_me, rest)
      ]
]
