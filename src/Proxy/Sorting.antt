-- ===== src/Proxy/Sorting.antt =====
-- The sort of the ring's points and the binary search in them: what they commute with.
use malkuth.Prelude.{
  ltb, leb, le→ltb, ltb→le, leb→le, le→leb, Bool-cases, ℕ_key, string_key, length, take, drop,
  retain, All, All-retain, ℕ, ◌≤◌, ◌≡◌, refl, sym, ap, ◌∙◌, inl, inr, Bool, true, false, not, List,
  [], ◌∷◌, ◌++◌, arith,
}
use malkuth.Proxy.{insert_point, sort_by_hash, partition_point}
use malkuth.Proxy.Rotation.{rotate}

-- Sorted: every point is at most each later one.
abbrev pub Sorted {ℓ} : {A : Type ℓ} → List (ℕ × A) → Type 0
Sorted [] = Unit
Sorted (p ∷ rest) = All (λ q. p.0 ≤ q.0) rest × Sorted rest

-- The points from `h` on, and then those before it: the clockwise order from `h`.
abbrev pub clockwise {ℓ} : {A : Type ℓ} → ℕ → List (ℕ × A) → List (ℕ × A)
clockwise h l = retain (λ q. not (ltb q.0 h)) l ++ retain (λ q. ltb q.0 h) l

module _ {ℓ} {A : Type ℓ} where
  All-le_trans : (h k : ℕ) (l : List (ℕ × A)) → h ≤ k → All (λ q. k ≤ q.0) l → All (λ q. h ≤ q.0) l
  All-le_trans h k [] e a = tt
  All-le_trans h k (q ∷ l) e a = (omega (arith, a.0), All-le_trans h k l e a.1)

  pub All-insert_point {κ} :
      (P : ℕ × A → Type κ) (h : ℕ) (a : A) (l : List (ℕ × A))
      → P (h, a)
      → All P l
      → All P (insert_point h a l)
  unfolding insert_point
  All-insert_point P h a [] p q = (p, tt)
  All-insert_point P h a ((k, b) ∷ l) p q = elim (Bool-cases (leb h k)) [
    | inl e ↦ rw e (p, q)
    | inr e ↦ rw e (q.0, All-insert_point P h a l p q.1)
  ]

  insert_point-Sorted : (h : ℕ) (a : A) (l : List (ℕ × A)) → Sorted l → Sorted (insert_point h a l)
  unfolding insert_point
  insert_point-Sorted h a [] s = (tt, tt)
  insert_point-Sorted h a ((k, b) ∷ l) s = elim (Bool-cases (leb h k)) [
    | inl e ↦ let le : h ≤ k = leb→le h k e in rw e ((le, All-le_trans h k l le s.0), s)
    | inr e ↦
        let le : k ≤ h = ground (arith, e) in
        rw e (All-insert_point (λ q. k ≤ q.0) h a l le s.0, insert_point-Sorted h a l s.1)
  ]

  pub sort_by_hash-Sorted : (l : List (ℕ × A)) → Sorted (sort_by_hash l)
  unfolding sort_by_hash
  sort_by_hash-Sorted [] = tt
  sort_by_hash-Sorted ((h, a) ∷ l) =
      insert_point-Sorted h a (sort_by_hash l) (sort_by_hash-Sorted l)

  insert_point-first :
      (h : ℕ) (a : A) (l : List (ℕ × A)) → All (λ q. h ≤ q.0) l → insert_point h a l ≡ (h, a) ∷ l
  unfolding insert_point
  insert_point-first h a [] s = refl
  insert_point-first h a ((k, b) ∷ l) s = rw (le→leb h k s.0) refl

  -- `retain` of a sorted insertion.
  retain-insert_point-true :
      (p : ℕ × A → Bool) (h : ℕ) (a : A) (l : List (ℕ × A))
      → Sorted l
      → p (h, a) ≡ true
      → retain p (insert_point h a l) ≡ insert_point h a (retain p l)
  unfolding insert_point
  retain-insert_point-true p h a [] s e = rw e refl
  retain-insert_point-true p h a ((k, b) ∷ l) s e = elim (Bool-cases (leb h k)) [
    | inl u ↦
        let le : h ≤ k = leb→le h k u in
        let all = All-retain (λ q. h ≤ q.0) p ((k, b) ∷ l) (le, All-le_trans h k l le s.0) in
        rw u (rw e (sym (insert_point-first h a (retain p ((k, b) ∷ l)) all)))
    | inr u ↦
        let ih = retain-insert_point-true p h a l s.1 e in
        elim (Bool-cases (p (k, b))) [
          | inl v ↦ rw u (rw v (rw u (ap (λ r. (k, b) ∷ r) ih)))
          | inr v ↦ rw u (rw v ih)
        ]
  ]

  retain-insert_point-false :
      (p : ℕ × A → Bool) (h : ℕ) (a : A) (l : List (ℕ × A))
      → p (h, a) ≡ false
      → retain p (insert_point h a l) ≡ retain p l
  unfolding insert_point
  retain-insert_point-false p h a [] e = rw e refl
  retain-insert_point-false p h a ((k, b) ∷ l) e = elim (Bool-cases (leb h k)) [
    | inl u ↦ rw u (rw e refl)
    | inr u ↦
        let ih = retain-insert_point-false p h a l e in
        elim (Bool-cases (p (k, b))) [
          | inl v ↦ rw u (rw v (ap (λ r. (k, b) ∷ r) ih))
          | inr v ↦ rw u (rw v ih)
        ]
  ]

  pub sort_by_hash-retain :
      (p : ℕ × A → Bool) (l : List (ℕ × A)) → retain p (sort_by_hash l) ≡ sort_by_hash (retain p l)
  unfolding sort_by_hash
  sort_by_hash-retain p [] = refl
  sort_by_hash-retain p ((h, a) ∷ l) = elim (Bool-cases (p (h, a))) [
    | inl e ↦ rw e (
        retain-insert_point-true p h a (sort_by_hash l) (sort_by_hash-Sorted l) e
        ∙ ap (insert_point h a) (sort_by_hash-retain p l))
    | inr e ↦ rw e (retain-insert_point-false p h a (sort_by_hash l) e ∙ sort_by_hash-retain p l)
  ]

  pub All-sort_by_hash {κ} :
      (P : ℕ × A → Type κ) (l : List (ℕ × A)) → All P l → All P (sort_by_hash l)
  unfolding sort_by_hash
  All-sort_by_hash P [] a = tt
  All-sort_by_hash P ((h, b) ∷ l) a =
      All-insert_point P h b (sort_by_hash l) a.0 (All-sort_by_hash P l a.1)

  none_below : (h : ℕ) (l : List (ℕ × A)) → All (λ q. h ≤ q.0) l → retain (λ q. ltb q.0 h) l ≡ []
  none_below h [] s = refl
  none_below h (q ∷ l) s = rw (le→ltb q.0 h s.0) (none_below h l s.1)

  All-above :
      (h : ℕ) (l : List (ℕ × A)) → All (λ q. h ≤ q.0) l → retain (λ q. not (ltb q.0 h)) l ≡ l
  All-above h [] s = refl
  All-above h (q ∷ l) s = rw (le→ltb q.0 h s.0) (ap (λ r. q ∷ r) (All-above h l s.1))

  drop-partition_point :
      (h : ℕ) (l : List (ℕ × A))
      → Sorted l
      → drop (partition_point h l) l ≡ retain (λ q. not (ltb q.0 h)) l
  unfolding partition_point
  drop-partition_point h [] s = refl
  drop-partition_point h ((k, a) ∷ l) s = elim (Bool-cases (ltb k h)) [
    | inl e ↦ rw e (drop-partition_point h l s.1)
    | inr e ↦
        rw e (ap (λ r. (k, a) ∷ r) (sym (All-above h l (All-le_trans h k l (ltb→le k h e) s.0))))
  ]

  take-partition_point :
      (h : ℕ) (l : List (ℕ × A))
      → Sorted l
      → take (partition_point h l) l ≡ retain (λ q. ltb q.0 h) l
  unfolding partition_point
  take-partition_point h [] s = refl
  take-partition_point h ((k, a) ∷ l) s = elim (Bool-cases (ltb k h)) [
    | inl e ↦ rw e (ap (λ r. (k, a) ∷ r) (take-partition_point h l s.1))
    | inr e ↦ rw e (sym (none_below h l (All-le_trans h k l (ltb→le k h e) s.0)))
  ]

  pub partition_point-le : (h : ℕ) (l : List (ℕ × A)) → partition_point h l ≤ length l
  unfolding partition_point
  partition_point-le h [] = omega arith
  partition_point-le h ((k, a) ∷ l) = ground (arith, partition_point-le h l)

  -- Rotating sorted points to where `h` belongs puts them in clockwise order.
  pub rotate-clockwise :
      (h : ℕ) (l : List (ℕ × A)) → Sorted l → rotate (partition_point h l) l ≡ clockwise h l
  rotate-clockwise h l s = λ i. drop-partition_point h l s i ++ take-partition_point h l s i
