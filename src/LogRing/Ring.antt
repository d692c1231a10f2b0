-- ===== src/LogRing/Ring.antt =====
-- `LogRing::insert` and `LogRing::tail` of src/worker.rs.
use malkuth.Prelude.{
  ltb, Bool-cases, ℕ_key, string_key, length, drop, length-append, length-drop, ℕ, zero, suc, ◌+◌,
  ◌-◌, ◌≤◌, ◌≡◌, refl, sym, ap, ◌∙◌, inl, inr, List, [], ◌∷◌, ◌++◌, append-nil, append_assoc, arith,
}
use malkuth.LogRing.{Text, log_ring_capacity, insert_line, tail}

drop-append {ℓ} :
    {A : Type ℓ} (n : ℕ) (xs ys : List A) → n ≤ length xs → drop n (xs ++ ys) ≡ drop n xs ++ ys
drop-append zero xs ys h = refl
drop-append (suc n) [] ys h = absurd (omega arith)
drop-append (suc n) (x ∷ xs) ys h = drop-append n xs ys (omega arith)

drop-drop_one {ℓ} : {A : Type ℓ} (n : ℕ) (xs : List A) → drop 1 (drop n xs) ≡ drop (suc n) xs
drop-drop_one zero [] = refl
drop-drop_one zero (x ∷ xs) = refl
drop-drop_one (suc n) [] = refl
drop-drop_one (suc n) (x ∷ xs) = drop-drop_one n xs

-- The last lines, as many as fit.
abbrev pub newest : List Text → List Text
newest lines = drop (length lines - log_ring_capacity) lines

newest_short : (lines : List Text) → length lines ≤ log_ring_capacity → newest lines ≡ lines
newest_short lines h = let e : length lines - log_ring_capacity ≡ 0 = omega arith in rw e

newest_long :
    (lines : List Text) (line : Text) (k : ℕ)
    → length lines ≡ log_ring_capacity + k
    → newest (lines ++ line ∷ []) ≡ drop (suc k) lines ++ line ∷ []
newest_long lines line k h =
    let e : length (lines ++ line ∷ []) - log_ring_capacity ≡ suc k =
      omega (arith, length-append lines (line ∷ [])) in
    rw e (drop-append (suc k) lines (line ∷ []) (omega arith))

insert_line-newest :
    (lines : List Text) (line : Text)
    → insert_line line (newest lines) ≡ newest (lines ++ line ∷ [])
unfolding insert_line
insert_line-newest lines line = elim (Bool-cases (ltb (length lines) log_ring_capacity)) [
  | inl h ↦
      rw
        (
          newest_short lines (ground arith),
          newest_short (lines ++ line ∷ []) (ground (arith, length-append lines (line ∷ []))),
        )
        (ground arith)
  | inr h ↦
      let k = length lines - log_ring_capacity in
      let full : length (drop k lines) ≡ log_ring_capacity = ground (arith, length-drop k lines) in
      rw (newest_long lines line k (ground arith), full, drop-drop_one k lines) refl
]

unfoldable pub insert_all : List Text → List Text → List Text
unfolding insert_line
insert_all [] ring = ring
insert_all (l ∷ ls) ring = insert_all ls (insert_line l ring)

insert_all-newest : (ls lines : List Text) → insert_all ls (newest lines) ≡ newest (lines ++ ls)
unfolding insert_all
insert_all-newest [] lines = rw append-nil
insert_all-newest (l ∷ ls) lines =
    ap (insert_all ls) (insert_line-newest lines l)
    ∙ insert_all-newest ls (lines ++ l ∷ [])
    ∙ ap newest (append_assoc lines (l ∷ []) ls)

length-newest : (ls : List Text) → length (newest ls) ≤ log_ring_capacity
length-newest ls = omega (arith, length-drop (length ls - log_ring_capacity) ls)

drop-nil {ℓ} : {A : Type ℓ} (n : ℕ) → drop {A = A} n [] ≡ []
drop-nil zero = refl
drop-nil (suc n) = refl

drop-drop {ℓ} : {A : Type ℓ} (m n : ℕ) (xs : List A) → drop m (drop n xs) ≡ drop (n + m) xs
drop-drop m zero xs = let e : zero + m ≡ m = omega arith in rw e
drop-drop m (suc n) [] = drop-nil m ∙ sym (drop-nil (suc n + m))
drop-drop m (suc n) (x ∷ xs) =
    let e : suc n + m ≡ suc (n + m) = omega arith in rw e (drop-drop m n xs)

-- After any lines the ring holds the newest 500 of them, oldest first; and a tail of at most that many
-- is the end of the whole history, however much of it the ring has dropped.
pub insert_all-tail :
    (ls : List Text) (n : ℕ)
    → n ≤ log_ring_capacity
    → (insert_all ls [] ≡ newest ls) × (tail n (insert_all ls []) ≡ drop (length ls - n) ls)
unfolding tail
insert_all-tail ls n h =
    let e : insert_all ls [] ≡ newest ls = insert_all-newest ls [] in
    (
      e,
      rw e (
          drop-drop _ (length ls - log_ring_capacity) ls
          ∙ ap (λ k. drop k ls) (omega (arith, length-drop (length ls - log_ring_capacity) ls))),
    )
