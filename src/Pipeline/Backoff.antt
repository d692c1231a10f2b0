-- ===== src/Pipeline/Backoff.antt =====
-- `FailureBackoff` of src/bin/malkuth/pipeline.rs over histories of failures and successes.
use malkuth.Prelude.{
  ltb, leb, leb→le, Bool-cases, ℕ_key, string_key, ℕ, zero, suc, ◌+◌, ◌-◌, ◌*◌, ◌^◌, ◌≤◌, ◌<◌, min,
  ◌≡◌, refl, ap, inl, inr, List, [], ◌∷◌, arith,
}
use native.Mathlib.Nat.{pow-suc}
use malkuth.Pipeline.{FailureBackoff, new, record_failure, record_success, is_blocked}

-- What the pipeline records.
pub data Outcome : Type 0 where
  failed : ℕ → Outcome
  succeeded : Outcome

unfoldable pub record_all : List Outcome → FailureBackoff → FailureBackoff
unfolding record_failure record_success
record_all [] s = s
record_all (failed now ∷ os) s = record_all os (record_failure now s)
record_all (succeeded ∷ os) s = record_all os (record_success s)

-- The failures since the last success, counted on from `n`.
abbrev pub streak : List Outcome → ℕ → ℕ
streak [] n = n
streak (failed now ∷ os) n = streak os (suc n)
streak (succeeded ∷ os) n = streak os 0

pow_pos : (n : ℕ) → 1 ≤ 2 ^ n
pow_pos zero = omega arith
pow_pos (suc n) = omega (arith, pow_pos n, pow-suc 2 n)

pow_ge : (n : ℕ) → 32 ≤ 2 ^ (n + 5)
pow_ge zero = omega arith
pow_ge (suc n) =
    let e : suc n + 5 ≡ suc (n + 5) = omega arith in
    rw e (omega (arith, pow_ge n, pow-suc 2 (n + 5)))

pow_large : (n : ℕ) → 5 ≤ n → 32 ≤ 2 ^ n
pow_large n h = let e : n ≡ (n - 5) + 5 = omega arith in rw e (pow_ge (n - 5))

-- The shift stops at 16, where the delay has long been at the cap.
capped_shift : (n : ℕ) → min (30 * 2 ^ (min n 16)) 900 ≡ min (30 * 2 ^ n) 900
capped_shift n = elim (Bool-cases (leb n 16)) [
  | inl e ↦ let le : n ≤ 16 = leb→le n 16 e in let same : min n 16 ≡ n = omega arith in rw same refl
  | inr e ↦
      let gt : 16 < n = ground (arith, e) in
      let same : min n 16 ≡ 16 = omega arith in rw same (omega (arith, pow_large n (omega arith)))
]

abbrev Fresh : ℕ → FailureBackoff → Type 0
Fresh n s = (s.base ≡ 30) × (s.cap ≡ 900) × (s.consecutive ≡ min n (2 ^ 32 - 1))

record_all-Fresh :
    (os : List Outcome) (s : FailureBackoff) (n : ℕ)
    → Fresh n s
    → Fresh (streak os n) (record_all os s)
unfolding record_all record_failure record_success
record_all-Fresh [] s n h = h
record_all-Fresh (failed now ∷ os) s n h =
    record_all-Fresh os (record_failure now s) (suc n) (h.0, h.1, omega (arith, h.2))
record_all-Fresh (succeeded ∷ os) s n h =
    record_all-Fresh os (record_success s) 0 (h.0, h.1, omega arith)

-- After any history of failures and successes, a failure at `now` blocks exactly the triggers before
-- `now` and 30 seconds doubled once for each earlier failure since the last success, at most 15 minutes.
pub record_failure_doubles :
    (os : List Outcome) (now t : ℕ)
    → is_blocked t (record_failure now (record_all os new))
      ≡ ltb t (now + min (30 * 2 ^ (streak os 0)) 900)
unfolding record_failure new is_blocked
record_failure_doubles os now t =
    let (b, c, k) = record_all-Fresh os new 0 (refl, refl, omega arith) in
    let n = streak os 0 in
    let shift : min (min (suc (record_all os new).consecutive) (2 ^ 32 - 1) - 1) 16 ≡ min n 16 =
      omega (arith, k) in
    rw b (rw c (rw shift (ap (λ d. ltb t (now + d)) (capped_shift n))))
