-- ===== src/Worker/RateLimit.antt =====
-- `rate_limited` of src/worker.rs next to a limiter that keeps all restarts.
use malkuth.Prelude.{
  ltb, if◌then◌else◌, Bool-cases, ℕ_key, string_key, length, retain, length-append, length-retain,
  count_by, count_by-append, ℕ, ◌+◌, ◌^◌, ◌≤◌, ◌<◌, max, ◌≡◌, refl, ◌∙◌, inl, inr, false, Option,
  none, some, List, [], ◌∷◌, ◌++◌, append-nil, arith,
}
use malkuth.Worker.{in_window, rate_limited}

-- The calls at the given times, none of which tripped: the times that are stored after them.
unfoldable pub calm : ℕ → ℕ → List ℕ → List ℕ → Option (List ℕ)
calm max window stored [] = some stored
calm max window stored (now ∷ later) =
    let rest = calm max window (rate_limited max window now stored).1 later in
    if (rate_limited max window now stored).0 then none else rest

-- Times that do not go back.
abbrev pub Ascending : ℕ → List ℕ → Type 0
Ascending from [] = Unit {0}
Ascending from (t ∷ ts) = (from ≤ t) × Ascending t ts

-- The reference: the restarts of the whole history that lie within the window before `now`.
abbrev pub recent : ℕ → ℕ → List ℕ → ℕ
recent window now = count_by (in_window window now)

pub calm-append :
    (max window : ℕ) (stored first second : List ℕ)
    → calm max window stored (first ++ second) ≡ elim (calm max window stored first) [
      | none ↦ none
      | some stored' ↦ calm max window stored' second
    ]
unfolding calm
calm-append max window stored [] second = refl
calm-append max window stored (t ∷ ts) second =
    ground (arith, calm-append max window (rate_limited max window t stored).1 ts second)

length-retain-recent :
    (window now : ℕ) (ts : List ℕ)
    → length (retain (in_window window now) ts) ≡ recent window now ts
length-retain-recent window now [] = refl
length-retain-recent window now (t ∷ ts) = ground (arith, length-retain-recent window now ts)

recent-retain :
    (window now later : ℕ) (ts : List ℕ)
    → now ≤ later
    → recent window later (retain (in_window window now) ts) ≡ recent window later ts
recent-retain window now later [] h = refl
recent-retain window now later (t ∷ ts) h = ground (arith, recent-retain window now later ts h)

-- One call, from stored times that are not more than the limit.
-- What the limiter keeps and the whole history have the same recent times, also after another restart.
pub recent_after :
    (window last t u : ℕ) (stored history : List ℕ)
    → ((v : ℕ) → last ≤ v → recent window v stored ≡ recent window v history)
    → last ≤ t
    → t ≤ u
    → recent window u (retain (in_window window t) stored ++ t ∷ [])
      ≡ recent window u (history ++ t ∷ [])
recent_after window last t u stored history agree h tu = omega (
  arith,
  count_by-append (in_window window u) (retain (in_window window t) stored) (t ∷ []),
  count_by-append (in_window window u) history (t ∷ []),
  recent-retain window t u stored tu,
  agree u (omega (arith, h, tu)),
)

pub rate_limited-step :
    (max window now : ℕ) (stored : List ℕ)
    → length stored ≤ max
    → max + 1 < 2 ^ 32
    → ((rate_limited max window now stored).0 ≡ ltb max (recent window now stored + 1))
      × ((rate_limited max window now stored).0 ≡ false
          → ((rate_limited max window now stored).1
              ≡ retain (in_window window now) stored ++ now ∷ [])
            × (length (rate_limited max window now stored).1 ≤ max))
unfolding rate_limited
rate_limited-step max window now stored l m =
    let n = length-append (retain (in_window window now) stored) (now ∷ []) in
    let k = length-retain-recent window now stored in
    let b = length-retain (in_window window now) stored in
    (ground (arith, n, k, b), λ h. (ground (arith, n, k, b), ground (arith, n, k, b)))

calm-recent :
    (max window last now : ℕ) (stored stored' history later : List ℕ)
    → max + 1 < 2 ^ 32
    → length stored ≤ max
    → ((t : ℕ) → last ≤ t → recent window t stored ≡ recent window t history)
    → Ascending last (later ++ now ∷ [])
    → calm max window stored later ≡ some stored'
    → (recent window now stored' ≡ recent window now (history ++ later)) × (length stored' ≤ max)
unfolding calm
calm-recent max window last now stored stored' history [] m l agree asc h =
    let e : stored ≡ stored' = ground arith in rw (← e, append-nil history) (agree now asc.0, l)
calm-recent max window last now stored stored' history (t ∷ later) m l agree asc h =
    elim (Bool-cases (rate_limited max window t stored).0) [
      | inl tripped ↦ absurd (ground arith)
      | inr passed ↦
          let after = (rate_limited-step max window t stored l m).1 passed in
          let out =
            calm-recent max window t now (rate_limited max window t stored).1 stored'
              (history ++ t ∷ []) later m after.1
              (λ u tu. rw after.0 (recent_after window last t u stored history agree asc.0 tu))
              asc.1 (ground arith) in
          (
            omega (
              arith,
              out.0,
              count_by-append (in_window window now) (history ++ t ∷ []) later,
              count_by-append (in_window window now) history (t ∷ []),
              count_by-append (in_window window now) history (t ∷ later),
            ),
            out.1,
          )
    ]

-- After restarts none of which tripped, at times that do not go back, the next one trips exactly when
-- it and the earlier ones within the window before it, of the whole history, are more than the limit:
-- the times that the limiter has forgotten never matter. The limit is below the largest `u32`.
pub rate_limited_lem :
    (max window now : ℕ) (history stored : List ℕ)
    → max + 1 < 2 ^ 32
    → Ascending 0 (history ++ now ∷ [])
    → calm max window [] history ≡ some stored
    → (rate_limited max window now stored).0 ≡ ltb max (recent window now history + 1)
rate_limited_lem max window now history stored m asc h =
    let (e, l) =
      calm-recent max window 0 now [] stored [] history m (omega arith) (λ t _. refl) asc h in
    (rate_limited-step max window now stored l m).0 ∙ rw e
