-- ===== src/Worker/Supervise/Storm.antt =====
-- Restarts within one window of the rate limit, and `stop_draining`, in src/worker.rs.
use malkuth.Prelude.{
  ltb, leb, Bool-cases, is_some, ℕ_key, string_key, length, any, count_by, count_by-append, ℕ, ◌+◌,
  ◌^◌, ◌≤◌, ◌<◌, max, ◌≡◌, refl, sym, ◌∙◌, inl, inr, Bool, true, false, not, ◌&&◌, Option, none,
  some, List, [], ◌∷◌, ◌++◌, append-nil, arith,
}
use malkuth.Worker.{WorkerSpec, rate_limited}
use malkuth.Worker.RateLimit.{calm, Ascending, recent, recent_after, rate_limited-step}
use malkuth.Worker.Fleet.{FleetState}
use malkuth.Worker.Supervise.{Signal, sigterm, sigkill, stop_draining, Round, Limits, turns, start}
use malkuth.Worker.Supervise.Policy.{ends, crash_times, goes_on, supervise_goes_on}

-- The times of the window that begins at `lo`.
abbrev pub span : ℕ → ℕ → ℕ → Bool
span lo window t = leb lo t && ltb t (lo + window)

span-le-recent :
    (lo window now : ℕ) (ts : List ℕ)
    → span lo window now ≡ true
    → count_by (span lo window) ts ≤ recent window now ts
span-le-recent lo window now [] h = omega arith
span-le-recent lo window now (t ∷ ts) h = ground (arith, span-le-recent lo window now ts h)

-- One more restart that does not trip, seen from a window.
span_step :
    (max window lo t : ℕ) (stored history : List ℕ)
    → recent window t stored ≡ recent window t history
    → ltb max (recent window t stored + 1) ≡ false
    → count_by (span lo window) history ≤ max
    → count_by (span lo window) (history ++ t ∷ []) ≤ max
span_step max window lo t stored history same calm_ h =
    let n = count_by-append (span lo window) history (t ∷ []) in
    elim (Bool-cases (span lo window t)) [
      | inl e ↦ ground (arith, n, e, span-le-recent lo window t history e)
      | inr e ↦ ground (arith, n, e)
    ]

calm-span :
    (max window lo last : ℕ) (stored history ts : List ℕ)
    → max + 1 < 2 ^ 32
    → length stored ≤ max
    → ((t : ℕ) → last ≤ t → recent window t stored ≡ recent window t history)
    → Ascending last ts
    → count_by (span lo window) history ≤ max
    → is_some (calm max window stored ts) ≡ true
    → count_by (span lo window) (history ++ ts) ≤ max
unfolding calm
calm-span max window lo last stored history [] m l agree asc h c = rw (append-nil history) h
calm-span max window lo last stored history (t ∷ ts) m l agree asc h c =
    elim (Bool-cases (rate_limited max window t stored).0) [
      | inl tripped ↦ absurd (ground arith)
      | inr passed ↦
          let step = rate_limited-step max window t stored l m in
          let after = step.1 passed in
          let more =
            span_step max window lo t stored history (agree t asc.0) (sym step.0 ∙ passed) h in
          let out =
            calm-span max window lo t (rate_limited max window t stored).1 (history ++ t ∷ []) ts m
              after.1
              (λ u tu. rw after.0 (recent_after window last t u stored history agree asc.0 tu))
              asc.1 more (ground arith) in
          omega (
            arith,
            out,
            count_by-append (span lo window) (history ++ t ∷ []) ts,
            count_by-append (span lo window) history (t ∷ []),
            count_by-append (span lo window) history (t ∷ ts),
          )
    ]

-- No crash storm: while supervision of a worker goes on, over rounds that neither ask for a stop nor
-- end it by its policy, and crash at times that do not go back, the crashes in any window of the history
-- are at most the limit, wherever the window begins. The limit is below the largest `u32`.
pub crashes-le-max_restarts :
    (proc : ℕ → Option ℕ) (l : Limits) (spec : WorkerSpec) (rs : List Round)
    (fleet : Option FleetState) (lo : ℕ)
    → l.max_restarts + 1 < 2 ^ 32
    → any (ends spec.restart_policy) rs ≡ false
    → Ascending 0 (crash_times rs)
    → is_some (goes_on (turns proc l spec rs (start proc l spec fleet))) ≡ true
    → count_by (span lo l.window) (crash_times rs) ≤ l.max_restarts
crashes-le-max_restarts proc l spec rs fleet lo m h w c =
    calm-span l.max_restarts l.window lo 0 [] [] (crash_times rs) m (omega arith) (λ t _. refl) w
      (omega arith) (rw (supervise_goes_on proc l spec rs fleet h) at c)

abbrev pub is_kill : ℕ × Signal → Bool
is_kill (_, sigterm) = false
is_kill (_, sigkill) = true

abbrev pub exits_by : ℕ → Option ℕ → Bool
exits_by budget none = false
exits_by budget (some t) = leb t budget

-- `stop_draining` always reaps the child, within the budget (a second if that is 0), and kills it
-- exactly when it does not exit by then.
pub stop_draining_bounds :
    (pid : Option ℕ) (secs : ℕ) (exits : Option ℕ)
    → ((stop_draining pid secs exits).1 ≤ max secs 1)
      × (any is_kill (stop_draining pid secs exits).0 ≡ not (exits_by (max secs 1) exits))
unfolding stop_draining
stop_draining_bounds none secs none = (omega arith, refl)
stop_draining_bounds none secs (some t) = (ground arith, ground arith)
stop_draining_bounds (some p) secs none = (omega arith, refl)
stop_draining_bounds (some p) secs (some t) = (ground arith, ground arith)
