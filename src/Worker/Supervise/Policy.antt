-- ===== src/Worker/Supervise/Policy.antt =====
-- When `supervise_one` of src/worker.rs goes on: the policy, the requests to stop, the rate limit.
use malkuth.Prelude.{
  ℕ_key, string_key, any, ℕ, ◌≡◌, refl, sym, ap, ◌∙◌, ◌⊎◌, inl, inr, Bool, true, false, not, Option,
  none, some, List, [], ◌∷◌, ◌++◌, arith,
}
use malkuth.Worker.{RestartPolicy, WorkerSpec, should_restart}
use malkuth.Worker.RateLimit.{calm, calm-append}
use malkuth.Worker.Fleet.{FleetState}
use malkuth.Worker.Supervise.{
  Ending, exited, wait_failed, drained, drain_signal, restart_signal, Round, head_drain,
  spawn_failed, ran, Limits, Loop, Next, break, continue, limited, ending, turn, turns, start,
}

-- The rounds after which the loop leaves for good whatever the rate limit says: a drain, and an exit
-- or a failed spawn that the policy does not restart. A failed wait is no such round.
abbrev pub ends : RestartPolicy → Round → Bool
ends p head_drain = true
ends p (spawn_failed _ _) = not (should_restart p false)
ends p (ran _ _ (exited clean _)) = not (should_restart p clean)
ends p (ran _ _ (wait_failed _ _)) = false
ends p (ran _ _ (drained _)) = true
ends p (ran _ _ drain_signal) = true
ends p (ran _ _ restart_signal) = false

-- The restarts that count against the limit, by their times: all but the operator's.
abbrev pub crash_times : List Round → List ℕ
crash_times [] = []
crash_times (spawn_failed _ now ∷ rs) = now ∷ crash_times rs
crash_times (ran _ _ (exited _ now) ∷ rs) = now ∷ crash_times rs
crash_times (ran _ _ (wait_failed _ now) ∷ rs) = now ∷ crash_times rs
crash_times (_ ∷ rs) = crash_times rs

-- The stored restart times of a loop that goes on.
abbrev pub goes_on : Next → Option (List ℕ)
goes_on (break s) = none
goes_on (continue s) = some s.restart_times

crash_times-cons :
    (r : Round) (rs : List Round) → crash_times (r ∷ rs) ≡ crash_times (r ∷ []) ++ crash_times rs
crash_times-cons head_drain rs = refl
crash_times-cons (spawn_failed _ _) rs = refl
crash_times-cons (ran _ _ (exited _ _)) rs = refl
crash_times-cons (ran _ _ (wait_failed _ _)) rs = refl
crash_times-cons (ran _ _ (drained _)) rs = refl
crash_times-cons (ran _ _ drain_signal) rs = refl
crash_times-cons (ran _ _ restart_signal) rs = refl

pub Next-cases : (n : Next) → ((s : Loop) × (n ≡ break s)) ⊎ ((s : Loop) × (n ≡ continue s))
Next-cases (break s) = inl (s, refl)
Next-cases (continue s) = inr (s, refl)

module _ (proc : ℕ → Option ℕ) (l : Limits) (spec : WorkerSpec) where
  limited-goes_on :
      (now : ℕ) (s : Loop)
      → goes_on (limited proc l spec now s)
        ≡ calm l.max_restarts l.window s.restart_times (now ∷ [])
  unfolding limited calm
  limited-goes_on now s = ground arith

  ending-ends :
      (e : Ending) (s : Loop) (pid : Option ℕ) (at : ℕ)
      → ends spec.restart_policy (ran pid at e) ≡ true
      → goes_on (ending proc l spec e s) ≡ none
  unfolding ending
  ending-ends (exited clean now) s pid at h = ground arith
  ending-ends (wait_failed e now) s pid at h = cc
  ending-ends (drained k) s pid at h = refl
  ending-ends drain_signal s pid at h = refl
  ending-ends restart_signal s pid at h = cc

  turn-ends :
      (r : Round) (s : Loop)
      → ends spec.restart_policy r ≡ true
      → goes_on (turn proc l spec r s) ≡ none
  unfolding turn
  turn-ends head_drain s h = refl
  turn-ends (spawn_failed e now) s h = ground arith
  turn-ends (ran pid at e) s h = ending-ends e (record s { fleet = _ }) pid at h

  -- A round that does not end the loop: what the limiter makes of its time, if it has one.
  ending-goes_on :
      (e : Ending) (s : Loop) (pid : Option ℕ) (at : ℕ)
      → ends spec.restart_policy (ran pid at e) ≡ false
      → goes_on (ending proc l spec e s)
        ≡ calm l.max_restarts l.window s.restart_times (crash_times (ran pid at e ∷ []))
  unfolding ending limited calm
  ending-goes_on (exited clean now) s pid at h = ground arith
  ending-goes_on (wait_failed e now) s pid at h = ground arith
  ending-goes_on (drained k) s pid at h = cc
  ending-goes_on drain_signal s pid at h = cc
  ending-goes_on restart_signal s pid at h = refl

  turn-goes_on :
      (r : Round) (s : Loop)
      → ends spec.restart_policy r ≡ false
      → goes_on (turn proc l spec r s)
        ≡ calm l.max_restarts l.window s.restart_times (crash_times (r ∷ []))
  unfolding turn limited calm
  turn-goes_on head_drain s h = cc
  turn-goes_on (spawn_failed e now) s h = ground arith
  turn-goes_on (ran pid at e) s h = ending-goes_on e _ pid at h

  pub turns-goes_on :
      (rs : List Round) (s : Loop)
      → any (ends spec.restart_policy) rs ≡ false
      → goes_on (turns proc l spec rs s)
        ≡ calm l.max_restarts l.window s.restart_times (crash_times rs)
  unfolding turns
  turns-goes_on [] s h = unfold calm in refl
  turns-goes_on (r ∷ rs) s h = elim (Next-cases (turn proc l spec r s)) [
    | inl (s', e) ↦ rw (e, turns) (sym (rest none (sym (ap goes_on e) ∙ turn-goes_on r s first)))
    | inr (s', e) ↦
        rw (e, turns)
          (turns-goes_on rs s' (ground arith)
            ∙ sym (rest (some s'.restart_times) (sym (ap goes_on e) ∙ turn-goes_on r s first)))
  ]
    where
      first : ends spec.restart_policy r ≡ false
      first = ground arith

      rest :
          (o : Option (List ℕ))
          → o ≡ calm l.max_restarts l.window s.restart_times (crash_times (r ∷ []))
          → calm l.max_restarts l.window s.restart_times (crash_times (r ∷ rs)) ≡ elim o [
            | none ↦ none
            | some stored ↦ calm l.max_restarts l.window stored (crash_times rs)
          ]
      rest o e =
          rw (crash_times-cons r rs, e)
            (calm-append l.max_restarts l.window s.restart_times (crash_times (r ∷ [])) _)

  pub supervise_goes_on :
      (rs : List Round) (fleet : Option FleetState)
      → any (ends spec.restart_policy) rs ≡ false
      → goes_on (turns proc l spec rs (start proc l spec fleet))
        ≡ calm l.max_restarts l.window [] (crash_times rs)
  supervise_goes_on rs fleet h = turns-goes_on rs (start proc l spec fleet) h
