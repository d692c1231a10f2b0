-- ===== src/Worker/Tests.antt =====
-- A worker that crashes, and the theorems about supervision at concrete inputs.
use malkuth.Prelude.{
  count_by, is_some, ℕ_key, string_key, ℕ, ◌≤◌, ◌≡◌, refl, true, false, Option, none, some, List,
  [], ◌∷◌, arith,
}
use malkuth.Lifecycle.{graceful}
use malkuth.Worker.{WorkerSpec, permanent, stopped, rate_limited, should_restart, drain_grace_secs}
use malkuth.Worker.RateLimit.{calm, rate_limited_lem}
use malkuth.Worker.Fleet.{register, set_running, set_restarting, set_draining, finish}
use malkuth.Worker.Supervise.{
  Round, ran, exited, drained, restart_signal, Limits, Loop, turns, turn, start, supervise_one,
}
use malkuth.Worker.Supervise.Policy.{crash_times, goes_on}
use malkuth.Worker.Supervise.Storm.{span, crashes-le-max_restarts}
use malkuth.Worker.Supervise.Report.{Agrees, supervise_one-Agrees}

abbrev no_proc : ℕ → Option ℕ
no_proc _ = none

abbrev limits : Limits
limits = record { max_restarts = 2; window = 60 }

abbrev web : WorkerSpec
web = record { id = "web"; kind = "service"; restart_policy = permanent }

abbrev crash : ℕ → Round
crash now = ran (some 7) now (exited false now)

abbrev by_hand : Round
by_hand = ran (some 7) 0 restart_signal

-- Two crashes and any number of operator restarts in one window are survived; the third ends it.
survives :
    is_some (
      goes_on (
        turns no_proc limits web
          (crash 1 ∷ by_hand ∷ by_hand ∷ crash 2 ∷ [])
          (start no_proc limits web none)))
    ≡ true
unfolding turns turn rate_limited should_restart
survives = refl

storm_ends :
    is_some (supervise_one no_proc limits web (crash 1 ∷ crash 2 ∷ crash 3 ∷ []) none) ≡ true
unfolding supervise_one rate_limited should_restart
storm_ends = refl

rate_limited_lem_example : (rate_limited 2 60 90 (31 ∷ 32 ∷ [])).0 ≡ true
rate_limited_lem_example =
    rate_limited_lem 2 60 90 (31 ∷ 32 ∷ []) (31 ∷ 32 ∷ []) (omega arith) (omega arith)
      (unfold calm rate_limited in refl)

crashes-le-max_restarts_example :
    count_by (span 50 60) (crash_times (crash 1 ∷ crash 2 ∷ by_hand ∷ crash 70 ∷ crash 90 ∷ [])) ≤ 2
unfolding turns turn rate_limited should_restart
crashes-le-max_restarts_example =
    crashes-le-max_restarts no_proc limits web
      (crash 1 ∷ crash 2 ∷ by_hand ∷ crash 70 ∷ crash 90 ∷ []) none 50 (omega arith) refl
      (omega arith) refl

abbrev script : List Round
script = crash 1 ∷ ran (some 8) 2 (drained (some graceful)) ∷ []

abbrev report : Loop
report = record {
  restart_count = 1;
  restart_times = 1 ∷ [];
  last_error = none;
  fleet = some (
      finish "web" stopped 1 none (
        set_draining "web" (
          set_running no_proc 2 "web" (some 8)
            (set_restarting "web" 1 (set_running no_proc 1 "web" (some 7) (register web []))))));
  stops = 30 ∷ [];
}

supervise_one-Agrees_example : Agrees web [] report
unfolding supervise_one rate_limited should_restart drain_grace_secs
supervise_one-Agrees_example = supervise_one-Agrees no_proc limits web script [] report refl
