-- ===== src/Worker/Supervise.antt =====
-- `supervise_one` and `stop_draining` of src/worker.rs. What the loop meets (the drain bit, the result
-- of a spawn, the branch of the `select!` that is ready first, the clock) is a script of rounds, one
-- for each turn of the loop; a script that runs out leaves the worker under supervision. A branch of
-- a signal that the worker does not have is never ready, so a script for it has no such round.
pub mod Policy
pub mod Storm
pub mod Report
use malkuth.Prelude.{
  ltb, leb, eqb, if◌then◌else◌, ltb→lt, lt→ltb, le→ltb, ltb→le, leb→le, le→leb, eqb_iff, tests,
  Bool-cases, Option-cases, is_some, Key, ℕ_key, string_key, ◌==◌, eq_iff, eq_refl, ne→beq, length,
  get_elem?, take, drop, retain, any, all, position, length-append, length-take, length-drop,
  length-retain, take_all, set, count_by, count_by-append, count_by-reverse, count_by-retain,
  is_blank, is_ws, codes, trim, trim_start, trim_end, is_empty, reverse-cons, reverse-reverse, In,
  All, All-append, All-retain, retain-All, Dict, get, insert, remove, adjust, get-insert,
  get-remove, get-adjust, get-insert_self, Result, ok, err, ◌>>=◌, ◌>>◌, ℕ, zero, suc, ◌+◌, ◌-◌,
  ◌*◌, ◌/◌, ◌%◌, ◌^◌, ◌≤◌, ◌<◌, min, max, String, ◌≡◌, refl, sym, ap, subst, ◌∙◌, ◌≢◌, ◌↔◌, ◌⊎◌,
  inl, inr, Bool, true, false, not, ◌&&◌, ◌||◌, Option, none, some, List, [], ◌∷◌, ◌++◌, map,
  reverse, append-nil, append_assoc, arith,
}
use Prim.Native.String.{◌++◌ as str_append}
use malkuth.Lifecycle.{ShutdownKind, or_graceful}
use malkuth.Worker.{
  RestartPolicy, WorkerSpec, should_restart, drain_grace_secs, rate_limited, stopped,
}
use malkuth.Worker.Fleet.{FleetState, register, set_running, set_restarting, set_draining, finish}

-- What a stopped child is sent, with the second at which it is sent.
pub data Signal : Type 0 where
  sigterm sigkill : Signal

-- `stop_draining`: the child's pid if it still has one, the budget, and the second at which the child
-- exits after the request if it ever does. The signals, and the second at which it is reaped.
unfoldable pub stop_draining : Option ℕ → ℕ → Option ℕ → List (ℕ × Signal) × ℕ
stop_draining pid drain_secs exits =
    let polite : List (ℕ × Signal) = elim pid [ none ↦ [] | some _ ↦ (0, sigterm) ∷ [] ] in
    let budget = max drain_secs 1 in
    let killed : List (ℕ × Signal) × ℕ = (polite ++ (budget, sigkill) ∷ [], budget) in
    elim exits [ none ↦ killed | some t ↦ if leb t budget then (polite, t) else killed ]

-- How the `select!` over a running child ends.
pub data Ending : Type 0 where
  exited : Bool → ℕ → Ending
  wait_failed : String → ℕ → Ending
  drained : Option ShutdownKind → Ending
  drain_signal restart_signal : Ending

-- One turn of the loop: the drain bit was set at its head, the spawn failed, or a child ran.
pub data Round : Type 0 where
  head_drain : Round
  spawn_failed : String → ℕ → Round
  ran : Option ℕ → ℕ → Ending → Round

pub record Limits : Type 0 where
  pub max_restarts : ℕ
  pub window : ℕ

-- The loop's variables, the published state if there is a sink, and the budget of each
-- `stop_draining` that was called.
pub record Loop : Type 0 where
  pub restart_count : ℕ
  pub restart_times : List ℕ
  pub last_error : Option String
  pub fleet : Option FleetState
  pub stops : List ℕ

abbrev pub publish : (FleetState → FleetState) → Option FleetState → Option FleetState
publish f none = none
publish f (some m) = some (f m)

-- `restart_count += 1` on a `u32`
abbrev pub bump : ℕ → ℕ
bump n = (n + 1) % 2 ^ 32

-- `break` and `continue`
pub data Next : Type 0 where
  break continue : Loop → Next

module _ (proc_starttime : ℕ → Option ℕ) (l : Limits) (spec : WorkerSpec) where
  -- The rate limit, with the loop's `break` where it trips.
  unfoldable pub limited : ℕ → Loop → Next
  limited now s =
      let r = rate_limited l.max_restarts l.window now s.restart_times in
      if r.0
      then break (record s { restart_times = r.1 })
      else continue (record s { restart_times = r.1 })

  -- `restart_count += 1`, publish the gap, then the rate limit.
  unfoldable pub after_exit : ℕ → Loop → Next
  unfolding limited
  after_exit now s =
      let n = bump s.restart_count in
      limited now
        (record s { restart_count = n; fleet = publish (set_restarting spec.id n) s.fleet })

  -- `Err(e)` of `spawn`: the count goes up only where the limit does not trip.
  unfoldable pub after_spawn_failure : ℕ → Loop → Next
  unfolding limited
  after_spawn_failure now s = elim (limited now s) [
    | break s' ↦ break s'
    | continue s' ↦ continue (record s' { restart_count = bump s'.restart_count })
  ]

  unfoldable pub ending : Ending → Loop → Next
  unfolding after_exit
  ending (exited clean now) s =
      if not (should_restart spec.restart_policy clean) then break s else after_exit now s
  ending (wait_failed e now) s =
      after_exit now (record s { last_error = some (str_append "wait failed: " e) })
  ending (drained kind) s = break (record s {
    fleet = publish (set_draining spec.id) s.fleet;
    stops = s.stops ++ drain_grace_secs (or_graceful kind) ∷ [];
  })
  ending drain_signal s =
      break
        (record s { fleet = publish (set_draining spec.id) s.fleet; stops = s.stops ++ 30 ∷ [] })
  ending restart_signal s =
      let n = bump s.restart_count in
      continue (record s {
        restart_count = n;
        fleet = publish (set_restarting spec.id n) s.fleet;
        stops = s.stops ++ 30 ∷ [];
      })

  unfoldable pub turn : Round → Loop → Next
  unfolding ending after_spawn_failure
  turn head_drain s = break s
  turn (spawn_failed e now) s =
      let error = some (str_append "spawn failed: " e) in
      let s' : Loop = record s {
        last_error = error;
        fleet = publish (finish spec.id stopped s.restart_count error) s.fleet;
      } in
      if not (should_restart spec.restart_policy false)
      then break s'
      else after_spawn_failure now s'
  turn (ran pid at e) s =
      ending e (record s { fleet = publish (set_running proc_starttime at spec.id pid) s.fleet })

  -- The turns of the script: the loop broke, or waits for its next round.
  unfoldable pub turns : List Round → Loop → Next
  turns [] s = continue s
  turns (r ∷ rs) s = elim (turn r s) [ break s' ↦ break s' | continue s' ↦ turns rs s' ]

  abbrev pub start : Option FleetState → Loop
  start fleet = record {
    restart_count = 0;
    restart_times = [];
    last_error = none;
    fleet = publish (register spec) fleet;
    stops = [];
  }

  -- The final publication behind the loop.
  abbrev pub close : Loop → Loop
  close s = record s {
    fleet = publish (finish spec.id stopped s.restart_count s.last_error) s.fleet;
  }

  -- The fields of the `WorkerInfo` that is returned; its status is always `Stopped`.
  unfoldable pub supervise_one : List Round → Option FleetState → Option Loop
  unfolding turns turn
  supervise_one rounds fleet = elim (turns rounds (start fleet)) [
    | continue s ↦ none
    | break s ↦ some (close s)
  ]
