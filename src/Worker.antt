-- ===== src/Worker.antt =====
-- src/worker.rs and the worker types of src/types.rs: restart policies and the restart rate limit.
-- Instants and durations are numbers of one unit; the clock is an argument.
pub mod RateLimit
pub mod Fleet
pub mod Supervise
mod Tests
use malkuth.Prelude.{
  ltb, leb, eqb, if◌then◌else◌, ltb→lt, lt→ltb, le→ltb, ltb→le, leb→le, le→leb, eqb_iff, tests,
  Bool-cases, Option-cases, is_some, Key, ℕ_key, string_key, ◌==◌, eq_iff, eq_refl, ne→beq, length,
  get_elem?, take, drop, retain, any, all, position, length-append, length-take, length-drop,
  length-retain, take_all, set, count_by, count_by-append, count_by-reverse, count_by-retain,
  is_blank, is_ws, codes, trim, trim_start, trim_end, is_empty, reverse-cons, reverse-reverse, In,
  All, All-append, All-retain, retain-All, Dict, get, insert, remove, adjust, get-insert,
  get-remove, get-adjust, get-insert_self, Result, ok, err, ◌>>=◌, ◌>>◌, ℕ, zero, suc, ◌+◌, ◌-◌,
  ◌*◌, ◌/◌, ◌%◌, ◌^◌, ◌≤◌, ◌<◌, min, max, String, ◌≡◌, refl, sym, ap, subst, ◌∙◌, ◌≢◌, ◌↔◌, ◌⊎◌,
  inl, inr, Bool, true, false, not, ◌&&◌, ◌||◌, Option, none, some, List, [], ◌∷◌, ◌++◌, map,
  reverse, append-nil, append_assoc, arith,
}
use malkuth.Lifecycle.{ShutdownKind, graceful, immediate, reload}

pub data RestartPolicy : Type 0 where
  permanent transient temporary : RestartPolicy

pub data WorkerPhase : Type 0 where
  starting running restarting draining stopped : WorkerPhase

-- `WorkerSpec`: what the supervision loop reads of it. Program, arguments, environment and working
-- directory only go to the operating system.
pub record WorkerSpec : Type 0 where
  pub id : String
  pub kind : String
  pub restart_policy : RestartPolicy

unfoldable pub should_restart : RestartPolicy → Bool → Bool
should_restart permanent clean_exit = true
should_restart transient clean_exit = not clean_exit
should_restart temporary clean_exit = false

unfoldable pub drain_grace_secs : ShutdownKind → ℕ
drain_grace_secs immediate = 1
drain_grace_secs graceful = 30
drain_grace_secs reload = 30

-- `now.duration_since(t)` is 0 where `t` is later.
abbrev pub in_window : ℕ → ℕ → ℕ → Bool
in_window window now t = ltb (now - t) window

-- `rate_limited`: whether the limit tripped, and the restart times after the call. The cooldown that
-- follows a trip ends by its time or by a drain, and changes neither.
unfoldable pub rate_limited : ℕ → ℕ → ℕ → List ℕ → Bool × List ℕ
rate_limited max_restarts window now times =
    let kept = retain (in_window window now) times ++ now ∷ [] in
    if ltb max_restarts (length kept % 2 ^ 32) then (true, []) else (false, kept)

abbrev pub default_window : ℕ
default_window = 60

abbrev pub default_max_restarts : ℕ
default_max_restarts = 5
