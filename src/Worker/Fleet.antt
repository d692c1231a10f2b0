-- ===== src/Worker/Fleet.antt =====
-- `FleetState` of src/worker.rs: the live snapshots that the supervisor publishes. The lock makes each
-- operation one step on the map; the clock counts nanoseconds, and the start time of a process is read from the system.
use malkuth.Prelude.{
  ℕ_key, string_key, Dict, get, insert, adjust, ℕ, ◌-◌, ◌/◌, ◌^◌, String, Option, none, some, [],
  ◌∷◌,
}
use malkuth.Worker.{
  RestartPolicy, WorkerPhase, starting, running, restarting, draining, stopped, WorkerSpec,
}

pub record WorkerSnapshot : Type 0 where
  pub id : String
  pub kind : String
  pub phase : WorkerPhase
  pub pid : Option ℕ
  pub uptime_secs : ℕ
  pub restart_policy : RestartPolicy
  pub restart_count : ℕ
  pub last_error : Option String
  pub starttime : Option ℕ

pub record FleetEntry : Type 0 where
  pub snapshot : WorkerSnapshot
  pub spawned_at : Option ℕ

abbrev pub FleetState : Type 0
FleetState = Dict String FleetEntry

abbrev pub registered : WorkerSpec → FleetEntry
registered spec = record {
  snapshot = record {
    id = spec.id;
    kind = spec.kind;
    phase = starting;
    pid = none;
    uptime_secs = 0;
    restart_policy = spec.restart_policy;
    restart_count = 0;
    last_error = none;
    starttime = none;
  };
  spawned_at = none;
}

unfoldable pub register : WorkerSpec → FleetState → FleetState
register spec m = insert spec.id (registered spec) m

-- The closures that `update` applies to the entry.
abbrev pub bind {ℓ κ} : {A : Type ℓ} {B : Type κ} → Option A → (A → Option B) → Option B
bind none f = none
bind (some a) f = f a

abbrev pub to_running : (ℕ → Option ℕ) → ℕ → Option ℕ → FleetEntry → FleetEntry
to_running proc_starttime now pid e = record {
  snapshot = record (e.snapshot) {
    phase = running;
    pid = pid;
    starttime = bind pid proc_starttime;
    uptime_secs = 0;
  };
  spawned_at = some now;
}

abbrev pub to_restarting : ℕ → FleetEntry → FleetEntry
to_restarting count e = record {
  snapshot = record (e.snapshot) {
    phase = restarting;
    restart_count = count;
    pid = none;
    starttime = none;
    uptime_secs = 0;
  };
  spawned_at = none;
}

abbrev pub to_draining : FleetEntry → FleetEntry
to_draining e = record e {
  snapshot = record (e.snapshot) { phase = draining; pid = none; starttime = none };
}

abbrev pub to_finished : WorkerPhase → ℕ → Option String → FleetEntry → FleetEntry
to_finished phase count error e = record {
  snapshot = record (e.snapshot) {
    phase = phase;
    restart_count = count;
    last_error = error;
    pid = none;
    starttime = none;
    uptime_secs = 0;
  };
  spawned_at = none;
}

abbrev pub to_stopped : FleetEntry → FleetEntry
to_stopped e = record {
  snapshot = record (e.snapshot) { phase = stopped; pid = none; starttime = none; uptime_secs = 0 };
  spawned_at = none;
}

unfoldable pub set_running : (ℕ → Option ℕ) → ℕ → String → Option ℕ → FleetState → FleetState
set_running proc_starttime now id pid = adjust id (to_running proc_starttime now pid)

unfoldable pub set_restarting : String → ℕ → FleetState → FleetState
set_restarting id count = adjust id (to_restarting count)

unfoldable pub set_draining : String → FleetState → FleetState
set_draining id = adjust id to_draining

unfoldable pub finish : String → WorkerPhase → ℕ → Option String → FleetState → FleetState
finish id phase count error = adjust id (to_finished phase count error)

unfoldable pub stop_all : FleetState → FleetState
stop_all [] = []
stop_all ((id, e) ∷ m) = (id, to_stopped e) ∷ stop_all m

-- `with_uptime`: `duration_since` fails where the clock was set back, and gives 0.
unfoldable pub with_uptime : ℕ → FleetEntry → WorkerSnapshot
with_uptime now e = elim e.spawned_at [
  | none ↦ e.snapshot
  | some t ↦ record (e.snapshot) { uptime_secs = (now - t) / 10 ^ 9 }
]

unfoldable pub get_worker : ℕ → String → FleetState → Option WorkerSnapshot
unfolding with_uptime
get_worker now id m = elim (get id m) [ none ↦ none | some e ↦ some (with_uptime now e) ]
