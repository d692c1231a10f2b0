-- ===== src/Mcp/Actions.antt =====
-- The control tools of src/mcp.rs on the registry of runs and the process-wide registry of approvals. Of an
-- answer the fields are kept that do not repeat the arguments, and of a failure its code. `restart_payload`
-- is split where another request can come between: before the approval is spent. The approvals read
-- the wall clock and the restart book the monotonic one, and a panic of `approve` is `none`.
pub mod Tokens
pub mod Refusals
pub mod Drains
pub mod Retries
pub mod Logs
use malkuth.Prelude.{
  ltb, leb, eqb, if◌then◌else◌, ltb→lt, lt→ltb, le→ltb, ltb→le, leb→le, le→leb, eqb_iff, tests,
  Bool-cases, Option-cases, is_some, Key, ℕ_key, string_key, ◌==◌, eq_iff, eq_refl, ne→beq, length,
  get_elem?, take, drop, retain, any, all, position, length-append, length-take, length-drop,
  length-retain, take_all, set, count_by, count_by-append, count_by-reverse, count_by-retain,
  is_blank, is_ws, byte_len, is_char_boundary, prefix, truncate, floor_boundary, len_utf8,
  floor_boundary-is_char_boundary, floor_boundary-le, byte_len-prefix, codes, trim, trim_start,
  trim_end, is_empty, reverse-cons, reverse-reverse, In, All, All-append, All-retain, retain-All,
  Dict, get, insert, remove, adjust, get-insert, get-remove, get-adjust, get-insert_self, Result,
  ok, err, ◌>>=◌, ◌>>◌, ℕ, zero, suc, ◌+◌, ◌-◌, ◌*◌, ◌/◌, ◌%◌, ◌^◌, ◌≤◌, ◌<◌, min, max, String, ◌≡◌,
  refl, sym, ap, subst, ◌∙◌, ◌≢◌, ◌↔◌, ◌⊎◌, inl, inr, Bool, true, false, not, ◌&&◌, ◌||◌, Option,
  none, some, List, [], ◌∷◌, ◌++◌, map, reverse, append-nil, append_assoc, arith,
}
use malkuth.Lifecycle.{ShutdownKind, begin_drain, is_draining}
use malkuth.Worker.Fleet.{FleetState}
use malkuth.LogRing.{Text, tail}
use malkuth.DrainAuth.{
  GateDecision, ApprovalStatus, approved, expired, consumed, blocked, unknown, ApprovalRegistry,
  error_code, status, approve, consume, validate_drain_request,
}
use malkuth.Mcp.Restarts.{RestartBook, accept_restart}
use malkuth.Mcp.Runs.{RunHandle, Server, is_finished, find_run, update_run}
use malkuth.Mcp.Paging.{LogPage, page_logs}
use malkuth.Mcp.Arguments.{
  parse_gate_decision, parse_drain_kind, trimmed, given, is_empty_text, require_proposal,
}

pub record World : Type 0 where
  pub server : Server
  pub approvals : ApprovalRegistry

-- A change of one run, in place.
unfoldable pub change_run : String → (RunHandle → RunHandle) → World → World
unfolding update_run
change_run id f w = record w { server = record (w.server) { runs = update_run id f w.server.runs } }

pub record RestartArgs : Type 0 where
  pub run_id : String
  pub worker_id : String
  pub proposal_id : Option String

-- The `match` on the status of the approval.
unfoldable pub live_approval : ApprovalStatus → Result String (Unit {0})
live_approval approved = ok tt
live_approval expired = err "approval_expired"
live_approval consumed = err "approval_consumed"
live_approval blocked = err "approval_blocked"
live_approval unknown = err "approval_required"

-- The proposal that is named, if its approval is live: it is checked, and not spent.
unfoldable pub live_proposal : ℕ → RestartArgs → ApprovalRegistry → Result String String
unfolding require_proposal status live_approval
live_proposal wall args r = do
  proposal_id ← require_proposal args.proposal_id
  live_approval (status wall proposal_id args.worker_id r)
  ok proposal_id

-- The checks that come before the atomic accept: the run, and the proposal.
unfoldable pub restart_checks : ℕ → RestartArgs → World → Result String (RunHandle × String)
unfolding find_run live_proposal
restart_checks wall args w = elim (find_run args.run_id w.server) [
  | none ↦ err "unknown_run"
  | some run ↦
      if is_finished run
      then err "run_finished"
      else if not (is_some (get args.worker_id run.restart_signals))
      then err "unknown_worker"
      else elim (live_proposal wall args w.approvals) [
        | err code ↦ err code
        | ok proposal_id ↦ ok (run, proposal_id)
      ]
]

abbrev pub with_book : RestartBook → RunHandle → RunHandle
with_book book run = record run { restart_book = book }

-- `restart_payload` up to `accept_restart`: the proposal that is to be spent.
unfoldable pub begin_restart : ℕ → ℕ → RestartArgs → World → Result String String × World
unfolding restart_checks accept_restart change_run
begin_restart wall instant args w = elim (restart_checks wall args w) [
  | err code ↦ (err code, w)
  | ok (run, proposal_id) ↦
      let r = accept_restart instant args.worker_id run.fleet run.restart_book in
      let w' = change_run args.run_id (with_book r.1) w in
      elim r.0 [ err code ↦ (err code, w') | ok _ ↦ (ok proposal_id, w') ]
]

-- `notify_one`: the permit is stored.
abbrev pub notified : String → RunHandle → RunHandle
notified worker_id run = record run { restart_signals = insert worker_id true run.restart_signals }

-- The rest of it: the approval is spent, and the supervisor is signalled.
unfoldable pub finish_restart : ℕ → RestartArgs → String → World → Result String (Unit {0}) × World
unfolding consume error_code change_run
finish_restart wall args proposal_id w =
    let r = consume wall proposal_id args.worker_id w.approvals in
    let w' = record w { approvals = r.1 } in
    elim r.0 [
      | err e ↦ (err (error_code e), w')
      | ok _ ↦ (ok tt, change_run args.run_id (notified args.worker_id) w')
    ]

-- `restart_payload` where nothing comes between.
unfoldable pub restart_payload : ℕ → ℕ → ℕ → RestartArgs → World → Result String (Unit {0}) × World
unfolding begin_restart finish_restart
restart_payload wall instant wall' args w =
    let b = begin_restart wall instant args w in
    elim b.0 [
      | err code ↦ (err code, b.1)
      | ok proposal_id ↦ finish_restart wall' args proposal_id b.1
    ]

pub record DrainArgs : Type 0 where
  pub run_id : String
  pub kind : Option String
  pub worker_id : Option String
  pub proposal_id : Option String

-- The gate of `drain_payload` for a run that does not drain yet.
unfoldable pub pass_gate :
    ℕ → DrainArgs → ApprovalRegistry → Result String (Unit {0}) × ApprovalRegistry
unfolding require_proposal given validate_drain_request error_code
pass_gate wall args r = elim (require_proposal args.proposal_id) [
  | err code ↦ (err code, r)
  | ok proposal_id ↦ elim (given args.worker_id) [
    | none ↦ (err "invalid_request", r)
    | some worker_id ↦
        let v = validate_drain_request wall worker_id proposal_id none r in
        elim v.0 [ err e ↦ (err (error_code e), v.1) | ok _ ↦ (ok tt, v.1) ]
  ]
]

abbrev pub drained : ShutdownKind → RunHandle → RunHandle
unfolding begin_drain
drained kind run = record run { drain = begin_drain kind run.drain }

-- What `drain_payload` reports before it waits.
pub record DrainReply : Type 0 where
  pub kind : ShutdownKind
  pub already : Bool

-- A run that already drains needs no approval, and spends none.
unfoldable pub drain_gate :
    ℕ → DrainArgs → Bool → ApprovalRegistry → Result String (Unit {0}) × ApprovalRegistry
unfolding pass_gate
drain_gate wall args true r = (ok tt, r)
drain_gate wall args false r = pass_gate wall args r

-- From the gate on, for a run of which `already` tells whether it drains.
unfoldable pub drain_run :
    ℕ → DrainArgs → ShutdownKind → Bool → World → Result String DrainReply × World
unfolding drain_gate change_run
drain_run wall args kind already w =
    let gate = drain_gate wall args already w.approvals in
    let w' = record w { approvals = gate.1 } in
    elim gate.0 [
      | err code ↦ (err code, w')
      | ok _ ↦
          (ok (record { kind = kind; already = already }), change_run args.run_id (drained kind) w')
    ]

-- `drain_payload` up to `begin_drain`. The look at `is_draining`, the gate and `begin_drain` are one step
-- here; the source takes them one after another.
unfoldable pub drain_payload : ℕ → DrainArgs → World → Result String DrainReply × World
unfolding find_run parse_drain_kind is_draining drain_run
drain_payload wall args w = elim (find_run args.run_id w.server) [
  | none ↦ (err "unknown_run", w)
  | some run ↦ elim (parse_drain_kind args.kind) [
    | err code ↦ (err code, w)
    | ok kind ↦ drain_run wall args kind (is_draining run.drain) w
  ]
]

-- The wait of `drain_payload`, and whether it timed out: `clock` gives the time of each pass, `finished`
-- whether the run has finished at a time; `none` is out of fuel.
unfoldable pub wait_finished : ℕ → (ℕ → ℕ) → (ℕ → Bool) → ℕ → ℕ → Option Bool
wait_finished zero clock finished deadline pass = none
wait_finished (suc fuel) clock finished deadline pass =
    let rest = wait_finished fuel clock finished deadline (suc pass) in
    if finished (clock pass)
    then some false
    else if leb deadline (clock pass)
    then some true
    else rest

pub record ApproveArgs : Type 0 where
  pub proposal_id : String
  pub worker_id : String
  pub decision : Option String

unfoldable pub approve_payload :
    ℕ → ApproveArgs → World → Option (Result String GateDecision × World)
unfolding trimmed parse_gate_decision approve
approve_payload wall args w =
    let proposal_id = trimmed args.proposal_id in
    let worker_id = trimmed args.worker_id in
    if is_empty_text proposal_id || is_empty_text worker_id
    then some (err "invalid_request", w)
    else elim (parse_gate_decision args.decision) [
      | err code ↦ some (err code, w)
      | ok decision ↦ elim (approve wall proposal_id worker_id decision w.approvals) [
        | none ↦ none
        | some r ↦ some (ok decision, record w { approvals = r })
      ]
    ]
