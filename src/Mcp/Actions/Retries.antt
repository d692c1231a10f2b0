-- ===== src/Mcp/Actions/Retries.antt =====
-- A further `drain_payload` of src/mcp.rs for a run that drains already, some tool calls later.
use malkuth.Prelude.{
  Bool-cases, Option-cases, Result-cases, ℕ_key, string_key, ◌==◌, All, ok, ℕ, String, ◌≡◌, refl,
  sym, ap, subst, ◌∙◌, inl, inr, true, ◌||◌, some, List, [], ◌∷◌, arith,
}
use malkuth.Lifecycle.{
  ShutdownKind, graceful, immediate, reload, begin_drain, is_draining, kind_of, Controller,
}
use malkuth.DrainAuth.{consume}
use malkuth.Mcp.Restarts.{accept_restart}
use malkuth.Mcp.Runs.{RunHandle, Server, has_id, find, find_run, update_run}
use malkuth.Mcp.Arguments.{parse_drain_kind, parse_gate_decision, trimmed, is_empty_text}
use malkuth.Mcp.Actions.{
  World, change_run, RestartArgs, restart_checks, begin_restart, finish_restart, with_book,
  notified, DrainArgs, DrainReply, drained, drain_gate, drain_run, drain_payload, ApproveArgs,
  approve_payload,
}
use malkuth.DrainAuth.{approve}
use malkuth.Mcp.Actions.Tokens.{
  ToolCall, approve_called, restart_begun, restart_finished, drain_called, runs_changed,
  on_tool_call, on_tool_calls, world_or,
}
use malkuth.Mcp.Actions.Refusals.{find-update_run_self}
use malkuth.Mcp.Actions.Drains.{drain_payload-ok}

-- The run of this id is there and drains.
abbrev pub Draining : String → Server → Type 0
Draining id s = (run : RunHandle) × (find_run id s ≡ some run) × (is_draining run.drain ≡ true)

-- A change of a run that leaves its id, and a drain under way.
abbrev KeepsDrain : (RunHandle → RunHandle) → Type 0
KeepsDrain f =
    (r : RunHandle)
    → ((f r).run_id ≡ r.run_id) × (is_draining r.drain ≡ true → is_draining (f r).drain ≡ true)

update_run-Draining :
    (id k : String) (f : RunHandle → RunHandle) (runs : List RunHandle) (run : RunHandle)
    → KeepsDrain f
    → find (has_id k) runs ≡ some run
    → is_draining run.drain ≡ true
    → (run' : RunHandle) × (find (has_id k) (update_run id f runs) ≡ some run')
      × (is_draining run'.drain ≡ true)
unfolding find update_run
update_run-Draining id k f [] run keeps h d = absurd (cc h)
update_run-Draining id k f (r ∷ runs) run keeps h d =
    let same_id : has_id k (f r) ≡ has_id k r = ap (λ i. i == k) (keeps r).0 in
    elim (Bool-cases (has_id k r)) [
      | inl e ↦
          let first : some r ≡ some run = rw e at h in
          let is_run : r ≡ run = cc first in
          let drains : is_draining r.drain ≡ true =
            subst (λ (x : RunHandle). is_draining x.drain ≡ true) (sym is_run) d in
          elim (Bool-cases (has_id id r)) [
            | inl u ↦ (f r, rw u (rw (same_id ∙ e) refl), (keeps r).1 drains)
            | inr u ↦ (r, rw u (rw e refl), drains)
          ]
      | inr e ↦
          let later : find (has_id k) runs ≡ some run = rw e at h in
          elim (Bool-cases (has_id id r)) [
            | inl u ↦ (run, rw u (rw (same_id ∙ e) later), d)
            | inr u ↦
                let (run', there, drains) = update_run-Draining id k f runs run keeps later d in
                (run', rw u (rw e there), drains)
          ]
    ]

change_run-Draining :
    (id k : String) (f : RunHandle → RunHandle) (w : World)
    → KeepsDrain f
    → Draining k w.server
    → Draining k (change_run id f w).server
unfolding change_run find_run
change_run-Draining id k f w keeps (run, there, d) =
    update_run-Draining id k f w.server.runs run keeps there d

begin_restart-Draining :
    (wall instant : ℕ) (args : RestartArgs) (w : World) (k : String)
    → Draining k w.server
    → Draining k (begin_restart wall instant args w).1.server
unfolding begin_restart
begin_restart-Draining wall instant args w k h = elim (Result-cases (restart_checks wall args w)) [
  | inl (code, e) ↦ rw (e, begin_restart) h
  | inr ((run, p), e) ↦
      let book = (accept_restart instant args.worker_id run.fleet run.restart_book).1 in
      let out = change_run-Draining args.run_id k (with_book book) w (λ r. (refl, λ d. d)) h in
      elim (Result-cases ((accept_restart instant args.worker_id run.fleet run.restart_book).0)) [
        | inl (code, a) ↦ rw (e, begin_restart) (rw a out)
        | inr (_, a) ↦ rw (e, begin_restart) (rw a out)
      ]
]

finish_restart-Draining :
    (wall : ℕ) (args : RestartArgs) (p : String) (w : World) (k : String)
    → Draining k w.server
    → Draining k (finish_restart wall args p w).1.server
unfolding finish_restart
finish_restart-Draining wall args p w k h =
    elim (Result-cases ((consume wall p args.worker_id w.approvals).0)) [
      | inl (e, c) ↦ rw (c, finish_restart) h
      | inr (_, c) ↦
          let w' = record w { approvals = (consume wall p args.worker_id w.approvals).1 } in
          rw (c, finish_restart)
            (change_run-Draining args.run_id k (notified args.worker_id) w' (λ r. (refl, λ d. d)) h)
    ]

drained-KeepsDrain : (kind : ShutdownKind) → KeepsDrain (drained kind)
unfolding drained begin_drain is_draining
drained-KeepsDrain kind r = (refl, λ d. ground (arith, d))

drain_payload-Draining :
    (wall : ℕ) (args : DrainArgs) (w : World) (k : String)
    → Draining k w.server
    → Draining k (drain_payload wall args w).1.server
unfolding drain_payload drain_run
drain_payload-Draining wall args w k h = elim (Option-cases (find_run args.run_id w.server)) [
  | inl f ↦ rw (f, drain_payload) h
  | inr (run, f) ↦ elim (Result-cases (parse_drain_kind args.kind)) [
    | inl (code, p) ↦ rw (f, drain_payload) (rw p h)
    | inr (kind, p) ↦
        let gate = drain_gate wall args (is_draining run.drain) w.approvals in
        let w' = record w { approvals = gate.1 } in
        elim (Result-cases (gate.0)) [
          | inl (code, g) ↦ rw (f, drain_payload) (rw p (rw (g, drain_run) h))
          | inr (_, g) ↦
              rw (f, drain_payload)
                (rw p (
                  rw (g, drain_run)
                    (change_run-Draining args.run_id k (drained kind) w' (drained-KeepsDrain kind)
                      h)))
        ]
  ]
]

approve_payload-server :
    (wall : ℕ) (args : ApproveArgs) (w : World)
    → (world_or w (approve_payload wall args w)).server ≡ w.server
unfolding approve_payload
approve_payload-server wall args w =
    let p = trimmed args.proposal_id in
    let v = trimmed args.worker_id in
    elim (Bool-cases (is_empty_text p || is_empty_text v)) [
      | inl e ↦ rw e refl
      | inr e ↦ elim (Result-cases (parse_gate_decision args.decision)) [
        | inl (code, d) ↦ rw e (rw d refl)
        | inr (decision, d) ↦ elim (Option-cases (approve wall p v decision w.approvals)) [
          | inl a ↦ rw e (rw d (rw a refl))
          | inr (r, a) ↦ rw e (rw d (rw a refl))
        ]
      ]
    ]

-- What else happens to the runs leaves this one there, and draining.
abbrev pub LeavesDraining : String → ToolCall → Type 0
LeavesDraining id (approve_called _ _) = Unit {0}
LeavesDraining id (restart_begun _ _ _) = Unit {0}
LeavesDraining id (restart_finished _ _ _) = Unit {0}
LeavesDraining id (drain_called _ _) = Unit {0}
LeavesDraining id (runs_changed f) = (s : Server) → Draining id s → Draining id (f s)

on_tool_call-Draining :
    (e : ToolCall) (w : World) (k : String)
    → LeavesDraining k e
    → Draining k w.server
    → Draining k (on_tool_call e w).server
unfolding on_tool_call
on_tool_call-Draining (approve_called wall args) w k l h =
    subst (Draining k) (sym (approve_payload-server wall args w)) h
on_tool_call-Draining (restart_begun wall instant args) w k l h =
    begin_restart-Draining wall instant args w k h
on_tool_call-Draining (restart_finished wall args p) w k l h =
    finish_restart-Draining wall args p w k h
on_tool_call-Draining (drain_called wall args) w k l h = drain_payload-Draining wall args w k h
on_tool_call-Draining (runs_changed f) w k l h = l w.server h

on_tool_calls-Draining :
    (es : List ToolCall) (w : World) (k : String)
    → All (LeavesDraining k) es
    → Draining k w.server
    → Draining k (on_tool_calls es w).server
unfolding on_tool_calls
on_tool_calls-Draining [] w k l h = h
on_tool_calls-Draining (e ∷ es) w k l h =
    on_tool_calls-Draining es (on_tool_call e w) k l.1 (on_tool_call-Draining e w k l.0 h)

kind_of-begin_drain :
    (kind : ShutdownKind) (c : Controller) → kind_of (begin_drain kind c) ≡ some kind
unfolding kind_of begin_drain
kind_of-begin_drain graceful c = refl
kind_of-begin_drain immediate c = refl
kind_of-begin_drain reload c = refl

-- A drain of a run that drains already.
drain_payload_step :
    (wall : ℕ) (args : DrainArgs) (w : World) (run : RunHandle) (kind : ShutdownKind)
    → find_run args.run_id w.server ≡ some run
    → is_draining run.drain ≡ true
    → parse_drain_kind args.kind ≡ ok kind
    → drain_payload wall args w
      ≡ (ok (record { kind = kind; already = true }), change_run args.run_id (drained kind) w)
unfolding drain_payload drain_run drain_gate
drain_payload_step wall args w run kind f d k = rw (f, drain_payload) (rw k (rw d refl))

drain_again :
    (wall : ℕ) (args : DrainArgs) (w : World) (run : RunHandle) (kind : ShutdownKind)
    → find_run args.run_id w.server ≡ some run
    → is_draining run.drain ≡ true
    → parse_drain_kind args.kind ≡ ok kind
    → ((drain_payload wall args w).0 ≡ ok (record { kind = kind; already = true }))
      × ((drain_payload wall args w).1.approvals ≡ w.approvals)
      × ((run' : RunHandle) × (find_run args.run_id (drain_payload wall args w).1.server
            ≡ some run')
          × (is_draining run'.drain ≡ true)
          × (kind_of run'.drain ≡ some kind))
unfolding change_run find_run drained
drain_again wall args w run kind f d k =
    let there =
      find-update_run_self args.run_id (drained kind) w.server.runs run
        (λ r. (drained-KeepsDrain kind r).0) f in
    rw (drain_payload_step wall args w run kind f d k) (
      refl,
      refl,
      (
        drained kind run,
        there,
        (drained-KeepsDrain kind run).1 d,
        kind_of-begin_drain kind run.drain,
      ),
    )

-- A retry of a drain is accepted and spends nothing, but is not without effect. After a drain of a run was
-- accepted, whatever tool calls came since, and whatever else happened to the runs as long as that left
-- this one in the registry and draining: a further drain of it with a supported kind is answered as already
-- under way, whatever approval it names or none, leaves all approvals as they are, and stores its own kind
-- in the place of the one before.
pub drain_payload_again :
    (wall wall' : ℕ) (args again : DrainArgs) (w : World) (reply : DrainReply) (kind : ShutdownKind)
    (es : List ToolCall)
    → (drain_payload wall args w).0 ≡ ok reply
    → All (LeavesDraining args.run_id) es
    → again.run_id ≡ args.run_id
    → parse_drain_kind again.kind ≡ ok kind
    → let before = on_tool_calls es (drain_payload wall args w).1 in
      let after = drain_payload wall' again before in
      (after.0 ≡ ok (record { kind = kind; already = true }))
      × (after.1.approvals ≡ before.approvals)
      × ((run : RunHandle) × (find_run again.run_id after.1.server ≡ some run)
          × (is_draining run.drain ≡ true)
          × (kind_of run.drain ≡ some kind))
drain_payload_again wall wall' args again w reply kind es h l same k =
    let (run, f, d) =
      on_tool_calls-Draining es (drain_payload wall args w).1 args.run_id l
        (drain_payload-ok wall args w reply h) in
    drain_again wall' again (on_tool_calls es (drain_payload wall args w).1) run kind (rw same f) d
      k
