-- ===== src/Mcp/Actions/Tokens/Simulation.antt =====
-- The tool calls of src/mcp.rs, step by step, in the account of tokens.
use malkuth.Prelude.{
  Bool-cases, Option-cases, Result-cases, ℕ_key, string_key, ◌==◌, eq_iff, eq_refl, count_by,
  count_by-append, ℕ, ◌+◌, ◌≤◌, ◌<◌, String, ◌≡◌, refl, sym, ap, subst, ◌∙◌, inl, inr, Bool, true,
  false, ◌&&◌, ◌||◌, none, List, [], ◌∷◌, ◌++◌, arith,
}
use malkuth.Lifecycle.{ShutdownKind, is_draining}
use malkuth.DrainAuth.{ApprovalRegistry, is_block, consume, approve, validate_drain_request}
use malkuth.DrainAuth.History.{once, same, avail, consume-avail, approve-avail, drain-avail}
use malkuth.Mcp.Restarts.{accept_restart, is_ok}
use malkuth.Mcp.Runs.{find_run}
use malkuth.Mcp.Arguments.{
  parse_gate_decision, parse_drain_kind, trimmed, given, is_empty_text, require_proposal,
}
use malkuth.Mcp.Actions.{
  World, RestartArgs, DrainArgs, ApproveArgs, restart_checks, begin_restart, finish_restart,
  pass_gate, drain_gate, drain_run, drain_payload, approve_payload, change_run,
}
use malkuth.Mcp.Actions.Tokens.{
  Token, Label, acts, silent, Step, grant, spend, idle, Steps, done, next, ToolCall, approve_called,
  restart_begun, restart_finished, drain_called, runs_changed, on_tool_call, or_empty, drain_label,
  label, labels, on_tool_calls,
}

abbrev is_token : String → String → Token → Bool
is_token p w t = same p w t.0 t.1

-- Every approval that could still be spent has a token.
abbrev pub Covered : List Token → ApprovalRegistry → Type 0
Covered ts r = (p w : String) → avail p w r.entries ≤ count_by (is_token p w) ts

-- A token that is in the bag can be taken out.
take_token :
    (p w : String) (ts : List Token)
    → 0 < count_by (is_token p w) ts
    → (us : List Token) × (vs : List Token) × (ts ≡ us ++ (p, w) ∷ vs)
take_token p w [] h = absurd (omega (arith, h))
take_token p w ((q, v) ∷ ts) h = elim (Bool-cases (same p w q v)) [
  | inl e ↦
      let parts : ((q == p) ≡ true) × ((v == w) ≡ true) = ground (arith, e) in
      let q_is : q ≡ p = (eq_iff q p).0 parts.0 in
      let v_is : v ≡ w = (eq_iff v w).0 parts.1 in ([], ts, λ i. (q_is i, v_is i) ∷ ts)
  | inr e ↦
      let (us, vs, eq) = take_token p w ts (omega (arith, rw e at h)) in
      ((q, v) ∷ us, vs, ap (λ l. (q, v) ∷ l) eq)
]

abbrev Simulated : List Token → Label → ApprovalRegistry → Type 0
Simulated ts l r = (us : List Token) × Step ts l us × Covered us r

spend_step :
    (p w : String) (ts : List Token) (r r' : ApprovalRegistry)
    → ((q v : String) → once (same q v p w) + avail q v r'.entries ≤ avail q v r.entries)
    → Covered ts r
    → Simulated ts (acts (p, w)) r'
spend_step p w ts r r' less c =
    let me : once (same p w p w) ≡ 1 = ground (arith, eq_refl p, eq_refl w) in
    let (us, vs, e) = take_token p w ts (omega (arith, me, less p w, c p w)) in
    (
      us ++ vs,
      subst (λ l. Step l (acts (p, w)) (us ++ vs)) (sym e) (spend (p, w) us vs),
      λ q v.
          let counted =
            ap (count_by (is_token q v)) e ∙ count_by-append (is_token q v) us ((p, w) ∷ vs) in
          ground (arith, counted, count_by-append (is_token q v) us vs, less q v, c q v),
    )

idle_step :
    (ts : List Token) (r r' : ApprovalRegistry)
    → ((q v : String) → avail q v r'.entries ≤ avail q v r.entries)
    → Covered ts r
    → Simulated ts silent r'
idle_step ts r r' less c = (ts, idle ts, λ q v. omega (arith, less q v, c q v))

approve_step :
    (wall : ℕ) (args : ApproveArgs) (w : World) (ts : List Token)
    → Covered ts w.approvals
    → Simulated ts
        (label (approve_called wall args) w)
        (on_tool_call (approve_called wall args) w).approvals
unfolding label on_tool_call approve_payload
approve_step wall args w ts c =
    let p = trimmed args.proposal_id in
    let v = trimmed args.worker_id in
    let nothing = idle_step ts w.approvals w.approvals (λ q v. omega arith) c in
    elim (Bool-cases (is_empty_text p || is_empty_text v)) [
      | inl e ↦ rw e nothing
      | inr e ↦ elim (Result-cases (parse_gate_decision args.decision)) [
        | inl (code, d) ↦ rw e (rw d nothing)
        | inr (decision, d) ↦ elim (Option-cases (approve wall p v decision w.approvals)) [
          | inl a ↦ rw e (rw d (rw a nothing))
          | inr (r', a) ↦
              let more =
                λ (q : String) (u : String). approve-avail wall q u p v decision w.approvals r' a in
              rw e (
                rw d (
                  rw a (elim (Bool-cases (is_block decision)) [
                    | inl b ↦
                        rw b (idle_step ts w.approvals r' (λ q u. ground (arith, b, more q u)) c)
                    | inr b ↦
                        rw b
                          ((p, v) ∷ ts, grant (p, v) ts, λ q u. ground (arith, b, more q u, c q u))
                  ])))
        ]
      ]
    ]

restart_step :
    (wall : ℕ) (args : RestartArgs) (p : String) (w : World) (ts : List Token)
    → Covered ts w.approvals
    → Simulated ts
        (label (restart_finished wall args p) w)
        (on_tool_call (restart_finished wall args p) w).approvals
unfolding label on_tool_call finish_restart change_run
restart_step wall args p w ts c =
    let r = consume wall p args.worker_id w.approvals in
    let less = λ (q : String) (u : String). consume-avail wall q u p args.worker_id w.approvals in
    elim (Result-cases (r.0)) [
      | inl (e, refused) ↦
          rw (refused, label, on_tool_call, finish_restart)
            (idle_step ts w.approvals r.1 (λ q u. omega (arith, less q u)) c)
      | inr (_, ok_) ↦
          rw (ok_, label, on_tool_call, finish_restart)
            (spend_step p args.worker_id ts w.approvals r.1 (λ q u. ground (arith, ok_, less q u))
              c)
    ]

pub begin_restart-approvals :
    (wall instant : ℕ) (args : RestartArgs) (w : World)
    → (begin_restart wall instant args w).1.approvals ≡ w.approvals
unfolding begin_restart change_run
begin_restart-approvals wall instant args w = elim (Result-cases (restart_checks wall args w)) [
  | inl (code, e) ↦ rw (e, begin_restart) refl
  | inr ((run, p), e) ↦
      elim (Result-cases ((accept_restart instant args.worker_id run.fleet run.restart_book).0)) [
        | inl (code, a) ↦ rw (e, begin_restart) (rw a refl)
        | inr (_, a) ↦ rw (e, begin_restart) (rw a refl)
      ]
]

-- What passes the gate was spent for the pair that is named.
pass_gate-avail :
    (wall : ℕ) (args : DrainArgs) (r : ApprovalRegistry) (q u : String)
    → once (
          is_ok (pass_gate wall args r).0
          && same q u (or_empty (given args.proposal_id)) (or_empty (given args.worker_id)))
        + avail q u (pass_gate wall args r).1.entries
      ≤ avail q u r.entries
unfolding pass_gate require_proposal
pass_gate-avail wall args r q u = elim (Option-cases (given args.proposal_id)) [
  | inl a ↦ rw (a, pass_gate, require_proposal) (omega arith)
  | inr (p, a) ↦ elim (Option-cases (given args.worker_id)) [
    | inl b ↦ rw (a, pass_gate, require_proposal) (rw b (omega arith))
    | inr (v, b) ↦
        let less = drain-avail wall q u p v none r in
        elim (Result-cases ((validate_drain_request wall v p none r).0)) [
          | inl (e, g) ↦
              rw (a, pass_gate, require_proposal) (rw b (rw g (omega (arith, rw g at less))))
          | inr (_, g) ↦ rw (a, pass_gate, require_proposal) (rw b (rw g (rw g at less)))
        ]
  ]
]

drain_run_step :
    (wall : ℕ) (args : DrainArgs) (kind : ShutdownKind) (already : Bool) (w : World)
    (ts : List Token)
    → Covered ts w.approvals
    → Simulated ts
        (drain_label
          (or_empty (given args.proposal_id), or_empty (given args.worker_id))
          (drain_run wall args kind already w).0)
        (drain_run wall args kind already w).1.approvals
unfolding drain_run drain_gate change_run
drain_run_step wall args kind true w ts c =
    idle_step ts w.approvals w.approvals (λ q v. omega arith) c
drain_run_step wall args kind false w ts c =
    let less = pass_gate-avail wall args w.approvals in
    let gate = pass_gate wall args w.approvals in
    elim (Result-cases (gate.0)) [
      | inl (code, g) ↦
          rw (g, drain_label, drain_run, drain_gate)
            (idle_step ts w.approvals gate.1 (λ q u. omega (arith, less q u)) c)
      | inr (_, g) ↦
          rw (g, drain_label, drain_run, drain_gate)
            (spend_step (or_empty (given args.proposal_id)) (or_empty (given args.worker_id)) ts
              w.approvals gate.1 (λ q u. rw g at less q u) c)
    ]

drain_step :
    (wall : ℕ) (args : DrainArgs) (w : World) (ts : List Token)
    → Covered ts w.approvals
    → Simulated ts
        (label (drain_called wall args) w)
        (on_tool_call (drain_called wall args) w).approvals
unfolding label on_tool_call drain_payload
drain_step wall args w ts c =
    let nothing = idle_step ts w.approvals w.approvals (λ q v. omega arith) c in
    elim (Option-cases (find_run args.run_id w.server)) [
      | inl f ↦ rw (f, label, on_tool_call, drain_payload) nothing
      | inr (run, f) ↦ elim (Result-cases (parse_drain_kind args.kind)) [
        | inl (code, k) ↦ rw (f, label, on_tool_call, drain_payload) (rw k nothing)
        | inr (kind, k) ↦
            rw (f, label, on_tool_call, drain_payload)
              (rw k (drain_run_step wall args kind (is_draining run.drain) w ts c))
      ]
    ]

tool_call_step :
    (e : ToolCall) (w : World) (ts : List Token)
    → Covered ts w.approvals
    → Simulated ts (label e w) (on_tool_call e w).approvals
unfolding label on_tool_call
tool_call_step (approve_called wall args) w ts c = approve_step wall args w ts c
tool_call_step (restart_begun wall instant args) w ts c =
    idle_step ts w.approvals (begin_restart wall instant args w).1.approvals
      (λ q u. rw (begin_restart-approvals wall instant args w) (omega arith)) c
tool_call_step (restart_finished wall args p) w ts c = restart_step wall args p w ts c
tool_call_step (drain_called wall args) w ts c = drain_step wall args w ts c
tool_call_step (runs_changed f) w ts c = idle_step ts w.approvals w.approvals (λ q v. omega arith) c

-- The gated actions refine the account of tokens: whatever requests reach the server, in whatever order and
-- at whatever times, each approval, each restart that is signalled and each drain that is started is a
-- step of the account, in which an action takes a token of its own proposal and worker out of the bag.
pub on_tool_calls_refines_tokens :
    (es : List ToolCall) (w : World) (ts : List Token)
    → Covered ts w.approvals
    → (us : List Token) × Steps ts (labels es w) us × Covered us (on_tool_calls es w).approvals
unfolding labels on_tool_calls
on_tool_calls_refines_tokens [] w ts c = (ts, done ts, c)
on_tool_calls_refines_tokens (e ∷ es) w ts c =
    let (us, step, c') = tool_call_step e w ts c in
    let (vs, steps, c'') = on_tool_calls_refines_tokens es (on_tool_call e w) us c' in
    (vs, next step steps, c'')
