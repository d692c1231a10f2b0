-- ===== src/Mcp/Actions/Refusals.antt =====
-- What `restart_payload` of src/mcp.rs spends, and when.
use malkuth.Prelude.{
  Bool-cases, Option-cases, Result-cases, is_some, ℕ_key, string_key, ◌==◌, get, get-insert_self,
  ok, ◌>>◌, ℕ, String, ◌≡◌, refl, sym, ap, subst, ◌∙◌, ◌⊎◌, inl, inr, Bool, true, false, some, List,
  [], ◌∷◌,
}
use malkuth.DrainAuth.{
  ApprovalStatus, approved, expired, consumed, blocked, unknown, ApprovalRegistry, status, consume,
}
use malkuth.DrainAuth.Gate.{granted, verdict, consume-verdict, consume_refused}
use malkuth.DrainAuth.Spend.{consume-consumed}
use malkuth.Mcp.Restarts.{accept_restart, is_ok}
use malkuth.Mcp.Runs.{RunHandle, is_finished, has_id, find, find_run, update_run}
use malkuth.Mcp.Arguments.{require_proposal}
use malkuth.Mcp.Actions.{
  World, change_run, RestartArgs, live_approval, live_proposal, restart_checks, with_book, notified,
  begin_restart, finish_restart, restart_payload,
}
use malkuth.Mcp.Actions.Tokens.Simulation.{begin_restart-approvals}

pub find-update_run_self :
    (id : String) (f : RunHandle → RunHandle) (runs : List RunHandle) (run : RunHandle)
    → ((r : RunHandle) → (f r).run_id ≡ r.run_id)
    → find (has_id id) runs ≡ some run
    → find (has_id id) (update_run id f runs) ≡ some (f run)
unfolding find update_run
find-update_run_self id f [] run keeps h = absurd (cc h)
find-update_run_self id f (r ∷ runs) run keeps h = elim (Bool-cases (has_id id r)) [
  | inl e ↦
      let same : some r ≡ some run = rw e at h in
      let kept : has_id id (f r) ≡ true = ap (λ i. i == id) (keeps r) ∙ e in
      rw e (rw kept (ap (λ o. some (f o)) (cc same)))
  | inr e ↦ rw e (rw e (find-update_run_self id f runs run keeps (rw e at h)))
]

-- A restart that is refused, for whatever reason and however far it came, leaves every approval as it was.
pub restart_refused_unspent :
    (wall instant wall' : ℕ) (args : RestartArgs) (w : World)
    → is_ok (restart_payload wall instant wall' args w).0 ≡ false
    → (restart_payload wall instant wall' args w).1.approvals ≡ w.approvals
unfolding restart_payload finish_restart change_run
restart_refused_unspent wall instant wall' args w h =
    let b = begin_restart wall instant args w in
    let kept = begin_restart-approvals wall instant args w in
    elim (Result-cases (b.0)) [
      | inl (code, e) ↦ rw (e, restart_payload) kept
      | inr (p, e) ↦ elim (Result-cases ((consume wall' p args.worker_id b.1.approvals).0)) [
        | inr (_, c) ↦ absurd (cc (rw (c, finish_restart) at (rw (e, restart_payload) at h)))
        | inl (code, c) ↦
            let same : (consume wall' p args.worker_id b.1.approvals).1 ≡ b.1.approvals =
              consume_refused wall' p args.worker_id b.1.approvals (ap granted c) in
            rw (e, restart_payload) (rw (c, finish_restart) (same ∙ kept))
      ]
    ]

live_approval-approved :
    (s : ApprovalStatus) (q p : String)
    → (live_approval s >> ok q) ≡ ok p
    → (s ≡ approved) × (q ≡ p)
unfolding live_approval
live_approval-approved approved q p h = (refl, cc h)
live_approval-approved expired q p h = absurd (cc h)
live_approval-approved consumed q p h = absurd (cc h)
live_approval-approved blocked q p h = absurd (cc h)
live_approval-approved unknown q p h = absurd (cc h)

live_proposal-status :
    (wall : ℕ) (args : RestartArgs) (r : ApprovalRegistry) (p : String)
    → live_proposal wall args r ≡ ok p
    → status wall p args.worker_id r ≡ approved
unfolding live_proposal
live_proposal-status wall args r p h = elim (Result-cases (require_proposal args.proposal_id)) [
  | inl (code, e) ↦ absurd (cc (rw (e, live_proposal) at h))
  | inr (q, e) ↦
      let (s, same) =
        live_approval-approved (status wall q args.worker_id r) q p (rw (e, live_proposal) at h) in
      subst (λ n. status wall n args.worker_id r ≡ approved) same s
]

restart_checks-ok :
    (wall : ℕ) (args : RestartArgs) (w : World) (run : RunHandle) (p : String)
    → restart_checks wall args w ≡ ok (run, p)
    → (find_run args.run_id w.server ≡ some run)
      × (is_finished run ≡ false)
      × (status wall p args.worker_id w.approvals ≡ approved)
unfolding restart_checks
restart_checks-ok wall args w run p h = elim (Option-cases (find_run args.run_id w.server)) [
  | inl f ↦ absurd (cc (rw (f, restart_checks) at h))
  | inr (r, f) ↦ elim (Bool-cases (is_finished r)) [
    | inl d ↦ absurd (cc (rw d at (rw (f, restart_checks) at h)))
    | inr d ↦ elim (Bool-cases (is_some (get args.worker_id r.restart_signals))) [
      | inr g ↦ absurd (cc (rw g at (rw d at (rw (f, restart_checks) at h))))
      | inl g ↦ elim (Result-cases (live_proposal wall args w.approvals)) [
        | inl (code, l) ↦ absurd (cc (rw l at (rw g at (rw d at (rw (f, restart_checks) at h)))))
        | inr (q, l) ↦
            let both : ok (r, q) ≡ ok (run, p) =
              rw l at (rw g at (rw d at (rw (f, restart_checks) at h))) in
            let same : (r, q) ≡ (run, p) = cc both in
            let r_is : r ≡ run = ap (λ (z : RunHandle × String). z.0) same in
            let q_is : q ≡ p = ap (λ (z : RunHandle × String). z.1) same in
            (
              f ∙ ap some r_is,
              subst (λ x. is_finished x ≡ false) r_is d,
              live_proposal-status wall args w.approvals p (l ∙ ap ok q_is),
            )
      ]
    ]
  ]
]

begin_restart-ok :
    (wall instant : ℕ) (args : RestartArgs) (w : World) (p : String)
    → (begin_restart wall instant args w).0 ≡ ok p
    → (run : RunHandle) × (restart_checks wall args w ≡ ok (run, p))
      × (is_ok (accept_restart instant args.worker_id run.fleet run.restart_book).0 ≡ true)
      × ((begin_restart wall instant args w).1
          ≡ change_run args.run_id
              (with_book (accept_restart instant args.worker_id run.fleet run.restart_book).1)
              w)
unfolding begin_restart
begin_restart-ok wall instant args w p h = elim (Result-cases (restart_checks wall args w)) [
  | inl (code, e) ↦ absurd (cc (rw (e, begin_restart) at h))
  | inr ((run, q), e) ↦
      elim (Result-cases ((accept_restart instant args.worker_id run.fleet run.restart_book).0)) [
        | inl (code, a) ↦ absurd (cc (rw a at (rw (e, begin_restart) at h)))
        | inr (u, a) ↦
            let z : ok q ≡ ok p = rw a at (rw (e, begin_restart) at h) in
            let q_is : q ≡ p = cc z in
            (run, e ∙ ap (λ n. ok (run, n)) q_is, ap is_ok a, rw (e, begin_restart) (rw a refl))
      ]
]

abbrev pub is_approved_status : ApprovalStatus → Bool
is_approved_status approved = true
is_approved_status expired = false
is_approved_status consumed = false
is_approved_status blocked = false
is_approved_status unknown = false

granted-verdict : (s : ApprovalStatus) → granted (verdict s) ≡ is_approved_status s
granted-verdict approved = refl
granted-verdict expired = refl
granted-verdict consumed = refl
granted-verdict blocked = refl
granted-verdict unknown = refl

is_approved_status-approved : (s : ApprovalStatus) → is_approved_status s ≡ true → s ≡ approved
is_approved_status-approved approved h = refl
is_approved_status-approved expired h = absurd (cc h)
is_approved_status-approved consumed h = absurd (cc h)
is_approved_status-approved blocked h = absurd (cc h)
is_approved_status-approved unknown h = absurd (cc h)

-- A restart whose checks were passed and which the book has accepted, with no other request between its
-- steps. If its approval is still live when it is to be spent, which is read off the clock again, the
-- restart is answered with success, the approval is spent (the registry it leaves reports it consumed at
-- any time), and the supervisor of the worker finds the signal stored. If it is not live then, the restart
-- is refused and nothing is signalled: the runs are as the acceptance left them, and the approvals as
-- before.
pub restart_carried_out :
    (wall instant wall' later : ℕ) (args : RestartArgs) (w : World) (p : String)
    → (begin_restart wall instant args w).0 ≡ ok p
    → let out = restart_payload wall instant wall' args w in
      ((status wall' p args.worker_id w.approvals ≡ approved)
        × (out.0 ≡ ok tt)
        × (status later p args.worker_id out.1.approvals ≡ consumed)
        × ((run : RunHandle) × (find_run args.run_id out.1.server ≡ some run)
            × (get args.worker_id run.restart_signals ≡ some true)))
      ⊎ ((is_approved_status (status wall' p args.worker_id w.approvals) ≡ false)
          × (is_ok out.0 ≡ false)
          × (out.1.approvals ≡ w.approvals)
          × (out.1.server ≡ (begin_restart wall instant args w).1.server))
unfolding restart_payload finish_restart change_run find_run
restart_carried_out wall instant wall' later args w p h =
    let b = begin_restart wall instant args w in
    let kept = begin_restart-approvals wall instant args w in
    let spent : granted (consume wall' p args.worker_id b.1.approvals).0
        ≡ is_approved_status (status wall' p args.worker_id w.approvals) =
      rw kept (
        ap granted (consume-verdict wall' p args.worker_id w.approvals)
        ∙ granted-verdict (status wall' p args.worker_id w.approvals)) in
    elim (Result-cases ((consume wall' p args.worker_id b.1.approvals).0)) [
      | inl (e, c) ↦
          let not_live : is_approved_status (status wall' p args.worker_id w.approvals) ≡ false =
            sym spent ∙ ap granted c in
          let same : (consume wall' p args.worker_id b.1.approvals).1 ≡ b.1.approvals =
            consume_refused wall' p args.worker_id b.1.approvals (ap granted c) in
          inr (
            not_live,
            rw (h, restart_payload) (rw (c, finish_restart) refl),
            rw (h, restart_payload) (rw (c, finish_restart) (same ∙ kept)),
            rw (h, restart_payload) (rw (c, finish_restart) refl),
          )
      | inr (u, c) ↦
          let (run, checked, acc, after) = begin_restart-ok wall instant args w p h in
          let (found, live, open_) = restart_checks-ok wall args w run p checked in
          let book =
            with_book (accept_restart instant args.worker_id run.fleet run.restart_book).1 in
          let found' : find (has_id args.run_id) b.1.server.runs ≡ some (book run) =
            rw after (find-update_run_self args.run_id book w.server.runs run (λ r. refl) found) in
          inl (
            is_approved_status-approved (status wall' p args.worker_id w.approvals)
                (sym spent ∙ ap granted c),
            rw (h, restart_payload) (rw (c, finish_restart) refl),
            rw (h, restart_payload)
                (rw (c, finish_restart)
                  (consume-consumed wall' later p args.worker_id b.1.approvals (ap granted c))),
            (
              notified args.worker_id (book run),
              rw (h, restart_payload)
                  (rw (c, finish_restart)
                    (find-update_run_self args.run_id (notified args.worker_id) b.1.server.runs
                      (book run) (λ r. refl) found')),
              get-insert_self args.worker_id true run.restart_signals,
            ),
          )
    ]
