-- ===== src/Mcp/Actions/Drains.antt =====
-- `drain_payload` of src/mcp.rs: repeated drains, and the wait.
use malkuth.Prelude.{
  leb, eqb, leb→le, eqb_iff, Bool-cases, Option-cases, Result-cases, ℕ_key, string_key, ok, ℕ, zero,
  suc, ◌+◌, ◌*◌, ◌/◌, ◌≤◌, ◌<◌, String, ◌≡◌, refl, sym, ap, subst, ◌⊎◌, inl, inr, Bool, true, false,
  Option, some, [], ◌∷◌, arith,
}
use malkuth.Lifecycle.{ShutdownKind, graceful, immediate, causes_drain, begin_drain, is_draining}
use malkuth.Mcp.Runs.{RunHandle, find_run}
use malkuth.Mcp.Arguments.{word_of, one_of, parse_drain_kind}
use malkuth.Mcp.Actions.{
  World, change_run, DrainArgs, DrainReply, drained, drain_gate, drain_run, drain_payload,
  wait_finished,
}
use malkuth.Mcp.Actions.Refusals.{find-update_run_self}

parse_drain_kind_drains :
    (raw : Option String) (kind : ShutdownKind)
    → parse_drain_kind raw ≡ ok kind
    → causes_drain kind ≡ true
unfolding parse_drain_kind causes_drain
parse_drain_kind_drains raw kind h =
    elim (Bool-cases (one_of (word_of raw) ("" ∷ "graceful" ∷ []))) [
      | inl e ↦
          let z : ok graceful ≡ ok kind = rw e at h in
          let k : graceful ≡ kind = cc z in ap causes_drain (sym k)
      | inr e ↦ elim (Bool-cases (one_of (word_of raw) ("immediate" ∷ []))) [
        | inl u ↦
            let z : ok immediate ≡ ok kind = rw u at (rw e at h) in
            let k : immediate ≡ kind = cc z in ap causes_drain (sym k)
        | inr u ↦ absurd (cc (rw u at (rw e at h)))
      ]
    ]

-- An accepted drain: its kind, and the run that now drains.
pub drain_payload-ok :
    (wall : ℕ) (args : DrainArgs) (w : World) (reply : DrainReply)
    → (drain_payload wall args w).0 ≡ ok reply
    → (run : RunHandle) × (find_run args.run_id (drain_payload wall args w).1.server ≡ some run)
      × (is_draining run.drain ≡ true)
unfolding drain_payload drain_run change_run find_run is_draining begin_drain
drain_payload-ok wall args w reply h = elim (Option-cases (find_run args.run_id w.server)) [
  | inl f ↦ absurd (cc (rw (f, drain_payload) at h))
  | inr (run, f) ↦ elim (Result-cases (parse_drain_kind args.kind)) [
    | inl (code, k) ↦ absurd (cc (rw k at (rw (f, drain_payload) at h)))
    | inr (kind, k) ↦
        let already = is_draining run.drain in
        elim (Result-cases ((drain_gate wall args already w.approvals).0)) [
          | inl (code, g) ↦
              absurd (cc (rw (g, drain_run) at (rw k at (rw (f, drain_payload) at h))))
          | inr (u, g) ↦
              let drains : (begin_drain kind run.drain).draining ≡ true =
                rw (parse_drain_kind_drains args.kind kind k) refl in
              (
                drained kind run,
                rw (f, drain_payload)
                    (rw k (
                      rw (g, drain_run)
                        (find-update_run_self args.run_id (drained kind) w.server.runs run
                          (λ r. refl) f))),
                drains,
              )
        ]
  ]
]

-- The pauses between the passes are 25 ms at least.
abbrev pub Sleeps : (ℕ → ℕ) → Type 0
Sleeps clock = (pass : ℕ) → clock pass + 25 ≤ clock (suc pass)

-- The passes before this one found the run unfinished, and time left.
abbrev pub Waited : (ℕ → ℕ) → (ℕ → Bool) → ℕ → ℕ → ℕ → Type 0
Waited clock finished deadline start pass =
    (k : ℕ) → start ≤ k → k < pass → (finished (clock k) ≡ false) × (clock k < deadline)

-- What the wait reports at its end, of its last pass: the run has finished, or it has not and the time is
-- over. The passes before it saw neither.
abbrev pub Ended : (ℕ → ℕ) → (ℕ → Bool) → ℕ → ℕ → Option Bool → Type 0
Ended clock finished deadline start timed_out =
    (pass : ℕ) × Waited clock finished deadline start pass
    × (((timed_out ≡ some false) × (finished (clock pass) ≡ true))
        ⊎ ((timed_out ≡ some true) × (finished (clock pass) ≡ false) × (deadline ≤ clock pass)))

Waited-none :
    (clock : ℕ → ℕ) (finished : ℕ → Bool) (deadline start : ℕ)
    → Waited clock finished deadline start start
Waited-none clock finished deadline start k h l = absurd (omega (arith, h, l))

Waited-earlier :
    (clock : ℕ → ℕ) (finished : ℕ → Bool) (deadline start pass : ℕ)
    → finished (clock start) ≡ false
    → clock start < deadline
    → Waited clock finished deadline (suc start) pass
    → Waited clock finished deadline start pass
Waited-earlier clock finished deadline start pass f l w k h u = elim (Bool-cases (eqb start k)) [
  | inl e ↦
      let same : start ≡ k = (eqb_iff start k).0 e in
      (subst (λ n. finished (clock n) ≡ false) same f, subst (λ n. clock n < deadline) same l)
  | inr e ↦ w k (ground (arith, eqb_iff start k, e, h)) u
]

Ended-earlier :
    (clock : ℕ → ℕ) (finished : ℕ → Bool) (deadline start : ℕ) (timed_out : Option Bool)
    → finished (clock start) ≡ false
    → clock start < deadline
    → Ended clock finished deadline (suc start) timed_out
    → Ended clock finished deadline start timed_out
Ended-earlier clock finished deadline start timed_out f l (pass, w, last) =
    (pass, Waited-earlier clock finished deadline start pass f l w, last)

wait_finished-Ended :
    (fuel : ℕ) (clock : ℕ → ℕ) (finished : ℕ → Bool) (deadline pass : ℕ)
    → Sleeps clock
    → deadline < clock pass + 25 * fuel
    → Ended clock finished deadline pass (wait_finished (suc fuel) clock finished deadline pass)
unfolding wait_finished
wait_finished-Ended zero clock finished deadline pass s l =
    elim (Bool-cases (finished (clock pass))) [
      | inl e ↦ (pass, Waited-none clock finished deadline pass, rw e (inl (refl, refl)))
      | inr e ↦
          let none_before = Waited-none clock finished deadline pass in
          let over : leb deadline (clock pass) ≡ true = ground (arith, l) in
          (pass, none_before, rw e (rw over (inr (refl, refl, leb→le deadline (clock pass) over))))
    ]
wait_finished-Ended (suc fuel) clock finished deadline pass s l =
    elim (Bool-cases (finished (clock pass))) [
      | inl e ↦ (pass, Waited-none clock finished deadline pass, rw e (inl (refl, refl)))
      | inr e ↦ elim (Bool-cases (leb deadline (clock pass))) [
        | inl u ↦
            let none_before = Waited-none clock finished deadline pass in
            (pass, none_before, rw e (rw u (inr (refl, refl, leb→le deadline (clock pass) u))))
        | inr u ↦
            let rest =
              wait_finished-Ended fuel clock finished deadline (suc pass) s
                (omega (arith, l, s pass)) in
            let later : clock pass < deadline = ground (arith, u) in
            rw e (
              rw u (
                Ended-earlier clock finished deadline pass
                  (wait_finished (suc fuel) clock finished deadline (suc pass)) e later rest))
      ]
    ]

-- The wait of a drain, whose pauses are 25 ms at least, and whose budget runs from its first pass, comes to an
-- end, with a pass for each 25 ms of the budget and two more: it ends at the first pass that finds the run finished, and reports that, or else at
-- the first one at or after the deadline, and reports a time-out.
pub wait_finished_ends :
    (clock : ℕ → ℕ) (finished : ℕ → Bool) (budget : ℕ)
    → Sleeps clock
    → Ended clock finished
        (clock 0 + budget)
        0
        (wait_finished (suc (suc (budget / 25))) clock finished (clock 0 + budget) 0)
wait_finished_ends clock finished budget s =
    wait_finished-Ended (suc (budget / 25)) clock finished (clock 0 + budget) 0 s (omega arith)
