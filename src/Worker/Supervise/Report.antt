-- ===== src/Worker/Supervise/Report.antt =====
-- What `supervise_one` of src/worker.rs publishes of a worker, during its supervision and after it.
use malkuth.Prelude.{
  Bool-cases, ℕ_key, string_key, ◌==◌, eq_refl, get, insert, adjust, get-insert, get-adjust,
  get-insert_self, ℕ, String, ◌≡◌, refl, subst, inl, inr, false, Option, none, some, List, [], ◌∷◌,
  arith,
}
use malkuth.Worker.{rate_limited, WorkerSpec, stopped, should_restart}
use malkuth.Worker.Fleet.{
  FleetState, FleetEntry, registered, register, set_running, set_restarting, set_draining, finish,
  to_finished,
}
use malkuth.Worker.Supervise.{
  Ending, exited, wait_failed, drained, drain_signal, restart_signal, Round, head_drain,
  spawn_failed, ran, Limits, Loop, Next, break, continue, publish, limited, after_exit,
  after_spawn_failure, ending, turn, turns, start, close, supervise_one,
}
use malkuth.Worker.Supervise.Policy.{Next-cases}

-- The identity of an entry, which no phase change touches.
abbrev pub Identity : WorkerSpec → FleetEntry → Type 0
Identity spec e =
    (e.snapshot.id ≡ spec.id)
    × (e.snapshot.kind ≡ spec.kind)
    × (e.snapshot.restart_policy ≡ spec.restart_policy)

-- The sink holds the worker's entry, and those of the others as they were in `m0`.
abbrev Published : WorkerSpec → FleetState → Option FleetState → Type 0
Published spec m0 fleet =
    (m : FleetState) × (fleet ≡ some m)
    × ((e : FleetEntry) × (get spec.id m ≡ some e) × Identity spec e)
    × ((j : String) → (spec.id == j) ≡ false → get j m ≡ get j m0)

adjust-Published :
    (spec : WorkerSpec) (m0 : FleetState) (f : FleetEntry → FleetEntry) (fleet : Option FleetState)
    → ((e : FleetEntry) → Identity spec e → Identity spec (f e))
    → Published spec m0 fleet
    → Published spec m0 (publish (adjust spec.id f) fleet)
adjust-Published spec m0 f fleet keep (m, e, (x, g, i), others) = (
  adjust spec.id f m,
  rw e,
  (f x, ground (arith, get-adjust spec.id spec.id f m, eq_refl spec.id), keep x i),
  λ j h. ground (arith, get-adjust spec.id j f m, others j h),
)

module _ (proc : ℕ → Option ℕ) (l : Limits) (spec : WorkerSpec) (m0 : FleetState) where
  -- A turn keeps the sink in order, whether the loop goes on or not.
  abbrev Keeps : Next → Type 0
  Keeps (break s) = Published spec m0 s.fleet
  Keeps (continue s) = Published spec m0 s.fleet

  limited-Keeps :
      (now : ℕ) (s : Loop) → Published spec m0 s.fleet → Keeps (limited proc l spec now s)
  unfolding limited
  limited-Keeps now s p =
      elim (Bool-cases (rate_limited l.max_restarts l.window now s.restart_times).0) [
        | inl e ↦ rw e p
        | inr e ↦ rw e p
      ]

  after_exit-Keeps :
      (now : ℕ) (s : Loop) → Published spec m0 s.fleet → Keeps (after_exit proc l spec now s)
  unfolding after_exit set_restarting
  after_exit-Keeps now s p = limited-Keeps now _ (adjust-Published spec m0 _ s.fleet (λ e i. i) p)

  after_spawn_failure-Keeps :
      (now : ℕ) (s : Loop)
      → Published spec m0 s.fleet
      → Keeps (after_spawn_failure proc l spec now s)
  unfolding after_spawn_failure
  after_spawn_failure-Keeps now s p = elim (Next-cases (limited proc l spec now s)) [
    | inl (s', e) ↦ rw (e, after_spawn_failure, Keeps) (rw e at (limited-Keeps now s p))
    | inr (s', e) ↦ rw (e, after_spawn_failure, Keeps) (rw e at (limited-Keeps now s p))
  ]

  ending-Keeps :
      (e : Ending) (s : Loop) → Published spec m0 s.fleet → Keeps (ending proc l spec e s)
  unfolding ending set_draining set_restarting
  ending-Keeps (exited clean now) s p =
      elim (Bool-cases (should_restart spec.restart_policy clean)) [
        | inl e ↦ rw e (after_exit-Keeps now s p)
        | inr e ↦ rw e p
      ]
  ending-Keeps (wait_failed e now) s p = after_exit-Keeps now _ p
  ending-Keeps (drained k) s p = adjust-Published spec m0 _ s.fleet (λ e i. i) p
  ending-Keeps drain_signal s p = adjust-Published spec m0 _ s.fleet (λ e i. i) p
  ending-Keeps restart_signal s p = adjust-Published spec m0 _ s.fleet (λ e i. i) p

  turn-Keeps : (r : Round) (s : Loop) → Published spec m0 s.fleet → Keeps (turn proc l spec r s)
  unfolding turn finish set_running
  turn-Keeps head_drain s p = p
  turn-Keeps (spawn_failed e now) s p =
      elim (Bool-cases (should_restart spec.restart_policy false)) [
        | inl h ↦
            rw h (after_spawn_failure-Keeps now _ (adjust-Published spec m0 _ s.fleet (λ e i. i) p))
        | inr h ↦ rw h (adjust-Published spec m0 _ s.fleet (λ e i. i) p)
      ]
  turn-Keeps (ran pid at e) s p = ending-Keeps e _ (adjust-Published spec m0 _ s.fleet (λ e i. i) p)

  turns-Keeps :
      (rs : List Round) (s : Loop) → Published spec m0 s.fleet → Keeps (turns proc l spec rs s)
  unfolding turns
  turns-Keeps [] s p = p
  turns-Keeps (r ∷ rs) s p = elim (Next-cases (turn proc l spec r s)) [
    | inl (s', e) ↦ rw (e, turns) (rw e at (turn-Keeps r s p))
    | inr (s', e) ↦ rw (e, turns) (turns-Keeps rs s' (rw e at (turn-Keeps r s p)))
  ]

register-Published :
    (spec : WorkerSpec) (m0 : FleetState) → Published spec m0 (some (register spec m0))
unfolding register
register-Published spec m0 = (
  insert spec.id (registered spec) m0,
  refl,
  (registered spec, get-insert_self spec.id (registered spec) m0, (refl, refl, refl)),
  λ j h. ground (arith, get-insert spec.id j (registered spec) m0),
)

-- What the final report and the sink say of a worker that was supervised.
abbrev pub Agrees : WorkerSpec → FleetState → Loop → Type 0
Agrees spec m0 out =
    (m : FleetState) × (out.fleet ≡ some m)
    × ((e : FleetEntry) × (get spec.id m ≡ some e)
        × (e.snapshot.phase ≡ stopped)
        × (e.snapshot.pid ≡ none)
        × (e.snapshot.starttime ≡ none)
        × (e.snapshot.restart_count ≡ out.restart_count)
        × (e.snapshot.last_error ≡ out.last_error)
        × Identity spec e)
    × ((j : String) → (spec.id == j) ≡ false → get j m ≡ get j m0)

closing-Agrees :
    (proc : ℕ → Option ℕ) (l : Limits) (spec : WorkerSpec) (m0 : FleetState) (s : Loop)
    → Published spec m0 s.fleet
    → Agrees spec m0 (close proc l spec s)
unfolding finish
closing-Agrees proc l spec m0 s (m, e, (x, g, i), others) =
    let f = to_finished stopped s.restart_count s.last_error in
    (
      adjust spec.id f m,
      rw e,
      (
        f x,
        ground (arith, get-adjust spec.id spec.id f m, eq_refl spec.id),
        refl,
        refl,
        refl,
        refl,
        refl,
        i,
      ),
      λ j h. ground (arith, get-adjust spec.id j f m, others j h),
    )

-- When supervision of a worker returns, whatever happened in it, the sink holds the worker as stopped,
-- with no process, with the restart count and last error of the returned report and the worker's own
-- identity; the entries of all other workers are as they were.
pub supervise_one-Agrees :
    (proc : ℕ → Option ℕ) (l : Limits) (spec : WorkerSpec) (rs : List Round) (m0 : FleetState)
    (out : Loop)
    → supervise_one proc l spec rs (some m0) ≡ some out
    → Agrees spec m0 out
unfolding supervise_one
supervise_one-Agrees proc l spec rs m0 out h =
    let begun = start proc l spec (some m0) in
    let kept = turns-Keeps proc l spec m0 rs begun (register-Published spec m0) in
    elim (Next-cases (turns proc l spec rs begun)) [
      | inl (s, e) ↦
          subst (Agrees spec m0) {x = close proc l spec s} {y = out} (ground arith)
            (closing-Agrees proc l spec m0 s (rw (e, Keeps) at kept))
      | inr (s, e) ↦ absurd (ground arith)
    ]
