-- ===== src/Watcher/Debounce.antt =====
-- The debounce window of src/bin/malkuth/watcher.rs: what becomes of a change that was noted.
use malkuth.Prelude.{
  leb, leb→le, le→leb, Bool-cases, Option-cases, ℕ_key, string_key, is_empty, All, ℕ, ◌+◌, ◌≤◌, ◌≡◌,
  refl, sym, subst, inl, inr, true, false, ◌||◌, Option, none, some, List, [], ◌∷◌, arith,
}
use malkuth.Watcher.Paths.{FilePath, path_key}
use malkuth.Watcher.{
  Event, Received, event, watch_error, timeout, disconnected, Turn, Watch, Outcome, goes_on, breaks,
  snapshot, is_change, relevant_paths, is_known, poll_changes, add_all, is_due, fire, retry,
  catch_up, opened, recover, rearm, hits, on_event, receive, poll_tick, pass, delivered,
  state_after,
}
use malkuth.Watcher.Batches.{Outcome-cases, catch_up-window}
use malkuth.Watcher.Relevance.{Relevant}
use malkuth.Watcher.Pending.{has, has-add_all, has-add_path, has-hits, has_none}

-- If the window is open, it does not end before `floor`.
abbrev pub Held : ℕ → Option ℕ → Type 0
Held floor none = Unit
Held floor (some end) = floor ≤ end

-- A pass at `now` keeps path `p` pending, or delivers it; and never before `floor`.
abbrev Keeps : FilePath → ℕ → ℕ → Outcome → Type 0
Keeps p floor now breaks = Unit
Keeps p floor now (goes_on none s) = (has p s.pending ≡ true) × Held floor s.window_end
Keeps p floor now (goes_on (some batch) s) = (has p batch ≡ true) × (floor ≤ now)

fire-Keeps :
    (p : FilePath) (floor : ℕ) (t : Turn) (s : Watch)
    → has p s.pending ≡ true
    → floor ≤ t.now
    → Keeps p floor t.now (fire t s)
unfolding fire
fire-Keeps p floor t s h l = elim (Bool-cases (is_empty s.pending)) [
  | inl e ↦ absurd (cc (has_none p s.pending e, h))
  | inr e ↦ elim (Bool-cases t.receiver_open) [
    | inl u ↦ rw e (rw u (h, l))
    | inr u ↦ rw e (rw u tt)
  ]
]

receive-Keeps :
    (debounce : ℕ) (roots : List FilePath) (p : FilePath) (floor : ℕ) (t : Turn) (s : Watch)
    → has p s.pending ≡ true
    → Held floor s.window_end
    → floor ≤ t.later + debounce
    → Keeps p floor t.now (receive debounce t roots s)
unfolding receive on_event
receive-Keeps debounce roots p floor t s h w l = received t.received refl
  where
    received : (r : Received) → t.received ≡ r → Keeps p floor t.now (receive debounce t roots s)
    received watch_error e = rw (e, receive) (h, w)
    received timeout e = rw (e, receive) (h, w)
    received disconnected e = rw (e, receive) tt
    received (event ev) e = elim (Bool-cases (is_change ev.kind)) [
      | inr k ↦ rw (e, receive) (rw k (h, w))
      | inl k ↦ elim (Bool-cases (is_empty (hits roots ev.paths))) [
        | inl n ↦ rw (e, receive) (rw k (rw n (h, w)))
        | inr n ↦
            rw (e, receive)
              (rw k (rw n (ground (arith, h, has-add_all p (hits roots ev.paths) s.pending), l)))
      ]
    ]

poll_tick-Keeps :
    (debounce : ℕ) (roots : List FilePath) (p : FilePath) (floor : ℕ) (t : Turn) (s : Watch)
    → has p s.pending ≡ true
    → Held floor s.window_end
    → floor ≤ t.later + debounce
    → Keeps p floor t.now (poll_tick debounce t roots s)
unfolding poll_tick
poll_tick-Keeps debounce roots p floor t s h w l =
    let polled = poll_changes t.file_identity roots s.identity in
    elim (Bool-cases (leb s.next_poll t.now)) [
      | inr e ↦ rw e (receive-Keeps debounce roots p floor t s h w l)
      | inl e ↦ elim (Bool-cases (is_empty polled.0)) [
        | inl n ↦ rw e (rw n (receive-Keeps debounce roots p floor t _ h w l))
        | inr n ↦ rw e (rw n (ground (arith, h, has-add_all p polled.0 s.pending), l))
      ]
    ]

has-catch_up :
    (roots : List FilePath) (p : FilePath) (t : Turn) (ps : List FilePath) (s : Watch)
    → has p s.pending ≡ true
    → has p (catch_up t roots ps s).1.pending ≡ true
unfolding catch_up
has-catch_up roots p t [] s h = h
has-catch_up roots p t (q ∷ ps) s h =
    elim (Bool-cases
      (is_empty (relevant_paths q roots) || is_known q (t.file_identity q) s.identity)) [
        | inl e ↦ rw e (has-catch_up roots p t ps s h)
        | inr e ↦ rw e (has-catch_up roots p t ps _ (ground (arith, h, has-add_path p q s.pending)))
      ]

recover-Keeps :
    (debounce : ℕ) (roots : List FilePath) (p : FilePath) (floor : ℕ) (t : Turn)
    (ps : List FilePath) (s : Watch)
    → has p s.pending ≡ true
    → Held floor s.window_end
    → floor ≤ t.later + debounce
    → Keeps p floor t.now (recover debounce t roots ps s)
unfolding recover
recover-Keeps debounce roots p floor t ps s h w l =
    let (same, _) = catch_up-window roots t ps s in
    let kept = has-catch_up roots p t ps s h in
    elim (Bool-cases (catch_up t roots ps s).0) [
      | inl e ↦ rw e (kept, l)
      | inr e ↦ rw e (kept, subst (Held floor) (sym same) w)
    ]

Held-due : (floor now : ℕ) (s : Watch) → Held floor s.window_end → is_due now s ≡ true → floor ≤ now
Held-due floor now s w d = elim (Option-cases s.window_end) [
  | inl e ↦ absurd (cc (rw e at d))
  | inr (end, e) ↦
      let l : floor ≤ end = subst (Held floor) e w in omega (arith, l, leb→le end now (rw e at d))
]

pass-Keeps :
    (debounce : ℕ) (roots : List FilePath) (p : FilePath) (floor : ℕ) (t : Turn) (s : Watch)
    → has p s.pending ≡ true
    → Held floor s.window_end
    → floor ≤ t.later + debounce
    → Keeps p floor t.now (pass debounce roots t s)
unfolding pass
pass-Keeps debounce roots p floor t s h w l =
    let r = retry t s.failed in
    elim (Bool-cases (is_due t.now s)) [
      | inl e ↦ rw e (fire-Keeps p floor t s h (Held-due floor t.now s w e))
      | inr e ↦ elim (Bool-cases (is_empty r.1)) [
        | inl n ↦ rw e (rw n (poll_tick-Keeps debounce roots p floor t _ h w l))
        | inr n ↦ rw e (rw n (recover-Keeps debounce roots p floor t r.1 _ h w l))
      ]
    ]

-- What becomes of path `p`: the next batch, not before `floor`, names it, or it is still pending.
abbrev pub Told : FilePath → ℕ → List (ℕ × List FilePath) → Watch → Type 0
Told p floor [] s = has p s.pending ≡ true
Told p floor ((now, batch) ∷ _) s = (has p batch ≡ true) × (floor ≤ now)

-- The clock does not go behind `from`.
abbrev pub Since : ℕ → List Turn → Type 0
Since from ts = All (λ (t : Turn). from ≤ t.later) ts

passes-Told :
    (debounce : ℕ) (roots : List FilePath) (p : FilePath) (from : ℕ) (ts : List Turn) (s s' : Watch)
    → has p s.pending ≡ true
    → Held (from + debounce) s.window_end
    → Since from ts
    → state_after debounce roots ts s ≡ some s'
    → Told p (from + debounce) (delivered debounce roots ts s) s'
unfolding delivered state_after
passes-Told debounce roots p from [] s s' h w o a =
    let same : s ≡ s' = cc a in subst (λ (x : Watch). has p x.pending ≡ true) same h
passes-Told debounce roots p from (t ∷ ts) s s' h w o a =
    let keeps = pass-Keeps debounce roots p (from + debounce) t s h w (omega (arith, o.0)) in
    elim (Outcome-cases (pass debounce roots t s)) [
      | inl e ↦ absurd (cc (rw (e, state_after) at a))
      | inr (inl (n, e)) ↦
          let k : (has p n.pending ≡ true) × Held (from + debounce) n.window_end =
            subst (Keeps p (from + debounce) t.now) e keeps in
          rw (e, delivered)
            (passes-Told debounce roots p from ts n s' k.0 k.1 o.1 (rw (e, state_after) at a))
      | inr (inr (batch, n, e)) ↦
          let k : (has p batch ≡ true) × (from + debounce ≤ t.now) =
            subst (Keeps p (from + debounce) t.now) e keeps in
          rw (e, delivered) k
    ]

-- A change is neither lost nor delivered early: when an event names a watched path or one below it, and
-- as long as the loop goes on, the next batch that is delivered names this path, and comes no sooner than the
-- debounce after the event; until then the path is pending.
pub event_delivered :
    (debounce : ℕ) (roots : List FilePath) (t : Turn) (e : Event) (p : FilePath) (ts : List Turn)
    (s s' s'' : Watch)
    → is_change e.kind ≡ true
    → Relevant roots p
    → has p e.paths ≡ true
    → on_event debounce t roots e s ≡ goes_on none s'
    → Since t.later ts
    → state_after debounce roots ts s' ≡ some s''
    → Told p (t.later + debounce) (delivered debounce roots ts s') s''
unfolding on_event
event_delivered debounce roots t e p ts s s' s'' k r h o since a =
    let hit = has-hits roots p e.paths r h in
    elim (Bool-cases (is_empty (hits roots e.paths))) [
      | inl n ↦ absurd (cc (has_none p (hits roots e.paths) n, hit))
      | inr n ↦
          let noted : Watch = opened debounce t (record s {
            failed = rearm t e.kind roots e.paths s.failed;
            pending = add_all (hits roots e.paths) s.pending;
          }) in
          let z : goes_on none noted ≡ goes_on none s' = rw n at (rw k at o) in
          let same : noted ≡ s' = cc z in
          let there : has p (add_all (hits roots e.paths) s.pending) ≡ true =
            ground (arith, hit, has-add_all p (hits roots e.paths) s.pending) in
          passes-Told debounce roots p t.later ts s' s''
            (subst (λ (x : Watch). has p x.pending ≡ true) same there)
            (subst (λ (x : Watch). Held (t.later + debounce) x.window_end) same (omega arith)) since
            a
    ]

-- A window that has elapsed is delivered at once: the next pass hands over all that is pending, if
-- somebody receives it, and closes the window.
pub due_delivers :
    (debounce : ℕ) (roots : List FilePath) (t : Turn) (s : Watch) (end : ℕ)
    → s.window_end ≡ some end
    → end ≤ t.now
    → is_empty s.pending ≡ false
    → t.receiver_open ≡ true
    → (s' : Watch) × (pass debounce roots t s ≡ goes_on (some s.pending) s')
      × (s'.pending ≡ [])
      × (s'.window_end ≡ none)
unfolding pass fire
due_delivers debounce roots t s end w l p o =
    let due : is_due t.now s ≡ true = rw w (le→leb end t.now l) in
    let closed : Watch = record s {
      window_end = none;
      pending = [];
      identity = snapshot t.file_identity s.pending s.identity;
    } in
    (closed, rw due (rw p (rw o refl)), refl, refl)
