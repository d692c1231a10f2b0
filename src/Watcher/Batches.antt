-- ===== src/Watcher/Batches.antt =====
-- What the loop of src/bin/malkuth/watcher.rs delivers, and when it has something to deliver.
use malkuth.Prelude.{
  leb, Bool-cases, is_some, ℕ_key, string_key, is_empty, All, insert, ℕ, ◌≡◌, refl, sym, ap, subst,
  ◌∙◌, ◌⊎◌, inl, inr, false, not, ◌&&◌, ◌||◌, none, some, List, [], ◌∷◌, arith,
}
use malkuth.Watcher.Paths.{FilePath, path_key, add_path}
use malkuth.Watcher.{
  Received, event, watch_error, timeout, disconnected, Turn, Watch, Outcome, goes_on, breaks,
  is_change, relevant_paths, is_known, poll_changes, is_due, fire, retry, catch_up, recover, hits,
  on_event, receive, poll_tick, pass, delivered, start_watch,
}
use malkuth.Watcher.Relevance.{
  Relevant, add_all-Relevant, add_all_filled, add_path_filled, catch_up-Relevant, hits-Relevant,
  poll_changes-Relevant, roots-Relevant,
}

-- What is pending names watched paths, and a window is open exactly if something is.
abbrev pub Sound : List FilePath → Watch → Type 0
Sound roots s = All (Relevant roots) s.pending × (is_some s.window_end ≡ not (is_empty s.pending))

-- A batch of changes to deliver.
abbrev pub Batch : List FilePath → List FilePath → Type 0
Batch roots batch = (is_empty batch ≡ false) × All (Relevant roots) batch

-- The pass ends in a state, and delivers a batch, of which these hold.
abbrev pub Ends : (Watch → Type 0) → (List FilePath → Type 0) → Outcome → Type 0
Ends state batch breaks = Unit
Ends state batch (goes_on none s) = state s
Ends state batch (goes_on (some b) s) = batch b × state s

fire-Sound :
    (roots : List FilePath) (t : Turn) (s : Watch)
    → Sound roots s
    → Ends (Sound roots) (Batch roots) (fire t s)
unfolding fire
fire-Sound roots t s h = elim (Bool-cases (is_empty s.pending)) [
  | inl e ↦ rw e (h.0, rw e refl)
  | inr e ↦ elim (Bool-cases t.receiver_open) [
    | inl u ↦ rw e (rw u ((e, h.0), (tt, refl)))
    | inr u ↦ rw e (rw u tt)
  ]
]

receive-Sound :
    (debounce : ℕ) (roots : List FilePath) (t : Turn) (s : Watch)
    → Sound roots s
    → Ends (Sound roots) (Batch roots) (receive debounce t roots s)
unfolding receive on_event
receive-Sound debounce roots t s h = received t.received refl
  where
    received :
        (r : Received)
        → t.received ≡ r
        → Ends (Sound roots) (Batch roots) (receive debounce t roots s)
    received watch_error e = rw (e, receive) h
    received timeout e = rw (e, receive) h
    received disconnected e = rw (e, receive) tt
    received (event ev) e = elim (Bool-cases (is_change ev.kind)) [
      | inr k ↦ rw (e, receive) (rw k h)
      | inl k ↦ elim (Bool-cases (is_empty (hits roots ev.paths))) [
        | inl n ↦ rw (e, receive) (rw k (rw n h))
        | inr n ↦
            let filled = add_all_filled (hits roots ev.paths) s.pending n in
            rw (e, receive)
              (rw k (
                rw n (
                  add_all-Relevant roots (hits roots ev.paths) s.pending
                      (hits-Relevant roots ev.paths) h.0,
                  rw filled refl,
                )))
      ]
    ]

poll_tick-Sound :
    (debounce : ℕ) (roots : List FilePath) (t : Turn) (s : Watch)
    → Sound roots s
    → Ends (Sound roots) (Batch roots) (poll_tick debounce t roots s)
unfolding poll_tick
poll_tick-Sound debounce roots t s h =
    let polled = poll_changes t.file_identity roots s.identity in
    elim (Bool-cases (leb s.next_poll t.now)) [
      | inr e ↦ rw e (receive-Sound debounce roots t s h)
      | inl e ↦ elim (Bool-cases (is_empty polled.0)) [
        | inl n ↦ rw e (rw n (receive-Sound debounce roots t _ h))
        | inr n ↦
            let relevant =
              poll_changes-Relevant t.file_identity roots roots s.identity (roots-Relevant roots) in
            let filled = add_all_filled polled.0 s.pending n in
            rw e (rw n (add_all-Relevant roots polled.0 s.pending relevant h.0, rw filled refl))
      ]
    ]

-- A pass that notes no change keeps the state of the window; one that notes some has it pending.
pub catch_up-window :
    (roots : List FilePath) (t : Turn) (ps : List FilePath) (s : Watch)
    → ((catch_up t roots ps s).1.window_end ≡ s.window_end)
      × (is_empty (catch_up t roots ps s).1.pending
          ≡ (is_empty s.pending && not (catch_up t roots ps s).0))
unfolding catch_up
catch_up-window roots t [] s = (refl, ground arith)
catch_up-window roots t (p ∷ ps) s =
    elim (Bool-cases
      (is_empty (relevant_paths p roots) || is_known p (t.file_identity p) s.identity)) [
        | inl e ↦ rw e (catch_up-window roots t ps s)
        | inr e ↦
            let (w, q) = catch_up-window roots t ps (record s {
              pending = add_path p s.pending;
              identity = insert p (t.file_identity p) s.identity;
            }) in
            let filled = add_path_filled p s.pending in rw e (w, ground (arith, q, filled))
      ]

recover-Sound :
    (debounce : ℕ) (roots : List FilePath) (t : Turn) (ps : List FilePath) (s : Watch)
    → Sound roots s
    → Ends (Sound roots) (Batch roots) (recover debounce t roots ps s)
unfolding recover
recover-Sound debounce roots t ps s h =
    let (w, q) = catch_up-window roots t ps s in
    let relevant = catch_up-Relevant roots t ps s h.0 in
    elim (Bool-cases (catch_up t roots ps s).0) [
      | inl e ↦
          let filled : is_empty (catch_up t roots ps s).1.pending ≡ false = ground (arith, q, e) in
          rw e (relevant, rw filled refl)
      | inr e ↦
          let same : is_empty (catch_up t roots ps s).1.pending ≡ is_empty s.pending =
            ground (arith, q, e) in
          rw e (relevant, ap is_some w ∙ h.1 ∙ ap not (sym same))
    ]

pub pass-Sound :
    (debounce : ℕ) (roots : List FilePath) (t : Turn) (s : Watch)
    → Sound roots s
    → Ends (Sound roots) (Batch roots) (pass debounce roots t s)
unfolding pass
pass-Sound debounce roots t s h =
    let r = retry t s.failed in
    elim (Bool-cases (is_due t.now s)) [
      | inl e ↦ rw e (fire-Sound roots t s h)
      | inr e ↦ elim (Bool-cases (is_empty r.1)) [
        | inl n ↦ rw e (rw n (poll_tick-Sound debounce roots t _ h))
        | inr n ↦ rw e (rw n (recover-Sound debounce roots t r.1 _ h))
      ]
    ]

pub Outcome-cases :
    (o : Outcome)
    → (o ≡ breaks)
      ⊎ (((s : Watch) × (o ≡ goes_on none s))
          ⊎ ((batch : List FilePath) × (s : Watch) × (o ≡ goes_on (some batch) s)))
Outcome-cases breaks = inl refl
Outcome-cases (goes_on none s) = inr (inl (s, refl))
Outcome-cases (goes_on (some batch) s) = inr (inr (batch, s, refl))

delivered-Batch :
    (debounce : ℕ) (roots : List FilePath) (ts : List Turn) (s : Watch)
    → Sound roots s
    → All (λ (d : ℕ × List FilePath). Batch roots d.1) (delivered debounce roots ts s)
unfolding delivered
delivered-Batch debounce roots [] s h = tt
delivered-Batch debounce roots (t ∷ ts) s h =
    let ends = pass-Sound debounce roots t s h in
    elim (Outcome-cases (pass debounce roots t s)) [
      | inl e ↦ rw (e, delivered) tt
      | inr (inl (s', e)) ↦
          let sound : Sound roots s' = subst (Ends (Sound roots) (Batch roots)) e ends in
          rw (e, delivered) (delivered-Batch debounce roots ts s' sound)
      | inr (inr (batch, s', e)) ↦
          let both : Batch roots batch × Sound roots s' =
            subst (Ends (Sound roots) (Batch roots)) e ends in
          rw (e, delivered) (both.0, delivered-Batch debounce roots ts s' both.1)
    ]

-- Whatever the passes of the loop meet, from its start on, no batch is delivered that is empty or that
-- names a path other than a watched one or one below it.
pub delivered-Relevant :
    (debounce : ℕ) (roots : List FilePath) (t : Turn) (ts : List Turn)
    → All
        (λ (d : ℕ × List FilePath). Batch roots d.1)
        (delivered debounce roots ts (start_watch t roots))
unfolding start_watch
delivered-Relevant debounce roots t ts = delivered-Batch debounce roots ts _ (tt, refl)
