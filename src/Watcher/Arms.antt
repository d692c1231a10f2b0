-- ===== src/Watcher/Arms.antt =====
-- The watches of src/bin/malkuth/watcher.rs that could not be established.
use malkuth.Prelude.{
  leb, Bool-cases, ℕ_key, string_key, ◌==◌, eq_iff, any, is_empty, All, ℕ, ◌+◌, ◌≡◌, refl, ap,
  subst, ◌∙◌, inl, inr, Bool, true, false, not, ◌&&◌, ◌||◌, some, List, [], ◌∷◌, ◌++◌, arith,
}
use malkuth.Watcher.Paths.{FilePath, path_key}
use malkuth.Watcher.{
  RecursiveMode, recursive, non_recursive, Received, event, watch_error, timeout, disconnected,
  Turn, Failed, Watch, Outcome, goes_on, breaks, watch_retry_delay, EventKind, watch_all, arm_all,
  parent_dirs, start_watch, watch_needs_rearm, relevant_paths, is_known, is_change, poll_changes,
  is_due, fire, retry, catch_up, recover, rearm, hits, on_event, receive, poll_tick, pass,
  state_after,
}
use malkuth.Watcher.Batches.{Outcome-cases}

abbrev same_mode : RecursiveMode → RecursiveMode → Bool
same_mode recursive recursive = true
same_mode recursive non_recursive = false
same_mode non_recursive recursive = false
same_mode non_recursive non_recursive = true

same_mode_refl : (m : RecursiveMode) → same_mode m m ≡ true
same_mode_refl recursive = refl
same_mode_refl non_recursive = refl

same_mode_eq : (m n : RecursiveMode) → same_mode m n ≡ true → m ≡ n
same_mode_eq recursive recursive h = refl
same_mode_eq recursive non_recursive h = absurd (cc h)
same_mode_eq non_recursive recursive h = absurd (cc h)
same_mode_eq non_recursive non_recursive h = refl

abbrev is_watch : FilePath → RecursiveMode → Failed → Bool
is_watch p m f = (f.path == p) && same_mode f.mode m

-- The watch is among those that are to be tried again.
abbrev pub waits : FilePath → RecursiveMode → List Failed → Bool
waits p m fs = any (is_watch p m) fs

waits-append :
    (p : FilePath) (m : RecursiveMode) (fs gs : List Failed)
    → waits p m (fs ++ gs) ≡ (waits p m fs || waits p m gs)
waits-append p m [] gs = refl
waits-append p m (f ∷ fs) gs = ground (arith, waits-append p m fs gs)

waits-retry :
    (p : FilePath) (m : RecursiveMode) (t : Turn) (fs : List Failed)
    → waits p m fs ≡ true
    → (t.arm_watch p m || waits p m (retry t fs).0) ≡ true
unfolding retry
waits-retry p m t [] h = absurd (cc h)
waits-retry p m t (f ∷ fs) h = elim (Bool-cases (is_watch p m f)) [
  | inl e ↦
      let parts : ((f.path == p) ≡ true) × (same_mode f.mode m ≡ true) = ground (arith, e) in
      let path : f.path ≡ p = (eq_iff f.path p).0 parts.0 in
      let mode : f.mode ≡ m = same_mode_eq f.mode m parts.1 in
      let armed : t.arm_watch f.path f.mode ≡ t.arm_watch p m =
        λ i. t.arm_watch (path i) (mode i) in
      ground (arith, e, armed)
  | inr e ↦ let rest = waits-retry p m t fs (rw e at h) in ground (arith, rest)
]

waits-rearm :
    (p : FilePath) (m : RecursiveMode) (t : Turn) (kind : EventKind) (roots ps : List FilePath)
    (fs : List Failed)
    → waits p m fs ≡ true
    → waits p m (rearm t kind roots ps fs) ≡ true
unfolding rearm
waits-rearm p m t kind roots [] fs h = h
waits-rearm p m t kind roots (q ∷ ps) fs h =
    elim (Bool-cases
      (watch_needs_rearm kind q roots && not (any (λ (f : Failed). f.path == q) fs))) [
        | inl e ↦
            let new : Failed = record {
              path = q;
              mode = recursive;
              at = t.later + watch_retry_delay;
            } in
            rw e (
              waits-rearm p m t kind roots ps (fs ++ new ∷ [])
                (waits-append p m fs (new ∷ []) ∙ ground (arith, h)))
        | inr e ↦ rw e (waits-rearm p m t kind roots ps fs h)
      ]

-- The pass ends with the watch waiting, if the loop goes on.
abbrev Waiting : FilePath → RecursiveMode → Outcome → Type 0
Waiting p m breaks = Unit
Waiting p m (goes_on _ s) = waits p m s.failed ≡ true

fire-Waiting :
    (p : FilePath) (m : RecursiveMode) (t : Turn) (s : Watch)
    → waits p m s.failed ≡ true
    → Waiting p m (fire t s)
unfolding fire
fire-Waiting p m t s h = elim (Bool-cases (is_empty s.pending)) [
  | inl e ↦ rw e h
  | inr e ↦ elim (Bool-cases t.receiver_open) [ inl u ↦ rw e (rw u h) | inr u ↦ rw e (rw u tt) ]
]

receive-Waiting :
    (debounce : ℕ) (roots : List FilePath) (p : FilePath) (m : RecursiveMode) (t : Turn) (s : Watch)
    → waits p m s.failed ≡ true
    → Waiting p m (receive debounce t roots s)
unfolding receive on_event
receive-Waiting debounce roots p m t s h = received t.received refl
  where
    received : (r : Received) → t.received ≡ r → Waiting p m (receive debounce t roots s)
    received watch_error e = rw (e, receive) h
    received timeout e = rw (e, receive) h
    received disconnected e = rw (e, receive) tt
    received (event ev) e =
        let kept = waits-rearm p m t ev.kind roots ev.paths s.failed h in
        elim (Bool-cases (is_change ev.kind)) [
          | inr k ↦ rw (e, receive) (rw k h)
          | inl k ↦ elim (Bool-cases (is_empty (hits roots ev.paths))) [
            | inl n ↦ rw (e, receive) (rw k (rw n kept))
            | inr n ↦ rw (e, receive) (rw k (rw n kept))
          ]
        ]

poll_tick-Waiting :
    (debounce : ℕ) (roots : List FilePath) (p : FilePath) (m : RecursiveMode) (t : Turn) (s : Watch)
    → waits p m s.failed ≡ true
    → Waiting p m (poll_tick debounce t roots s)
unfolding poll_tick
poll_tick-Waiting debounce roots p m t s h = elim (Bool-cases (leb s.next_poll t.now)) [
  | inr e ↦ rw e (receive-Waiting debounce roots p m t s h)
  | inl e ↦ elim (Bool-cases (is_empty (poll_changes t.file_identity roots s.identity).0)) [
    | inl n ↦ rw e (rw n (receive-Waiting debounce roots p m t _ h))
    | inr n ↦ rw e (rw n h)
  ]
]

catch_up-failed :
    (roots : List FilePath) (t : Turn) (ps : List FilePath) (s : Watch)
    → (catch_up t roots ps s).1.failed ≡ s.failed
unfolding catch_up
catch_up-failed roots t [] s = refl
catch_up-failed roots t (p ∷ ps) s =
    elim (Bool-cases
      (is_empty (relevant_paths p roots) || is_known p (t.file_identity p) s.identity)) [
        | inl e ↦ rw e (catch_up-failed roots t ps s)
        | inr e ↦ rw e (catch_up-failed roots t ps _)
      ]

recover-Waiting :
    (debounce : ℕ) (roots : List FilePath) (p : FilePath) (m : RecursiveMode) (t : Turn)
    (ps : List FilePath) (s : Watch)
    → waits p m s.failed ≡ true
    → Waiting p m (recover debounce t roots ps s)
unfolding recover
recover-Waiting debounce roots p m t ps s h =
    let kept : waits p m (catch_up t roots ps s).1.failed ≡ true =
      ap (waits p m) (catch_up-failed roots t ps s) ∙ h in
    elim (Bool-cases (catch_up t roots ps s).0) [ inl e ↦ rw e kept | inr e ↦ rw e kept ]

pass-Waiting :
    (debounce : ℕ) (roots : List FilePath) (p : FilePath) (m : RecursiveMode) (t : Turn) (s : Watch)
    → waits p m s.failed ≡ true
    → t.arm_watch p m ≡ false
    → Waiting p m (pass debounce roots t s)
unfolding pass
pass-Waiting debounce roots p m t s h a =
    let r = retry t s.failed in
    let left = waits-retry p m t s.failed h in
    let kept : waits p m r.0 ≡ true = ground (arith, left, a) in
    elim (Bool-cases (is_due t.now s)) [
      | inl e ↦ rw e (fire-Waiting p m t s h)
      | inr e ↦ elim (Bool-cases (is_empty r.1)) [
        | inl n ↦ rw e (rw n (poll_tick-Waiting debounce roots p m t _ kept))
        | inr n ↦ rw e (rw n (recover-Waiting debounce roots p m t r.1 _ kept))
      ]
    ]

-- The watch could be established in none of the passes.
abbrev pub NeverArmed : FilePath → RecursiveMode → List Turn → Type 0
NeverArmed p m ts = All (λ (t : Turn). t.arm_watch p m ≡ false) ts

passes-Waiting :
    (debounce : ℕ) (roots : List FilePath) (p : FilePath) (m : RecursiveMode) (ts : List Turn)
    (s s' : Watch)
    → waits p m s.failed ≡ true
    → NeverArmed p m ts
    → state_after debounce roots ts s ≡ some s'
    → waits p m s'.failed ≡ true
unfolding state_after
passes-Waiting debounce roots p m [] s s' h n a =
    let same : s ≡ s' = cc a in subst (λ (x : Watch). waits p m x.failed ≡ true) same h
passes-Waiting debounce roots p m (t ∷ ts) s s' h n a =
    let waiting = pass-Waiting debounce roots p m t s h n.0 in
    elim (Outcome-cases (pass debounce roots t s)) [
      | inl e ↦ absurd (cc (rw (e, state_after) at a))
      | inr (inl (u, e)) ↦
          let w : waits p m u.failed ≡ true = subst (Waiting p m) e waiting in
          passes-Waiting debounce roots p m ts u s' w n.1 (rw (e, state_after) at a)
      | inr (inr (batch, u, e)) ↦
          let w : waits p m u.failed ≡ true = subst (Waiting p m) e waiting in
          passes-Waiting debounce roots p m ts u s' w n.1 (rw (e, state_after) at a)
    ]

waits-arm_all :
    (t : Turn) (p : FilePath) (m : RecursiveMode) (ps : List FilePath)
    (rest : List (FilePath × RecursiveMode))
    → any (λ q. q == p) ps ≡ true
    → t.arm_watch p m ≡ false
    → waits p m (arm_all t (watch_all m ps ++ rest)) ≡ true
unfolding arm_all watch_all
waits-arm_all t p m [] rest h a = absurd (cc h)
waits-arm_all t p m (q ∷ ps) rest h a = elim (Bool-cases (q == p)) [
  | inl e ↦
      let same : q ≡ p = (eq_iff q p).0 e in
      let not_armed : t.arm_watch q m ≡ false = ap (λ r. t.arm_watch r m) same ∙ a in
      ground (arith, e, not_armed, same_mode_refl m)
  | inr e ↦ let later = waits-arm_all t p m ps rest (rw e at h) a in ground (arith, later)
]

-- No watched path is given up: one whose watch could be established neither at the start nor in any pass
-- since is still to be tried again, as long as the loop goes on, whatever else happens to the others.
pub watch_not_given_up :
    (debounce : ℕ) (roots : List FilePath) (p : FilePath) (t : Turn) (ts : List Turn) (s : Watch)
    → any (λ r. r == p) roots ≡ true
    → NeverArmed p recursive (t ∷ ts)
    → state_after debounce roots ts (start_watch t roots) ≡ some s
    → waits p recursive s.failed ≡ true
unfolding start_watch
watch_not_given_up debounce roots p t ts s h n a =
    passes-Waiting debounce roots p recursive ts (start_watch t roots) s
      (waits-arm_all t p recursive roots (watch_all non_recursive (parent_dirs roots)) h n.0) n.1 a
