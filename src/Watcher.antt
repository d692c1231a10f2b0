-- ===== src/Watcher.antt =====
-- The thread of src/bin/malkuth/watcher.rs: what it does in front of its loop, and each pass of the loop as a
-- step on its state. The names of the state and of the tests for a change are passed on.
pub mod Paths
mod State
mod Changes
pub mod Pending
pub mod Relevance
pub mod Batches
pub mod Debounce
pub mod Polling
pub mod Arms
mod Tests
pub use State.*
unfoldable pub use Changes.{
  debounce_of, is_change, watch_needs_rearm, parent_loop, parent_dirs, relevant_paths, same_time,
  same_identity, is_known, poll_changes, add_all, snapshot,
}
pub use Changes.{is_relevant}
use malkuth.Prelude.{
  ltb, leb, eqb, if◌then◌else◌, ltb→lt, lt→ltb, le→ltb, ltb→le, leb→le, le→leb, eqb_iff, tests,
  Bool-cases, Option-cases, Result-cases, is_some, Key, ℕ_key, string_key, ◌==◌, eq_iff, eq_refl,
  ne→beq, length, get_elem?, take, drop, retain, any, all, position, length-append, length-take,
  length-drop, length-retain, take_all, set, count_by, count_by-append, count_by-reverse,
  count_by-retain, is_blank, is_ws, byte_len, is_char_boundary, prefix, truncate, floor_boundary,
  len_utf8, floor_boundary-is_char_boundary, floor_boundary-le, byte_len-prefix, codes, trim,
  trim_start, trim_end, is_empty, reverse-cons, reverse-reverse, In, All, All-append, All-retain,
  retain-All, Dict, get, insert, adjust, get-insert, get-remove, get-adjust, get-insert_self,
  Result, ok, err, ◌>>=◌, ◌>>◌, ℕ, zero, suc, ◌+◌, ◌-◌, ◌*◌, ◌/◌, ◌%◌, ◌^◌, ◌≤◌, ◌<◌, min, max,
  String, ◌≡◌, refl, sym, ap, subst, ◌∙◌, ◌≢◌, ◌↔◌, ◌⊎◌, inl, inr, Bool, true, false, not, ◌&&◌,
  ◌||◌, Option, none, some, List, [], ◌∷◌, ◌++◌, map, reverse, append-nil, append_assoc, arith,
}
use malkuth.Watcher.Paths.{FilePath, path_key, same_path, starts_with, parent, add_path}

unfoldable pub watch_all : RecursiveMode → List FilePath → List (FilePath × RecursiveMode)
watch_all mode [] = []
watch_all mode (p ∷ ps) = (p, mode) ∷ watch_all mode ps

-- The first arms: what cannot be watched is to be tried again.
unfoldable pub arm_all : Turn → List (FilePath × RecursiveMode) → List Failed
arm_all t [] = []
arm_all t ((p, mode) ∷ ps) =
    let rest = arm_all t ps in
    if t.arm_watch p mode
    then rest
    else record { path = p; mode = mode; at = t.later + watch_retry_delay } ∷ rest

unfoldable pub identities : Turn → List FilePath → Dict FilePath (Option FileIdentity)
unfolding insert
identities t [] = []
identities t (p ∷ ps) = insert p (t.file_identity p) (identities t ps)

-- The state in front of the loop.
unfoldable pub start_watch : Turn → List FilePath → Watch
unfolding watch_all arm_all identities parent_dirs
start_watch t paths = record {
  pending = [];
  window_end = none;
  failed = arm_all t (watch_all recursive paths ++ watch_all non_recursive (parent_dirs paths));
  identity = identities t paths;
  next_poll = t.later + poll_interval;
}

-- The window has elapsed.
abbrev pub is_due : ℕ → Watch → Bool
is_due now s = elim s.window_end [ none ↦ false | some end ↦ leb end now ]

unfoldable pub fire : Turn → Watch → Outcome
unfolding snapshot
fire t s =
    let closed = record s { window_end = none } in
    let fired = record closed {
      pending = [];
      identity = snapshot t.file_identity s.pending s.identity;
    } in
    if is_empty s.pending
    then goes_on none closed
    else if t.receiver_open
    then goes_on (some s.pending) fired
    else breaks

-- The retries that are due: what is left of the failed watches, and the paths that recovered.
unfoldable pub retry : Turn → List Failed → List Failed × List FilePath
retry t [] = ([], [])
retry t (f ∷ fs) =
    let rest = retry t fs in
    if ltb t.now f.at
    then (f ∷ rest.0, rest.1)
    else if t.arm_watch f.path f.mode
    then (rest.0, f.path ∷ rest.1)
    else (record f { at = t.now + watch_retry_delay } ∷ rest.0, rest.1)

-- The recovered roots whose identity changed while they were not watched, with pending and cache.
unfoldable pub catch_up : Turn → List FilePath → List FilePath → Watch → Bool × Watch
unfolding relevant_paths is_known add_path insert
catch_up t roots [] s = (false, s)
catch_up t roots (p ∷ ps) s =
    let id = t.file_identity p in
    let rest = catch_up t roots ps s in
    let noted =
      catch_up t roots ps
        (record s { pending = add_path p s.pending; identity = insert p id s.identity }) in
    if is_empty (relevant_paths p roots) || is_known p id s.identity then rest else (true, noted.1)

-- The debounce window that a change opens, or moves on.
abbrev pub opened : ℕ → Turn → Watch → Watch
opened debounce t s = record s { window_end = some (t.later + debounce) }

unfoldable pub recover : ℕ → Turn → List FilePath → List FilePath → Watch → Outcome
unfolding catch_up
recover debounce t roots recovered s =
    let r = catch_up t roots recovered s in
    goes_on none (if r.0 then opened debounce t r.1 else r.1)

-- The roots of the event that are to be watched anew, unless they are waiting for it.
unfoldable pub rearm : Turn → EventKind → List FilePath → List FilePath → List Failed → List Failed
unfolding watch_needs_rearm
rearm t kind roots [] failed = failed
rearm t kind roots (p ∷ ps) failed =
    let waits : Failed = record { path = p; mode = recursive; at = t.later + watch_retry_delay } in
    rearm t kind roots ps (
      if watch_needs_rearm kind p roots && not (any (λ (f : Failed). f.path == p) failed)
      then failed ++ waits ∷ []
      else failed)

-- `ev.paths` mapped by `relevant_paths`
unfoldable pub hits : List FilePath → List FilePath → List FilePath
unfolding relevant_paths
hits roots [] = []
hits roots (p ∷ ps) = relevant_paths p roots ++ hits roots ps

unfoldable pub on_event : ℕ → Turn → List FilePath → Event → Watch → Outcome
unfolding is_change rearm hits add_all
on_event debounce t roots e s =
    let armed = record s { failed = rearm t e.kind roots e.paths s.failed } in
    let hit = hits roots e.paths in
    if not (is_change e.kind)
    then goes_on none s
    else if is_empty hit
    then goes_on none armed
    else goes_on none (opened debounce t (record armed { pending = add_all hit armed.pending }))

unfoldable pub receive : ℕ → Turn → List FilePath → Watch → Outcome
unfolding on_event
receive debounce t roots s = elim t.received [
  | event e ↦ on_event debounce t roots e s
  | watch_error ↦ goes_on none s
  | timeout ↦ goes_on none s
  | disconnected ↦ breaks
]

unfoldable pub poll_tick : ℕ → Turn → List FilePath → Watch → Outcome
unfolding poll_changes add_all receive
poll_tick debounce t roots s =
    let polled = poll_changes t.file_identity roots s.identity in
    let ticked = record s { next_poll = t.now + poll_interval; identity = polled.1 } in
    if not (leb s.next_poll t.now)
    then receive debounce t roots s
    else if is_empty polled.0
    then receive debounce t roots ticked
    else goes_on none (opened debounce t (record ticked { pending = add_all polled.0 s.pending }))

unfoldable pub pass : ℕ → List FilePath → Turn → Watch → Outcome
unfolding fire retry recover poll_tick
pass debounce roots t s =
    let r = retry t s.failed in
    let s' = record s { failed = r.0 } in
    if is_due t.now s
    then fire t s
    else if is_empty r.1
    then poll_tick debounce t roots s'
    else recover debounce t roots r.1 s'

-- The batches that are delivered over a list of passes, each with its time, until the loop breaks.
unfoldable pub delivered : ℕ → List FilePath → List Turn → Watch → List (ℕ × List FilePath)
unfolding pass
delivered debounce roots [] s = []
delivered debounce roots (t ∷ ts) s = elim (pass debounce roots t s) [
  | breaks ↦ []
  | goes_on none s' ↦ delivered debounce roots ts s'
  | goes_on (some batch) s' ↦ (t.now, batch) ∷ delivered debounce roots ts s'
]

-- The state after them, if the loop goes on.
unfoldable pub state_after : ℕ → List FilePath → List Turn → Watch → Option Watch
unfolding pass
state_after debounce roots [] s = some s
state_after debounce roots (t ∷ ts) s = elim (pass debounce roots t s) [
  | breaks ↦ none
  | goes_on batch s' ↦ state_after debounce roots ts s'
]
