-- ===== src/Mcp/Restarts.antt =====
-- The bookkeeping of the operator's restarts of one run, `RestartBook` and `accept_restart` of src/mcp.rs.
-- The book's mutex makes each call one step; times are milliseconds and do not go back (`Instant`).
pub mod Budget
pub mod Pending
use malkuth.Prelude.{
  ltb, leb, eqb, if◌then◌else◌, ltb→lt, lt→ltb, le→ltb, ltb→le, leb→le, le→leb, eqb_iff, tests,
  Bool-cases, Option-cases, is_some, Key, ℕ_key, string_key, ◌==◌, eq_iff, eq_refl, ne→beq, length,
  get_elem?, take, drop, retain, any, all, position, length-append, length-take, length-drop,
  length-retain, take_all, set, count_by, count_by-append, count_by-reverse, count_by-retain,
  is_blank, is_ws, byte_len, is_char_boundary, prefix, truncate, floor_boundary, len_utf8,
  floor_boundary-is_char_boundary, floor_boundary-le, byte_len-prefix, codes, trim, trim_start,
  trim_end, is_empty, reverse-cons, reverse-reverse, In, All, All-append, All-retain, retain-All,
  Dict, get, insert, remove, adjust, get-insert, get-remove, get-adjust, get-insert_self, Result,
  ok, err, ◌>>=◌, ◌>>◌, ℕ, zero, suc, ◌+◌, ◌-◌, ◌*◌, ◌/◌, ◌%◌, ◌^◌, ◌≤◌, ◌<◌, min, max, String, ◌≡◌,
  refl, sym, ap, subst, ◌∙◌, ◌≢◌, ◌↔◌, ◌⊎◌, inl, inr, Bool, true, false, not, ◌&&◌, ◌||◌, Option,
  none, some, List, [], ◌∷◌, ◌++◌, map, reverse, append-nil, append_assoc, arith,
}
use malkuth.Worker.{WorkerPhase, starting, running, restarting, draining, stopped}
use malkuth.Worker.Fleet.{FleetState}

abbrev pub explicit_restart_max : ℕ
explicit_restart_max = 5

abbrev pub explicit_restart_window : ℕ
explicit_restart_window = 60 * 1000

pub record RestartBook : Type 0 where
  -- the worker, and its restart count when the request was accepted
  pub pending : List (String × ℕ)
  pub stamps : List (String × ℕ)

abbrev pub empty_book : RestartBook
empty_book = record { pending = []; stamps = [] }

unfoldable pub restart_blocker : WorkerPhase → Bool → Option String
restart_blocker restarting pending = some "already_restarting"
restart_blocker phase true = some "already_restarting"
restart_blocker stopped false = some "worker_stopped"
restart_blocker draining false = some "worker_draining"
restart_blocker starting false = none
restart_blocker running false = none

-- `phases.get(id).copied()`
unfoldable pub phase_of : String → FleetState → Option (WorkerPhase × ℕ)
unfolding get
phase_of id fleet = elim (get id fleet) [
  | none ↦ none
  | some e ↦ some (e.snapshot.phase, e.snapshot.restart_count)
]

abbrev pub or_stopped : Option (WorkerPhase × ℕ) → WorkerPhase × ℕ
or_stopped none = (stopped, 0)
or_stopped (some p) = p

-- The test of `book.pending.retain`: the request is still open.
unfoldable pub is_open : Option (WorkerPhase × ℕ) → ℕ → Bool
is_open none accepted_at = false
is_open (some (stopped, current)) accepted_at = false
is_open (some (_, current)) accepted_at = eqb current accepted_at

unfoldable pub settle : FleetState → List (String × ℕ) → List (String × ℕ)
unfolding phase_of is_open
settle fleet pending = retain (λ p. is_open (phase_of p.0 fleet) p.1) pending

unfoldable pub fresh_stamps : ℕ → List (String × ℕ) → List (String × ℕ)
fresh_stamps now stamps = retain (λ p. ltb (now - p.1) explicit_restart_window) stamps

abbrev pub of_worker : String → String × ℕ → Bool
of_worker id p = p.0 == id

-- `accept_restart` behind the checks: the request is recorded.
unfoldable pub recorded : ℕ → String → ℕ → RestartBook → RestartBook
recorded now id count book = record {
  pending = book.pending ++ (id, count) ∷ [];
  stamps = book.stamps ++ (id, now) ∷ [];
}

unfoldable pub decide :
    ℕ → String → WorkerPhase × ℕ → RestartBook → Result String (Unit {0}) × RestartBook
unfolding restart_blocker recorded
decide now id (phase, count) book = elim (restart_blocker phase (any (of_worker id) book.pending)) [
  | some code ↦ (err code, book)
  | none ↦
      if leb explicit_restart_max (count_by (of_worker id) book.stamps)
      then (err "restart_budget_exhausted", book)
      else (ok tt, recorded now id count book)
]

unfoldable pub accept_restart :
    ℕ → String → FleetState → RestartBook → Result String (Unit {0}) × RestartBook
unfolding decide settle fresh_stamps phase_of
accept_restart now id fleet book =
    decide now id (or_stopped (phase_of id fleet))
      (record { pending = settle fleet book.pending; stamps = fresh_stamps now book.stamps })

abbrev pub is_ok {ℓ} : {E A : Type ℓ} → Result E A → Bool
is_ok (ok _) = true
is_ok (err _) = false

-- One call: the time, the worker that is named, and the fleet as it is then.
pub record Call : Type 0 where
  pub now : ℕ
  pub id : String
  pub fleet : FleetState

-- The accepted requests of a list of calls, each with its time.
unfoldable pub accepted : List Call → RestartBook → List (String × ℕ)
unfolding accept_restart
accepted [] book = []
accepted (c ∷ cs) book =
    let r = accept_restart c.now c.id c.fleet book in
    let rest = accepted cs r.1 in if is_ok r.0 then (c.id, c.now) ∷ rest else rest

unfoldable pub book_after : List Call → RestartBook → RestartBook
unfolding accept_restart
book_after [] book = book
book_after (c ∷ cs) book = book_after cs (accept_restart c.now c.id c.fleet book).1
