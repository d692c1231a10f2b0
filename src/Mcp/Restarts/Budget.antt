-- ===== src/Mcp/Restarts/Budget.antt =====
-- The budget of `accept_restart` in src/mcp.rs over lists of calls.
use malkuth.Prelude.{
  ltb, leb, if◌then◌else◌, Bool-cases, Option-cases, ℕ_key, string_key, ◌==◌, eq_iff, any, count_by,
  count_by-append, All, ℕ, ◌+◌, ◌-◌, ◌≤◌, ◌<◌, String, ◌≡◌, refl, subst, ◌∙◌, ◌⊎◌, inl, inr, true,
  false, ◌&&◌, List, [], ◌∷◌, ◌++◌, arith,
}
use malkuth.Worker.{WorkerPhase}
use malkuth.Mcp.Restarts.{
  explicit_restart_max, explicit_restart_window, RestartBook, empty_book, restart_blocker,
  or_stopped, phase_of, settle, fresh_stamps, of_worker, recorded, decide, accept_restart, is_ok,
  Call, accepted, book_after,
}

-- The requests for worker `id` that are less than a window old at `now`.
abbrev pub recent : String → ℕ → List (String × ℕ) → ℕ
recent id now = count_by (λ p. of_worker id p && ltb (now - p.1) explicit_restart_window)

-- The calls come in the order of their times, none before `from`.
abbrev pub InOrder : ℕ → List Call → Type 0
InOrder from [] = Unit
InOrder from (c ∷ cs) = (from ≤ c.now) × InOrder c.now cs

recent-fresh_stamps :
    (id : String) (now later : ℕ) (l : List (String × ℕ))
    → now ≤ later
    → recent id later (fresh_stamps now l) ≡ recent id later l
unfolding fresh_stamps
recent-fresh_stamps id now later [] h = refl
recent-fresh_stamps id now later (p ∷ l) h = ground (arith, recent-fresh_stamps id now later l h)

-- What a call does to the stamps: it drops the old ones, and adds its own when it is accepted.
decide-stamps :
    (now : ℕ) (id : String) (p : WorkerPhase × ℕ) (book : RestartBook)
    → ((is_ok (decide now id p book).0 ≡ false) × ((decide now id p book).1.stamps ≡ book.stamps))
      ⊎ ((is_ok (decide now id p book).0 ≡ true)
          × ((decide now id p book).1.stamps ≡ book.stamps ++ (id, now) ∷ [])
          × (count_by (of_worker id) book.stamps < explicit_restart_max))
unfolding decide recorded
decide-stamps now id (phase, count) book =
    elim (Option-cases (restart_blocker phase (any (of_worker id) book.pending))) [
      | inr (code, e) ↦ inl (rw (e, decide) (refl, refl))
      | inl e ↦ elim (Bool-cases (leb explicit_restart_max (count_by (of_worker id) book.stamps))) [
        | inl u ↦ inl (rw (e, decide) (rw u (refl, refl)))
        | inr u ↦
            let l : count_by (of_worker id) book.stamps < explicit_restart_max =
              ground (arith, u) in
            inr (rw (e, decide) (rw u (refl, refl, l)))
      ]
    ]

recent-le-count_by :
    (id : String) (t : ℕ) (l : List (String × ℕ)) → recent id t l ≤ count_by (of_worker id) l
recent-le-count_by id t [] = omega arith
recent-le-count_by id t (p ∷ l) = ground (arith, recent-le-count_by id t l)

-- The entry of an accepted call.
abbrev entry_of : Call → RestartBook → List (String × ℕ)
entry_of c book =
    if is_ok (accept_restart c.now c.id c.fleet book).0 then (c.id, c.now) ∷ [] else []

-- A call adds its entry, and forgets nothing that a later window sees.
call-recent :
    (id : String) (c : Call) (book : RestartBook) (later : ℕ)
    → c.now ≤ later
    → recent id later (accept_restart c.now c.id c.fleet book).1.stamps
      ≡ recent id later book.stamps + recent id later (entry_of c book)
unfolding accept_restart
call-recent id c book later l =
    let cut : RestartBook = record {
      pending = settle c.fleet book.pending;
      stamps = fresh_stamps c.now book.stamps;
    } in
    let kept = recent-fresh_stamps id c.now later book.stamps l in
    elim (decide-stamps c.now c.id (or_stopped (phase_of c.id c.fleet)) cut) [
      | inl (no_, e) ↦ rw (no_, e) (kept ∙ omega arith)
      | inr (yes_, e, less) ↦
          rw (yes_, e)
            (omega (
              arith,
              kept,
              count_by-append (λ p. of_worker id p && ltb (later - p.1) explicit_restart_window)
                  (fresh_stamps c.now book.stamps) ((c.id, c.now) ∷ []),
            ))
    ]

-- No window from `from` on sees more of the stamps than the budget.
abbrev Bounded : String → ℕ → RestartBook → Type 0
Bounded id from book = (t : ℕ) → from ≤ t → recent id t book.stamps ≤ explicit_restart_max

call-Bounded :
    (id : String) (c : Call) (book : RestartBook) (from : ℕ)
    → from ≤ c.now
    → Bounded id from book
    → Bounded id c.now (accept_restart c.now c.id c.fleet book).1
unfolding accept_restart
call-Bounded id c book from o h t l =
    let cut : RestartBook = record {
      pending = settle c.fleet book.pending;
      stamps = fresh_stamps c.now book.stamps;
    } in
    let kept = recent-fresh_stamps id c.now t book.stamps l in
    let before = h t (omega arith) in
    elim (decide-stamps c.now c.id (or_stopped (phase_of c.id c.fleet)) cut) [
      | inl (no_, e) ↦ rw e (omega (arith, kept, before))
      | inr (yes_, e, less) ↦
          let added =
            count_by-append (λ p. of_worker id p && ltb (t - p.1) explicit_restart_window)
              (fresh_stamps c.now book.stamps) ((c.id, c.now) ∷ []) in
          elim (Bool-cases (c.id == id)) [
            | inr other ↦ rw e (rw added (rw other (omega (arith, kept, before))))
            | inl me ↦
                let same : c.id ≡ id = (eq_iff c.id id).0 me in
                let less' : count_by (of_worker id) (fresh_stamps c.now book.stamps) < 5 =
                  subst (λ w. count_by (of_worker w) (fresh_stamps c.now book.stamps) < 5) same
                    less in
                let le = recent-le-count_by id t (fresh_stamps c.now book.stamps) in
                rw e (rw added (ground (arith, less', le)))
          ]
    ]

-- The calls happen by `later`.
abbrev pub Until : ℕ → List Call → Type 0
Until later cs = All (λ (c : Call). c.now ≤ later) cs

accepted-recent :
    (id : String) (cs : List Call) (book : RestartBook) (later : ℕ)
    → Until later cs
    → recent id later (book_after cs book).stamps
      ≡ recent id later book.stamps + recent id later (accepted cs book)
unfolding accepted book_after
accepted-recent id [] book later u = omega arith
accepted-recent id (c ∷ cs) book later u =
    let ih = accepted-recent id cs (accept_restart c.now c.id c.fleet book).1 later u.1 in
    let one = call-recent id c book later u.0 in
    elim (Bool-cases (is_ok (accept_restart c.now c.id c.fleet book).0)) [
      | inl e ↦ rw e (omega (arith, ih, rw e at one))
      | inr e ↦ rw e (omega (arith, ih, rw e at one))
    ]

book_after-Bounded :
    (id : String) (cs : List Call) (book : RestartBook) (from later : ℕ)
    → InOrder from cs
    → Until later cs
    → from ≤ later
    → Bounded id from book
    → recent id later (book_after cs book).stamps ≤ explicit_restart_max
unfolding book_after
book_after-Bounded id [] book from later o u l h = h later l
book_after-Bounded id (c ∷ cs) book from later o u l h =
    book_after-Bounded id cs (accept_restart c.now c.id c.fleet book).1 c.now later o.1 u.1 u.0
      (call-Bounded id c book from o.0 h)

-- The operator's budget: of any requests in the order of their times, with the fleet as it may be at
-- each, at most five are accepted for one worker within any window of sixty seconds.
pub accepted-le-explicit_restart_max :
    (id : String) (cs : List Call) (later : ℕ)
    → InOrder 0 cs
    → Until later cs
    → recent id later (accepted cs empty_book) ≤ explicit_restart_max
accepted-le-explicit_restart_max id cs later o u = omega (
  arith,
  accepted-recent id cs empty_book later u,
  book_after-Bounded id cs empty_book 0 later o u (omega arith) (λ t l. omega arith),
)
