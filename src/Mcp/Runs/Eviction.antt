-- ===== src/Mcp/Runs/Eviction.antt =====
-- Which runs `insert_run` of src/mcp.rs keeps.
use malkuth.Prelude.{
  if◌then◌else◌, Bool-cases, Option-cases, ℕ_key, string_key, ◌==◌, eq_iff, position, All, ℕ, suc,
  String, ◌≡◌, refl, sym, ap, ◌∙◌, inl, inr, Bool, false, some, List, [], ◌∷◌, ◌++◌, arith,
}
use malkuth.Mcp.Runs.{
  RunHandle, Server, is_finished, mark_finished, has_id, find, find_run, remove_at, insert_run,
  update_run, after, RunEvent, supervised, ended, on_event, on_events,
}
use malkuth.Mcp.Runs.Capacity.{make_slot-cases, insert_run-cases}

-- A search that finds an unfinished run still does when the first finished one goes.
find-remove_position :
    (q : RunHandle → Bool) (runs : List RunHandle) (n : ℕ) (run : RunHandle)
    → position is_finished runs ≡ some n
    → find q runs ≡ some run
    → is_finished run ≡ false
    → find q (remove_at n runs) ≡ some run
unfolding find remove_at
find-remove_position q [] n run h f u = absurd (cc h)
find-remove_position q (r ∷ runs) n run h f u = elim (Bool-cases (is_finished r)) [
  | inl e ↦
      let z : some 0 ≡ some n = rw e at h in
      let z' : 0 ≡ n = cc z in
      elim (Bool-cases (q r)) [
        | inl v ↦
            let same : some r ≡ some run = rw v at f in
            let same' : r ≡ run = cc same in absurd (cc (sym (ap is_finished same') ∙ e, u))
        | inr v ↦ rw (← z') (rw v at f)
      ]
  | inr e ↦ elim (Option-cases (position is_finished runs)) [
    | inl w ↦ absurd (cc (rw w at (rw e at h)))
    | inr (m, w) ↦
        let z : some (suc m) ≡ some n = rw w at (rw e at h) in
        let z' : suc m ≡ n = cc z in
        elim (Bool-cases (q r)) [
          | inl v ↦ let same : some r ≡ some run = rw v at f in rw (← z') (rw v same)
          | inr v ↦
              let ih = find-remove_position q runs m run w (rw v at f) u in rw (← z') (rw v ih)
        ]
  ]
]

-- The event is not the end of the run.
abbrev pub NotEndOf : String → RunEvent → Type 0
NotEndOf id (supervised handle) = Unit
NotEndOf id (ended jd now) = (jd == id) ≡ false

find-append :
    (q : RunHandle → Bool) (runs : List RunHandle) (h run : RunHandle)
    → find q runs ≡ some run
    → find q (runs ++ h ∷ []) ≡ some run
unfolding find
find-append q [] h run f = absurd (cc f)
find-append q (r ∷ runs) h run f = elim (Bool-cases (q r)) [
  | inl e ↦ rw e (rw e at f)
  | inr e ↦ rw e (find-append q runs h run (rw e at f))
]

find-update_run :
    (id jd : String) (now : ℕ) (runs : List RunHandle)
    → (jd == id) ≡ false
    → find (has_id id) (update_run jd (mark_finished now) runs) ≡ find (has_id id) runs
unfolding find update_run mark_finished
find-update_run id jd now [] h = refl
find-update_run id jd now (r ∷ runs) h = elim (Bool-cases (has_id jd r)) [
  | inl e ↦
      let other : has_id id r ≡ false =
        ground (arith, h, e, eq_iff r.run_id jd, eq_iff r.run_id id, eq_iff jd id) in
      rw e (rw other refl)
  | inr e ↦ rw e (ap (λ o. if has_id id r then some r else o) (find-update_run id jd now runs h))
]

insert_run-keeps :
    (handle run : RunHandle) (id : String) (s : Server)
    → find_run id s ≡ some run
    → is_finished run ≡ false
    → find_run id (after s (insert_run handle s)) ≡ some run
unfolding find_run
insert_run-keeps handle run id s f u = elim (insert_run-cases handle s) [
  | inl (code, e) ↦ rw e f
  | inr (slots, room, e, v, r) ↦ rw r (
      find-append (has_id id) slots handle run (elim (make_slot-cases s.runs slots room) [
        | inl (same, less) ↦ rw same f
        | inr (n, pos, same) ↦ rw same (find-remove_position (has_id id) s.runs n run pos f u)
      ]))
]

-- A live run is never lost: a run that has not finished is still found under its id, unchanged, after
-- any supervisions that are asked for and any other runs that end.
pub live_run_kept :
    (es : List RunEvent) (id : String) (run : RunHandle) (s : Server)
    → find_run id s ≡ some run
    → is_finished run ≡ false
    → All (NotEndOf id) es
    → find_run id (on_events es s) ≡ some run
unfolding on_events on_event find_run
live_run_kept [] id run s f u ne = f
live_run_kept (supervised handle ∷ es) id run s f u ne =
    live_run_kept es id run _ (insert_run-keeps handle run id s f u) u ne.1
live_run_kept (ended jd now ∷ es) id run s f u ne =
    live_run_kept es id run _ (find-update_run id jd now s.runs ne.0 ∙ f) u ne.1
