-- ===== src/Mcp/Runs/Capacity.antt =====
-- How many runs the registry of src/mcp.rs holds.
use malkuth.Prelude.{
  leb, Bool-cases, Option-cases, ℕ_key, string_key, ◌==◌, eq_iff, length, any, position,
  length-append, ok, err, ℕ, zero, suc, ◌≤◌, ◌<◌, String, ◌≡◌, refl, ap, ◌∙◌, ◌⊎◌, inl, inr, Bool,
  false, ◌||◌, some, List, [], ◌∷◌, ◌++◌, arith,
}
use malkuth.Mcp.Runs.{
  max_runs, RunHandle, Server, new_server, is_finished, mark_finished, has_id, remove_at, make_slot,
  remember, insert_run, update_run, after, RunEvent, supervised, ended, on_event, on_events,
}

abbrev pub Distinct : List RunHandle → Type 0
Distinct [] = Unit
Distinct (run ∷ runs) = (any (has_id run.run_id) runs ≡ false) × Distinct runs

-- The registry holds at most eight runs, no two with one id.
abbrev pub Wf : Server → Type 0
Wf s = (length s.runs ≤ max_runs) × Distinct s.runs

any-remove_at :
    (p : RunHandle → Bool) (n : ℕ) (runs : List RunHandle)
    → any p runs ≡ false
    → any p (remove_at n runs) ≡ false
unfolding remove_at
any-remove_at p n [] h = h
any-remove_at p zero (r ∷ runs) h = ground (arith, h)
any-remove_at p (suc n) (r ∷ runs) h = ground (arith, h, any-remove_at p n runs)

Distinct-remove_at : (n : ℕ) (runs : List RunHandle) → Distinct runs → Distinct (remove_at n runs)
unfolding remove_at
Distinct-remove_at n [] d = d
Distinct-remove_at zero (r ∷ runs) d = d.1
Distinct-remove_at (suc n) (r ∷ runs) d =
    (any-remove_at (has_id r.run_id) n runs d.0, Distinct-remove_at n runs d.1)

any-append_one :
    (p : RunHandle → Bool) (runs : List RunHandle) (r : RunHandle)
    → any p (runs ++ r ∷ []) ≡ (any p runs || p r)
any-append_one p [] r = ground arith
any-append_one p (x ∷ runs) r = ground (arith, any-append_one p runs r)

Distinct-append :
    (runs : List RunHandle) (r : RunHandle)
    → Distinct runs
    → any (has_id r.run_id) runs ≡ false
    → Distinct (runs ++ r ∷ [])
Distinct-append [] r d h = (refl, tt)
Distinct-append (x ∷ runs) r d h =
    let parts : ((x.run_id == r.run_id) ≡ false) × (any (has_id r.run_id) runs ≡ false) =
      ground (arith, h) in
    let flip : (r.run_id == x.run_id) ≡ false =
      ground (arith, parts.0, eq_iff x.run_id r.run_id, eq_iff r.run_id x.run_id) in
    (
      any-append_one (has_id x.run_id) runs r ∙ rw (d.0) (rw flip refl),
      Distinct-append runs r d.1 parts.1,
    )

length-remove_at :
    (n : ℕ) (runs : List RunHandle)
    → n < length runs
    → suc (length (remove_at n runs)) ≡ length runs
unfolding remove_at
length-remove_at n [] h = absurd (omega arith)
length-remove_at zero (r ∷ runs) h = refl
length-remove_at (suc n) (r ∷ runs) h = ap suc (length-remove_at n runs (omega (arith, h)))

position-lt :
    (p : RunHandle → Bool) (runs : List RunHandle) (n : ℕ)
    → position p runs ≡ some n
    → n < length runs
position-lt p [] n h = absurd (cc h)
position-lt p (r ∷ runs) n h = elim (Bool-cases (p r)) [
  | inl e ↦ let z : some 0 ≡ some n = rw e at h in let z' : 0 ≡ n = cc z in omega (arith, z')
  | inr e ↦ elim (Option-cases (position p runs)) [
    | inl u ↦ absurd (cc (rw u at (rw e at h)))
    | inr (m, u) ↦
        let z : some (suc m) ≡ some n = rw u at (rw e at h) in
        let z' : suc m ≡ n = cc z in omega (arith, z', position-lt p runs m u)
  ]
]

-- The two ways to find room.
pub make_slot-cases :
    (runs slots : List RunHandle)
    → make_slot runs ≡ some slots
    → ((slots ≡ runs) × (length runs < max_runs))
      ⊎ ((n : ℕ) × (position is_finished runs ≡ some n) × (slots ≡ remove_at n runs))
unfolding make_slot
make_slot-cases runs slots h = elim (Bool-cases (leb max_runs (length runs))) [
  | inr e ↦ let z : some runs ≡ some slots = rw e at h in inl (cc z, ground (arith, e))
  | inl e ↦ elim (Option-cases (position is_finished runs)) [
    | inl u ↦ absurd (cc (rw u at (rw e at h)))
    | inr (n, u) ↦
        let z : some (remove_at n runs) ≡ some slots = rw u at (rw e at h) in inr (n, u, cc z)
  ]
]

make_slot-Wf :
    (runs slots : List RunHandle)
    → make_slot runs ≡ some slots
    → length runs ≤ max_runs
    → Distinct runs
    → (length slots < max_runs)
      × Distinct slots
      × ((p : RunHandle → Bool) → any p runs ≡ false → any p slots ≡ false)
make_slot-Wf runs slots h l d = elim (make_slot-cases runs slots h) [
  | inl (e, less) ↦ rw e (less, d, λ p f. f)
  | inr (n, pos, e) ↦
      let lt = position-lt is_finished runs n pos in
      let len = length-remove_at n runs lt in
      rw e (omega (arith, l, len), Distinct-remove_at n runs d, λ p f. any-remove_at p n runs f)
]

pub insert_run-cases :
    (handle : RunHandle) (s : Server)
    → ((code : String) × (insert_run handle s ≡ err code))
      ⊎ ((slots : List RunHandle) × (make_slot s.runs ≡ some slots)
          × (any (has_id handle.run_id) s.runs ≡ false)
          × (any (λ id. id == handle.run_id) s.used_run_ids ≡ false)
          × (insert_run handle s
              ≡ ok (record {
                runs = slots ++ handle ∷ [];
                used_run_ids = remember handle.run_id s.used_run_ids;
              })))
unfolding insert_run
insert_run-cases handle s = elim (Bool-cases (any (has_id handle.run_id) s.runs)) [
  | inl e ↦ inl ("run_id already in use", rw (e, insert_run) refl)
  | inr e ↦ elim (Bool-cases (any (λ id. id == handle.run_id) s.used_run_ids)) [
    | inl u ↦ inl ("run_id already used by an evicted run", rw (e, insert_run) (rw u refl))
    | inr u ↦ elim (Option-cases (make_slot s.runs)) [
      | inl v ↦ inl ("too many concurrent runs", rw (e, insert_run) (rw u (rw v refl)))
      | inr (slots, v) ↦ inr (slots, v, e, u, rw (e, insert_run) (rw u (rw v refl)))
    ]
  ]
]

insert_run-Wf : (handle : RunHandle) (s : Server) → Wf s → Wf (after s (insert_run handle s))
insert_run-Wf handle s (l, d) = elim (insert_run-cases handle s) [
  | inl (code, e) ↦ rw e (l, d)
  | inr (slots, room, e, u, r) ↦
      let (len, d', no_) = make_slot-Wf s.runs slots room l d in
      rw r (
        omega (arith, len, length-append {0} slots (handle ∷ [])),
        Distinct-append slots handle d' (no_ (has_id handle.run_id) e),
      )
]

length-update_run :
    (id : String) (f : RunHandle → RunHandle) (runs : List RunHandle)
    → length (update_run id f runs) ≡ length runs
unfolding update_run
length-update_run id f [] = refl
length-update_run id f (r ∷ runs) = ground (arith, length-update_run id f runs)

any-update_run :
    (id jd : String) (now : ℕ) (runs : List RunHandle)
    → any (has_id jd) (update_run id (mark_finished now) runs) ≡ any (has_id jd) runs
unfolding update_run mark_finished
any-update_run id jd now [] = refl
any-update_run id jd now (r ∷ runs) = elim (Bool-cases (has_id id r)) [
  | inl e ↦ rw e refl
  | inr e ↦ rw e (ap (λ b. has_id jd r || b) (any-update_run id jd now runs))
]

Distinct-update_run :
    (id : String) (now : ℕ) (runs : List RunHandle)
    → Distinct runs
    → Distinct (update_run id (mark_finished now) runs)
unfolding update_run mark_finished
Distinct-update_run id now [] d = d
Distinct-update_run id now (r ∷ runs) d = elim (Bool-cases (has_id id r)) [
  | inl e ↦ rw e d
  | inr e ↦ rw e (any-update_run id r.run_id now runs ∙ d.0, Distinct-update_run id now runs d.1)
]

on_events-keeps_Wf : (es : List RunEvent) (s : Server) → Wf s → Wf (on_events es s)
unfolding on_events on_event
on_events-keeps_Wf [] s w = w
on_events-keeps_Wf (supervised handle ∷ es) s w = on_events-keeps_Wf es _ (insert_run-Wf handle s w)
on_events-keeps_Wf (ended id now ∷ es) s w = on_events-keeps_Wf es _ (
  omega (arith, w.0, length-update_run id (mark_finished now) s.runs),
  Distinct-update_run id now s.runs w.1,
)

-- Whatever supervisions are asked for and whatever runs end, from the start of the server on: it keeps
-- at most eight runs, and no two of them have the same id.
pub on_events-Wf : (es : List RunEvent) → Wf (on_events es new_server)
on_events-Wf es = on_events-keeps_Wf es new_server (omega arith, tt)
