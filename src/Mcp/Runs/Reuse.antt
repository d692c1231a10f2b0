-- ===== src/Mcp/Runs/Reuse.antt =====
-- Which run ids `insert_run` of src/mcp.rs takes again.
use malkuth.Prelude.{
  ltb, if◌then◌else◌, le→ltb, Bool-cases, ℕ_key, string_key, ◌==◌, eq_refl, length, drop, any,
  length-append, ok, err, ℕ, suc, ◌+◌, ◌≤◌, ◌<◌, String, ◌≡◌, refl, sym, ap, ◌∙◌, inl, inr, true,
  false, List, [], ◌∷◌, ◌++◌, append_assoc, arith,
}
use malkuth.Mcp.Runs.{
  max_remembered_run_ids, RunHandle, Server, remember, insert_run, after, RunEvent, supervised,
  ended, on_event, on_events,
}
use malkuth.Mcp.Runs.Capacity.{insert_run-cases}

-- The id was remembered, and at most `n` ids since.
abbrev pub Remembered : String → ℕ → List String → Type 0
Remembered id n used =
    (older : List String) × (newer : List String) × (used ≡ older ++ id ∷ newer)
    × (length newer ≤ n)

remember_self : (id : String) (used : List String) → Remembered id 0 (remember id used)
unfolding remember
remember_self id used = elim (Bool-cases (ltb max_remembered_run_ids (length (used ++ id ∷ [])))) [
  | inr e ↦ (used, [], rw e refl, omega arith)
  | inl e ↦
      elim used
          as (λ us.
            ltb max_remembered_run_ids (length (us ++ id ∷ [])) ≡ true
            → Remembered id 0 (
                if ltb max_remembered_run_ids (length (us ++ id ∷ []))
                then drop 1 (us ++ id ∷ [])
                else us ++ id ∷ [])) [
                  | [] ↦ λ e. absurd (cc e)
                  | u ∷ us ↦ λ e. (us, [], rw e refl, omega arith)
                ]
        e
]

remember-Remembered :
    (id jd : String) (n : ℕ) (used : List String)
    → suc n < max_remembered_run_ids
    → Remembered id n used
    → Remembered id (suc n) (remember jd used)
unfolding remember
remember-Remembered id jd n used l ([], newer, e, k) =
    let len : length (used ++ jd ∷ []) ≡ length newer + 2 =
      ap (λ u. length (u ++ jd ∷ [])) e ∙ omega (arith, length-append {0} newer (jd ∷ [])) in
    let short : ltb max_remembered_run_ids (length (used ++ jd ∷ [])) ≡ false =
      le→ltb max_remembered_run_ids (length (used ++ jd ∷ [])) (omega (arith, len, k, l)) in
    (
      [],
      newer ++ jd ∷ [],
      rw short (ap (λ u. u ++ jd ∷ []) e),
      omega (arith, k, length-append {0} newer (jd ∷ [])),
    )
remember-Remembered id jd n used l (o ∷ older, newer, e, k) =
    let e' : used ++ jd ∷ [] ≡ o ∷ older ++ id ∷ (newer ++ jd ∷ []) =
      ap (λ u. u ++ jd ∷ []) e ∙ ap (λ u. o ∷ u) (append_assoc older (id ∷ newer) (jd ∷ [])) in
    let len : length (newer ++ jd ∷ []) ≤ suc n =
      omega (arith, k, length-append {0} newer (jd ∷ [])) in
    elim (Bool-cases (ltb max_remembered_run_ids (length (used ++ jd ∷ [])))) [
      | inl u ↦ (older, newer ++ jd ∷ [], rw u (ap (drop 1) e'), len)
      | inr u ↦ (o ∷ older, newer ++ jd ∷ [], rw u e', len)
    ]

Remembered-any :
    (id : String) (older newer : List String) → any (λ x. x == id) (older ++ id ∷ newer) ≡ true
Remembered-any id [] newer = rw (eq_refl id) refl
Remembered-any id (o ∷ older) newer = ground (arith, Remembered-any id older newer)

-- The supervisions among the events.
abbrev pub asked : List RunEvent → ℕ
asked [] = 0
asked (supervised _ ∷ es) = suc (asked es)
asked (ended _ _ ∷ es) = asked es

Remembered-weaken :
    (id : String) (n m : ℕ) (used : List String)
    → n ≤ m
    → Remembered id n used
    → Remembered id m used
Remembered-weaken id n m used l (older, newer, e, k) = (older, newer, e, omega (arith, k, l))

on_events-Remembered :
    (id : String) (es : List RunEvent) (n : ℕ) (s : Server)
    → n + asked es < max_remembered_run_ids
    → Remembered id n s.used_run_ids
    → Remembered id (n + asked es) (on_events es s).used_run_ids
unfolding on_events on_event
on_events-Remembered id [] n s l r = Remembered-weaken id n (n + 0) s.used_run_ids (omega arith) r
on_events-Remembered id (ended jd now ∷ es) n s l r = on_events-Remembered id es n _ l r
on_events-Remembered id (supervised handle ∷ es) n s l r =
    let step : Remembered id (suc n) (after s (insert_run handle s)).used_run_ids =
      elim (insert_run-cases handle s) [
        | inl (code, e) ↦ rw e (Remembered-weaken id n (suc n) s.used_run_ids (omega arith) r)
        | inr (slots, room, e, u, o) ↦
            rw o (remember-Remembered id handle.run_id n s.used_run_ids (omega arith) r)
      ] in
    Remembered-weaken id (suc n + asked es) (n + suc (asked es)) _ (omega arith)
      (on_events-Remembered id es (suc n) _ (omega arith) step)

-- A run id is not taken again soon: after a run was registered, and whatever runs end or are evicted,
-- as long as fewer than 256 further supervisions were asked for, another run with its id is refused.
pub insert_run_refuses_reuse :
    (handle again : RunHandle) (s s' : Server) (es : List RunEvent)
    → insert_run handle s ≡ ok s'
    → asked es < max_remembered_run_ids
    → again.run_id ≡ handle.run_id
    → (code : String) × (insert_run again (on_events es s') ≡ err code)
insert_run_refuses_reuse handle again s s' es i l same =
    elim (insert_run-cases again (on_events es s')) [
      | inl refused ↦ refused
      | inr (slots, room, e, u, o) ↦
          let used' : s'.used_run_ids ≡ remember handle.run_id s.used_run_ids =
            elim (insert_run-cases handle s) [
              | inl (code, no_) ↦ absurd (cc (no_, i))
              | inr (slots', room', e', u', o') ↦ ap (λ r. (after s r).used_run_ids) (sym i ∙ o')
            ] in
          let start : Remembered handle.run_id 0 s'.used_run_ids =
            rw used' (remember_self handle.run_id s.used_run_ids) in
          let (older, newer, is, k) =
            on_events-Remembered handle.run_id es 0 s' (omega (arith, l)) start in
          let there : any (λ x. x == again.run_id) (on_events es s').used_run_ids ≡ true =
            ap (any (λ x. x == again.run_id)) is
            ∙ ap (λ r. any (λ x. x == again.run_id) (older ++ r ∷ newer)) (sym same)
            ∙ Remembered-any again.run_id older newer in
          absurd (cc (u, there))
    ]
