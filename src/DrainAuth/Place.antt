-- ===== src/DrainAuth/Place.antt =====
-- The place of an approval among the entries of the registry of src/drain_auth.rs, newest first.
use malkuth.Prelude.{
  ltb, leb, eqb, if◌then◌else◌, eqb_iff, Bool-cases, is_some, ℕ_key, string_key, eq_iff, eq_refl,
  length, retain, length-append, reverse-cons, ℕ, ◌+◌, ◌-◌, ◌≤◌, ◌<◌, String, ◌≡◌, refl, sym, ap,
  subst, ◌∙◌, inl, inr, Bool, true, false, not, ◌&&◌, Option, some, List, [], ◌∷◌, ◌++◌, reverse,
  append-nil, arith,
}
use malkuth.DrainAuth.{
  approved, blocked, ApprovalEntry, GateDecision, matches, is_block, is_valid, make_room,
  fresh_entry, entry_status, status_loop, consume_loop,
}
use malkuth.DrainAuth.History.{same}

-- The entry that an approval at `at` appended, not spent since.
abbrev recorded : ℕ → Bool → ApprovalEntry → Bool
recorded at block_ e =
    eqb e.approved_at at
    && not (is_some e.consumed_at)
    && (if block_ then is_block e.decision else not (is_block e.decision))

-- Newest first: of the pair's entries that one is the first, with at most `n` of others before it.
pub standing : String → String → ℕ → Bool → ℕ → List ApprovalEntry → Bool
standing p w at block_ n [] = false
standing p w at block_ n (e ∷ es) =
    let rest = standing p w at block_ (n - 1) es in
    if matches p w e then recorded at block_ e else ltb 0 n && rest

standing_more :
    (p w : String) (at : ℕ) (b : Bool) (n m : ℕ) (es : List ApprovalEntry)
    → n ≤ m
    → standing p w at b n es ≡ true
    → standing p w at b m es ≡ true
unfolding standing
standing_more p w at b n m [] l h = absurd (cc h)
standing_more p w at b n m (e ∷ es) l h =
    let more = standing_more p w at b (n - 1) (m - 1) es (omega (arith, l)) in
    ground (arith, h, more, l)

pub standing-retain :
    (p w : String) (at : ℕ) (b : Bool) (n : ℕ) (keep : ApprovalEntry → Bool)
    (es : List ApprovalEntry)
    → ((e : ApprovalEntry) → matches p w e ≡ true → recorded at b e ≡ true → keep e ≡ true)
    → standing p w at b n es ≡ true
    → standing p w at b n (retain keep es) ≡ true
unfolding standing
standing-retain p w at b n keep [] k h = absurd (cc h)
standing-retain p w at b n keep (e ∷ es) k h = elim (Bool-cases (matches p w e)) [
  | inl mine ↦ let good : recorded at b e ≡ true = rw mine at h in rw (k e mine good) (rw mine good)
  | inr theirs ↦
      let both : (ltb 0 n && standing p w at b (n - 1) es) ≡ true = rw theirs at h in
      let parts : (ltb 0 n ≡ true) × (standing p w at b (n - 1) es ≡ true) = ground (arith, both) in
      let kept = standing-retain p w at b (n - 1) keep es k parts.1 in
      elim (Bool-cases (keep e)) [
        | inl u ↦ rw u (rw theirs (ground (arith, parts.0, kept)))
        | inr u ↦ rw u (standing_more p w at b (n - 1) n (retain keep es) (omega arith) kept)
      ]
]

-- What `consume` leaves where the first entry is of the pair that it is called for.
consume_here :
    (ttl now : ℕ) (p w : String) (e : ApprovalEntry) (es : List ApprovalEntry)
    → matches p w e ≡ true
    → (c : Option ℕ) × ((consume_loop ttl now p w (e ∷ es)).1 ≡ record e { consumed_at = c } ∷ es)
unfolding consume_loop
consume_here ttl now p w e es m = elim (Bool-cases (is_block e.decision)) [
  | inl u ↦ (e.consumed_at, rw m (rw u refl))
  | inr u ↦ elim (Bool-cases (is_some e.consumed_at)) [
    | inl v ↦ (e.consumed_at, rw m (rw u (rw v refl)))
    | inr v ↦ elim (Bool-cases (is_valid ttl now e)) [
      | inl l ↦ (some now, rw m (rw u (rw v (rw l refl))))
      | inr l ↦ (e.consumed_at, rw m (rw u (rw v (rw l refl))))
    ]
  ]
]

matches_other :
    (p w p' w' : String) (e : ApprovalEntry)
    → same p w p' w' ≡ false
    → matches p' w' e ≡ true
    → matches p w e ≡ false
matches_other p w p' w' e h m = ground (
  arith,
  h,
  m,
  eq_iff e.proposal_id p,
  eq_iff e.worker_id w,
  eq_iff e.proposal_id p',
  eq_iff e.worker_id w',
  eq_iff p' p,
  eq_iff w' w,
)

pub standing-consume_loop :
    (p w : String) (at : ℕ) (b : Bool) (n ttl now : ℕ) (p' w' : String) (es : List ApprovalEntry)
    → same p w p' w' ≡ false
    → standing p w at b n (consume_loop ttl now p' w' es).1 ≡ standing p w at b n es
unfolding standing
standing-consume_loop p w at b n ttl now p' w' [] h = unfold consume_loop in refl
standing-consume_loop p w at b n ttl now p' w' (e ∷ es) h = elim (Bool-cases (matches p' w' e)) [
  | inl m ↦
      let (c, out) = consume_here ttl now p' w' e es m in
      let theirs = matches_other p w p' w' e h m in ap (standing p w at b n) out ∙ rw theirs refl
  | inr m ↦
      let rest = standing-consume_loop p w at b (n - 1) ttl now p' w' es h in
      let out : (consume_loop ttl now p' w' (e ∷ es)).1 ≡ e ∷ (consume_loop ttl now p' w' es).1 =
        unfold consume_loop in rw m refl in
      ap (standing p w at b n) out
      ∙ ap (λ (x : Bool). if matches p w e then recorded at b e else ltb 0 n && x) rest
]

-- The oldest entry goes, when there are others behind the one that stands.
standing_evict :
    (p w : String) (at : ℕ) (b : Bool) (n : ℕ) (es : List ApprovalEntry) (old : ApprovalEntry)
    → n < length es
    → standing p w at b n (es ++ old ∷ []) ≡ true
    → standing p w at b n es ≡ true
unfolding standing
standing_evict p w at b n [] old l h = absurd (omega (arith, l))
standing_evict p w at b n (e ∷ es) old l h = elim (Bool-cases (ltb 0 n)) [
  | inl u ↦ ground (arith, h, u, standing_evict p w at b (n - 1) es old (ground (arith, l, u)))
  | inr u ↦ ground (arith, h, u)
]

length-reverse : (es : List ApprovalEntry) → length (reverse es) ≡ length es
length-reverse [] = refl
length-reverse (e ∷ es) =
    ap length (reverse-cons e es)
    ∙ omega (arith, length-append (reverse es) (e ∷ []), length-reverse es)

pub standing-make_room :
    (p w : String) (at : ℕ) (b : Bool) (n cap : ℕ) (es fs : List ApprovalEntry)
    → n + 1 < cap
    → make_room cap es ≡ some fs
    → standing p w at b n (reverse es) ≡ true
    → standing p w at b n (reverse fs) ≡ true
unfolding make_room standing
standing-make_room p w at b n cap [] fs l e h = absurd (cc h)
standing-make_room p w at b n cap (x ∷ es) fs l e h =
    elim (Bool-cases (leb cap (length (x ∷ es)))) [
      | inr u ↦
          let e' : some (x ∷ es) ≡ some fs = rw u at e in
          let is_fs : x ∷ es ≡ fs = cc e' in
          subst (λ gs. standing p w at b n (reverse gs) ≡ true) is_fs h
      | inl u ↦
          let e' : some es ≡ some fs = rw u at e in
          let is_fs : es ≡ fs = cc e' in
          let split : standing p w at b n (reverse es ++ x ∷ []) ≡ true = rw reverse-cons at h in
          subst (λ gs. standing p w at b n (reverse gs) ≡ true) is_fs
            (standing_evict p w at b n (reverse es) x (ground (arith, l, u, length-reverse es))
              split)
    ]

retain-append :
    (keep : ApprovalEntry → Bool) (es fs : List ApprovalEntry)
    → retain keep (es ++ fs) ≡ retain keep es ++ retain keep fs
retain-append keep [] fs = refl
retain-append keep (e ∷ es) fs = elim (Bool-cases (keep e)) [
  | inl u ↦ rw u (ap (λ gs. e ∷ gs) (retain-append keep es fs))
  | inr u ↦ rw u (retain-append keep es fs)
]

pub reverse-retain :
    (keep : ApprovalEntry → Bool) (es : List ApprovalEntry)
    → reverse (retain keep es) ≡ retain keep (reverse es)
reverse-retain keep [] = refl
reverse-retain keep (e ∷ es) =
    let split : retain keep (reverse (e ∷ es)) ≡ retain keep (reverse es) ++ retain keep (e ∷ []) =
      ap (retain keep) (reverse-cons e es) ∙ retain-append keep (reverse es) (e ∷ []) in
    elim (Bool-cases (keep e)) [
      | inl u ↦
          let left : reverse (retain keep (e ∷ es)) ≡ reverse (e ∷ retain keep es) = rw u refl in
          let one : retain keep (e ∷ []) ≡ e ∷ [] = rw u refl in
          left
          ∙ reverse-cons e (retain keep es)
          ∙ ap (λ gs. gs ++ e ∷ []) (reverse-retain keep es)
          ∙ sym (split ∙ ap (λ gs. retain keep (reverse es) ++ gs) one)
      | inr u ↦
          let left : reverse (retain keep (e ∷ es)) ≡ reverse (retain keep es) = rw u refl in
          let nothing : retain keep (e ∷ []) ≡ [] = rw u refl in
          left
          ∙ reverse-retain keep es
          ∙ sym (append-nil (retain keep (reverse es)))
          ∙ sym (split ∙ ap (λ gs. retain keep (reverse es) ++ gs) nothing)
    ]

-- An entry of that time is valid for as long as the TTL.
recorded-is_valid :
    (ttl at now : ℕ) (b : Bool) (e : ApprovalEntry)
    → at ≤ now
    → now < at + ttl
    → recorded at b e ≡ true
    → is_valid ttl now e ≡ true
unfolding is_valid
recorded-is_valid ttl at now b e l u h = ground (arith, l, u, h, eqb_iff e.approved_at at)

pub standing-valid :
    (p w : String) (at : ℕ) (b : Bool) (n ttl now : ℕ) (es : List ApprovalEntry)
    → at ≤ now
    → now < at + ttl
    → standing p w at b n (reverse es) ≡ true
    → standing p w at b n (reverse (retain (is_valid ttl now) es)) ≡ true
standing-valid p w at b n ttl now es l u h = rw (reverse-retain (is_valid ttl now) es) (
    standing-retain p w at b n (is_valid ttl now) (reverse es)
      (λ e m good. recorded-is_valid ttl at now b e l u good) h)

pub theirs_kept :
    (p w p' w' : String) (e : ApprovalEntry)
    → same p w p' w' ≡ false
    → matches p w e ≡ true
    → not (matches p' w' e) ≡ true
theirs_kept p w p' w' e h m = elim (Bool-cases (matches p' w' e)) [
  | inr u ↦ rw u refl
  | inl u ↦ absurd (cc (matches_other p w p' w' e h u, m))
]

pub standing-fresh_entry :
    (p w : String) (at : ℕ) (b : Bool) (n now : ℕ) (p' w' : String) (d : GateDecision)
    (es : List ApprovalEntry)
    → same p w p' w' ≡ false
    → standing p w at b n es ≡ true
    → standing p w at b (n + 1) (fresh_entry now p' w' d ∷ es) ≡ true
unfolding standing
standing-fresh_entry p w at b n now p' w' d es other h =
    let back : standing p w at b (n + 1 - 1) es ≡ true =
      standing_more p w at b n (n + 1 - 1) es (omega arith) h in
    rw other (ground (arith, back))

entry_status-recorded :
    (ttl at later : ℕ) (d : GateDecision) (e : ApprovalEntry)
    → at ≤ later
    → later < at + ttl
    → recorded at (is_block d) e ≡ true
    → entry_status ttl later e ≡ (if is_block d then blocked else approved)
unfolding entry_status
entry_status-recorded ttl at later d e l u h =
    let valid : is_valid ttl later e ≡ true = recorded-is_valid ttl at later (is_block d) e l u h in
    let unspent : is_some e.consumed_at ≡ false = ground (arith, h) in
    elim (Bool-cases (is_block d)) [
      | inl b ↦
          let same_kind : is_block e.decision ≡ true = ground (arith, h, b) in
          rw same_kind (rw b refl)
      | inr b ↦
          let same_kind : is_block e.decision ≡ false = ground (arith, h, b) in
          rw same_kind (rw b (rw unspent (rw valid refl)))
    ]

pub status_loop-standing :
    (p w : String) (at : ℕ) (d : GateDecision) (n ttl later : ℕ) (es : List ApprovalEntry)
    → at ≤ later
    → later < at + ttl
    → standing p w at (is_block d) n es ≡ true
    → status_loop ttl later p w es ≡ (if is_block d then blocked else approved)
unfolding standing status_loop
status_loop-standing p w at d n ttl later [] l u h = absurd (cc h)
status_loop-standing p w at d n ttl later (e ∷ es) l u h = elim (Bool-cases (matches p w e)) [
  | inl mine ↦
      let good : recorded at (is_block d) e ≡ true = rw mine at h in
      rw mine (entry_status-recorded ttl at later d e l u good)
  | inr theirs ↦
      let both : (ltb 0 n && standing p w at (is_block d) (n - 1) es) ≡ true = rw theirs at h in
      let later_ones : standing p w at (is_block d) (n - 1) es ≡ true = ground (arith, both) in
      rw theirs (status_loop-standing p w at d (n - 1) ttl later es l u later_ones)
]

-- An approval puts its own entry first.
pub standing-fresh_self :
    (p w : String) (now : ℕ) (d : GateDecision) (es : List ApprovalEntry)
    → standing p w now (is_block d) 0 (fresh_entry now p w d ∷ es) ≡ true
unfolding standing
standing-fresh_self p w now d es =
    let mine : recorded now (is_block d) (fresh_entry now p w d) ≡ true =
      ground (arith, (eqb_iff now now).1 refl) in
    let self : matches p w (fresh_entry now p w d) ≡ true = ground (arith, eq_refl p, eq_refl w) in
    rw self mine
