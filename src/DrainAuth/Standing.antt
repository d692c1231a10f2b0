-- ===== src/DrainAuth/Standing.antt =====
-- How long an approval of src/drain_auth.rs stands, over the requests that come after it.
use malkuth.Prelude.{
  if◌then◌else◌, Bool-cases, Option-cases, ℕ_key, string_key, retain, count_by, is_blank,
  reverse-reverse, All, ℕ, ◌+◌, ◌≤◌, ◌<◌, String, ◌≡◌, refl, sym, ap, subst, ◌∙◌, ◌⊎◌, inl, inr,
  Bool, true, false, not, ◌||◌, Option, none, some, List, [], ◌∷◌, reverse, arith,
}
use malkuth.DrainAuth.{
  approved, blocked, ApprovalRegistry, GateDecision, matches, is_block, is_valid, approve, status,
  consume, purge, validate_drain_request, bad_budget,
}
use malkuth.DrainAuth.Spend.{approve_entries, reverse-replace_pair}
use malkuth.DrainAuth.Capacity.{approve_panics}
use malkuth.DrainAuth.History.{Request, approving, draining, purging, same}
use malkuth.DrainAuth.Place.{
  standing, standing-consume_loop, standing-make_room, reverse-retain, standing-fresh_entry,
  standing-fresh_self, status_loop-standing, theirs_kept, standing-retain, standing-valid,
}

-- The registry after the requests; `none` is a panic of `approve`.
unfoldable pub requests : List Request → ApprovalRegistry → Option ApprovalRegistry
unfolding approve validate_drain_request purge
requests [] r = some r
requests (approving now p w d ∷ qs) r = elim (approve now p w d r) [
  | none ↦ none
  | some r' ↦ requests qs r'
]
requests (draining now w p budget ∷ qs) r = requests qs (validate_drain_request now w p budget r).1
requests (purging now ∷ qs) r = requests qs (purge now r)

-- A request for other pairs, or a purge, from `from` on and before `until`.
abbrev pub Elsewhere : String → String → ℕ → ℕ → Request → Type 0
Elsewhere p w from until (approving now p' w' d) =
    (from ≤ now) × (now < until) × (same p w p' w' ≡ false)
Elsewhere p w from until (draining now w' p' budget) = same p w p' w' ≡ false
Elsewhere p w from until (purging now) = (from ≤ now) × (now < until)

abbrev pub is_approving : Request → Bool
is_approving (approving _ _ _ _) = true
is_approving (draining _ _ _ _) = false
is_approving (purging _) = false

-- What holds of the registry while the approval stands.
abbrev Stands : String → String → ℕ → Bool → ℕ → ApprovalRegistry → Type 0
Stands p w at b n r = standing p w at b n (reverse r.entries) ≡ true

Stands-approve :
    (p w : String) (at : ℕ) (b : Bool) (n now : ℕ) (p' w' : String) (d : GateDecision)
    (r r' : ApprovalRegistry)
    → approve now p' w' d r ≡ some r'
    → at ≤ now
    → now < at + r.ttl
    → same p w p' w' ≡ false
    → n + 1 < r.max_entries
    → Stands p w at b n r
    → Stands p w at b (n + 1) r'
Stands-approve p w at b n now p' w' d r r' e l u other room h =
    let (es, made, e') = approve_entries now p' w' d r r' e in
    let kept : standing p w at b n (reverse es) ≡ true =
      standing-make_room p w at b n r.max_entries (retain (is_valid r.ttl now) r.entries) es room
        made (standing-valid p w at b n r.ttl now r.entries l u h) in
    rw e' (
      rw (reverse-replace_pair now p' w' d es) (
        rw (reverse-retain (λ x. not (matches p' w' x)) es) (
          standing-fresh_entry p w at b n now p' w' d
            (retain (λ x. not (matches p' w' x)) (reverse es)) other
            (standing-retain p w at b n (λ x. not (matches p' w' x)) (reverse es)
              (λ x mine good. theirs_kept p w p' w' x other mine) kept))))

Stands-consume :
    (p w : String) (at : ℕ) (b : Bool) (n now : ℕ) (p' w' : String) (r : ApprovalRegistry)
    → same p w p' w' ≡ false
    → Stands p w at b n r
    → Stands p w at b n (consume now p' w' r).1
unfolding consume
Stands-consume p w at b n now p' w' r other h =
    rw reverse-reverse
      (standing-consume_loop p w at b n r.ttl now p' w' (reverse r.entries) other ∙ h)

-- A drain request leaves the registry as it is, or asks `consume`.
drain_cases :
    (now : ℕ) (w p : String) (budget : Option ℕ) (r : ApprovalRegistry)
    → ((validate_drain_request now w p budget r).1 ≡ r)
      ⊎ ((validate_drain_request now w p budget r).1 ≡ (consume now p w r).1)
unfolding validate_drain_request
drain_cases now w p none r = elim (Bool-cases (is_blank p || is_blank w)) [
  | inl e ↦ inl (rw e refl)
  | inr e ↦ inr (rw e refl)
]
drain_cases now w p (some k) r = elim (Bool-cases (is_blank p || is_blank w)) [
  | inl e ↦ inl (rw e refl)
  | inr e ↦ elim (Bool-cases (bad_budget k)) [
    | inl u ↦ inl (rw e (rw u refl))
    | inr u ↦ inr (rw e (rw u refl))
  ]
]

-- What the requests elsewhere need and keep.
abbrev Lasts : String → String → ℕ → Bool → ℕ → ℕ → ℕ → ApprovalRegistry → Type 0
Lasts p w at b n cap ttl r = (r.max_entries ≡ cap) × (r.ttl ≡ ttl) × Stands p w at b n r

Lasts-validate_drain_request :
    (p w : String) (at : ℕ) (b : Bool) (n cap ttl now : ℕ) (w' p' : String) (budget : Option ℕ)
    (r : ApprovalRegistry)
    → same p w p' w' ≡ false
    → Lasts p w at b n cap ttl r
    → Lasts p w at b n cap ttl (validate_drain_request now w' p' budget r).1
Lasts-validate_drain_request p w at b n cap ttl now w' p' budget r other (c, t, h) =
    elim (drain_cases now w' p' budget r) [
      | inl e ↦ subst (Lasts p w at b n cap ttl) (sym e) (c, t, h)
      | inr e ↦
          subst (Lasts p w at b n cap ttl) (sym e) (
            unfold consume in c,
            unfold consume in t,
            Stands-consume p w at b n now p' w' r other h,
          )
    ]

Lasts-approve :
    (p w : String) (at : ℕ) (b : Bool) (n cap ttl now : ℕ) (p' w' : String) (d : GateDecision)
    (r r' : ApprovalRegistry)
    → approve now p' w' d r ≡ some r'
    → Elsewhere p w at (at + ttl) (approving now p' w' d)
    → n + 1 < cap
    → Lasts p w at b n cap ttl r
    → Lasts p w at b (n + 1) cap ttl r'
Lasts-approve p w at b n cap ttl now p' w' d r r' e (l, u, other) room (c, t, h) =
    let (es, made, e') = approve_entries now p' w' d r r' e in
    (
      ap (λ (x : ApprovalRegistry). x.max_entries) e' ∙ c,
      ap (λ (x : ApprovalRegistry). x.ttl) e' ∙ t,
      Stands-approve p w at b n now p' w' d r r' e l (omega (arith, u, t)) other
          (omega (arith, room, c)) h,
    )

requests-Lasts :
    (p w : String) (at : ℕ) (b : Bool) (n cap ttl : ℕ) (qs : List Request) (r : ApprovalRegistry)
    → All (Elsewhere p w at (at + ttl)) qs
    → n + count_by is_approving qs < cap
    → Lasts p w at b n cap ttl r
    → (r' : ApprovalRegistry) × (m : ℕ) × (requests qs r ≡ some r') × Lasts p w at b m cap ttl r'
unfolding requests
requests-Lasts p w at b n cap ttl [] r q room h = (r, n, refl, h)
requests-Lasts p w at b n cap ttl (draining now w' p' budget ∷ qs) r q room h =
    requests-Lasts p w at b n cap ttl qs (validate_drain_request now w' p' budget r).1 q.1
      (omega (arith, room))
      (Lasts-validate_drain_request p w at b n cap ttl now w' p' budget r q.0 h)
requests-Lasts p w at b n cap ttl (purging now ∷ qs) r (q, qs_ok) room (c, t, h) =
    let kept : Stands p w at b n (purge now r) =
      unfold purge in standing-valid p w at b n r.ttl now r.entries q.0 (omega (arith, q.1, t)) h in
    requests-Lasts p w at b n cap ttl qs (purge now r) qs_ok (omega (arith, room))
      (unfold purge in c, unfold purge in t, kept)
requests-Lasts p w at b n cap ttl (approving now p' w' d ∷ qs) r q room h =
    elim (Option-cases (approve now p' w' d r)) [
      | inl e ↦ absurd (omega (arith, room, h.0, ((approve_panics now p' w' d r).0 e).0))
      | inr (r1, e) ↦
          let next =
            Lasts-approve p w at b n cap ttl now p' w' d r r1 e q.0 (omega (arith, room)) h in
          let (r', m, out, last) =
            requests-Lasts p w at b (n + 1) cap ttl qs r1 q.1 (omega (arith, room)) next in
          (r', m, rw (e, requests) out, last)
    ]

approve-Lasts :
    (now : ℕ) (p w : String) (d : GateDecision) (r r' : ApprovalRegistry)
    → approve now p w d r ≡ some r'
    → Lasts p w now (is_block d) 0 r.max_entries r.ttl r'
approve-Lasts now p w d r r' h =
    let (es, _, e) = approve_entries now p w d r r' h in
    (
      ap (λ (x : ApprovalRegistry). x.max_entries) e,
      ap (λ (x : ApprovalRegistry). x.ttl) e,
      rw e (rw (reverse-replace_pair now p w d es) (standing-fresh_self p w now d _)),
    )

-- An approval stands for its TTL, whatever was recorded for the pair before it. After it come, in any order,
-- approvals of other pairs, within the TTL and fewer than the capacity of the registry, drain requests of
-- other pairs, and purges within the TTL: none of them panics, and `status`, asked within the TTL, still
-- reports the decision for the pair; a block is reported as such.
pub approve-status :
    (now later : ℕ) (p w : String) (d : GateDecision) (qs : List Request) (r r' : ApprovalRegistry)
    → approve now p w d r ≡ some r'
    → All (Elsewhere p w now (now + r.ttl)) qs
    → count_by is_approving qs < r.max_entries
    → now ≤ later
    → later < now + r.ttl
    → (r'' : ApprovalRegistry) × (requests qs r' ≡ some r'')
      × (status later p w r'' ≡ (if is_block d then blocked else approved))
unfolding status
approve-status now later p w d qs r r' h q room l u =
    let (r'', m, out, (c, t, last)) =
      requests-Lasts p w now (is_block d) 0 r.max_entries r.ttl qs r' q (omega (arith, room))
        (approve-Lasts now p w d r r' h) in
    (
      r'',
      out,
      status_loop-standing p w now d m r''.ttl later (reverse r''.entries) l (omega (arith, u, t))
          last,
    )
