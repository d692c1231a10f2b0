-- ===== src/DrainAuth/History.antt =====
-- Histories of the registry: how often the gate can grant, and how large the registry grows.
use malkuth.Prelude.{
  Option-cases, is_some, ℕ_key, string_key, ◌==◌, eq_iff, retain, count_by, count_by-append,
  count_by-reverse, count_by-retain, ℕ, ◌+◌, ◌≤◌, String, ◌≡◌, inl, inr, Bool, true, false, not,
  ◌&&◌, Option, none, some, List, [], ◌∷◌, reverse, arith,
}
use malkuth.DrainAuth.{
  ApprovalEntry, ApprovalRegistry, GateDecision, matches, is_block, is_valid, make_room,
  replace_pair, fresh_entry, approve, consume_loop, consume, purge, validate_drain_request, new,
}
use malkuth.DrainAuth.Gate.{granted}
use malkuth.DrainAuth.Spend.{approve_entries}

pub data Request : Type 0 where
  approving : ℕ → String → String → GateDecision → Request
  draining : ℕ → String → String → Option ℕ → Request
  purging : ℕ → Request

abbrev pub same : String → String → String → String → Bool
same p w p' w' = (p' == p) && (w' == w)

abbrev pub once : Bool → ℕ
once true = 1
once false = 0

-- How often the gate grants a drain of worker `w` under proposal `p`; a panic of `approve` ends the
-- history.
unfoldable pub grants : String → String → List Request → ApprovalRegistry → ℕ
grants p w [] r = 0
grants p w (approving now p' w' d ∷ qs) r = elim (approve now p' w' d r) [
  | none ↦ 0
  | some r' ↦ grants p w qs r'
]
grants p w (draining now w' p' budget ∷ qs) r =
    let out = validate_drain_request now w' p' budget r in
    once (granted out.0 && same p w p' w') + grants p w qs out.1
grants p w (purging now ∷ qs) r = grants p w qs (purge now r)

-- How many approvals, not counting blocks, the history records for the pair.
unfoldable pub approvals : String → String → List Request → ℕ
approvals p w [] = 0
approvals p w (approving now p' w' d ∷ qs) =
    once (same p w p' w' && not (is_block d)) + approvals p w qs
approvals p w (draining _ _ _ _ ∷ qs) = approvals p w qs
approvals p w (purging _ ∷ qs) = approvals p w qs

-- The entries that a grant for the pair could still spend.
abbrev pub unspent : String → String → ApprovalEntry → Bool
unspent p w e = matches p w e && not (is_block e.decision) && not (is_some e.consumed_at)

abbrev pub avail : String → String → List ApprovalEntry → ℕ
avail p w = count_by (unspent p w)

consume_loop-avail :
    (ttl now : ℕ) (p w p' w' : String) (es : List ApprovalEntry)
    → once (granted (consume_loop ttl now p' w' es).0 && same p w p' w')
        + avail p w (consume_loop ttl now p' w' es).1
      ≤ avail p w es
unfolding consume_loop
consume_loop-avail ttl now p w p' w' [] = ground arith
consume_loop-avail ttl now p w p' w' (e ∷ es) = ground (
  arith,
  consume_loop-avail ttl now p w p' w' es,
  eq_iff e.proposal_id p,
  eq_iff e.worker_id w,
  eq_iff e.proposal_id p',
  eq_iff e.worker_id w',
  eq_iff p' p,
  eq_iff w' w,
)

pub consume-avail :
    (now : ℕ) (p w p' w' : String) (r : ApprovalRegistry)
    → once (granted (consume now p' w' r).0 && same p w p' w')
        + avail p w (consume now p' w' r).1.entries
      ≤ avail p w r.entries
unfolding consume
consume-avail now p w p' w' r = omega (
  arith,
  consume_loop-avail r.ttl now p w p' w' (reverse r.entries),
  count_by-reverse (unspent p w) (consume_loop r.ttl now p' w' (reverse r.entries)).1,
  count_by-reverse (unspent p w) r.entries,
)

replace_pair-avail :
    (now : ℕ) (p w p' w' : String) (d : GateDecision) (es : List ApprovalEntry)
    → avail p w (replace_pair now p' w' d es)
      ≤ avail p w es + once (same p w p' w' && not (is_block d))
unfolding replace_pair
replace_pair-avail now p w p' w' d es = ground (
  arith,
  count_by-append (unspent p w) (retain (λ e. not (matches p' w' e)) es)
      (fresh_entry now p' w' d ∷ []),
  count_by-retain (unspent p w) (λ e. not (matches p' w' e)) es,
)

make_room-avail :
    (cap : ℕ) (p w : String) (es fs : List ApprovalEntry)
    → make_room cap es ≡ some fs
    → avail p w fs ≤ avail p w es
unfolding make_room
make_room-avail cap p w [] fs h = ground arith
make_room-avail cap p w (e ∷ es) fs h = ground arith

pub approve-avail :
    (now : ℕ) (p w p' w' : String) (d : GateDecision) (r r' : ApprovalRegistry)
    → approve now p' w' d r ≡ some r'
    → avail p w r'.entries ≤ avail p w r.entries + once (same p w p' w' && not (is_block d))
approve-avail now p w p' w' d r r' h =
    let (es, room, e) = approve_entries now p' w' d r r' h in
    rw e (
      omega (
        arith,
        replace_pair-avail now p w p' w' d es,
        make_room-avail r.max_entries p w (retain (is_valid r.ttl now) r.entries) es room,
        count_by-retain (unspent p w) (is_valid r.ttl now) r.entries,
      ))

pub drain-avail :
    (now : ℕ) (p w p' w' : String) (budget : Option ℕ) (r : ApprovalRegistry)
    → once (granted (validate_drain_request now w' p' budget r).0 && same p w p' w')
        + avail p w (validate_drain_request now w' p' budget r).1.entries
      ≤ avail p w r.entries
unfolding validate_drain_request
drain-avail now p w p' w' budget r = ground (arith, consume-avail now p w p' w' r)

purge-avail :
    (now : ℕ) (p w : String) (r : ApprovalRegistry)
    → avail p w (purge now r).entries ≤ avail p w r.entries
unfolding purge
purge-avail now p w r = count_by-retain (unspent p w) (is_valid r.ttl now) r.entries

grants-le :
    (p w : String) (qs : List Request) (r : ApprovalRegistry)
    → grants p w qs r ≤ avail p w r.entries + approvals p w qs
unfolding grants approvals
grants-le p w [] r = omega arith
grants-le p w (approving now p' w' d ∷ qs) r = elim (Option-cases (approve now p' w' d r)) [
  | inl e ↦ rw (e, grants) (omega arith)
  | inr (r', e) ↦
      rw (e, grants) (omega (arith, grants-le p w qs r', approve-avail now p w p' w' d r r' e))
]
grants-le p w (draining now w' p' budget ∷ qs) r = omega (
  arith,
  drain-avail now p w p' w' budget r,
  grants-le p w qs (validate_drain_request now w' p' budget r).1,
)
grants-le p w (purging now ∷ qs) r =
    omega (arith, grants-le p w qs (purge now r), purge-avail now p w r)

-- One approval authorizes at most one action: whatever approvals, blocks, drain requests and purges
-- reach a fresh registry, at whatever times, the gate grants a pair of proposal and worker at most
-- as often as that pair was approved.
pub grants-le-approvals :
    (p w : String) (qs : List Request) (max_entries ttl : ℕ)
    → grants p w qs (new max_entries ttl) ≤ approvals p w qs
unfolding new
grants-le-approvals p w qs max_entries ttl = omega (arith, grants-le p w qs (new max_entries ttl))
