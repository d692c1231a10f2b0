-- ===== src/DrainAuth/Spend.antt =====
-- `approve` and `consume` of src/drain_auth.rs: later requests for the same pair and for others.
use malkuth.Prelude.{
  Option-cases, ℕ_key, string_key, ◌==◌, eq_iff, retain, reverse-reverse, All, ℕ, String, ◌≡◌, refl,
  inl, inr, true, false, not, ◌&&◌, some, List, [], ◌∷◌, reverse, arith,
}
use mathlib.Core.List.{reverse-append}
use malkuth.DrainAuth.{
  replace_pair, fresh_entry, consumed, unknown, ApprovalEntry, ApprovalRegistry, matches,
  GateDecision, is_valid, entry_status, status_loop, status, consume_loop, consume, approve,
  make_room,
}
use malkuth.DrainAuth.Gate.{granted}

consume_loop-consumed :
    (ttl now later : ℕ) (p w : String) (es : List ApprovalEntry)
    → granted (consume_loop ttl now p w es).0 ≡ true
    → status_loop ttl later p w (consume_loop ttl now p w es).1 ≡ consumed
unfolding consume_loop status_loop entry_status
consume_loop-consumed ttl now later p w [] h = cc
consume_loop-consumed ttl now later p w (e ∷ es) h =
    ground (arith, consume_loop-consumed ttl now later p w es)

pub consume-consumed :
    (now later : ℕ) (p w : String) (r : ApprovalRegistry)
    → granted (consume now p w r).0 ≡ true
    → status later p w (consume now p w r).1 ≡ consumed
unfolding consume status
consume-consumed now later p w r h =
    rw reverse-reverse (consume_loop-consumed r.ttl now later p w (reverse r.entries) h)

consume_loop_others :
    (ttl now later : ℕ) (p w p' w' : String) (es : List ApprovalEntry)
    → ((p == p') && (w == w')) ≡ false
    → status_loop ttl later p' w' (consume_loop ttl now p w es).1 ≡ status_loop ttl later p' w' es
unfolding consume_loop status_loop entry_status
consume_loop_others ttl now later p w p' w' [] h = refl
consume_loop_others ttl now later p w p' w' (e ∷ es) h = ground (
  arith,
  consume_loop_others ttl now later p w p' w' es,
  eq_iff e.proposal_id p,
  eq_iff e.worker_id w,
  eq_iff e.proposal_id p',
  eq_iff e.worker_id w',
  eq_iff p p',
  eq_iff w w',
)

-- Spending an approval changes nothing for any other pair of ids, at any later time.
pub consume_others :
    (now later : ℕ) (p w p' w' : String) (r : ApprovalRegistry)
    → ((p == p') && (w == w')) ≡ false
    → status later p' w' (consume now p w r).1 ≡ status later p' w' r
unfolding consume status
consume_others now later p w p' w' r h =
    rw reverse-reverse (consume_loop_others r.ttl now later p w p' w' (reverse r.entries) h)

status_loop-none :
    (ttl now : ℕ) (p w : String) (es : List ApprovalEntry)
    → All (λ e. matches p w e ≡ false) es
    → status_loop ttl now p w es ≡ unknown
unfolding status_loop
status_loop-none ttl now p w [] h = refl
status_loop-none ttl now p w (e ∷ es) h = ground (arith, status_loop-none ttl now p w es h.1)

pub approve_entries :
    (now : ℕ) (p w : String) (d : GateDecision) (r r' : ApprovalRegistry)
    → approve now p w d r ≡ some r'
    → (es : List ApprovalEntry) × (make_room r.max_entries (retain (is_valid r.ttl now) r.entries)
        ≡ some es)
      × (r' ≡ record r { entries = replace_pair now p w d es })
unfolding approve
approve_entries now p w d r r' h =
    elim (Option-cases (make_room r.max_entries (retain (is_valid r.ttl now) r.entries))) [
      | inl e ↦ absurd (ground arith)
      | inr (es, e) ↦ (es, e, ground arith)
    ]

pub reverse-replace_pair :
    (now : ℕ) (p w : String) (d : GateDecision) (es : List ApprovalEntry)
    → reverse (replace_pair now p w d es)
      ≡ fresh_entry now p w d ∷ reverse (retain (λ e. not (matches p w e)) es)
unfolding replace_pair
reverse-replace_pair now p w d es =
    reverse-append (retain (λ e. not (matches p w e)) es) (fresh_entry now p w d ∷ [])
