-- ===== src/DrainAuth/Gate.antt =====
-- `validate_drain_request` of src/drain_auth.rs next to `status`.
use malkuth.Prelude.{
  leb, ℕ_key, string_key, is_blank, reverse-reverse, ok, err, ℕ, String, ◌≡◌, refl, ◌↔◌, Bool, true,
  false, not, ◌&&◌, Option, none, some, List, [], ◌∷◌, reverse, arith,
}
use malkuth.DrainAuth.{
  ApprovalStatus, approved, expired, consumed, blocked, unknown, ApprovalEntry, ApprovalRegistry,
  required, approval_expired, approval_consumed, approval_blocked, entry_status, status_loop,
  status, consume_loop, consume, Answer, validate_drain_request,
}

abbrev pub granted : Answer → Bool
granted (ok _) = true
granted (err _) = false

-- The refusal that each status stands for.
abbrev pub verdict : ApprovalStatus → Answer
verdict approved = ok tt
verdict expired = err approval_expired
verdict consumed = err approval_consumed
verdict blocked = err approval_blocked
verdict unknown = err required

consume_loop-verdict :
    (ttl now : ℕ) (p w : String) (es : List ApprovalEntry)
    → (consume_loop ttl now p w es).0 ≡ verdict (status_loop ttl now p w es)
unfolding consume_loop status_loop entry_status
consume_loop-verdict ttl now p w [] = refl
consume_loop-verdict ttl now p w (e ∷ es) = ground (arith, consume_loop-verdict ttl now p w es)

consume_loop_refused :
    (ttl now : ℕ) (p w : String) (es : List ApprovalEntry)
    → granted (consume_loop ttl now p w es).0 ≡ false
    → (consume_loop ttl now p w es).1 ≡ es
unfolding consume_loop
consume_loop_refused ttl now p w [] h = refl
consume_loop_refused ttl now p w (e ∷ es) h = ground (arith, consume_loop_refused ttl now p w es)

pub consume-verdict :
    (now : ℕ) (p w : String) (r : ApprovalRegistry)
    → (consume now p w r).0 ≡ verdict (status now p w r)
unfolding consume status
consume-verdict now p w r = consume_loop-verdict r.ttl now p w (reverse r.entries)

pub consume_refused :
    (now : ℕ) (p w : String) (r : ApprovalRegistry)
    → granted (consume now p w r).0 ≡ false
    → (consume now p w r).1 ≡ r
unfolding consume
consume_refused now p w r h =
    rw (consume_loop_refused r.ttl now p w (reverse r.entries) h, reverse-reverse r.entries)

abbrev pub good_budget : Option ℕ → Bool
good_budget none = true
good_budget (some b) = leb 1 b && leb b 300

abbrev pub well_formed : String → String → Option ℕ → Bool
well_formed w p budget = not (is_blank p) && not (is_blank w) && good_budget budget

consume-granted :
    (now : ℕ) (p w : String) (r : ApprovalRegistry)
    → (granted (consume now p w r).0 ≡ true) ↔ (status now p w r ≡ approved)
consume-granted now p w r =
    let e = consume-verdict now p w r in (ground (arith, e), ground (arith, e))

-- The gate grants exactly the requests that are well formed (both ids not blank, a budget from 1 to
-- 300 where one is given) and whose pair `status` reports as approved.
pub validate_granted :
    (now : ℕ) (w p : String) (budget : Option ℕ) (r : ApprovalRegistry)
    → (granted (validate_drain_request now w p budget r).0 ≡ true)
      ↔ ((well_formed w p budget ≡ true) × (status now p w r ≡ approved))
unfolding validate_drain_request
validate_granted now w p budget r =
    let c = consume-granted now p w r in (ground (arith, c.0), ground (arith, c.1))

-- A request that the gate refuses leaves the registry as it was, whichever refusal it is.
pub validate_refused :
    (now : ℕ) (w p : String) (budget : Option ℕ) (r : ApprovalRegistry)
    → granted (validate_drain_request now w p budget r).0 ≡ false
    → (validate_drain_request now w p budget r).1 ≡ r
unfolding validate_drain_request
validate_refused now w p budget r h = ground (arith, consume_refused now p w r)
