-- ===== src/DrainAuth/Tests.antt =====
-- The gate on concrete requests, and the theorems at them.
use malkuth.Prelude.{
  ℕ_key, string_key, is_blank, ok, err, ◌≤◌, ◌≡◌, refl, ◌↔◌, true, none, some, List, [], ◌∷◌, arith,
}
use malkuth.DrainAuth.{
  ApprovalRegistry, allow, block, consume, approved, required, approval_consumed, invalid_request,
  invalid_budget, make_room, replace_pair, approve, status, validate_drain_request, new,
}
use malkuth.DrainAuth.Gate.{granted, well_formed, validate_granted}
use malkuth.DrainAuth.Spend.{consume_others}
use malkuth.DrainAuth.Standing.{requests, approve-status}
use malkuth.DrainAuth.History.{
  Request, approving, draining, purging, grants, approvals, grants-le-approvals,
}

abbrev one : ApprovalRegistry
one = record {
  entries =
      record {
        proposal_id = "p1";
        worker_id = "w1";
        decision = allow;
        approved_at = 10;
        consumed_at = none;
      }
      ∷ [];
  max_entries = 100;
  ttl = 300;
}

approve-one : approve 10 "p1" "w1" allow (new 100 300) ≡ some one
unfolding approve make_room replace_pair new
approve-one = refl

spend_twice :
    let out = validate_drain_request 20 "w1" "p1" (some 30) one in
    (out.0 ≡ ok tt)
    × ((validate_drain_request 21 "w1" "p1" none out.1).0 ≡ err approval_consumed)
    × ((validate_drain_request 21 "w1" "p2" none out.1).0 ≡ err required)
unfolding validate_drain_request is_blank
spend_twice = (refl, refl, refl)

refusals :
    ((validate_drain_request 20 " " "p1" none one).0 ≡ err invalid_request)
    × ((validate_drain_request 20 "w1" "p1" (some 301) one).0 ≡ err (invalid_budget 301))
unfolding validate_drain_request is_blank
refusals = (refl, refl)

validate_granted_example :
    (granted (validate_drain_request 20 "w1" "p1" (some 300) one).0 ≡ true)
    ↔ ((well_formed "w1" "p1" (some 300) ≡ true) × (status 20 "p1" "w1" one ≡ approved))
validate_granted_example = validate_granted 20 "w1" "p1" (some 300) one

consume_others_example : status 25 "p1" "w1" (consume 20 "p2" "w1" one).1 ≡ status 25 "p1" "w1" one
consume_others_example = consume_others 20 25 "p2" "w1" "p1" "w1" one refl

abbrev meanwhile : List Request
meanwhile =
    approving 40 "p2" "w1" block
    ∷ draining 50 "w1" "p2" none
    ∷ purging 60
    ∷ approving 70 "p1" "w2" allow
    ∷ []

approve-status_example :
    (r : ApprovalRegistry) × (requests meanwhile one ≡ some r) × (status 309 "p1" "w1" r ≡ approved)
unfolding new
approve-status_example =
    approve-status 10 309 "p1" "w1" allow meanwhile (new 100 300) one approve-one
      (
        (omega arith, omega arith, refl),
        (refl, ((omega arith, omega arith), ((omega arith, omega arith, refl), tt))),
      )
      (omega arith) (omega arith) (omega arith)

grants-le-approvals_example :
    grants "p1" "w1"
      (approving 10 "p1" "w1" allow ∷ draining 20 "w1" "p1" none ∷ draining 21 "w1" "p1" none ∷ [])
      (new 100 300)
    ≤ 1
unfolding approvals
grants-le-approvals_example = grants-le-approvals "p1" "w1" _ 100 300
