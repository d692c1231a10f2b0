-- ===== src/Leader/Tests.antt =====
-- A leader that resigns and comes back, and one whose lease runs out.
use malkuth.Prelude.{ℕ_key, string_key, length, ◌+◌, ◌≡◌, refl, none, some, List, [], ◌∷◌, arith}
use malkuth.Lease.{LeaseRecord}
use malkuth.Leader.{LeaseLeaderElector, new_elector, announce}
use malkuth.Leader.Terms.{Call, acquiring, resigning, terms, consecutive, terms-consecutive}

abbrev elector : LeaseLeaderElector
elector = new_elector "node" "a"

abbrev calls : List Call
calls =
    acquiring 1000 1 5000 none
    ∷ resigning none
    ∷ acquiring 2000 2 5000 (some (some (record { owner = 7; expires_at_ms = 9000 })))
    ∷ acquiring 10000 3 5000 (some none)
    ∷ []

two_terms : terms calls elector ≡ 1 ∷ 2 ∷ []
unfolding terms
two_terms = refl

terms-consecutive_example : terms calls elector ≡ consecutive (0 + 1) (length (terms calls elector))
terms-consecutive_example = terms-consecutive calls elector (omega arith)

abbrev lapsed : LeaseRecord
lapsed = record { owner = 1; expires_at_ms = 6000 }

abbrev leader : LeaseLeaderElector
leader = record elector { term = 1; held = some (1, announce 1000 5000 elector) }
