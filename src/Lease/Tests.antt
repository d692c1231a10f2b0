-- ===== src/Lease/Tests.antt =====
-- The lease with two owners, and its properties applied.
use malkuth.Prelude.{ℕ_key, string_key, codes, ◌≡◌, refl, some}
use malkuth.Lease.{LeaseFile, sanitize, held_by_other, starting, taken}
use malkuth.Lease.Race.{contest, overlap, both_taken}

name_of_key : sanitize (codes "device/a") ≡ codes "device_a.lease"
unfolding sanitize
name_of_key = refl

abbrev expired : LeaseFile
expired = some (some (record { owner = 9; expires_at_ms = 50 }))

abbrev taken_1 : LeaseFile
taken_1 = some (some (record { owner = 1; expires_at_ms = 2100 }))

both_taken_example :
    let s =
      contest 1 2 1000
        (overlap 60)
        (record { first = starting; second = starting; file = expired }) in
    (s.first ≡ taken) × (s.second ≡ taken)
unfolding held_by_other
both_taken_example = both_taken 1 2 1000 60 expired refl refl
