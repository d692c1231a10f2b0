-- ===== src/Lease/Race.antt =====
-- The lease of src/lease.rs when takes overlap.
use malkuth.Prelude.{
  eqb, eqb_iff, ℕ_key, string_key, ℕ, ◌≡◌, refl, Bool, true, false, List, [], ◌∷◌,
}
use malkuth.Lease.{
  LeaseFile, held_by_other, owned_by, write_lease, Taker, starting, taken, take_step,
}

-- Two candidates and the file between them.
pub record Contest : Type 0 where
  pub first : Taker
  pub second : Taker
  pub file : LeaseFile

-- The candidates take steps at given times: `true` is one of the first, `false` of the second.
unfoldable pub contest : ℕ → ℕ → ℕ → List (Bool × ℕ) → Contest → Contest
unfolding take_step
contest a b ttl [] s = s
contest a b ttl ((true, now) ∷ steps) s =
    let r = take_step now a ttl (s.first, s.file) in
    contest a b ttl steps (record s { first = r.0; file = r.1 })
contest a b ttl ((false, now) ∷ steps) s =
    let r = take_step now b ttl (s.second, s.file) in
    contest a b ttl steps (record s { second = r.0; file = r.1 })

-- Both look, then one writes and confirms, and then the other does.
abbrev pub overlap : ℕ → List (Bool × ℕ)
overlap now =
    (true, now) ∷ (false, now) ∷ (true, now) ∷ (true, now) ∷ (false, now) ∷ (false, now) ∷ []

-- Takes that overlap can both win: from a file that is free for two candidates there is a schedule
-- after which both have been told that the lease is theirs.
pub both_taken :
    (a b ttl now : ℕ) (file : LeaseFile)
    → held_by_other now a file ≡ false
    → held_by_other now b file ≡ false
    → let s =
        contest a b ttl
          (overlap now)
          (record { first = starting; second = starting; file = file }) in
      (s.first ≡ taken) × (s.second ≡ taken)
unfolding contest take_step owned_by write_lease
both_taken a b ttl now file e f =
    let me : eqb a a ≡ true = (eqb_iff a a).1 refl in
    let you : eqb b b ≡ true = (eqb_iff b b).1 refl in rw e (rw f (rw me (rw you (refl, refl))))
