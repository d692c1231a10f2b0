-- ===== src/Lease/Exclusive.antt =====
-- The lease of src/lease.rs while takes do not overlap.
use malkuth.Prelude.{
  eqb, if◌then◌else◌, eqb_iff, Bool-cases, ℕ_key, string_key, ℕ, ◌<◌, ◌≡◌, refl, inl, inr, true,
  false, some, List, [], ◌∷◌,
}
use malkuth.Lease.{
  take_step, starting, taken, refused, LeaseFile, held_by_other, owned_by, write_lease, try_take,
  release,
}

-- What others do to the lease file, unless they renew.
pub data Other : Type 0 where
  takes : ℕ → ℕ → ℕ → Other
  releases : ℕ → Other

unfoldable pub others : List Other → LeaseFile → LeaseFile
unfolding try_take release
others [] file = file
others (takes now owner ttl ∷ es) file = others es (try_take now owner ttl file).1
others (releases owner ∷ es) file = others es (release owner file)

-- By somebody else than `a`, and before `until`.
abbrev pub Before : ℕ → ℕ → Other → Type 0
Before a until (takes now owner ttl) = (now < until) × (eqb a owner ≡ false)
Before a until (releases owner) = eqb a owner ≡ false

abbrev held : ℕ → ℕ → LeaseFile
held a until = some (some (record { owner = a; expires_at_ms = until }))

-- The accesses of a candidate, with nobody in between, come to the same as the take in one go.
pub try_take-take_step :
    (now owner ttl : ℕ) (file : LeaseFile)
    → take_step now owner ttl (take_step now owner ttl (take_step now owner ttl (starting, file)))
      ≡ (
        if (try_take now owner ttl file).0 then taken else refused,
        (try_take now owner ttl file).1,
      )
unfolding try_take take_step owned_by write_lease
try_take-take_step now owner ttl file =
    let me : eqb owner owner ≡ true = (eqb_iff owner owner).1 refl in
    elim (Bool-cases (held_by_other now owner file)) [
      | inl e ↦ rw e refl
      | inr e ↦ rw e (rw me refl)
    ]
