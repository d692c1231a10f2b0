-- ===== src/Leader/Terms.antt =====
-- The terms that an elector of src/leader.rs announces, whatever becomes of the lease file in between.
use malkuth.Prelude.{
  if◌then◌else◌, Bool-cases, ℕ_key, string_key, length, ℕ, zero, suc, ◌+◌, ◌%◌, ◌^◌, ◌<◌, ◌≡◌, refl,
  ap, ◌∙◌, inl, inr, Option, none, some, List, [], ◌∷◌, arith,
}
use malkuth.Lease.{LeaseFile, try_take}
use malkuth.Leader.{LeaderAnnounce, LeaseLeaderElector, announce, try_acquire, current, resign}

-- A call of the elector, with the lease file as it is then.
pub data Call : Type 0 where
  acquiring : ℕ → ℕ → ℕ → LeaseFile → Call
  resigning : LeaseFile → Call

abbrev term_of : Option LeaderAnnounce → ℕ
term_of none = 0
term_of (some a) = a.term

-- The terms that are announced after each acquisition.
unfoldable pub terms : List Call → LeaseLeaderElector → List ℕ
unfolding try_acquire current resign
terms [] e = []
terms (acquiring now owner ttl file ∷ calls) e =
    let r = try_acquire now owner ttl e file in
    let rest = terms calls r.1 in if r.0 then term_of (current r.1) ∷ rest else rest
terms (resigning file ∷ calls) e = terms calls (resign e file).0

abbrev pub consecutive : ℕ → ℕ → List ℕ
consecutive from zero = []
consecutive from (suc n) = from ∷ consecutive (suc from) n

-- Each acquisition of an elector has the next term, whatever else happens to the lease: none is used
-- twice, and none is left out, within 64 bits.
pub terms-consecutive :
    (calls : List Call) (e : LeaseLeaderElector)
    → e.term + length calls < 2 ^ 64
    → terms calls e ≡ consecutive (e.term + 1) (length (terms calls e))
unfolding terms try_acquire announce current resign
terms-consecutive [] e l = refl
terms-consecutive (acquiring now owner ttl file ∷ calls) e l =
    let won = (try_take now owner ttl file).0 in
    elim (Bool-cases won) [
      | inr a ↦ rw a (terms-consecutive calls e (omega (arith, l)))
      | inl a ↦
          let e' : LeaseLeaderElector = record e {
            term = (e.term + 1) % 2 ^ 64;
            held = some (owner, announce now ttl e);
          } in
          let small : (e.term + 1) % 2 ^ 64 ≡ e.term + 1 = omega (arith, l) in
          let ih : terms calls e'
              ≡ consecutive ((e.term + 1) % 2 ^ 64 + 1) (length (terms calls e')) =
            terms-consecutive calls e' (omega (arith, small, l)) in
          let next : (e.term + 1) % 2 ^ 64 + 1 ≡ suc (e.term + 1) = omega (arith, small) in
          let rest : terms calls e' ≡ consecutive (suc (e.term + 1)) (length (terms calls e')) =
            ih ∙ ap (λ n. consecutive n (length (terms calls e'))) next in
          rw a (λ i. small i ∷ rest i)
    ]
terms-consecutive (resigning file ∷ calls) e l =
    terms-consecutive calls (record e { held = none }) (omega (arith, l))
