-- ===== src/Lease.antt =====
-- The file lease of src/lease.rs: the record in the lease file, taking, renewing and releasing it. Owners
-- are numbers, of which the code uses equality only; times are milliseconds. A file that does not parse
-- reads as `none` inside `some`; the writes through a temporary file are single steps.
pub mod Exclusive
pub mod Race
mod Tests
use malkuth.Prelude.{
  ltb, leb, eqb, if◌then◌else◌, ltb→lt, lt→ltb, le→ltb, ltb→le, leb→le, le→leb, eqb_iff, tests,
  Bool-cases, Option-cases, is_some, Key, ℕ_key, string_key, ◌==◌, eq_iff, eq_refl, ne→beq, length,
  get_elem?, take, drop, retain, any, all, position, length-append, length-take, length-drop,
  length-retain, take_all, set, count_by, count_by-append, count_by-reverse, count_by-retain,
  is_blank, is_ws, byte_len, is_char_boundary, prefix, truncate, floor_boundary, len_utf8,
  floor_boundary-is_char_boundary, floor_boundary-le, byte_len-prefix, codes, trim, trim_start,
  trim_end, is_empty, reverse-cons, reverse-reverse, In, All, All-append, All-retain, retain-All,
  Dict, get, insert, remove, adjust, get-insert, get-remove, get-adjust, get-insert_self, Result,
  ok, err, ◌>>=◌, ◌>>◌, ℕ, zero, suc, ◌+◌, ◌-◌, ◌*◌, ◌/◌, ◌%◌, ◌^◌, ◌≤◌, ◌<◌, min, max, String, ◌≡◌,
  refl, sym, ap, subst, ◌∙◌, ◌≢◌, ◌↔◌, ◌⊎◌, inl, inr, Bool, true, false, not, ◌&&◌, ◌||◌, Option,
  none, some, List, [], ◌∷◌, ◌++◌, map, reverse, append-nil, append_assoc, arith,
}

pub record LeaseRecord : Type 0 where
  pub owner : ℕ
  pub expires_at_ms : ℕ

-- The lease file: absent, not a record, or a record.
abbrev pub LeaseFile : Type 0
LeaseFile = Option (Option LeaseRecord)

-- `rec.expires_at_ms > now_ms() && rec.owner != owner`
unfoldable pub held_by_other : ℕ → ℕ → LeaseFile → Bool
held_by_other now owner none = false
held_by_other now owner (some none) = false
held_by_other now owner (some (some r)) = ltb now r.expires_at_ms && not (eqb r.owner owner)

unfoldable pub owned_by : ℕ → LeaseFile → Bool
owned_by owner none = false
owned_by owner (some none) = false
owned_by owner (some (some r)) = eqb r.owner owner

-- `write_atomic` of the record that `try_take` and the renewal build at `now`
unfoldable pub write_lease : ℕ → ℕ → ℕ → LeaseFile
write_lease now owner ttl = some (some (record { owner = owner; expires_at_ms = now + ttl }))

-- `try_take` with nobody else between its steps: the answer and the file.
unfoldable pub try_take : ℕ → ℕ → ℕ → LeaseFile → Bool × LeaseFile
unfolding held_by_other write_lease owned_by
try_take now owner ttl file =
    if held_by_other now owner file
    then (false, file)
    else (owned_by owner (write_lease now owner ttl), write_lease now owner ttl)

-- What the guard's thread does every third of the time to live.
unfoldable pub renew : ℕ → ℕ → ℕ → LeaseFile → LeaseFile
unfolding write_lease
renew now owner ttl file = write_lease now owner ttl

unfoldable pub release : ℕ → LeaseFile → LeaseFile
unfolding owned_by
release owner file = if owned_by owner file then none else file

-- Where a candidate stands inside `try_take`.
pub data Taker : Type 0 where
  starting : Taker
  claiming : Taker
  confirming : Taker
  taken : Taker
  refused : Taker

-- One access of a candidate to the file, at `now`.
unfoldable pub take_step : ℕ → ℕ → ℕ → Taker × LeaseFile → Taker × LeaseFile
unfolding held_by_other write_lease owned_by
take_step now owner ttl (starting, file) =
    (if held_by_other now owner file then refused else claiming, file)
take_step now owner ttl (claiming, file) = (confirming, write_lease now owner ttl)
take_step now owner ttl (confirming, file) = (if owned_by owner file then taken else refused, file)
take_step now owner ttl (taken, file) = (taken, file)
take_step now owner ttl (refused, file) = (refused, file)

-- `c.is_ascii_alphanumeric() || c == '-' || c == '_'`
unfoldable pub is_safe : ℕ → Bool
is_safe c =
    (leb b'0' c && leb c b'9')
    || (leb b'a' c && leb c b'z')
    || (leb b'A' c && leb c b'Z')
    || eqb c b'-'
    || eqb c b'_'

-- The file name of a key, as code points.
unfoldable pub sanitize : List ℕ → List ℕ
unfolding is_safe
sanitize [] = codes "default.lease"
sanitize key = map (λ c. if is_safe c then c else b'_') key ++ codes ".lease"
