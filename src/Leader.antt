-- ===== src/Leader.antt =====
-- The elector of src/leader.rs on the lease of src/lease.rs. A guard is the owner under which the lease was
-- taken, a new one for each call of `acquire`; its thread renews apart from the elector. The clock is an
-- argument, in milliseconds. The mutexes are never poisoned, and make each operation one step.
pub mod Terms
mod Tests
use malkuth.Prelude.{
  ltb, leb, eqb, if◌then◌else◌, ltb→lt, lt→ltb, le→ltb, ltb→le, leb→le, le→leb, eqb_iff, tests,
  Bool-cases, Option-cases, Result-cases, is_some, Key, ℕ_key, string_key, ◌==◌, eq_iff, eq_refl,
  ne→beq, length, get_elem?, take, drop, retain, any, all, position, length-append, length-take,
  length-drop, length-retain, take_all, set, count_by, count_by-append, count_by-reverse,
  count_by-retain, is_blank, is_ws, byte_len, is_char_boundary, prefix, truncate, floor_boundary,
  len_utf8, floor_boundary-is_char_boundary, floor_boundary-le, byte_len-prefix, codes, trim,
  trim_start, trim_end, is_empty, reverse-cons, reverse-reverse, In, All, All-append, All-retain,
  retain-All, Dict, get, insert, remove, adjust, get-insert, get-remove, get-adjust,
  get-insert_self, Result, ok, err, ◌>>=◌, ◌>>◌, ℕ, zero, suc, ◌+◌, ◌-◌, ◌*◌, ◌/◌, ◌%◌, ◌^◌, ◌≤◌,
  ◌<◌, min, max, String, ◌≡◌, refl, sym, ap, subst, ◌∙◌, ◌≢◌, ◌↔◌, ◌⊎◌, inl, inr, Bool, true, false,
  not, ◌&&◌, ◌||◌, Option, none, some, List, [], ◌∷◌, ◌++◌, map, reverse, append-nil, append_assoc,
  arith,
}
use malkuth.Lease.{LeaseFile, try_take, release}

pub record LeaderAnnounce : Type 0 where
  pub node_id : String
  pub leader_instance_id : String
  pub term : ℕ
  -- seconds since the epoch, which `epoch_now_label` prints
  pub acquired_at : ℕ
  pub lease_ttl_secs : ℕ

pub record LeaseLeaderElector : Type 0 where
  pub node_id : String
  pub instance_id : String
  pub term : ℕ
  pub held : Option (ℕ × LeaderAnnounce)

abbrev pub new_elector : String → String → LeaseLeaderElector
new_elector node_id instance_id = record {
  node_id = node_id;
  instance_id = instance_id;
  term = 0;
  held = none;
}

-- The drop of the guard that was held, if any: it releases its lease.
unfoldable pub drop_guard : Option (ℕ × LeaderAnnounce) → LeaseFile → LeaseFile
unfolding release
drop_guard none file = file
drop_guard (some (owner, _)) file = release owner file

unfoldable pub announce : ℕ → ℕ → LeaseLeaderElector → LeaderAnnounce
announce now ttl e = record {
  node_id = e.node_id;
  leader_instance_id = e.instance_id;
  term = (e.term + 1) % 2 ^ 64;
  acquired_at = now / 1000;
  lease_ttl_secs = min (ttl / 1000) (2 ^ 32 - 1);
}

-- Whether the lease was acquired (`Contended` if not), the elector and the lease file.
unfoldable pub try_acquire :
    ℕ → ℕ → ℕ → LeaseLeaderElector → LeaseFile → Bool × LeaseLeaderElector × LeaseFile
unfolding try_take announce drop_guard
try_acquire now owner ttl e file =
    let r = try_take now owner ttl file in
    let a = announce now ttl e in
    if r.0
    then (true, record e { term = a.term; held = some (owner, a) }, drop_guard e.held r.1)
    else (false, e, r.1)

-- `LeaderElector::renew` does not look at the lease.
unfoldable pub renew : LeaseLeaderElector → Bool
renew e = is_some e.held

unfoldable pub current : LeaseLeaderElector → Option LeaderAnnounce
current e = elim e.held [ none ↦ none | some h ↦ some (h.1) ]

unfoldable pub resign : LeaseLeaderElector → LeaseFile → LeaseLeaderElector × LeaseFile
unfolding drop_guard
resign e file = (record e { held = none }, drop_guard e.held file)
