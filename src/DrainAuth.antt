-- ===== src/DrainAuth.antt =====
-- src/drain_auth.rs: the registry of approved restart proposals and the gate in front of a drain.
-- The clock (`SystemTime::now()`) is an argument, in the unit of the TTL; a clock that was set back
-- makes an entry invalid. The `RwLock` makes each operation one step on the registry.
pub mod Gate
pub mod Spend
pub mod History
pub mod Capacity
pub mod Place
pub mod Standing
mod Tests
use malkuth.Prelude.{
  string_key, ltb, leb, eqb, if◌then◌else◌, ltb→lt, lt→ltb, le→ltb, ltb→le, leb→le, le→leb, eqb_iff,
  tests, Bool-cases, Option-cases, is_some, Key, ◌==◌, eq_iff, eq_refl, ne→beq, length, get_elem?,
  take, drop, retain, any, all, position, length-append, length-take, length-drop, length-retain,
  take_all, set, count_by, count_by-append, count_by-reverse, count_by-retain, is_blank, is_ws,
  codes, trim, trim_start, trim_end, is_empty, reverse-cons, reverse-reverse, In, All, All-append,
  All-retain, retain-All, Dict, get, insert, remove, adjust, get-insert, get-remove, get-adjust,
  get-insert_self, Result, ok, err, ◌>>=◌, ◌>>◌, ℕ, zero, suc, ◌+◌, ◌-◌, ◌*◌, ◌/◌, ◌%◌, ◌^◌, ◌≤◌,
  ◌<◌, min, max, String, ◌≡◌, refl, sym, ap, subst, ◌∙◌, ◌≢◌, ◌↔◌, ◌⊎◌, inl, inr, Bool, true, false,
  not, ◌&&◌, ◌||◌, Option, none, some, List, [], ◌∷◌, ◌++◌, map, reverse, append-nil, append_assoc,
  arith,
}

pub data GateDecision : Type 0 where
  allow review block : GateDecision

-- `e.decision == GateDecision::Block`
abbrev pub is_block : GateDecision → Bool
is_block block = true
is_block allow = false
is_block review = false

pub record ApprovalEntry : Type 0 where
  pub proposal_id : String
  pub worker_id : String
  pub decision : GateDecision
  pub approved_at : ℕ
  pub consumed_at : Option ℕ

pub data ApprovalStatus : Type 0 where
  approved expired consumed blocked unknown : ApprovalStatus

pub data DrainAuthError : Type 0 where
  invalid_request : DrainAuthError
  invalid_budget : ℕ → DrainAuthError
  required approval_expired approval_consumed approval_blocked : DrainAuthError

unfoldable pub error_code : DrainAuthError → String
error_code invalid_request = "invalid_request"
error_code (invalid_budget _) = "invalid_budget"
error_code required = "approval_required"
error_code approval_expired = "approval_expired"
error_code approval_consumed = "approval_consumed"
error_code approval_blocked = "approval_blocked"

pub record ApprovalRegistry : Type 0 where
  pub entries : List ApprovalEntry
  pub max_entries : ℕ
  pub ttl : ℕ

unfoldable pub new : ℕ → ℕ → ApprovalRegistry
new max_entries ttl = record { entries = []; max_entries = max_entries; ttl = ttl }

-- `ApprovalEntry::is_valid`: `duration_since` fails where the clock is before `approved_at`.
unfoldable pub is_valid : ℕ → ℕ → ApprovalEntry → Bool
is_valid ttl now e = leb e.approved_at now && ltb (now - e.approved_at) ttl

abbrev pub matches : String → String → ApprovalEntry → Bool
matches p w e = (e.proposal_id == p) && (e.worker_id == w)

-- `if len >= max { entries.remove(0) }`: `none` is the panic of `remove` on an empty vector.
unfoldable pub make_room : ℕ → List ApprovalEntry → Option (List ApprovalEntry)
make_room cap es =
    if leb cap (length es) then elim es [ [] ↦ none | _ ∷ rest ↦ some rest ] else some es

-- The rest of `approve`: drop earlier entries for the pair, and append the fresh one.
abbrev pub fresh_entry : ℕ → String → String → GateDecision → ApprovalEntry
fresh_entry now p w d = record {
  proposal_id = p;
  worker_id = w;
  decision = d;
  approved_at = now;
  consumed_at = none;
}

unfoldable pub replace_pair :
    ℕ → String → String → GateDecision → List ApprovalEntry → List ApprovalEntry
replace_pair now p w d es = retain (λ e. not (matches p w e)) es ++ fresh_entry now p w d ∷ []

unfoldable pub approve :
    ℕ → String → String → GateDecision → ApprovalRegistry → Option ApprovalRegistry
approve now p w d r = elim (make_room r.max_entries (retain (is_valid r.ttl now) r.entries)) [
  | none ↦ none
  | some es ↦ some (record r { entries = replace_pair now p w d es })
]

unfoldable pub is_approved : ℕ → String → String → ApprovalRegistry → Bool
unfolding is_valid
is_approved now p w r =
    any (λ e. matches p w e && not (is_block e.decision) && is_valid r.ttl now e) r.entries

-- What `status` and `consume` make of the first entry that matches, newest first.
unfoldable pub entry_status : ℕ → ℕ → ApprovalEntry → ApprovalStatus
unfolding is_valid
entry_status ttl now e =
    if is_block e.decision
    then blocked
    else if is_some e.consumed_at
    then consumed
    else if is_valid ttl now e
    then approved
    else expired

-- The loop of `status`, over `entries.iter().rev()`.
unfoldable pub status_loop : ℕ → ℕ → String → String → List ApprovalEntry → ApprovalStatus
unfolding entry_status
status_loop ttl now p w [] = unknown
status_loop ttl now p w (e ∷ es) =
    if not (matches p w e) then status_loop ttl now p w es else entry_status ttl now e

unfoldable pub status : ℕ → String → String → ApprovalRegistry → ApprovalStatus
unfolding status_loop
status now p w r = status_loop r.ttl now p w (reverse r.entries)

abbrev pub Answer : Type 0
Answer = Result DrainAuthError (Unit {0})

-- The loop of `consume`, over `entries.iter_mut().rev()`: the answer, and the entries after it.
unfoldable pub consume_loop :
    ℕ → ℕ → String → String → List ApprovalEntry → Answer × List ApprovalEntry
unfolding is_valid
consume_loop ttl now p w [] = (err required, [])
consume_loop ttl now p w (e ∷ es) =
    let rest = consume_loop ttl now p w es in
    if not (matches p w e)
    then (rest.0, e ∷ rest.1)
    else if is_block e.decision
    then (err approval_blocked, e ∷ es)
    else if is_some e.consumed_at
    then (err approval_consumed, e ∷ es)
    else if not (is_valid ttl now e)
    then (err approval_expired, e ∷ es)
    else (ok tt, record e { consumed_at = some now } ∷ es)

unfoldable pub consume : ℕ → String → String → ApprovalRegistry → Answer × ApprovalRegistry
unfolding consume_loop
consume now p w r =
    let out = consume_loop r.ttl now p w (reverse r.entries) in
    (out.0, record r { entries = reverse out.1 })

unfoldable pub purge : ℕ → ApprovalRegistry → ApprovalRegistry
unfolding is_valid
purge now r = record r { entries = retain (is_valid r.ttl now) r.entries }

abbrev pub bad_budget : ℕ → Bool
bad_budget b = eqb b 0 || ltb 300 b

unfoldable pub validate_drain_request :
    ℕ → String → String → Option ℕ → ApprovalRegistry → Answer × ApprovalRegistry
unfolding consume
validate_drain_request now w p budget r =
    if is_blank p || is_blank w then (err invalid_request, r) else elim budget [
      | none ↦ consume now p w r
      | some b ↦ if bad_budget b then (err (invalid_budget b), r) else consume now p w r
    ]
