-- ===== src/DrainAuth/Capacity.antt =====
-- The size of the registry of src/drain_auth.rs under `approve`.
use malkuth.Prelude.{
  ℕ_key, string_key, length, retain, length-append, length-retain, ℕ, ◌≤◌, ◌<◌, String, ◌≡◌, refl,
  ◌↔◌, not, none, some, List, [], ◌∷◌, arith,
}
use malkuth.DrainAuth.{
  ApprovalEntry, ApprovalRegistry, GateDecision, matches, is_valid, make_room, replace_pair,
  fresh_entry, approve,
}
use malkuth.DrainAuth.Spend.{approve_entries}

make_room-eq-none :
    (cap : ℕ) (es : List ApprovalEntry) → (make_room cap es ≡ none) ↔ ((cap ≡ 0) × (es ≡ []))
unfolding make_room
make_room-eq-none cap [] = (λ h. (ground arith, refl), λ h. ground arith)
make_room-eq-none cap (e ∷ es) = (λ h. absurd (ground arith), λ h. absurd (ground arith))

approve-make_room :
    (now : ℕ) (p w : String) (d : GateDecision) (r : ApprovalRegistry)
    → (approve now p w d r ≡ none)
      ↔ (make_room r.max_entries (retain (is_valid r.ttl now) r.entries) ≡ none)
unfolding approve
approve-make_room now p w d r = (λ h. ground arith, λ h. ground arith)

-- `approve` panics exactly on a registry of capacity 0 in which no live entry is left.
pub approve_panics :
    (now : ℕ) (p w : String) (d : GateDecision) (r : ApprovalRegistry)
    → (approve now p w d r ≡ none)
      ↔ ((r.max_entries ≡ 0) × (retain (is_valid r.ttl now) r.entries ≡ []))
approve_panics now p w d r =
    let a = approve-make_room now p w d r in
    let m = make_room-eq-none r.max_entries (retain (is_valid r.ttl now) r.entries) in
    (λ h. m.0 (a.0 h), λ h. a.1 (m.1 h))

make_room-length :
    (cap : ℕ) (es fs : List ApprovalEntry)
    → make_room cap es ≡ some fs
    → length es ≤ cap
    → length fs < cap
unfolding make_room
make_room-length cap [] fs h l = ground arith
make_room-length cap (e ∷ es) fs h l = ground arith

-- `approve` never lets the registry outgrow its capacity.
pub approve-length :
    (now : ℕ) (p w : String) (d : GateDecision) (r r' : ApprovalRegistry)
    → approve now p w d r ≡ some r'
    → length r.entries ≤ r.max_entries
    → (length r'.entries ≤ r'.max_entries) × (0 < length r'.entries)
unfolding replace_pair
approve-length now p w d r r' h l =
    let (es, room, e) = approve_entries now p w d r r' h in
    let small =
      make_room-length r.max_entries _ es room
        (omega (arith, length-retain (is_valid r.ttl now) r.entries)) in
    rw e (
      omega (
        arith,
        small,
        length-retain (λ x. not (matches p w x)) es,
        length-append (retain (λ x. not (matches p w x)) es) (fresh_entry now p w d ∷ []),
      ))
