-- ===== src/LogRing/Line.antt =====
-- The cap on one line, `normalize_line` of src/worker.rs.
use malkuth.Prelude.{
  ltb, Bool-cases, ℕ_key, string_key, byte_len, prefix, truncate, floor_boundary,
  floor_boundary-is_char_boundary, floor_boundary-le, byte_len-prefix, trim_end, is_empty, ℕ, ◌+◌,
  ◌≤◌, ◌<◌, ◌≡◌, refl, inl, inr, Option, none, some, [], ◌∷◌, ◌++◌, arith,
}
use malkuth.LogRing.{Text, log_line_max_bytes, ellipsis, normalize_line}

byte_len-append : (s t : Text) → byte_len (s ++ t) ≡ byte_len s + byte_len t
unfolding byte_len
byte_len-append [] t = omega arith
byte_len-append (c ∷ s) t = omega (arith, byte_len-append s t)

truncate-floor_boundary :
    (s : Text) (cap : ℕ)
    → cap < byte_len s
    → truncate s (floor_boundary s cap) ≡ some (prefix s (floor_boundary s cap))
unfolding truncate
truncate-floor_boundary s cap h =
    ground (arith, floor_boundary-is_char_boundary s cap, floor_boundary-le s cap)

abbrev pub shown : Option Text → Text
shown none = []
shown (some t) = t

byte_len-ellipsis : byte_len ellipsis ≡ 3
unfolding byte_len
byte_len-ellipsis = refl

-- `normalize_line` never panics, whatever characters the line holds, and what enters the ring is at
-- most the cap and the marker.
pub normalize_line-total :
    (line : Text)
    → (r : Option Text) × (normalize_line line ≡ some r)
      × (byte_len (shown r) ≤ log_line_max_bytes + 3)
unfolding normalize_line
normalize_line-total line = elim (Bool-cases (is_empty (trim_end line))) [
  | inl e ↦ (none, rw e, unfold byte_len in omega arith)
  | inr e ↦ elim (Bool-cases (ltb log_line_max_bytes (byte_len (trim_end line)))) [
    | inl long ↦
        let cut = prefix (trim_end line) (floor_boundary (trim_end line) log_line_max_bytes) in
        (
          some (cut ++ ellipsis),
          rw (e, long, truncate-floor_boundary (trim_end line) log_line_max_bytes (ground arith)),
          omega (
            arith,
            byte_len-append cut ellipsis,
            byte_len-ellipsis,
            byte_len-prefix (trim_end line) (floor_boundary (trim_end line) log_line_max_bytes),
            floor_boundary-le (trim_end line) log_line_max_bytes,
          ),
        )
    | inr short ↦ (some (trim_end line), rw (e, short), ground arith)
  ]
]
