-- ===== src/LogForward/Capture.antt =====
-- The cuts of a line in src/bin/malkuth/log_forward.rs, and where they panic.
use malkuth.Prelude.{
  ltb, leb, ltb→lt, ltb→le, le→leb, Bool-cases, Option-cases, ℕ_key, string_key, byte_len,
  is_char_boundary, prefix, truncate, floor_boundary, floor_boundary-is_char_boundary,
  floor_boundary-le, trim, is_empty, ℕ, ◌≤◌, ◌<◌, ◌≡◌, refl, sym, ◌∙◌, ◌↔◌, inl, inr, true, false,
  none, some, [], ◌∷◌, ◌++◌, arith,
}
use malkuth.LogForward.{
  Text, Forward, max_line_bytes, max_log_line_bytes, truncate_on_char_boundary, ring_line,
  push_ring, roll_window, shed, log, emit, on_line, rate_limit_per_sec,
}

truncate-boundary :
    (s : Text) (n : ℕ)
    → n ≤ byte_len s
    → is_char_boundary s n ≡ true
    → (t : Text) × (truncate s n ≡ some t)
unfolding truncate
truncate-boundary s n h b = (prefix s n, rw (le→leb n (byte_len s) h) (rw b refl))

-- The slice for tracing never panics.
pub truncate_on_char_boundary-total :
    (s : Text) → (t : Text) × (truncate_on_char_boundary s ≡ some t)
unfolding truncate_on_char_boundary
truncate_on_char_boundary-total s = elim (Bool-cases (leb (byte_len s) max_line_bytes)) [
  | inl e ↦ (s, rw e refl)
  | inr e ↦
      let above : max_line_bytes < byte_len s = ground (arith, e) in
      let le = floor_boundary-le s max_line_bytes in
      let cut =
        truncate-boundary s (floor_boundary s max_line_bytes) (omega (arith, le, above))
          (floor_boundary-is_char_boundary s max_line_bytes) in
      (cut.0, rw e cut.1)
]

emit-total : (now : ℕ) (t : Text) (s : Forward) → (s' : Forward) × (emit now t s ≡ some s')
unfolding emit
emit-total now t s = elim (Bool-cases (leb rate_limit_per_sec s.window_count)) [
  | inl u ↦ (shed now s, rw u refl)
  | inr u ↦ let (line, e) = truncate_on_char_boundary-total t in (log line s, rw u (rw e refl))
]

-- The cut of `ring_line` would fall inside a character.
abbrev pub Splits : Text → Type 0
Splits t = (max_log_line_bytes < byte_len t) × (is_char_boundary t max_log_line_bytes ≡ false)

pub ring_line-Splits : (t : Text) → (ring_line t ≡ none) ↔ Splits t
unfolding ring_line truncate
ring_line-Splits t = elim (Bool-cases (ltb max_log_line_bytes (byte_len t))) [
  | inr e ↦
      let short : byte_len t ≤ max_log_line_bytes = ltb→le _ _ e in
      (
        (λ h. let h' : some t ≡ none = rw e at h in absurd (cc h')),
        (λ h. absurd (omega (arith, h.0, short))),
      )
  | inl e ↦
      let long : max_log_line_bytes < byte_len t = ltb→lt _ _ e in
      let le : leb max_log_line_bytes (byte_len t) ≡ true =
        le→leb max_log_line_bytes (byte_len t) (omega (arith, long)) in
      elim (Bool-cases (is_char_boundary t max_log_line_bytes)) [
        | inl b ↦ (
          (λ h.
              let h' : some (prefix t max_log_line_bytes ++ 0x2026 ∷ []) ≡ none =
                rw b at (rw le at (rw e at h)) in
              absurd (cc h')),
          (λ h. absurd (cc (b, h.1))),
        )
        | inr b ↦ ((λ h. (long, b)), (λ h. rw e (rw le (rw b refl))))
      ]
]

byte_len-empty : (t : Text) → is_empty t ≡ true → byte_len t ≡ 0
unfolding byte_len
byte_len-empty [] e = refl
byte_len-empty (_ ∷ _) e = absurd (cc e)

-- The capture of a line panics exactly if the trimmed line is longer than the cap of the ring and the
-- byte at the cap is inside a character; nothing else of the line, the clock or the state matters.
pub on_line_panics :
    (now : ℕ) (line : Text) (s : Forward) → (on_line now line s ≡ none) ↔ Splits (trim line)
unfolding on_line
on_line_panics now line s = elim (Bool-cases (is_empty (trim line))) [
  | inl u ↦ (
    (λ h. let h' : some s ≡ none = rw u at h in absurd (cc h')),
    (λ h. absurd (omega (arith, h.0, byte_len-empty (trim line) u))),
  )
  | inr u ↦ elim (Option-cases (ring_line (trim line))) [
    | inl v ↦ ((λ h. (ring_line-Splits (trim line)).0 v), (λ h. rw u (rw v refl)))
    | inr (r, v) ↦
        let s1 = roll_window now (record s { ring = push_ring r s.ring }) in
        let (s', e) = emit-total now (trim line) s1 in
        (
          (λ h.
              let h' : emit now (trim line) s1 ≡ none = rw v at (rw u at h) in
              absurd (cc (sym e ∙ h'))),
          (λ h.
              let v' : ring_line (trim line) ≡ none = (ring_line-Splits (trim line)).1 h in
              absurd (cc (sym v' ∙ v))),
        )
  ]
]
