-- ===== src/LogForward.antt =====
-- The forwarding of a pod's output, src/bin/malkuth/log_forward.rs: every line goes to the shared ring,
-- and to tracing up to a rate, with summaries of what was dropped. Lines are code points, times are
-- milliseconds; `none` is a panic of `truncate` or of a slice. The task's reads, and other streams that
-- push to the same ring, are left out.
pub mod Reports
pub mod Capture
mod Tests
use malkuth.Prelude.{
  ltb, leb, eqb, if◌then◌else◌, ltb→lt, lt→ltb, le→ltb, ltb→le, leb→le, le→leb, eqb_iff, tests,
  Bool-cases, Option-cases, is_some, Key, ℕ_key, string_key, ◌==◌, eq_iff, eq_refl, ne→beq, length,
  get_elem?, take, drop, retain, any, all, position, length-append, length-take, length-drop,
  length-retain, take_all, set, count_by, count_by-append, count_by-reverse, count_by-retain,
  is_blank, is_ws, byte_len, is_char_boundary, prefix, truncate, floor_boundary, len_utf8,
  floor_boundary-is_char_boundary, floor_boundary-le, byte_len-prefix, codes, trim, trim_start,
  trim_end, is_empty, reverse-cons, reverse-reverse, In, All, All-append, All-retain, retain-All,
  Dict, get, insert, remove, adjust, get-insert, get-remove, get-adjust, get-insert_self, Result,
  ok, err, ◌>>=◌, ◌>>◌, ℕ, zero, suc, ◌+◌, ◌-◌, ◌*◌, ◌/◌, ◌%◌, ◌^◌, ◌≤◌, ◌<◌, min, max, String, ◌≡◌,
  refl, sym, ap, subst, ◌∙◌, ◌≢◌, ◌↔◌, ◌⊎◌, inl, inr, Bool, true, false, not, ◌&&◌, ◌||◌, Option,
  none, some, List, [], ◌∷◌, ◌++◌, map, reverse, append-nil, append_assoc, arith,
}

abbrev pub Text : Type 0
Text = List ℕ

abbrev pub max_line_bytes : ℕ
max_line_bytes = 8 * 1024

abbrev pub max_log_line_bytes : ℕ
max_log_line_bytes = 64 * 1024

abbrev pub rate_limit_per_sec : ℕ
rate_limit_per_sec = 200

abbrev pub summary_every : ℕ
summary_every = 5000

abbrev pub ring_max_lines : ℕ
ring_max_lines = 500

-- What reaches tracing.
pub data Emission : Type 0 where
  logged : Text → Emission
  summarized : ℕ → Emission

pub record Forward : Type 0 where
  pub window_start : ℕ
  pub window_count : ℕ
  pub dropped : ℕ
  pub last_summary : ℕ
  pub ring : List Text
  pub emitted : List Emission

-- `&s[..cut]` of `truncate_on_char_boundary`
unfoldable pub truncate_on_char_boundary : Text → Option Text
unfolding byte_len floor_boundary truncate
truncate_on_char_boundary s =
    if leb (byte_len s) max_line_bytes then some s else truncate s (floor_boundary s max_line_bytes)

-- The line as it is stored: `cut.truncate(..)` and the mark.
unfoldable pub ring_line : Text → Option Text
unfolding byte_len truncate
ring_line t =
    if ltb max_log_line_bytes (byte_len t)
    then elim (truncate t max_log_line_bytes) [ none ↦ none | some cut ↦ some (cut ++ 0x2026 ∷ []) ]
    else some t

unfoldable pub push_ring : Text → List Text → List Text
push_ring line ring =
    let g = ring ++ line ∷ [] in if ltb ring_max_lines (length g) then drop 1 g else g

unfoldable pub roll_window : ℕ → Forward → Forward
roll_window now s =
    if leb 1000 (now - s.window_start) then record s { window_start = now; window_count = 0 } else s

-- A line over the rate is counted, and the count is reported every few seconds.
unfoldable pub shed : ℕ → Forward → Forward
shed now s =
    let d = suc s.dropped in
    if leb summary_every (now - s.last_summary)
    then record s { dropped = 0; last_summary = now; emitted = s.emitted ++ summarized d ∷ [] }
    else record s { dropped = d }

unfoldable pub log : Text → Forward → Forward
log line s = record s { window_count = suc s.window_count; emitted = s.emitted ++ logged line ∷ [] }

-- The emission of a line, after the window has been rolled.
unfoldable pub emit : ℕ → Text → Forward → Option Forward
unfolding shed log truncate_on_char_boundary
emit now t s =
    if leb rate_limit_per_sec s.window_count
    then some (shed now s)
    else elim (truncate_on_char_boundary t) [ none ↦ none | some line ↦ some (log line s) ]

unfoldable pub on_line : ℕ → Text → Forward → Option Forward
unfolding ring_line push_ring roll_window emit trim
on_line now line s =
    let t = trim line in
    if is_empty t then some s else elim (ring_line t) [
      | none ↦ none
      | some r ↦ emit now t (roll_window now (record s { ring = push_ring r s.ring }))
    ]

-- The lines of a stream, each with its time.
unfoldable pub on_lines : List (ℕ × Text) → Forward → Option Forward
unfolding on_line
on_lines [] s = some s
on_lines ((now, line) ∷ rest) s = elim (on_line now line s) [
  | none ↦ none
  | some s' ↦ on_lines rest s'
]

-- The end of the stream: a last summary if lines were dropped since the one before.
unfoldable pub close_stream : Forward → List Emission
close_stream s = if ltb 0 s.dropped then s.emitted ++ summarized s.dropped ∷ [] else s.emitted

unfoldable pub forward : ℕ → List (ℕ × Text) → List Text → Option (List Emission × List Text)
unfolding on_lines close_stream
forward now lines ring =
    elim (on_lines lines (record {
      window_start = now;
      window_count = 0;
      dropped = 0;
      last_summary = now;
      ring = ring;
      emitted = [];
    })) [ none ↦ none | some s ↦ some (close_stream s, s.ring) ]
