-- ===== src/LogRing.antt =====
-- The log capture of src/worker.rs: the bounded ring of lines, the cap on one line, and the reader that
-- cuts a child's output into lines. Lines of the ring are texts, as code points; the bytes of a line
-- become a text by `String::from_utf8_lossy`, which is a parameter. Forwarding to tracing is left out.
pub mod Ring
pub mod Line
pub mod Chunks
mod Tests
use malkuth.Prelude.{
  ltb, leb, eqb, if◌then◌else◌, ltb→lt, lt→ltb, le→ltb, ltb→le, leb→le, le→leb, eqb_iff, tests,
  Bool-cases, Option-cases, is_some, Key, ℕ_key, string_key, ◌==◌, eq_iff, eq_refl, ne→beq, length,
  get_elem?, take, drop, retain, any, all, position, length-append, length-take, length-drop,
  length-retain, take_all, set, count_by, count_by-append, count_by-reverse, count_by-retain,
  is_blank, is_ws, byte_len, is_char_boundary, prefix, truncate, floor_boundary, len_utf8,
  floor_boundary-is_char_boundary, floor_boundary-le, byte_len-prefix, codes, trim, trim_start,
  trim_end, is_empty, reverse-cons, reverse-reverse, In, All, All-append, All-retain, retain-All,
  Dict, get, insert, remove, adjust, get-insert, get-remove, get-adjust, get-insert_self, Result,
  ok, err, ◌>>=◌, ◌>>◌, ℕ, zero, suc, ◌+◌, ◌-◌, ◌*◌, ◌/◌, ◌%◌, ◌^◌, ◌≤◌, ◌<◌, min, max, String, ◌≡◌,
  refl, sym, ap, subst, ◌∙◌, ◌≢◌, ◌↔◌, ◌⊎◌, inl, inr, Bool, true, false, not, ◌&&◌, ◌||◌, Option,
  none, some, List, [], ◌∷◌, ◌++◌, map, reverse, append-nil, append_assoc, arith,
}

abbrev pub Text : Type 0
Text = List ℕ

abbrev pub log_ring_capacity : ℕ
log_ring_capacity = 500

abbrev pub log_line_max_bytes : ℕ
log_line_max_bytes = 8 * 1024

-- `'…'`
abbrev pub ellipsis : Text
ellipsis = 0x2026 ∷ []

unfoldable pub insert_line : Text → List Text → List Text
insert_line line ring =
    (if eqb (length ring) log_ring_capacity then drop 1 ring else ring) ++ line ∷ []

unfoldable pub tail : ℕ → List Text → List Text
tail max_lines ring = drop (length ring - max_lines) ring

-- The inner `Option` is the source's; the outer one is `none` where `truncate` panics.
unfoldable pub normalize_line : Text → Option (Option Text)
normalize_line line =
    let trimmed = trim_end line in
    if is_empty trimmed
    then some none
    else if ltb log_line_max_bytes (byte_len trimmed)
    then elim (truncate trimmed (floor_boundary trimmed log_line_max_bytes)) [
      | none ↦ none
      | some cut ↦ some (some (cut ++ ellipsis))
    ]
    else some (some trimmed)

unfoldable pub push : Text → List Text → Option (List Text)
unfolding normalize_line insert_line
push line ring = elim (normalize_line line) [
  | none ↦ none
  | some none ↦ some ring
  | some (some owned) ↦ some (insert_line owned ring)
]

-- The reader's state: the line in flight, whether it overran the cap, and the ring.
pub record Reader : Type 0 where
  pub line : List ℕ
  pub truncated : Bool
  pub ring : List Text

unfoldable pub deposit : List ℕ → Reader → Reader
deposit piece s =
    let room = log_line_max_bytes - length s.line in
    let n = min (length piece) room in
    if is_empty piece then s else if eqb room 0 then record s { truncated = true } else record s {
      line = s.line ++ take n piece;
      truncated = if ltb n (length piece) then true else s.truncated;
    }

module _ (lossy : List ℕ → Text) where
  unfoldable pub flush_line : Reader → Reader
  unfolding insert_line
  flush_line s =
      let text = trim_end (lossy s.line) in
      let reset : Reader = record s { line = []; truncated = false } in
      if is_empty text && not s.truncated then reset else record reset {
        ring = insert_line (if s.truncated then text ++ ellipsis else text) s.ring;
      }

  abbrev pub is_newline : ℕ → Bool
  is_newline b = eqb b b'\n'

  -- The `while let` over one chunk. The fuel is the bytes left: `none` is out of fuel.
  unfoldable pub feed : ℕ → List ℕ → Reader → Option Reader
  unfolding flush_line deposit
  feed zero rest s = none
  feed (suc fuel) rest s = elim (position is_newline rest) [
    | none ↦ some (deposit rest s)
    | some pos ↦ feed fuel (drop (pos + 1) rest) (flush_line (deposit (take pos rest) s))
  ]

  -- The reads of `capture_stream`, each with what it put into the buffer, up to the end of the stream
  -- or a read error; then the flush of a line without a terminator.
  unfoldable pub read_all : List (List ℕ) → Reader → Option Reader
  unfolding feed
  read_all [] s = some (if not (is_empty s.line) || s.truncated then flush_line s else s)
  read_all (chunk ∷ chunks) s = elim (feed (suc (length chunk)) chunk s) [
    | none ↦ none
    | some s' ↦ read_all chunks s'
  ]

  unfoldable pub capture_stream : List (List ℕ) → List Text → Option (List Text)
  unfolding read_all
  capture_stream chunks ring =
      elim (read_all chunks (record { line = []; truncated = false; ring = ring })) [
        | none ↦ none
        | some s ↦ some s.ring
      ]
