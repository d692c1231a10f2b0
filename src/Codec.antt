-- ===== src/Codec.antt =====
-- src/codec.rs: NDJSON framing over a byte stream. JSON values and their parser and printer
-- (`serde_json`) are parameters; a stream is the list of what its reads return, `[]` at the end.
pub mod Reading
pub mod RoundTrip
mod Tests
use malkuth.Prelude.{
  ltb, leb, eqb, if◌then◌else◌, ltb→lt, lt→ltb, le→ltb, ltb→le, leb→le, le→leb, eqb_iff, tests,
  Bool-cases, Option-cases, is_some, Key, ℕ_key, string_key, ◌==◌, eq_iff, eq_refl, ne→beq, length,
  get_elem?, take, drop, retain, any, all, position, length-append, length-take, length-drop,
  length-retain, take_all, set, count_by, count_by-append, count_by-reverse, count_by-retain,
  is_blank, is_ws, byte_len, is_char_boundary, prefix, truncate, floor_boundary, len_utf8,
  floor_boundary-is_char_boundary, floor_boundary-le, byte_len-prefix, codes, trim, trim_start,
  trim_end, is_empty, reverse-cons, reverse-reverse, In, All, All-append, All-retain, retain-All,
  Dict, get, insert, remove, adjust, get-insert, get-remove, get-adjust, get-insert_self, Result,
  ok, err, ◌>>=◌, ◌>>◌, ℕ, zero, suc, ◌+◌, ◌-◌, ◌*◌, ◌/◌, ◌%◌, ◌^◌, ◌≤◌, ◌<◌, min, max, String, ◌≡◌,
  refl, sym, ap, subst, ◌∙◌, ◌≢◌, ◌↔◌, ◌⊎◌, inl, inr, Bool, true, false, not, ◌&&◌, ◌||◌, Option,
  none, some, List, [], ◌∷◌, ◌++◌, map, reverse, append-nil, append_assoc, arith,
}

-- `serde_json`: values, `Value::Null`, the test against it, `from_slice` and `to_vec`.
pub record Json : Type 1 where
  pub Value : Type 0
  pub null : Value
  pub is_null : Value → Bool
  pub from_slice : List ℕ → Option Value
  pub to_vec : Value → List ℕ

-- `u8::is_ascii_whitespace`
abbrev pub is_ascii_whitespace : ℕ → Bool
is_ascii_whitespace b = eqb b b' ' || eqb b b'\t' || eqb b b'\n' || eqb b 0x0c || eqb b b'\r'

abbrev pub newline : ℕ → Bool
newline b = eqb b b'\n'

pub data IoError : Type 0 where
  invalid_data unexpected_eof read_failed : IoError

-- What one read of the stream gives: bytes, none of them at its end, or an error.
pub data Read : Type 0 where
  bytes : List ℕ → Read
  failed : Read

module _ (json : Json) where
  open json use {Value, null, is_null, from_slice, to_vec}

  -- The outer `Option` is the source's: no complete line yet.
  unfoldable pub take_frame : List ℕ → Option (Result IoError Value) × List ℕ
  take_frame rd_buf = elim (position newline rd_buf) [
    | none ↦ (none, rd_buf)
    | some pos ↦
        let line = take (suc pos) rd_buf in
        let rest = drop (suc pos) rd_buf in
        if all is_ascii_whitespace line then (some (ok null), rest) else elim (from_slice line) [
          | none ↦ (some (err invalid_data), rest)
          | some v ↦ (some (ok v), rest)
        ]
  ]

  -- How the inner `loop` of `read_msg` leaves the buffer: with a message or an error to return, or
  -- with no complete line, which calls for a read. Null frames are skipped. The fuel is the bytes
  -- in the buffer.
  pub data Scan : Type 0 where
    found : Value → List ℕ → Scan
    broken : IoError → List ℕ → Scan
    starved : List ℕ → Scan
    no_fuel : Scan

  abbrev pub after_frame : (List ℕ → Scan) → Option (Result IoError Value) × List ℕ → Scan
  after_frame continue (none, buf) = starved buf
  after_frame continue (some (err e), buf) = broken e buf
  after_frame continue (some (ok v), buf) =
      let rest = continue buf in if is_null v then rest else found v buf

  unfoldable pub scan : ℕ → List ℕ → Scan
  unfolding take_frame
  scan zero buf = no_fuel
  scan (suc fuel) buf = after_frame (scan fuel) (take_frame buf)

  -- What `read_msg` returns, with the buffer and the reads that it leaves. `pending` is a read that
  -- has not come yet.
  pub data Outcome : Type 0 where
    message : Value → List ℕ → List Read → Outcome
    closed : Outcome
    error : IoError → List ℕ → List Read → Outcome
    pending : List ℕ → Outcome

  unfoldable pub read_msg : List Read → List ℕ → Outcome
  unfolding scan
  read_msg [] buf = elim (scan (suc (length buf)) buf) [
    | found v rest ↦ message v rest []
    | broken e rest ↦ error e rest []
    | starved rest ↦ pending rest
    | no_fuel ↦ pending buf
  ]
  read_msg (r ∷ reads) buf = elim (scan (suc (length buf)) buf) [
    | found v rest ↦ message v rest (r ∷ reads)
    | broken e rest ↦ error e rest (r ∷ reads)
    | no_fuel ↦ pending buf
    | starved rest ↦ elim r [
      | failed ↦ error read_failed rest reads
      | bytes [] ↦ if is_empty rest then closed else error unexpected_eof rest reads
      | bytes (b ∷ bs) ↦ read_msg reads (rest ++ (b ∷ bs))
    ]
  ]

  unfoldable pub write_msg : Value → List ℕ
  write_msg msg = to_vec msg ++ b'\n' ∷ []
