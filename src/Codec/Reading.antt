-- ===== src/Codec/Reading.antt =====
-- One message of `read_msg`, out of a buffer and the reads behind it.
use malkuth.Prelude.{
  ℕ_key, string_key, length, take, drop, all, position, is_empty, All, ok, ℕ, suc, ◌≡◌, refl, sym,
  ap, ◌∙◌, ◌⊎◌, inl, inr, false, none, some, List, [], ◌∷◌, ◌++◌, map, append-nil, append_assoc,
  arith,
}
use malkuth.Codec.{
  Json, is_ascii_whitespace, newline, Read, bytes, take_frame, found, starved, scan, message,
  read_msg,
}

abbrev pub join : List (List ℕ) → List ℕ
join [] = []
join (c ∷ cs) = c ++ join cs

abbrev pub NoNewline : List ℕ → Type 0
NoNewline = All (λ b. newline b ≡ false)

position-newline :
    (w rest : List ℕ) → NoNewline w → position newline (w ++ b'\n' ∷ rest) ≡ some (length w)
position-newline [] rest h = refl
position-newline (c ∷ w) rest h = ground (arith, position-newline w rest h.1)

take-length : (w rest : List ℕ) (b : ℕ) → take (suc (length w)) (w ++ b ∷ rest) ≡ w ++ b ∷ []
take-length [] rest b = refl
take-length (c ∷ w) rest b = ap (λ l. c ∷ l) (take-length w rest b)

drop-length : (w rest : List ℕ) (b : ℕ) → drop (suc (length w)) (w ++ b ∷ rest) ≡ rest
drop-length [] rest b = refl
drop-length (c ∷ w) rest b = drop-length w rest b

-- A buffer that begins a line holds no newline, or the whole line.
split_line :
    (w buf more rest : List ℕ)
    → NoNewline w
    → buf ++ more ≡ w ++ b'\n' ∷ rest
    → (position newline buf ≡ none)
      ⊎ ((after : List ℕ) × (buf ≡ w ++ b'\n' ∷ after) × (after ++ more ≡ rest))
split_line w [] more rest h e = inl refl
split_line [] (b ∷ buf) more rest h e = inr (buf, ground arith, ground arith)
split_line (c ∷ w) (b ∷ buf) more rest h e = elim (split_line w buf more rest h.1 (ground arith)) [
  | inl n ↦ inl (ground arith)
  | inr (after, p, q) ↦ inr (after, ground arith, q)
]

-- What is relied on of `serde_json`, for one value: its text has no newline and is not blank, it is
-- parsed back from the line that holds it, and it is not null.
pub record Prints (json : Json) (v : json.Value) : Type 0 where
  pub no_newline : NoNewline (json.to_vec v)
  pub not_blank : all is_ascii_whitespace (json.to_vec v ++ b'\n' ∷ []) ≡ false
  pub parses : json.from_slice (json.to_vec v ++ b'\n' ∷ []) ≡ some v
  pub not_null : json.is_null v ≡ false

module _ (json : Json) (v : json.Value) (h : Prints json v) where
  take_frame-line :
      (rest : List ℕ) → take_frame json (json.to_vec v ++ b'\n' ∷ rest) ≡ (some (ok v), rest)
  unfolding take_frame
  take_frame-line rest = ground (
    arith,
    position-newline (json.to_vec v) rest h.no_newline,
    take-length (json.to_vec v) rest b'\n',
    drop-length (json.to_vec v) rest b'\n',
    h.not_blank,
    h.parses,
  )

  scan-line :
      (fuel : ℕ) (rest : List ℕ)
      → scan json (suc fuel) (json.to_vec v ++ b'\n' ∷ rest) ≡ found v rest
  unfolding scan
  scan-line fuel rest = rw (take_frame-line rest, scan) (rw h.not_null)

  scan-starved :
      (fuel : ℕ) (buf : List ℕ)
      → position newline buf ≡ none
      → scan json (suc fuel) buf ≡ starved buf
  unfolding scan take_frame
  scan-starved fuel buf e = ground arith

  abbrev pub NonEmpty : List (List ℕ) → Type 0
  NonEmpty = All (λ c. is_empty c ≡ false)

  read_msg-found :
      (reads : List Read) (rest : List ℕ)
      → read_msg json reads (json.to_vec v ++ b'\n' ∷ rest) ≡ message v rest reads
  unfolding read_msg
  read_msg-found [] rest = rw (scan-line (length (json.to_vec v ++ b'\n' ∷ rest)) rest, read_msg)
  read_msg-found (r ∷ reads) rest =
      rw (scan-line (length (json.to_vec v ++ b'\n' ∷ rest)) rest, read_msg)

  read_msg-starved :
      (b : ℕ) (bs buf : List ℕ) (reads : List Read)
      → position newline buf ≡ none
      → read_msg json (bytes (b ∷ bs) ∷ reads) buf ≡ read_msg json reads (buf ++ (b ∷ bs))
  unfolding read_msg
  read_msg-starved b bs buf reads e = rw (scan-starved (length buf) buf e, read_msg)

  abbrev Next : List ℕ → List (List ℕ) → List ℕ → List Read → Type 0
  Next buf chunks rest behind =
      (buf' : List ℕ) × (chunks' : List (List ℕ)) × (read_msg json (map bytes chunks ++ behind) buf
        ≡ message v buf' (map bytes chunks' ++ behind))
      × (buf' ++ join chunks' ≡ rest)
      × NonEmpty chunks'

  pub read_msg-next :
      (chunks : List (List ℕ)) (buf rest : List ℕ) (behind : List Read)
      → NonEmpty chunks
      → buf ++ join chunks ≡ json.to_vec v ++ b'\n' ∷ rest
      → Next buf chunks rest behind
  read_msg-next [] buf rest behind ne e =
      elim (split_line (json.to_vec v) buf [] rest h.no_newline e) [
        | inr (after, p, q) ↦ (after, [], rw p (read_msg-found behind after), q, tt)
        | inl n ↦
            let whole : buf ≡ json.to_vec v ++ b'\n' ∷ rest = sym (append-nil buf) ∙ e in
            absurd (
              cc (
                n,
                ap (position newline) whole,
                position-newline (json.to_vec v) rest h.no_newline,
              ))
      ]
  read_msg-next ([] ∷ cs) buf rest behind ne e = absurd (cc ne.0)
  read_msg-next ((b ∷ bs) ∷ cs) buf rest behind ne e =
      elim (split_line (json.to_vec v) buf ((b ∷ bs) ++ join cs) rest h.no_newline e) [
        | inr (after, p, q) ↦ (
          after,
          (b ∷ bs) ∷ cs,
          rw p (read_msg-found (map bytes ((b ∷ bs) ∷ cs) ++ behind) after),
          q,
          ne,
        )
        | inl n ↦ rw (read_msg-starved b bs buf (map bytes cs ++ behind) n) (
            read_msg-next cs (buf ++ (b ∷ bs)) rest behind ne.1
              (append_assoc buf (b ∷ bs) (join cs) ∙ e))
      ]
