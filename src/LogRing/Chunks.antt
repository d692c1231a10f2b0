-- ===== src/LogRing/Chunks.antt =====
-- `capture_stream` of src/worker.rs under any division of the bytes into reads.
use malkuth.Prelude.{
  ltb, leb, eqb, if◌then◌else◌, eqb_iff, Bool-cases, Option-cases, ℕ_key, string_key, length, take,
  drop, position, length-append, length-take, length-drop, take_all, is_empty, ℕ, zero, suc, ◌+◌,
  ◌-◌, ◌≤◌, ◌<◌, min, ◌≡◌, refl, sym, ap, subst, ◌∙◌, inl, inr, Bool, false, not, ◌||◌, none, some,
  List, [], ◌∷◌, ◌++◌, append-nil, append_assoc, arith,
}
use malkuth.LogRing.{
  Text, log_line_max_bytes, Reader, deposit, flush_line, is_newline, feed, read_all, capture_stream,
}

take-append {ℓ} :
    {A : Type ℓ} (n : ℕ) (xs ys : List A)
    → length xs ≤ n
    → take n (xs ++ ys) ≡ xs ++ take (n - length xs) ys
take-append n [] ys h = let e : n - 0 ≡ n = omega arith in rw e
take-append zero (x ∷ xs) ys h = absurd (omega arith)
take-append (suc n) (x ∷ xs) ys h =
    let e : suc n - suc (length xs) ≡ n - length xs = omega arith in
    rw e (ap (λ l. x ∷ l) (take-append n xs ys (omega arith)))

take-take-append {ℓ} :
    {A : Type ℓ} (n : ℕ) (xs ys : List A) → take n (take n xs ++ ys) ≡ take n (xs ++ ys)
take-take-append zero xs ys = refl
take-take-append (suc n) [] ys = refl
take-take-append (suc n) (x ∷ xs) ys = ap (λ l. x ∷ l) (take-take-append n xs ys)

-- `deposit` in one formula, for a line within the cap.
abbrev clamped : List ℕ → Reader → Reader
clamped piece s = record s {
  line = take log_line_max_bytes (s.line ++ piece);
  truncated = s.truncated || ltb log_line_max_bytes (length (s.line ++ piece));
}

abbrev Fits : Reader → Type 0
Fits s = length s.line ≤ log_line_max_bytes

take-min : (piece : List ℕ) (room : ℕ) → take (min (length piece) room) piece ≡ take room piece
take-min piece room = elim (Bool-cases (leb (length piece) room)) [
  | inl h ↦
      let e : min (length piece) room ≡ length piece = ground arith in
      rw e (take_all (length piece) piece (omega arith) ∙ sym (take_all room piece (ground arith)))
  | inr h ↦ let e : min (length piece) room ≡ room = ground arith in rw e
]

room_of : Reader → ℕ
room_of s = log_line_max_bytes - length s.line

line_eq :
    (piece : List ℕ) (s : Reader)
    → Fits s
    → s.line ++ take (room_of s) piece ≡ take log_line_max_bytes (s.line ++ piece)
unfolding room_of
line_eq piece s h = sym (take-append log_line_max_bytes s.line piece h)

with_both :
    (s : Reader) {l l' : List ℕ} {t t' : Bool}
    → l ≡ l'
    → t ≡ t'
    → record s { line = l; truncated = t } ≡ record s { line = l'; truncated = t' }
with_both s p q = λ i. record s { line = p i; truncated = q i }

deposit-clamped : (piece : List ℕ) (s : Reader) → Fits s → deposit piece s ≡ clamped piece s
unfolding deposit room_of
deposit-clamped [] s h =
    with_both s (rw append-nil (sym (take_all log_line_max_bytes s.line h)))
      (rw append-nil (ground arith))
deposit-clamped (b ∷ piece) s h = elim (Bool-cases (eqb (room_of s) 0)) [
  | inl full ↦
      let none_left : room_of s ≡ 0 = (eqb_iff (room_of s) 0).0 full in
      rw full (
        with_both s (sym (append-nil s.line) ∙ (rw none_left at (line_eq (b ∷ piece) s h)))
          (ground (arith, length-append s.line (b ∷ piece))))
  | inr free ↦ rw free (
      with_both s
        (ap (λ l. s.line ++ l) (take-min (b ∷ piece) (room_of s)) ∙ line_eq (b ∷ piece) s h)
        (ground (arith, length-append s.line (b ∷ piece))))
]

deposit-Fits : (piece : List ℕ) (s : Reader) → Fits s → Fits (deposit piece s)
deposit-Fits piece s h =
    rw (deposit-clamped piece s h) (omega (arith, length-take log_line_max_bytes (s.line ++ piece)))

overruns :
    (cap n m k : ℕ) (t : Bool)
    → (t || ltb cap (n + (m + k))) ≡ ((t || ltb cap (n + m)) || ltb cap (min cap (n + m) + k))
overruns cap n m k t = ground arith

-- A piece may be deposited in parts.
deposit-append : (p q : List ℕ) (s : Reader) → Fits s → deposit (p ++ q) s ≡ deposit q (deposit p s)
deposit-append p q s h =
    deposit-clamped (p ++ q) s h
    ∙ with_both s
        (ap (take log_line_max_bytes) (sym (append_assoc s.line p q))
          ∙ sym (take-take-append log_line_max_bytes (s.line ++ p) q))
        (rw
          (
            length-append s.line (p ++ q),
            length-append p q,
            length-append (take log_line_max_bytes (s.line ++ p)) q,
            length-take log_line_max_bytes (s.line ++ p),
            length-append s.line p,
          )
          (overruns log_line_max_bytes (length s.line) (length p) (length q) s.truncated))
    ∙ sym (
        ap (deposit q) (deposit-clamped p s h)
        ∙ deposit-clamped q (clamped p s) (subst Fits (deposit-clamped p s h) (deposit-Fits p s h)))

abbrev pub join : List (List ℕ) → List ℕ
join [] = []
join (c ∷ cs) = c ++ join cs

deposit-nil : (s : Reader) → deposit [] s ≡ s
unfolding deposit
deposit-nil s = refl

module _ (lossy : List ℕ → Text) where
  flush_line-line : (s : Reader) → (flush_line lossy s).line ≡ []
  unfolding flush_line
  flush_line-line s = ground arith

  flush_line-Fits : (s : Reader) → Fits (flush_line lossy s)
  flush_line-Fits s = omega (arith, ap length (flush_line-line s))

  abbrev byte : ℕ → Reader → Reader
  byte b s = if is_newline lossy b then flush_line lossy s else deposit (b ∷ []) s

  -- The reader, fed byte by byte.
  bytes : List ℕ → Reader → Reader
  bytes [] s = s
  bytes (b ∷ bs) s = bytes bs (byte b s)

  bytes-append : (xs ys : List ℕ) (s : Reader) → bytes (xs ++ ys) s ≡ bytes ys (bytes xs s)
  unfolding bytes
  bytes-append [] ys s = refl
  bytes-append (x ∷ xs) ys s = bytes-append xs ys (byte x s)

  byte-Fits : (b : ℕ) (s : Reader) → Fits s → Fits (byte b s)
  byte-Fits b s h = elim (Bool-cases (is_newline lossy b)) [
    | inl e ↦ rw e (flush_line-Fits s)
    | inr e ↦ rw e (deposit-Fits (b ∷ []) s h)
  ]

  bytes-Fits : (bs : List ℕ) (s : Reader) → Fits s → Fits (bytes bs s)
  unfolding bytes
  bytes-Fits [] s h = h
  bytes-Fits (b ∷ bs) s h = bytes-Fits bs (byte b s) (byte-Fits b s h)

  -- The bytes before the first newline are one deposit, and the newline is a flush.
  bytes-none :
      (bs : List ℕ) (s : Reader)
      → Fits s
      → position (is_newline lossy) bs ≡ none
      → bytes bs s ≡ deposit bs s
  unfolding bytes
  bytes-none [] s h e = sym (deposit-nil s)
  bytes-none (b ∷ bs) s h e = elim (Bool-cases (is_newline lossy b)) [
    | inl c ↦ absurd (ground arith)
    | inr c ↦ rw c (
        bytes-none bs (deposit (b ∷ []) s) (deposit-Fits (b ∷ []) s h) (ground arith)
        ∙ sym (deposit-append (b ∷ []) bs s h))
  ]

  bytes-some :
      (bs : List ℕ) (s : Reader) (i : ℕ)
      → Fits s
      → position (is_newline lossy) bs ≡ some i
      → bytes bs s ≡ bytes (drop (suc i) bs) (flush_line lossy (deposit (take i bs) s))
  unfolding bytes
  bytes-some [] s i h e = cc
  bytes-some (b ∷ bs) s zero h e = elim (Bool-cases (is_newline lossy b)) [
    | inl c ↦ rw (c, deposit-nil s) refl
    | inr c ↦ elim (Option-cases (position (is_newline lossy) bs)) [
      | inl p ↦ absurd (ground arith)
      | inr (j, p) ↦ absurd (ground arith)
    ]
  ]
  bytes-some (b ∷ bs) s (suc i) h e = elim (Bool-cases (is_newline lossy b)) [
    | inl c ↦ absurd (ground arith)
    | inr c ↦ elim (Option-cases (position (is_newline lossy) bs)) [
      | inl p ↦ absurd (ground arith)
      | inr (j, p) ↦
          let same : j ≡ i = ground arith in
          rw c (
            bytes-some bs (deposit (b ∷ []) s) i (deposit-Fits (b ∷ []) s h) (rw same at p)
            ∙ ap (λ t. bytes (drop (suc i) bs) (flush_line lossy t))
                (sym (deposit-append (b ∷ []) (take i bs) s h)))
    ]
  ]

  position-lt : (bs : List ℕ) (i : ℕ) → position (is_newline lossy) bs ≡ some i → i < length bs
  position-lt [] i e = cc
  position-lt (b ∷ bs) i e = elim (Option-cases (position (is_newline lossy) bs)) [
    | inl p ↦ ground arith
    | inr (j, p) ↦ ground (arith, position-lt bs j p)
  ]

  feed-bytes :
      (fuel : ℕ) (bs : List ℕ) (s : Reader)
      → length bs < fuel
      → Fits s
      → feed lossy fuel bs s ≡ some (bytes bs s)
  unfolding feed
  feed-bytes zero bs s l h = absurd (omega arith)
  feed-bytes (suc fuel) bs s l h = elim (Option-cases (position (is_newline lossy) bs)) [
    | inl e ↦ rw (e, feed) (ap some (sym (bytes-none bs s h e)))
    | inr (i, e) ↦
        let e' : i + 1 ≡ suc i = omega arith in
        rw (e, feed)
          (rw e' (
            feed-bytes fuel (drop (suc i) bs) (flush_line lossy (deposit (take i bs) s))
              (omega (arith, length-drop (suc i) bs, position-lt bs i e))
              (flush_line-Fits (deposit (take i bs) s))
            ∙ ap some (sym (bytes-some bs s i h e))))
  ]

  finish : Reader → Reader
  finish s = if not (is_empty s.line) || s.truncated then flush_line lossy s else s

  read_all-bytes :
      (chunks : List (List ℕ)) (s : Reader)
      → Fits s
      → read_all lossy chunks s ≡ some (finish (bytes (join chunks) s))
  unfolding read_all finish
  read_all-bytes [] s h = unfold bytes in refl
  read_all-bytes (c ∷ cs) s h =
      rw (feed-bytes (suc (length c)) c s (omega arith) h, read_all)
        (read_all-bytes cs (bytes c s) (bytes-Fits c s h)
          ∙ ap (λ t. some (finish t)) (sym (bytes-append c (join cs) s)))

-- The reader never fails, and what it leaves in the ring is a function of the bytes of the stream:
-- however the reads cut the same bytes into chunks, the same lines are captured.
pub capture_stream_lem :
    (lossy : List ℕ → Text) (chunks chunks' : List (List ℕ)) (ring : List Text)
    → join chunks ≡ join chunks'
    → ((r : List Text) × (capture_stream lossy chunks ring ≡ some r)
        × (capture_stream lossy chunks' ring ≡ some r))
unfolding capture_stream
capture_stream_lem lossy chunks chunks' ring e =
    let s : Reader = record { line = []; truncated = false; ring = ring } in
    let out = finish lossy (bytes lossy (join chunks) s) in
    (
      out.ring,
      rw (read_all-bytes lossy chunks s (omega arith), capture_stream),
      rw (read_all-bytes lossy chunks' s (omega arith), capture_stream, ← e),
    )

-- While a chunk is read the line in flight never outgrows the cap, whatever the child writes.
pub feed-length-line :
    (lossy : List ℕ → Text) (chunk : List ℕ) (s : Reader)
    → length s.line ≤ log_line_max_bytes
    → (t : Reader) × (feed lossy (suc (length chunk)) chunk s ≡ some t)
      × (length t.line ≤ log_line_max_bytes)
feed-length-line lossy chunk s h = (
  bytes lossy chunk s,
  feed-bytes lossy (suc (length chunk)) chunk s (omega arith) h,
  bytes-Fits lossy chunk s h,
)
