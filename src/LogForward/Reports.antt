-- ===== src/LogForward/Reports.antt =====
-- What src/bin/malkuth/log_forward.rs emits for a stream, line by line.
use malkuth.Prelude.{
  if◌then◌else◌, ℕ_key, string_key, byte_len, is_char_boundary, trim, is_empty, ℕ, suc, ◌≤◌, ◌≡◌,
  ◌⊎◌, true, some, List, [], ◌∷◌, ◌++◌,
}
use malkuth.LogForward.{
  Text, Emission, logged, summarized, Forward, max_log_line_bytes, rate_limit_per_sec,
  truncate_on_char_boundary, close_stream,
}

-- The lines of a stream that are forwarded: trimmed, and those that are not blank.
abbrev pub forwardable : List (ℕ × Text) → List Text
forwardable [] = []
forwardable ((_, line) ∷ lines) =
    if is_empty (trim line) then forwardable lines else trim line ∷ forwardable lines

-- `Reports m n lines out`: with `m` lines logged so far, and `n` lines dropped and not reported yet, `out` is
-- an account of the lines. Each is logged in its turn, as far as the cap, or dropped, but none is dropped
-- before as many are logged as the rate allows; and every dropped line is in the count of the next
-- summary.
pub data Reports : ℕ → ℕ → List Text → List Emission → Type 0 where
  ends : {m : ℕ} → Reports m 0 [] []
  logs :
      {m n : ℕ} {t cut : Text} {ts : List Text} {out : List Emission}
      → truncate_on_char_boundary t ≡ some cut
      → Reports (suc m) n ts out
      → Reports m n (t ∷ ts) (logged cut ∷ out)
  drops :
      {m n : ℕ} {t : Text} {ts : List Text} {out : List Emission}
      → rate_limit_per_sec ≤ m
      → Reports m (suc n) ts out
      → Reports m n (t ∷ ts) out
  reports :
      {m n : ℕ} {ts : List Text} {out : List Emission}
      → Reports m 0 ts out
      → Reports m (suc n) ts (summarized (suc n) ∷ out)

-- The capture of a line does not panic: it is within the cap of the ring, or the cap is not inside a
-- character.
abbrev pub Fits : ℕ × Text → Type 0
Fits (_, line) =
    (byte_len (trim line) ≤ max_log_line_bytes)
    ⊎ (is_char_boundary (trim line) max_log_line_bytes ≡ true)

-- What is still to be emitted from a state on, for the lines to come.
abbrev Accounted : ℕ → Forward → List Text → Forward → Type 0
Accounted m s ts s' =
    (out : List Emission) × (close_stream s' ≡ s.emitted ++ out) × Reports m s.dropped ts out
