-- ===== src/Mcp/Paging/Complete.antt =====
-- Pages of src/mcp.rs that are not marked as truncated.
use malkuth.Prelude.{
  ltb, leb, eqb, if◌then◌else◌, ltb→lt, le→ltb, Bool-cases, ℕ_key, string_key, length, drop,
  length-drop, byte_len, ℕ, zero, suc, ◌+◌, ◌-◌, ◌≤◌, ◌<◌, min, max, ◌≡◌, refl, ap, ◌∙◌, inl, inr,
  false, List, [], ◌∷◌, ◌++◌, arith,
}
use malkuth.LogRing.{Text}
use malkuth.Mcp.Paging.{
  log_marker_reserve, LogPage, join_lines, next_boundary, get_from, is_truncated, marker_for,
  page_of, last_resort, pop_newline, fit_marker, window_of, kept_lines, head_cut, page_logs,
}
use malkuth.Mcp.Paging.Cuts.{byte_len-append, next_boundary-ge}
use malkuth.Mcp.Paging.Bounds.{kept_lines-le}

-- Nothing of the text was lost on the way to the page.
abbrev Whole : ℕ → ℕ → ℕ → Text → LogPage → Type 0
Whole total lines omitted text page =
    page.truncated ≡ false → (total ≤ lines) × (omitted ≡ 0) × (page.text ≡ text)

not_truncated : (a b : ℕ) → is_truncated a b ≡ false → (a ≡ 0) × (b ≡ 0)
not_truncated a b h = ground (arith, h)

no_marker : (a b : ℕ) → a ≡ 0 → b ≡ 0 → marker_for a b ≡ []
unfolding marker_for
no_marker a b e f = rw e (rw f refl)

page_of-Whole :
    (total lines omitted : ℕ) (text : Text)
    → Whole total lines omitted text
        (page_of total lines omitted (marker_for (total - lines) omitted ++ text))
unfolding page_of
page_of-Whole total lines omitted text h =
    let (a, b) = not_truncated (total - lines) omitted h in
    (omega (arith, a), b, ap (λ m. m ++ text) (no_marker (total - lines) omitted a b))

empty_text : (text : Text) → byte_len text ≡ 0 → text ≡ []
unfolding byte_len
empty_text [] e = refl
empty_text (c ∷ text) e = absurd (ground (arith, e))

-- Where the loop has nothing left to cut.
last_resort-Whole :
    (total max_bytes lines omitted : ℕ) (text : Text)
    → byte_len text ≡ 0
    → Whole total lines omitted text (last_resort total max_bytes lines omitted text)
unfolding last_resort page_of
last_resort-Whole total max_bytes lines omitted text none_left h =
    let (a, b) = not_truncated (total - lines) omitted h in
    let combined = marker_for (total - lines) omitted ++ text in
    let same : combined ≡ text = ap (λ m. m ++ text) (no_marker (total - lines) omitted a b) in
    let short : ltb max_bytes (byte_len combined) ≡ false =
      le→ltb max_bytes (byte_len combined) (omega (arith, ap byte_len same, none_left)) in
    (omega (arith, a), b, rw short same)

fit_marker-Whole :
    (passes total max_bytes lines omitted : ℕ) (text : Text)
    → 0 < passes + omitted
    → Whole total lines omitted text (fit_marker passes total max_bytes lines omitted text)
unfolding fit_marker last_resort page_of
fit_marker-Whole zero total max_bytes lines omitted text p =
    λ h. let (a, b) = not_truncated (total - lines) omitted h in absurd (omega (arith, b, p))
fit_marker-Whole (suc passes) total max_bytes lines omitted text p =
    let combined = marker_for (total - lines) omitted ++ text in
    let over = min (byte_len combined - max_bytes) (byte_len text) in
    let cut = next_boundary text over in
    let popped = pop_newline (get_from text cut) in
    let lines' : ℕ = if popped.1 then lines - 1 else lines in
    elim (Bool-cases (leb (byte_len combined) max_bytes)) [
      | inl e ↦ rw e (page_of-Whole total lines omitted text)
      | inr e ↦ elim (Bool-cases (eqb cut 0)) [
        | inl u ↦
            let nothing : byte_len text ≡ 0 = ground (
              arith,
              e,
              u,
              next_boundary-ge text over,
              byte_len-append (marker_for (total - lines) omitted) text,
            ) in
            rw e (rw u (last_resort-Whole total max_bytes lines omitted text nothing))
        | inr u ↦ rw e (
            rw u (λ h.
              let some_cut : 0 < cut = ground (arith, u) in
              let ih =
                fit_marker-Whole passes total max_bytes lines' (omitted + cut) popped.0
                  (omega (arith, some_cut)) h in
              absurd (omega (arith, ih.1, some_cut))))
      ]
    ]

drop_none : (n : ℕ) (ls : List Text) → length ls ≤ length (drop n ls) → drop n ls ≡ ls
drop_none zero ls h = refl
drop_none (suc n) [] h = refl
drop_none (suc n) (l ∷ ls) h = absurd (omega (arith, h, length-drop {0} n ls))

-- Nothing is lost silently: a page that is not marked as truncated is the whole ring, every line of it
-- in order.
pub page_logs_complete :
    (lines : List Text) (max_lines max_bytes : ℕ)
    → (page_logs lines max_lines max_bytes).truncated ≡ false
    → (page_logs lines max_lines max_bytes).text ≡ join_lines lines
unfolding page_logs window_of head_cut
page_logs_complete lines max_lines max_bytes h =
    let window = window_of lines max_lines in
    let budget = max_bytes - log_marker_reserve in
    let kept = kept_lines budget window in
    let body = join_lines (drop (length window - kept) window) in
    let cut = head_cut budget body in
    let text : Text = if ltb budget (byte_len body) then get_from body cut else body in
    let (all_kept, no_cut, same) =
      fit_marker-Whole 4 (length lines) max_bytes kept cut text (omega arith) h in
    let whole_window : window ≡ lines =
      drop_none (length lines - max max_lines 1) lines
        (omega (arith, all_kept, kept_lines-le budget window)) in
    let short : ltb budget (byte_len body) ≡ false =
      elim (Bool-cases (ltb budget (byte_len body))) [
        | inr e ↦ e
        | inl e ↦
            let c : next_boundary body (byte_len body - budget) ≡ 0 = rw (e, head_cut) at no_cut in
            let over : budget < byte_len body = ltb→lt budget (byte_len body) e in
            absurd (omega (arith, over, c, next_boundary-ge body (byte_len body - budget)))
      ] in
    let is_body : text ≡ body = rw short refl in
    let none_dropped : length window - kept ≡ 0 = omega (arith, all_kept, ap length whole_window) in
    let whole_body : body ≡ join_lines lines =
      ap join_lines (ap (λ k. drop k window) none_dropped ∙ whole_window) in
    same ∙ is_body ∙ whole_body
