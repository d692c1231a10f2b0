-- ===== src/Mcp/Paging/Bounds.antt =====
-- The counts of a page of src/mcp.rs.
use malkuth.Prelude.{
  ltb, leb, eqb, if◌then◌else◌, ltb→le, leb→le, Bool-cases, ℕ_key, string_key, length, drop,
  length-append, length-drop, byte_len, reverse-cons, ℕ, zero, suc, ◌+◌, ◌-◌, ◌≤◌, min, max, ◌≡◌,
  refl, ap, ◌∙◌, inl, inr, List, [], ◌∷◌, ◌++◌, reverse, arith,
}
use malkuth.LogRing.{Text}
use malkuth.Mcp.Paging.{
  log_marker_reserve, LogPage, join_lines, whole_lines, next_boundary, get_from, is_truncated,
  marker_for, page_of, last_resort, pop_newline, fit_marker, window_of, kept_lines, head_cut,
  page_logs,
}
use malkuth.Mcp.Paging.Cuts.{next_boundary-ge, byte_len-get_from}

-- The counts agree with the text and the budget, and with the number of lines there were.
abbrev pub Balanced : ℕ → ℕ → LogPage → Type 0
Balanced total max_bytes page =
    (page.bytes ≤ max_bytes)
    × (page.bytes ≡ byte_len page.text)
    × (page.lines + page.omitted_lines ≡ total)
    × (page.truncated ≡ is_truncated page.omitted_lines page.omitted_bytes)

page_of-Balanced :
    (total max_bytes lines omitted : ℕ) (text : Text)
    → lines ≤ total
    → byte_len text ≤ max_bytes
    → Balanced total max_bytes (page_of total lines omitted text)
unfolding page_of
page_of-Balanced total max_bytes lines omitted text l b = (b, refl, omega arith, refl)

last_resort-Balanced :
    (total max_bytes lines omitted : ℕ) (text : Text)
    → lines ≤ total
    → Balanced total max_bytes (last_resort total max_bytes lines omitted text)
unfolding last_resort
last_resort-Balanced total max_bytes lines omitted text l =
    let combined = marker_for (total - lines) omitted ++ text in
    elim (Bool-cases (ltb max_bytes (byte_len combined))) [
      | inl e ↦
          let cut = next_boundary combined (byte_len combined - max_bytes) in
          rw e (
            page_of-Balanced total max_bytes lines omitted (get_from combined cut) l (
              omega (
                arith,
                byte_len-get_from combined cut,
                next_boundary-ge combined (byte_len combined - max_bytes),
              )))
      | inr e ↦ rw e (
          page_of-Balanced total max_bytes lines omitted combined l
            (ltb→le max_bytes (byte_len combined) e))
    ]

fit_marker-Balanced :
    (passes total max_bytes lines omitted : ℕ) (text : Text)
    → lines ≤ total
    → Balanced total max_bytes (fit_marker passes total max_bytes lines omitted text)
unfolding fit_marker
fit_marker-Balanced zero total max_bytes lines omitted text l =
    last_resort-Balanced total max_bytes lines omitted text l
fit_marker-Balanced (suc passes) total max_bytes lines omitted text l =
    let combined = marker_for (total - lines) omitted ++ text in
    let cut = next_boundary text (min (byte_len combined - max_bytes) (byte_len text)) in
    let popped = pop_newline (get_from text cut) in
    let lines' : ℕ = if popped.1 then lines - 1 else lines in
    let l' : lines' ≤ total = ground (arith, l) in
    elim (Bool-cases (leb (byte_len combined) max_bytes)) [
      | inl e ↦ rw e (
          page_of-Balanced total max_bytes lines omitted combined l
            (leb→le (byte_len combined) max_bytes e))
      | inr e ↦ elim (Bool-cases (eqb cut 0)) [
        | inl u ↦ rw e (rw u (last_resort-Balanced total max_bytes lines omitted text l))
        | inr u ↦
            rw e
              (rw u (fit_marker-Balanced passes total max_bytes lines' (omitted + cut) popped.0 l'))
      ]
    ]

whole_lines-le : (budget len : ℕ) (ls : List Text) → whole_lines budget len ls ≤ length ls
unfolding whole_lines
whole_lines-le budget len [] = omega arith
whole_lines-le budget len (l ∷ ls) =
    ground (arith, whole_lines-le budget (len + (byte_len l + (if ltb 0 len then 1 else 0))) ls)

length-reverse : (ls : List Text) → length (reverse ls) ≡ length ls
length-reverse [] = refl
length-reverse (l ∷ ls) =
    ap length (reverse-cons l ls)
    ∙ omega (arith, length-append {0} (reverse ls) (l ∷ []), length-reverse ls)

pub kept_lines-le : (budget : ℕ) (window : List Text) → kept_lines budget window ≤ length window
unfolding kept_lines
kept_lines-le budget [] = unfold whole_lines in omega arith
kept_lines-le budget (w ∷ ws) =
    ground (arith, whole_lines-le budget 0 (reverse (w ∷ ws)), length-reverse (w ∷ ws))

-- A page of any ring, whatever the budgets: its bytes are within the budget and those of its text, its
-- lines and the omitted ones are all lines of the ring, and it is marked as truncated exactly if it
-- reports an omitted line or byte.
pub page_logs-Balanced :
    (lines : List Text) (max_lines max_bytes : ℕ)
    → Balanced (length lines) max_bytes (page_logs lines max_lines max_bytes)
unfolding page_logs window_of
page_logs-Balanced lines max_lines max_bytes =
    let window = window_of lines max_lines in
    let budget = max_bytes - log_marker_reserve in
    fit_marker-Balanced 4 (length lines) max_bytes (kept_lines budget window) _ _ (
      omega (
        arith,
        kept_lines-le budget window,
        length-drop {0} (length lines - max max_lines 1) lines,
      ))

last_resort-lines :
    (total max_bytes lines omitted : ℕ) (text : Text)
    → (last_resort total max_bytes lines omitted text).lines ≡ lines
unfolding last_resort page_of
last_resort-lines total max_bytes lines omitted text = refl

fit_marker-lines-le :
    (passes total max_bytes lines omitted : ℕ) (text : Text)
    → (fit_marker passes total max_bytes lines omitted text).lines ≤ lines
unfolding fit_marker page_of
fit_marker-lines-le zero total max_bytes lines omitted text =
    omega (arith, last_resort-lines total max_bytes lines omitted text)
fit_marker-lines-le (suc passes) total max_bytes lines omitted text =
    let combined = marker_for (total - lines) omitted ++ text in
    let cut = next_boundary text (min (byte_len combined - max_bytes) (byte_len text)) in
    let popped = pop_newline (get_from text cut) in
    let lines' : ℕ = if popped.1 then lines - 1 else lines in
    let l' : lines' ≤ lines = ground arith in
    elim (Bool-cases (leb (byte_len combined) max_bytes)) [
      | inl e ↦ rw e (omega arith)
      | inr e ↦ elim (Bool-cases (eqb cut 0)) [
        | inl u ↦ rw e (rw u (omega (arith, last_resort-lines total max_bytes lines omitted text)))
        | inr u ↦ rw e (
            rw u (
              omega (
                arith,
                l',
                fit_marker-lines-le passes total max_bytes lines' (omitted + cut) popped.0,
              )))
      ]
    ]

pub page_logs-lines-le :
    (lines : List Text) (max_lines max_bytes : ℕ)
    → (page_logs lines max_lines max_bytes).lines ≤ max max_lines 1
unfolding page_logs window_of
page_logs-lines-le lines max_lines max_bytes =
    let window = window_of lines max_lines in
    let budget = max_bytes - log_marker_reserve in
    let body = join_lines (drop (length window - kept_lines budget window) window) in
    let text : Text =
      if ltb budget (byte_len body) then get_from body (head_cut budget body) else body in
    omega (
      arith,
      fit_marker-lines-le 4 (length lines) max_bytes (kept_lines budget window)
          (head_cut budget body) text,
      kept_lines-le budget window,
      length-drop {0} (length lines - max max_lines 1) lines,
    )
