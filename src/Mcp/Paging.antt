-- ===== src/Mcp/Paging.antt =====
-- `page_logs` of src/mcp.rs: the newest lines of a ring within a budget of lines and one of bytes. Texts
-- are code points, with their UTF-8 lengths.
pub mod Cuts
pub mod Bounds
pub mod Complete
use malkuth.Prelude.{
  ltb, leb, eqb, if◌then◌else◌, ltb→lt, lt→ltb, le→ltb, ltb→le, leb→le, le→leb, eqb_iff, tests,
  Bool-cases, Option-cases, is_some, Key, ℕ_key, string_key, ◌==◌, eq_iff, eq_refl, ne→beq, length,
  get_elem?, take, drop, retain, any, all, position, length-append, length-take, length-drop,
  length-retain, take_all, set, count_by, count_by-append, count_by-reverse, count_by-retain,
  is_blank, is_ws, byte_len, is_char_boundary, prefix, truncate, floor_boundary, len_utf8,
  floor_boundary-is_char_boundary, floor_boundary-le, byte_len-prefix, codes, trim, trim_start,
  trim_end, is_empty, reverse-cons, reverse-reverse, In, All, All-append, All-retain, retain-All,
  Dict, get, insert, remove, adjust, get-insert, get-remove, get-adjust, get-insert_self, Result,
  ok, err, ◌>>=◌, ◌>>◌, ℕ, zero, suc, ◌+◌, ◌-◌, ◌*◌, ◌/◌, ◌%◌, ◌^◌, ◌≤◌, ◌<◌, min, max, String, ◌≡◌,
  refl, sym, ap, subst, ◌∙◌, ◌≢◌, ◌↔◌, ◌⊎◌, inl, inr, Bool, true, false, not, ◌&&◌, ◌||◌, Option,
  none, some, List, [], ◌∷◌, ◌++◌, map, reverse, append-nil, append_assoc, arith,
}
use malkuth.LogRing.{Text}

abbrev pub log_marker_reserve : ℕ
log_marker_reserve = 64

pub record LogPage : Type 0 where
  pub text : Text
  pub lines : ℕ
  pub bytes : ℕ
  pub truncated : Bool
  pub omitted_lines : ℕ
  pub omitted_bytes : ℕ

-- The decimal digits of a number, as `format!` prints it; the fuel is one more than the number.
unfoldable pub digits : ℕ → ℕ → Text
digits zero n = []
digits (suc fuel) n = elim (ltb n 10) [
  | true ↦ (48 + n) ∷ []
  | false ↦ digits fuel (n / 10) ++ (48 + n % 10) ∷ []
]

unfoldable pub decimal : ℕ → Text
unfolding digits
decimal n = digits (suc n) n

-- `[T]::join("\n")`
unfoldable pub join_lines : List Text → Text
join_lines [] = []
join_lines (l ∷ []) = l
join_lines (l ∷ m ∷ ls) = l ++ b'\n' ∷ join_lines (m ∷ ls)

-- The loop over the window from its end: how many whole lines fit, given the bytes so far.
unfoldable pub whole_lines : ℕ → ℕ → List Text → ℕ
unfolding byte_len
whole_lines budget body_len [] = 0
whole_lines budget body_len (l ∷ older) =
    let add = byte_len l + (if ltb 0 body_len then 1 else 0) in
    let rest = whole_lines budget (body_len + add) older in
    if ltb budget (body_len + add) then 0 else suc rest

-- `while cut < s.len() && !s.is_char_boundary(cut) { cut += 1; }`; the fuel is the bytes behind `cut`.
unfoldable pub ceil_boundary : ℕ → Text → ℕ → ℕ
unfolding byte_len is_char_boundary
ceil_boundary zero s cut = cut
ceil_boundary (suc fuel) s cut =
    if ltb cut (byte_len s) && not (is_char_boundary s cut)
    then ceil_boundary fuel s (suc cut)
    else cut

unfoldable pub next_boundary : Text → ℕ → ℕ
unfolding ceil_boundary
next_boundary s cut = ceil_boundary (byte_len s - cut) s cut

-- The characters that begin at or after byte `i`.
unfoldable pub suffix : Text → ℕ → Text
suffix [] i = []
suffix (c ∷ cs) i = if eqb i 0 then c ∷ cs else suffix cs (i - len_utf8 c)

-- `s.get(cut..).unwrap_or_default()`
unfoldable pub get_from : Text → ℕ → Text
unfolding is_char_boundary suffix
get_from s cut = if is_char_boundary s cut then suffix s cut else []

abbrev pub is_truncated : ℕ → ℕ → Bool
is_truncated omitted_lines omitted_bytes = ltb 0 omitted_lines || ltb 0 omitted_bytes

unfoldable pub marker_for : ℕ → ℕ → Text
unfolding decimal
marker_for omitted_lines omitted_bytes =
    if is_truncated omitted_lines omitted_bytes
    then (0x2026 ∷ codes " [omitted ")
      ++ decimal omitted_lines
      ++ codes " line(s), "
      ++ decimal omitted_bytes
      ++ codes " byte(s)]\n"
    else []

-- The page of a final text.
unfoldable pub page_of : ℕ → ℕ → ℕ → Text → LogPage
unfolding byte_len
page_of total lines omitted_bytes text = record {
  text = text;
  lines = lines;
  bytes = byte_len text;
  truncated = is_truncated (total - lines) omitted_bytes;
  omitted_lines = total - lines;
  omitted_bytes = omitted_bytes;
}

-- Behind the loop: the tail of marker and text.
unfoldable pub last_resort : ℕ → ℕ → ℕ → ℕ → Text → LogPage
unfolding marker_for next_boundary get_from page_of
last_resort total max_bytes lines omitted_bytes text =
    let combined = marker_for (total - lines) omitted_bytes ++ text in
    page_of total lines omitted_bytes (
      if ltb max_bytes (byte_len combined)
      then get_from combined (next_boundary combined (byte_len combined - max_bytes))
      else combined)

-- `if text.ends_with('\n') { text.pop(); lines_returned -= 1 }`
unfoldable pub pop_newline : Text → Text × Bool
pop_newline text = elim (reverse text) [
  | [] ↦ (text, false)
  | c ∷ rest ↦ if eqb c b'\n' then (reverse rest, true) else (text, false)
]

-- The `for _ in 0..4`: the passes that are left.
unfoldable pub fit_marker : ℕ → ℕ → ℕ → ℕ → ℕ → Text → LogPage
unfolding marker_for next_boundary get_from page_of last_resort pop_newline
fit_marker zero total max_bytes lines omitted_bytes text =
    last_resort total max_bytes lines omitted_bytes text
fit_marker (suc passes) total max_bytes lines omitted_bytes text =
    let combined = marker_for (total - lines) omitted_bytes ++ text in
    let cut = next_boundary text (min (byte_len combined - max_bytes) (byte_len text)) in
    let popped = pop_newline (get_from text cut) in
    let again =
      fit_marker passes total max_bytes (if popped.1 then lines - 1 else lines)
        (omitted_bytes + cut) popped.0 in
    if leb (byte_len combined) max_bytes
    then page_of total lines omitted_bytes combined
    else if eqb cut 0
    then last_resort total max_bytes lines omitted_bytes text
    else again

-- The window and the whole lines of it that are kept, one at least if there is one.
unfoldable pub window_of : List Text → ℕ → List Text
window_of lines max_lines = drop (length lines - max max_lines 1) lines

unfoldable pub kept_lines : ℕ → List Text → ℕ
unfolding whole_lines
kept_lines body_budget window =
    let whole = whole_lines body_budget 0 (reverse window) in
    if eqb whole 0 && not (is_empty window) then 1 else whole

-- The head of the body is cut if the body is over its budget: the bytes that go.
unfoldable pub head_cut : ℕ → Text → ℕ
unfolding next_boundary
head_cut body_budget body =
    if ltb body_budget (byte_len body) then next_boundary body (byte_len body - body_budget) else 0

unfoldable pub page_logs : List Text → ℕ → ℕ → LogPage
unfolding join_lines window_of kept_lines head_cut get_from fit_marker
page_logs lines max_lines max_bytes =
    let window = window_of lines max_lines in
    let body_budget = max_bytes - log_marker_reserve in
    let kept = kept_lines body_budget window in
    let body = join_lines (drop (length window - kept) window) in
    let cut = head_cut body_budget body in
    fit_marker 4 (length lines) max_bytes kept cut
      (if ltb body_budget (byte_len body) then get_from body cut else body)
