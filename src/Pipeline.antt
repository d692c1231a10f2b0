-- ===== src/Pipeline.antt =====
-- The deploy pipeline of src/bin/malkuth/pipeline.rs: its specs, the back-off after failures, the poll of
-- an upstream ref, and the lines of a stage. Texts are code points, times are seconds; git and the shell
-- are what their runs returned, up to the end of the stream, a read error or an interrupt. The receiver
-- of the triggers is there: the poller does not end.
pub mod Backoff
pub mod Polling
pub mod Specs
mod Tests
use malkuth.Prelude.{
  ltb, leb, eqb, if◌then◌else◌, ltb→lt, lt→ltb, le→ltb, ltb→le, leb→le, le→leb, eqb_iff, tests,
  Bool-cases, Option-cases, is_some, Key, ℕ_key, string_key, ◌==◌, eq_iff, eq_refl, ne→beq, length,
  get_elem?, take, drop, retain, any, all, position, length-append, length-take, length-drop,
  length-retain, take_all, set, count_by, count_by-append, count_by-reverse, count_by-retain,
  is_blank, is_ws, byte_len, is_char_boundary, prefix, truncate, floor_boundary, len_utf8,
  floor_boundary-is_char_boundary, floor_boundary-le, byte_len-prefix, codes, trim, trim_start,
  trim_end, is_empty, reverse-cons, reverse-reverse, In, All, All-append, All-retain, retain-All,
  Dict, get, insert, remove, adjust, get-insert, get-remove, get-adjust, get-insert_self, Result,
  ok, err, ◌>>=◌, ◌>>◌, ℕ, zero, suc, ◌+◌, ◌-◌, ◌*◌, ◌/◌, ◌%◌, ◌^◌, ◌≤◌, ◌<◌, min, max, String, ◌≡◌,
  refl, sym, ap, subst, ◌∙◌, ◌≢◌, ◌↔◌, ◌⊎◌, inl, inr, Bool, true, false, not, ◌&&◌, ◌||◌, Option,
  none, some, List, [], ◌∷◌, ◌++◌, map, reverse, append-nil, append_assoc, arith,
}

abbrev pub Text : Type 0
Text = List ℕ

-- `str::split_once`
unfoldable pub split_once : ℕ → Text → Option (Text × Text)
split_once sep [] = none
split_once sep (c ∷ cs) =
    if eqb c sep
    then some ([], cs)
    else elim (split_once sep cs) [ none ↦ none | some (a, b) ↦ some (c ∷ a, b) ]

pub data SpecError : Type 0 where
  no_separator : SpecError
  empty_part : SpecError

pub record BuildStage : Type 0 where
  pub name : Option Text
  pub cmd : Text

-- `BuildStage::parse`, the name as `split_once` left it
unfoldable pub stage_of : Option (Text × Text) → Result SpecError BuildStage
unfolding trim
stage_of none = err no_separator
stage_of (some (name, cmd)) =
    if is_empty (trim name)
    then err empty_part
    else ok (record { name = some (trim name); cmd = cmd })

unfoldable pub parse_stage : Text → Result SpecError BuildStage
unfolding split_once stage_of
parse_stage spec = stage_of (split_once b'=' spec)

unfoldable pub remote_of : Option (Text × Text) → Result SpecError (Text × Text)
remote_of none = err no_separator
remote_of (some (url, ref)) = if is_empty url || is_empty ref then err empty_part else ok (url, ref)

unfoldable pub parse_remote_spec : Text → Result SpecError (Text × Text)
unfolding split_once remote_of
parse_remote_spec spec = remote_of (split_once b'#' spec)

pub record FailureBackoff : Type 0 where
  pub base : ℕ
  pub cap : ℕ
  pub consecutive : ℕ
  pub blocked_until : Option ℕ

abbrev pub default_base : ℕ
default_base = 30

abbrev pub default_cap : ℕ
default_cap = 15 * 60

unfoldable pub new : FailureBackoff
new = record { base = default_base; cap = default_cap; consecutive = 0; blocked_until = none }

-- The `consecutive` of a `u32` stops at its largest value.
unfoldable pub record_failure : ℕ → FailureBackoff → FailureBackoff
record_failure now s =
    let n = min (suc s.consecutive) (2 ^ 32 - 1) in
    let delay = min (s.base * 2 ^ (min (n - 1) 16)) s.cap in
    record s { consecutive = n; blocked_until = some (now + delay) }

unfoldable pub record_success : FailureBackoff → FailureBackoff
record_success s = record s { consecutive = 0; blocked_until = none }

unfoldable pub is_blocked : ℕ → FailureBackoff → Bool
is_blocked now s = elim s.blocked_until [ none ↦ false | some until ↦ ltb now until ]

-- `stdout.lines().find_map(..)` on the lines that `git ls-remote` printed: the first field of the first
-- line, if that is not blank.
unfoldable pub sha_of : List Text → Option Text
unfolding split_once trim
sha_of [] = none
sha_of (line ∷ _) =
    let field = elim (split_once 0x09 line) as (λ _. Text) [ none ↦ line | some (a, _) ↦ a ] in
    if is_empty (trim field) then none else some (trim field)

pub record Poller : Type 0 where
  pub baseline : Option Text
  pub sent : List Text

unfoldable pub same_text : Text → Text → Bool
same_text [] [] = true
same_text [] (_ ∷ _) = false
same_text (_ ∷ _) [] = false
same_text (c ∷ cs) (d ∷ ds) = eqb c d && same_text cs ds

-- One poll of the upstream: `none` is a probe that failed.
unfoldable pub poll : Option Text → Poller → Poller
unfolding same_text
poll none s = s
poll (some sha) s = record {
  baseline = some sha;
  sent = elim s.baseline [
    | none ↦ s.sent
    | some prev ↦ if same_text prev sha then s.sent else s.sent ++ sha ∷ []
  ];
}

unfoldable pub poll_all : List (Option Text) → Poller → Poller
unfolding poll
poll_all [] s = s
poll_all (p ∷ ps) s = poll_all ps (poll p s)

abbrev pub log_capacity : ℕ
log_capacity = 50

-- One line of a stage: the shared log, and what the page shows as the progress.
unfoldable pub stage_line : Option Text → Text → List Text × Option Text → List Text × Option Text
unfolding trim
stage_line tag line (log, progress) =
    let t = trim line in
    let shown = elim tag as (λ _. Text) [ none ↦ t | some g ↦ g ++ t ] in
    let grown = log ++ shown ∷ [] in
    if is_empty t
    then (log, progress)
    else (if ltb log_capacity (length grown) then drop 1 grown else grown, some shown)

-- `[name] `, for a stage with a name
unfoldable pub tag_of : Option BuildStage → Option Text
tag_of none = none
tag_of (some s) = elim s.name [ none ↦ none | some n ↦ some (b'[' ∷ n ++ b']' ∷ b' ' ∷ []) ]

pub data StageFailure : Type 0 where
  exit : ℕ → StageFailure
  spawn : StageFailure

-- What the command of a stage did: it could not be spawned, it printed lines and could not be reaped,
-- or it printed lines and exited.
pub data StageRun : Type 0 where
  not_spawned : StageRun
  not_reaped : List Text → StageRun
  finished : List Text → ℕ → StageRun

unfoldable pub stage_lines :
    Option Text → List Text → List Text × Option Text → List Text × Option Text
unfolding stage_line
stage_lines tag [] s = s
stage_lines tag (line ∷ lines) s = stage_lines tag lines (stage_line tag line s)

-- The result, the log and the progress after a stage.
unfoldable pub run_shell_stage :
    Option BuildStage
    → StageRun
    → List Text × Option Text
    → Result StageFailure Unit × (List Text × Option Text)
unfolding tag_of stage_lines
run_shell_stage stage not_spawned s = (err spawn, s)
run_shell_stage stage (not_reaped lines) s =
    (err spawn, ((stage_lines (tag_of stage) lines s).0, none))
run_shell_stage stage (finished lines code) s = (
  (if eqb code 0 then ok tt else err (exit code)),
  ((stage_lines (tag_of stage) lines s).0, none),
)
