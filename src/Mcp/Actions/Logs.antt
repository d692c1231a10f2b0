-- ===== src/Mcp/Actions/Logs.antt =====
-- `logs_payload` of src/mcp.rs. The `LogRing` of a worker is the list of its lines.
use malkuth.Prelude.{
  if◌then◌else◌, ℕ_key, string_key, length, byte_len, is_empty, Dict, get, Result, ok, err, ℕ, ◌+◌,
  ◌≤◌, min, max, String, ◌≡◌, Option, none, some, List, [], ◌∷◌,
}
use malkuth.LogRing.{Text, tail}
use malkuth.Mcp.Paging.{LogPage, page_logs}
use malkuth.Mcp.Runs.{find_run}
use malkuth.Mcp.Actions.{World}
use malkuth.Mcp.Arguments.{given}

abbrev pub logs_default_lines : ℕ
logs_default_lines = 100

abbrev pub logs_max_lines : ℕ
logs_max_lines = 500

abbrev pub logs_default_bytes : ℕ
logs_default_bytes = 8192

abbrev pub logs_max_bytes : ℕ
logs_max_bytes = 65536

abbrev pub logs_min_bytes : ℕ
logs_min_bytes = 256

pub record LogsArgs : Type 0 where
  pub run_id : String
  pub worker_id : Option String
  pub lines : Option ℕ
  pub max_bytes : Option ℕ

-- `.unwrap_or(default).clamp(low, high)`
abbrev pub clamped : ℕ → ℕ → ℕ → Option ℕ → ℕ
clamped default low high none = min (max default low) high
clamped default low high (some n) = min (max n low) high

-- The worker that is named, or the only one there is.
unfoldable pub logs_worker : Option String → Dict String (List Text) → Result String String
unfolding given
logs_worker worker_id rings = elim (given worker_id) [
  | some id ↦ ok id
  | none ↦ elim rings [
    | [] ↦ err "worker_required"
    | r ∷ rest ↦ if is_empty rest then ok (r.0) else err "worker_required"
  ]
]

pub record LogsReply : Type 0 where
  pub worker_id : String
  pub total : ℕ
  pub page : LogPage

-- The page of one ring: `page_logs` has all of its lines.
unfoldable pub ring_page : LogsArgs → String → List Text → LogsReply
unfolding tail page_logs
ring_page args worker_id ring =
    let lines = tail (length ring) ring in
    record {
      worker_id = worker_id;
      total = length lines;
      page =
          page_logs lines (clamped logs_default_lines 1 logs_max_lines args.lines)
            (clamped logs_default_bytes logs_min_bytes logs_max_bytes args.max_bytes);
    }

unfoldable pub read_logs : LogsArgs → Dict String (List Text) → Result String LogsReply
unfolding logs_worker ring_page
read_logs args rings = elim (logs_worker args.worker_id rings) [
  | err code ↦ err code
  | ok worker_id ↦ elim (get worker_id rings) [
    | none ↦ err "unknown_worker"
    | some ring ↦ ok (ring_page args worker_id ring)
  ]
]

unfoldable pub logs_payload : LogsArgs → World → Result String LogsReply
unfolding find_run read_logs
logs_payload args w = elim (find_run args.run_id w.server) [
  | none ↦ err "unknown_run"
  | some run ↦ read_logs args run.log_rings
]

-- The caps that hold whatever the caller asks for.
abbrev pub Capped : LogsReply → Type 0
Capped reply =
    (reply.page.lines ≤ logs_max_lines)
    × (reply.page.bytes ≤ logs_max_bytes)
    × (reply.page.bytes ≡ byte_len reply.page.text)
    × (reply.page.lines + reply.page.omitted_lines ≡ reply.total)
