-- ===== src/Mcp/Actions/Tokens.antt =====
-- The gated actions of src/mcp.rs next to an abstract account of the approvals: a bag of tokens, of which an
-- approval adds one and an action takes one. The requests of several clients interleave, a restart
-- between its check and its spending too, and the runs change in between in any way.
pub mod Simulation
use malkuth.Prelude.{
  ltb, leb, eqb, if◌then◌else◌, ltb→lt, lt→ltb, le→ltb, ltb→le, leb→le, le→leb, eqb_iff, tests,
  Bool-cases, Option-cases, Result-cases, is_some, Key, ℕ_key, string_key, ◌==◌, eq_iff, eq_refl,
  ne→beq, length, get_elem?, take, drop, retain, any, all, position, length-append, length-take,
  length-drop, length-retain, take_all, set, count_by, count_by-append, count_by-reverse,
  count_by-retain, is_blank, is_ws, byte_len, is_char_boundary, prefix, truncate, floor_boundary,
  len_utf8, floor_boundary-is_char_boundary, floor_boundary-le, byte_len-prefix, codes, trim,
  trim_start, trim_end, is_empty, reverse-cons, reverse-reverse, In, All, All-append, All-retain,
  retain-All, Dict, get, insert, remove, adjust, get-insert, get-remove, get-adjust,
  get-insert_self, Result, ok, err, ◌>>=◌, ◌>>◌, ℕ, zero, suc, ◌+◌, ◌-◌, ◌*◌, ◌/◌, ◌%◌, ◌^◌, ◌≤◌,
  ◌<◌, min, max, String, ◌≡◌, refl, sym, ap, subst, ◌∙◌, ◌≢◌, ◌↔◌, ◌⊎◌, inl, inr, Bool, true, false,
  not, ◌&&◌, ◌||◌, Option, none, some, List, [], ◌∷◌, ◌++◌, map, reverse, append-nil, append_assoc,
  arith,
}
use malkuth.Lifecycle.{ShutdownKind, is_draining}
use malkuth.DrainAuth.{
  GateDecision, ApprovalEntry, ApprovalRegistry, is_block, matches, error_code, consume, approve,
  validate_drain_request,
}
use malkuth.DrainAuth.Gate.{granted}
use malkuth.DrainAuth.History.{once, same, avail, consume-avail, approve-avail, drain-avail}
use malkuth.Mcp.Restarts.{accept_restart, is_ok}
use malkuth.Mcp.Runs.{Server, find_run}
use malkuth.Mcp.Arguments.{
  parse_gate_decision, parse_drain_kind, trimmed, given, is_empty_text, require_proposal,
}
use malkuth.Mcp.Actions.{
  World, RestartArgs, DrainArgs, DrainReply, ApproveArgs, restart_checks, begin_restart,
  finish_restart, pass_gate, drain_gate, drain_run, drain_payload, approve_payload, change_run,
}

-- A proposal and its worker.
abbrev pub Token : Type 0
Token = String × String

pub data Label : Type 0 where
  approves acts : Token → Label
  silent : Label

-- The steps that the account allows.
pub data Step : List Token → Label → List Token → Type 0 where
  grant : (t : Token) (ts : List Token) → Step ts (approves t) (t ∷ ts)
  spend : (t : Token) (ts us : List Token) → Step (ts ++ t ∷ us) (acts t) (ts ++ us)
  idle : (ts : List Token) → Step ts silent ts

pub data Steps : List Token → List Label → List Token → Type 0 where
  done : (ts : List Token) → Steps ts [] ts
  next :
      {ts us vs : List Token} {l : Label} {ls : List Label}
      → Step ts l us
      → Steps us ls vs
      → Steps ts (l ∷ ls) vs

-- What reaches the server, one step each.
pub data ToolCall : Type 0 where
  approve_called : ℕ → ApproveArgs → ToolCall
  restart_begun : ℕ → ℕ → RestartArgs → ToolCall
  restart_finished : ℕ → RestartArgs → String → ToolCall
  drain_called : ℕ → DrainArgs → ToolCall
  runs_changed : (Server → Server) → ToolCall

abbrev pub world_or : World → Option (Result String GateDecision × World) → World
world_or w none = w
world_or w (some r) = r.1

unfoldable pub on_tool_call : ToolCall → World → World
on_tool_call (approve_called wall args) w = world_or w (approve_payload wall args w)
on_tool_call (restart_begun wall instant args) w = (begin_restart wall instant args w).1
on_tool_call (restart_finished wall args proposal_id) w = (finish_restart wall args proposal_id w).1
on_tool_call (drain_called wall args) w = (drain_payload wall args w).1
on_tool_call (runs_changed f) w = record w { server = f w.server }

abbrev pub or_empty : Option String → String
or_empty none = ""
or_empty (some s) = s

abbrev pub approve_label : Token → Option (Result String GateDecision × World) → Label
approve_label t none = silent
approve_label t (some (err _, _)) = silent
approve_label t (some (ok d, _)) = if is_block d then silent else approves t

abbrev pub drain_label : Token → Result String DrainReply → Label
drain_label t (err _) = silent
drain_label t (ok reply) = if reply.already then silent else acts t

-- What an event is to the account: an action is a restart that is signalled, or a drain that starts.
unfoldable pub label : ToolCall → World → Label
label (approve_called wall args) w =
    approve_label (trimmed args.proposal_id, trimmed args.worker_id) (approve_payload wall args w)
label (restart_begun wall instant args) w = silent
label (restart_finished wall args proposal_id) w =
    if is_ok (finish_restart wall args proposal_id w).0
    then acts (proposal_id, args.worker_id)
    else silent
label (drain_called wall args) w =
    drain_label (or_empty (given args.proposal_id), or_empty (given args.worker_id))
      (drain_payload wall args w).0
label (runs_changed f) w = silent

unfoldable pub labels : List ToolCall → World → List Label
unfolding label on_tool_call
labels [] w = []
labels (e ∷ es) w = label e w ∷ labels es (on_tool_call e w)

unfoldable pub on_tool_calls : List ToolCall → World → World
unfolding on_tool_call
on_tool_calls [] w = w
on_tool_calls (e ∷ es) w = on_tool_calls es (on_tool_call e w)
