-- ===== src/Mcp/Tests.antt =====
-- A server with one run of one worker and one approval, and the properties of the tools applied to it.
use malkuth.Prelude.{
  leb, ℕ_key, string_key, is_blank, codes, get, Result, ok, err, ℕ, suc, ◌+◌, ◌*◌, ◌/◌, ◌≤◌, String,
  ◌≡◌, refl, ◌⊎◌, Bool, true, false, Option, none, some, List, [], ◌∷◌, arith,
}
use malkuth.Lifecycle as Lifecycle
use malkuth.Lifecycle.{ShutdownKind, immediate, is_draining, kind_of}
use malkuth.LogRing.{Text}
use malkuth.Worker.{WorkerPhase, running, stopped, permanent}
use malkuth.Worker.Fleet.{FleetEntry, FleetState}
use malkuth.DrainAuth.{allow, approved, ApprovalRegistry, status, consumed}
use malkuth.Mcp.Restarts.{explicit_restart_max, empty_book, is_ok, Call, accepted}
use malkuth.Mcp.Restarts.Budget.{recent, accepted-le-explicit_restart_max}
use malkuth.Mcp.Runs.{
  RunHandle, Server, new_server, find_run, insert_run, RunEvent, supervised, ended, on_events,
}
use malkuth.Mcp.Runs.Eviction.{live_run_kept}
use malkuth.Mcp.Runs.Reuse.{insert_run_refuses_reuse}
use malkuth.Mcp.Paging.{page_logs, join_lines}
use malkuth.Mcp.Paging.Complete.{page_logs_complete}
use malkuth.Mcp.Arguments.{parse_drain_kind}
use malkuth.Mcp.Actions.{
  World, RestartArgs, DrainArgs, DrainReply, begin_restart, restart_payload, drain_payload,
  wait_finished,
}
use malkuth.Mcp.Actions.Logs.{LogsArgs, LogsReply}
use malkuth.Mcp.Actions.Tokens.{
  Token, Steps, ToolCall, approve_called, restart_begun, restart_finished, drain_called, labels,
  on_tool_calls,
}
use malkuth.Mcp.Actions.Tokens.Simulation.{Covered, on_tool_calls_refines_tokens}
use malkuth.Mcp.Actions.Retries.{drain_payload_again}
use malkuth.Mcp.Actions.Refusals.{is_approved_status, restart_refused_unspent, restart_carried_out}
use malkuth.Mcp.Actions.Drains.{Ended, wait_finished_ends}

abbrev entry : WorkerPhase → ℕ → FleetEntry
entry phase count = record {
  snapshot = record {
    id = "w";
    kind = "k";
    phase = phase;
    pid = some 7;
    uptime_secs = 0;
    restart_policy = permanent;
    restart_count = count;
    last_error = none;
    starttime = none;
  };
  spawned_at = none;
}

abbrev fleet : FleetState
fleet = ("w", entry running 0) ∷ []

abbrev lines : List Text
lines = codes "started" ∷ codes "ready" ∷ []

abbrev run_named : String → RunHandle
run_named id = record {
  run_id = id;
  started_at = 0;
  fleet = fleet;
  drain = Lifecycle.new;
  restart_signals = ("w", false) ∷ [];
  log_rings = ("w", lines) ∷ [];
  restart_book = empty_book;
  finished = none;
}

abbrev calls : List Call
calls =
    record { now = 10; id = "w"; fleet = fleet }
    ∷ record { now = 20; id = "w"; fleet = ("w", entry running 1) ∷ [] }
    ∷ record { now = 30; id = "w"; fleet = ("w", entry stopped 1) ∷ [] }
    ∷ []

two_are_accepted : accepted calls empty_book ≡ ("w", 10) ∷ ("w", 20) ∷ []
unfolding accepted
two_are_accepted = refl

accepted-le-explicit_restart_max_example :
    recent "w" 100 (accepted calls empty_book) ≤ explicit_restart_max
accepted-le-explicit_restart_max_example =
    accepted-le-explicit_restart_max "w" calls 100 (omega arith, (omega arith, (omega arith, tt)))
      (omega arith, (omega arith, (omega arith, tt)))

abbrev other_call : Call
other_call = record { now = 15; id = "v"; fleet = fleet }

abbrev run_events : List RunEvent
run_events =
    supervised (run_named "a")
    ∷ supervised (run_named "a")
    ∷ ended "a" 5
    ∷ supervised (run_named "b")
    ∷ []

abbrev one_run : Server
one_run = record { runs = run_named "r" ∷ []; used_run_ids = "r" ∷ [] }

live_run_kept_example : find_run "r" (on_events run_events one_run) ≡ some (run_named "r")
live_run_kept_example =
    live_run_kept run_events "r" (run_named "r") one_run (unfold find_run in refl) refl
      (tt, (tt, (refl, (tt, tt))))

insert_run_refuses_reuse_example :
    (code : String) × (insert_run (run_named "r") (on_events (ended "r" 9 ∷ []) one_run) ≡ err code)
insert_run_refuses_reuse_example =
    insert_run_refuses_reuse (run_named "r") (run_named "r") new_server one_run (ended "r" 9 ∷ [])
      (unfold insert_run in refl) (omega arith) refl

page_logs_complete_example : (page_logs lines 100 4096).text ≡ join_lines lines
page_logs_complete_example = page_logs_complete lines 100 4096 (unfold page_logs in refl)

abbrev approvals : ApprovalRegistry
approvals = record {
  entries =
      record {
        proposal_id = "p";
        worker_id = "w";
        decision = allow;
        approved_at = 100;
        consumed_at = none;
      }
      ∷ [];
  max_entries = 64;
  ttl = 300;
}

abbrev world : World
world = record { server = one_run; approvals = approvals }

abbrev restart_args : Option String → RestartArgs
restart_args proposal_id = record { run_id = "r"; worker_id = "w"; proposal_id = proposal_id }

abbrev drain_args : Option String → DrainArgs
drain_args proposal_id = record {
  run_id = "r";
  kind = none;
  worker_id = some " w ";
  proposal_id = proposal_id;
}

abbrev tool_calls : List ToolCall
tool_calls =
    approve_called 100 (record { proposal_id = "p"; worker_id = "w"; decision = none })
    ∷ restart_begun 110 10 (restart_args (some "p"))
    ∷ drain_called 120 (drain_args (some "p"))
    ∷ restart_finished 130 (restart_args (some "p")) "p"
    ∷ []

abbrev unapproved : World
unapproved = record { server = one_run; approvals = record approvals { entries = [] } }

on_tool_calls_refines_tokens_example :
    (us : List Token) × Steps [] (labels tool_calls unapproved) us
    × Covered us (on_tool_calls tool_calls unapproved).approvals
on_tool_calls_refines_tokens_example =
    on_tool_calls_refines_tokens tool_calls unapproved [] (λ p w. omega arith)

refused_without_proposal : is_ok (restart_payload 110 10 110 (restart_args none) world).0 ≡ false
unfolding restart_payload
refused_without_proposal = refl

restart_refused_unspent_example :
    (restart_payload 110 10 110 (restart_args none) world).1.approvals ≡ approvals
restart_refused_unspent_example =
    restart_refused_unspent 110 10 110 (restart_args none) world refused_without_proposal

restart_begins : (begin_restart 110 10 (restart_args (some "p")) world).0 ≡ ok "p"
unfolding begin_restart
restart_begins = refl

restart_carried_out_example :
    let out = restart_payload 110 10 115 (restart_args (some "p")) world in
    ((status 115 "p" "w" approvals ≡ approved)
      × (out.0 ≡ ok tt)
      × (status 120 "p" "w" out.1.approvals ≡ consumed)
      × ((run : RunHandle) × (find_run "r" out.1.server ≡ some run)
          × (get "w" run.restart_signals ≡ some true)))
    ⊎ ((is_approved_status (status 115 "p" "w" approvals) ≡ false)
        × (is_ok out.0 ≡ false)
        × (out.1.approvals ≡ approvals)
        × (out.1.server ≡ (begin_restart 110 10 (restart_args (some "p")) world).1.server))
restart_carried_out_example =
    restart_carried_out 110 10 115 120 (restart_args (some "p")) world "p" restart_begins

abbrev accepted_drain : DrainReply
accepted_drain = record { kind = Lifecycle.graceful; already = false }

drain_accepted : (drain_payload 110 (drain_args (some "p")) world).0 ≡ ok accepted_drain
unfolding drain_payload is_blank
drain_accepted = refl

abbrev drain_retry : DrainArgs
drain_retry = record { run_id = "r"; kind = some "Immediate"; worker_id = none; proposal_id = none }

retry_kind : parse_drain_kind (some "Immediate") ≡ ok immediate
unfolding parse_drain_kind
retry_kind = refl

abbrev between : List ToolCall
between =
    approve_called 120 (record { proposal_id = "q"; worker_id = "w"; decision = none })
    ∷ restart_begun 130 10 (restart_args (some "q"))
    ∷ drain_called 140 (drain_args none)
    ∷ []

drain_payload_again_example :
    let before = on_tool_calls between (drain_payload 110 (drain_args (some "p")) world).1 in
    let after = drain_payload 500 drain_retry before in
    (after.0 ≡ ok (record { kind = immediate; already = true }))
    × (after.1.approvals ≡ before.approvals)
    × ((run : RunHandle) × (find_run "r" after.1.server ≡ some run)
        × (is_draining run.drain ≡ true)
        × (kind_of run.drain ≡ some immediate))
drain_payload_again_example =
    drain_payload_again 110 500 (drain_args (some "p")) drain_retry world accepted_drain immediate
      between drain_accepted (tt, (tt, (tt, tt))) refl retry_kind

abbrev every_30 : ℕ → ℕ
every_30 pass = 1000 + 30 * pass

abbrev finished_at_1100 : ℕ → Bool
finished_at_1100 t = leb 1100 t

wait_finished_ends_example :
    Ended every_30 finished_at_1100
      (every_30 0 + 200)
      0
      (wait_finished (suc (suc (200 / 25))) every_30 finished_at_1100 (every_30 0 + 200) 0)
wait_finished_ends_example = wait_finished_ends every_30 finished_at_1100 200 (λ pass. omega arith)

abbrev logs_args : LogsArgs
logs_args = record { run_id = "r"; worker_id = none; lines = some 9000; max_bytes = none }

abbrev reply_or : Result String LogsReply → LogsReply
reply_or (ok reply) = reply
reply_or (err _) = record { worker_id = ""; total = 0; page = page_logs [] 1 256 }
