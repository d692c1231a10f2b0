-- ===== src/Lib.antt =====
-- Malkuth, a service-supervision toolkit and watchdog, modelled operation by operation.
--
-- The program is a library (src/) and a command-line watchdog (src/bin/malkuth.rs with
-- src/bin/malkuth/). The library's drain controller broadcasts a shutdown to its waiters; the worker
-- supervisor restarts children, publishes their state and captures their output; the authorization
-- gate decides which drain requests may act; messages travel as lines of JSON; a file lease is there
-- to keep one owner at a time, and a leader is elected by it; a registry lists the instances of a
-- group; and an MCP server offers supervision as tools, whose actions pass the gate. The watchdog
-- runs a pool of pods, whose healthy members it publishes to a sticky reverse proxy, forwards their
-- output, and rebuilds and redeploys them by a pipeline, and watches files whose change restarts
-- them.
--
-- Which file models what, paths from the repository's root:
--   Prelude      names, the equality interface of keys, lists over native numbers, dictionaries (HashMap),
--                results, and texts as code points with their UTF-8 lengths
--   Lifecycle    src/lifecycle.rs: DrainController. Wakeup runs wait_for_drain access by access against
--                threads in begin_drain and clear_drain, with sequentially consistent atomics
--   DrainAuth    src/drain_auth.rs: ApprovalRegistry and validate_drain_request, the clock an argument
--   Worker       src/worker.rs and src/types.rs: restart policy, rate_limited, FleetState, and
--   Worker.Supervise
--                supervise_one over a list of what each turn meets (spawn, exit, signal)
--   LogRing      src/worker.rs: LogRing, normalize_line, deposit, flush_line, capture_stream
--   Codec        src/codec.rs: take_frame, read_msg, write_msg, over a list of reads
--   Proxy        src/bin/malkuth/proxy.rs: hash64, Ring, ProxyState, the loop of handle_client
--   LogForward   src/bin/malkuth/log_forward.rs: forward, line by line
--   Pool         src/bin/malkuth/pool.rs: PodManager::supervise as interleaved steps of the pods' tasks,
--                which use Proxy's set_backends
--   Pipeline     src/bin/malkuth/pipeline.rs: specs, FailureBackoff, the remote poller, run_shell_stage
--   Lease        src/lease.rs: try_take, renewal and release, in one go and access by access
--   Leader       src/leader.rs: LeaseLeaderElector on the lease
--   Registry     src/registry.rs: InMemoryRegistry, with the instances of src/types.rs
--   Mcp          src/mcp.rs: Restarts is accept_restart and its book, Runs the registry of runs, Paging
--                page_logs, Arguments the parsing, Actions restart_payload, drain_payload and
--                approve_payload, its child Logs logs_payload, its child Tokens the account that
--                the gate promises
--   Watcher      src/bin/malkuth/watcher.rs: the loop of spawn, one definition for each of its parts, with
--                the paths it compares (Paths), its state (State) and what counts as a change (Changes)
--   DbBackup     src/bin/malkuth/db_backup.rs: the names of the dumps and rotate, on the directory as a list
-- Each component has its tests and the properties at concrete inputs in a module Tests.
--
-- Time is a number, in the unit that the file names; a record stands for a struct, Option for what
-- may be missing or for a panic, as each definition says. Names keep the source's words.
--
-- Fuel: Proxy's handle_client has one turn more than the ring has backends, enough because each turn
-- but the last adds a backend of the ring to the dead ones; LogRing's feed has one turn more than
-- the chunk has bytes, and each turn takes a newline off it; Codec's scan has one turn more than the
-- buffer has bytes, and each turn takes a frame off it; Mcp's wait_finished has a pass for each 25
-- ms of its budget and two more, its ceil_boundary a turn for each byte behind the cut, and its
-- digits one more turn than the number; the four passes of fit_marker are the source's own.
-- Integers: the hash of the proxy and the term of a leader wrap at 64 bits, the restart limit and
-- the failure count stop at 32.
--
-- Parameters: JSON parsing and printing, lossy UTF-8 decoding, and the names and addresses of pods.
--
-- Not modelled: sockets and other transports, signals, process control, the HTML of the info page,
-- the protocol and the JSON of the MCP server, JSON-RPC, its client and server, the file and SQL
-- locks, probes, hooks, configuration, the runs of pg_dump and age and the discovery of database
-- URLs, the singleton lock, the build lock of the pipeline, self-update and the Windows service.
-- Poisoned locks are left out: nothing modelled panics while it holds one, except where a panic is
-- an outcome of the definition.
pub mod Prelude
pub mod Lifecycle
pub mod DrainAuth
pub mod Worker
pub mod LogRing
pub mod Codec
pub mod Proxy
pub mod LogForward
pub mod Pool
pub mod Pipeline
pub mod Lease
pub mod Leader
pub mod Registry
pub mod Mcp
pub mod Watcher
pub mod DbBackup
