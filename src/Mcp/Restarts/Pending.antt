-- ===== src/Mcp/Restarts/Pending.antt =====
-- The pending requests of `accept_restart` in src/mcp.rs: repeated and concurrent requests.
use malkuth.Prelude.{eqb, ℕ_key, string_key, any, ℕ, String, ◌≡◌, true, ◌&&◌, List}
use malkuth.Worker.Fleet.{FleetState}
use malkuth.Mcp.Restarts.{phase_of, is_open, of_worker}

-- The book holds a request for the worker from this restart count.
abbrev Holds : String → ℕ → List (String × ℕ) → Type 0
Holds id count pending = any (λ p. of_worker id p && eqb p.1 count) pending ≡ true

-- The supervisor has not yet acted on a request from this restart count: the worker lives, and its
-- count has not moved.
abbrev pub Unmoved : String → ℕ → FleetState → Type 0
Unmoved id count fleet = is_open (phase_of id fleet) count ≡ true
