-- ===== src/Pool.antt =====
-- The pod pool of src/bin/malkuth/pool.rs: what the supervision tasks do to the shared map of healthy
-- pods and to the proxy, as steps of the tasks in any interleaving. A step is what a task does between
-- two of its waits. A restart that was asked for earlier is met where the task takes the permit. The
-- name that `format!` gives a pod is a parameter, and so is the host's address.
pub mod Healthy
pub mod Published
mod Tests
use malkuth.Prelude.{
  ltb, leb, eqb, if◌then◌else◌, ltb→lt, lt→ltb, le→ltb, ltb→le, leb→le, le→leb, eqb_iff, tests,
  Bool-cases, Option-cases, is_some, Key, ℕ_key, string_key, ◌==◌, eq_iff, eq_refl, ne→beq, length,
  get_elem?, take, drop, retain, any, all, position, length-append, length-take, length-drop,
  length-retain, take_all, set, count_by, count_by-append, count_by-reverse, count_by-retain,
  is_blank, is_ws, byte_len, is_char_boundary, prefix, truncate, floor_boundary, len_utf8,
  floor_boundary-is_char_boundary, floor_boundary-le, byte_len-prefix, codes, trim, trim_start,
  trim_end, is_empty, reverse-cons, reverse-reverse, In, All, All-append, All-retain, retain-All,
  Dict, get, insert, remove, adjust, get-insert, get-remove, get-adjust, get-insert_self, Result,
  ok, err, ◌>>=◌, ◌>>◌, ℕ, zero, suc, ◌+◌, ◌-◌, ◌*◌, ◌/◌, ◌%◌, ◌^◌, ◌≤◌, ◌<◌, min, max, String, ◌≡◌,
  refl, sym, ap, subst, ◌∙◌, ◌≢◌, ◌↔◌, ◌⊎◌, inl, inr, Bool, true, false, not, ◌&&◌, ◌||◌, Option,
  none, some, List, [], ◌∷◌, ◌++◌, map, reverse, append-nil, append_assoc, arith,
}
use malkuth.Proxy.{SocketAddr, Backend, Ring, ProxyState, set_backends}

-- Where the supervision task of a pod stands.
pub data Phase : Type 0 where
  -- before `spawn_pod`
  spawning : Phase
  -- in `wait_ready`
  probing : Phase
  -- in the loop after the readiness window was missed
  late : Phase
  -- in the map, `publish_backends` still to come
  inserted : Phase
  -- in the last `select!`
  running : Phase
  -- in the last `select!`, without a port to register
  running_unlisted : Phase
  -- in `stop_draining`, asked for while running
  draining : Phase
  -- in `stop_draining`, of a pod that is not in the map
  draining_unlisted : Phase
  -- out of the map, `publish_backends` still to come
  removed : Phase
  -- the pause before the next spawn
  resting : Phase

pub data PodEvent : Type 0 where
  spawn_failed : PodEvent
  spawned : PodEvent
  answered : PodEvent
  missed : PodEvent
  restart_asked : PodEvent
  exited : PodEvent
  drained : PodEvent
  published : PodEvent
  rested : PodEvent

pub record Pool : Type 0 where
  -- the pods by id, each with its port, which is 0 without a proxy, and where its task stands
  pub pods : Dict ℕ (ℕ × Phase)
  -- the healthy pods
  pub meta : Dict ℕ ℕ
  pub proxy : ProxyState

-- `ports.filter(|p| *p != skip).take(count).enumerate()`
unfoldable pub enumerate_from : ℕ → List ℕ → Dict ℕ ℕ
enumerate_from i [] = []
enumerate_from i (p ∷ ps) = (i, p) ∷ enumerate_from (suc i) ps

unfoldable pub assign_ports : List ℕ → ℕ → ℕ → Dict ℕ ℕ
unfolding enumerate_from
assign_ports ports count skip = enumerate_from 0 (take count (retain (λ p. not (eqb p skip)) ports))

-- What a task does at an event.
pub data Action : Type 0 where
  stay : Action
  go : Phase → Action
  enlist : Action
  delist : Action
  publish : Phase → Action

-- `none` is an event that the task does not wait for at that place.
unfoldable pub action : ℕ → Phase → PodEvent → Option Action
action port spawning spawn_failed = some stay
action port spawning spawned = some (go (if eqb port 0 then running_unlisted else probing))
action port probing answered = some enlist
action port probing missed = some (go late)
action port late answered = some enlist
action port late exited = some delist
action port late restart_asked = some (go draining_unlisted)
action port inserted published = some (publish running)
action port running exited = some delist
action port running restart_asked = some (go draining)
action port running_unlisted exited = some delist
action port running_unlisted restart_asked = some (go draining_unlisted)
action port draining drained = some delist
action port draining_unlisted drained = some delist
action port removed published = some (publish resting)
action port resting rested = some (go spawning)
action port phase event = none

module _ (addr_of : ℕ → SocketAddr) (pod_name : ℕ → String) where
  unfoldable pub backends_from : Dict ℕ ℕ → List Backend
  backends_from [] = []
  backends_from ((id, port) ∷ meta) =
      record { addr = addr_of port; id = pod_name id } ∷ backends_from meta

  unfoldable pub publish_backends : Pool → Pool
  unfolding backends_from set_backends
  publish_backends s = record s { proxy = set_backends (backends_from s.meta) s.proxy }

  unfoldable pub new : List (ℕ × ℕ) → ProxyState → Pool
  new ports proxy = record {
    pods = map (λ p. (p.0, (p.1, spawning))) ports;
    meta = [];
    proxy = proxy;
  }

  unfoldable pub move_to : ℕ → ℕ → Phase → Pool → Pool
  unfolding insert
  move_to id port phase s = record s { pods = insert id (port, phase) s.pods }

  unfoldable pub perform : ℕ → ℕ → Action → Pool → Pool
  unfolding move_to insert remove publish_backends
  perform id port stay s = s
  perform id port (go phase) s = move_to id port phase s
  perform id port enlist s = record (move_to id port inserted s) { meta = insert id port s.meta }
  perform id port delist s = record (move_to id port removed s) { meta = remove id s.meta }
  perform id port (publish phase) s = publish_backends (move_to id port phase s)

  -- One step of the task of pod `id`.
  unfoldable pub supervise : ℕ → PodEvent → Pool → Option Pool
  unfolding get action perform
  supervise id event s = elim (get id s.pods) [
    | none ↦ none
    | some (port, phase) ↦ elim (action port phase event) [
      | none ↦ none
      | some a ↦ some (perform id port a s)
    ]
  ]

  unfoldable pub interleave : List (ℕ × PodEvent) → Pool → Option Pool
  unfolding supervise
  interleave [] s = some s
  interleave ((id, event) ∷ rest) s = elim (supervise id event s) [
    | none ↦ none
    | some s' ↦ interleave rest s'
  ]
