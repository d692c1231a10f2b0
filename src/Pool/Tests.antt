-- ===== src/Pool/Tests.antt =====
-- Two pods come up, one goes down, and the properties of the pool applied to that run.
use malkuth.Prelude.{
  ℕ_key, string_key, Dict, ℕ, String, ◌≡◌, refl, Option, none, some, List, [], ◌∷◌,
}
use malkuth.Proxy.{SocketAddr, ProxyState}
use malkuth.Pool.{
  spawned, answered, missed, exited, published, PodEvent, Pool, assign_ports, new, interleave,
}
use malkuth.Pool.Published.{Synced, interleave-Synced}

ports_skip_public :
    assign_ports (3000 ∷ 3001 ∷ 3002 ∷ 3003 ∷ []) 2 3000 ≡ (0, 3001) ∷ (1, 3002) ∷ []
unfolding assign_ports
ports_skip_public = refl

abbrev addr_of : ℕ → SocketAddr
addr_of port = port

abbrev pod_name : ℕ → String
pod_name id = "pod"

abbrev ports : List (ℕ × ℕ)
ports = (0, 3001) ∷ (1, 3002) ∷ []

abbrev empty_proxy : ProxyState
empty_proxy = record { ring = record { points = []; backends = [] }; sticky = []; ttl = 600 }

-- The second pod overtakes the first between its insertion and its publication, and then exits.
abbrev run : List (ℕ × PodEvent)
run =
    (0, spawned)
    ∷ (1, spawned)
    ∷ (0, answered)
    ∷ (1, missed)
    ∷ (1, answered)
    ∷ (1, published)
    ∷ (0, published)
    ∷ (1, exited)
    ∷ (1, published)
    ∷ []

abbrev after_run : Option Pool → Dict ℕ ℕ
after_run none = []
after_run (some s) = s.meta

abbrev pool_of : Option Pool → Pool
pool_of none = record { pods = []; meta = []; proxy = empty_proxy }
pool_of (some s) = s

abbrev final : Pool
final = pool_of (interleave addr_of pod_name run (new addr_of pod_name ports empty_proxy))

reaches_final :
    interleave addr_of pod_name run (new addr_of pod_name ports empty_proxy) ≡ some final
unfolding interleave new
reaches_final = refl

interleave-Synced_example : Synced addr_of pod_name final
unfolding interleave new
interleave-Synced_example =
    interleave-Synced addr_of pod_name ports empty_proxy run final refl reaches_final refl
