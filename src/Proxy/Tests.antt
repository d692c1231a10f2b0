-- ===== src/Proxy/Tests.antt =====
-- The ring with two backends, evaluated, and the properties of the proxy applied.
use malkuth.Prelude.{
  eqb, ℕ_key, string_key, retain, codes, ℕ, String, ◌≡◌, refl, ◌≢◌, true, false, none, some, List,
  [], ◌∷◌, arith,
}
use malkuth.Proxy.{
  SocketAddr, Backend, from_backends, hash64, as_bytes, route_excluding, ProxyState, pick,
  sticky_hit, Served, forwarded, Moment, handle_client, client_looks_like_http,
}
use malkuth.Proxy.Stability.{not_at, removal_keeps_keys}
use malkuth.Proxy.Upstream.{known, Accepted, Right, handle_client-Right, handle_client_reaches}
use malkuth.Proxy.Sticky.{Event, picked, forgotten, changed, happen_all, pick_again}

abbrev back_a : Backend
back_a = record { addr = 1; id = "a" }

abbrev back_b : Backend
back_b = record { addr = 2; id = "b" }

abbrev two : List Backend
two = back_a ∷ back_b ∷ []

-- The published FNV-1a value of "a".
hash_of_a : hash64 (as_bytes "a") ≡ 0xaf63dc4c8601ec8c
unfolding hash64 as_bytes
hash_of_a = refl

lands_on : route_excluding (from_backends two) "10.0.0.1" [] ≡ some back_b
unfolding route_excluding from_backends
lands_on = refl

http_head : client_looks_like_http (some (codes "get / HTTP/1.1")) ≡ true
unfolding client_looks_like_http
http_head = refl

not_http : client_looks_like_http (some (codes "GETTING")) ≡ false
unfolding client_looks_like_http
not_http = refl

b_not_at_1 : back_b.addr ≢ 1
b_not_at_1 h = absurd (omega arith)

removal_keeps_keys_example :
    route_excluding (from_backends (retain (not_at 1) two)) "10.0.0.1" [] ≡ some back_b
removal_keeps_keys_example = removal_keeps_keys two "10.0.0.1" [] 1 back_b lands_on b_not_at_1

abbrev proxy : ProxyState
proxy = record { ring = from_backends two; sticky = []; ttl = 600 }

-- The first backend is down, the second is up.
abbrev half_up : ℕ → Moment
half_up t = record { now = t; later = t; accepts = λ a. eqb a 2 }

handle_client-Right_example :
    (o : Served) × (s' : ProxyState) × (handle_client half_up none "10.0.0.1" proxy ≡ some (o, s'))
    × Right half_up none "10.0.0.1" two o
handle_client-Right_example = handle_client-Right half_up none "10.0.0.1" two proxy refl

handle_client_reaches_example :
    (a : SocketAddr) × (s' : ProxyState) × (handle_client half_up none "10.0.0.1" proxy
      ≡ some (forwarded a, s'))
    × (known two a ≡ true)
    × Accepted half_up none "10.0.0.1" two a
handle_client_reaches_example =
    handle_client_reaches half_up none "10.0.0.1" two proxy 2 refl refl (λ t. refl)

abbrev meanwhile : List Event
meanwhile = changed (back_b ∷ []) ∷ forgotten "10.0.0.9" ∷ picked 3 3 "10.0.0.8" [] ∷ []

pick_again_example :
    pick 500 501 "10.0.0.1" (1 ∷ []) (happen_all meanwhile (pick 0 1 "10.0.0.1" [] proxy).1) ≡ (
      some (record { addr = 2; id = String.[] }),
      happen_all meanwhile (pick 0 1 "10.0.0.1" [] proxy).1,
    )
unfolding sticky_hit happen_all
pick_again_example =
    pick_again 0 1 500 501 "10.0.0.1" [] (1 ∷ []) proxy back_b meanwhile refl lands_on
      (tt, (refl, (refl, tt))) (omega arith) refl refl
