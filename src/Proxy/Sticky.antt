-- ===== src/Proxy/Sticky.antt =====
-- The sticky cache of src/bin/malkuth/proxy.rs, while the ring and other clients change.
use malkuth.Prelude.{
  lt→ltb, Option-cases, ℕ_key, string_key, ◌==◌, All, get, get-insert, get-remove, get-insert_self,
  ℕ, ◌+◌, ◌<◌, String, ◌≡◌, refl, ◌∙◌, inl, inr, true, false, none, some, List, [], ◌∷◌,
}
use malkuth.Proxy.{
  SocketAddr, Backend, contains, ProxyState, set_backends, sticky_hit, route_excluding, pick,
  invalidate,
}
use malkuth.Proxy.Upstream.{known}

-- What happens to the proxy between two connections of one client.
pub data Event : Type 0 where
  picked : ℕ → ℕ → String → List SocketAddr → Event
  forgotten : String → Event
  changed : List Backend → Event

unfoldable pub happen : Event → ProxyState → ProxyState
unfolding pick invalidate set_backends
happen (picked now later ip dead) s = (pick now later ip dead s).1
happen (forgotten ip) s = invalidate ip s
happen (changed bs) s = set_backends bs s

unfoldable pub happen_all : List Event → ProxyState → ProxyState
unfolding happen
happen_all [] s = s
happen_all (e ∷ es) s = happen_all es (happen e s)

-- The event is no pick for, and no forgetting of, the client.
abbrev pub Spares : String → Event → Type 0
Spares ip (picked now later jp dead) = (jp == ip) ≡ false
Spares ip (forgotten jp) = (jp == ip) ≡ false
Spares ip (changed bs) = Unit

get-pick :
    (now later : ℕ) (jp ip : String) (dead : List SocketAddr) (s : ProxyState)
    → (jp == ip) ≡ false
    → get ip (pick now later jp dead s).1.sticky ≡ get ip s.sticky
unfolding pick
get-pick now later jp ip dead s h = elim (Option-cases (sticky_hit now jp dead s)) [
  | inr (a, e) ↦ rw (e, pick) refl
  | inl e ↦ elim (Option-cases (route_excluding s.ring jp dead)) [
    | inl u ↦ rw (e, pick) (rw u refl)
    | inr (b, u) ↦
        rw (e, pick) (rw u (get-insert jp ip (b.addr, later + s.ttl) s.sticky ∙ rw h refl))
  ]
]

get-happen :
    (e : Event) (ip : String) (s : ProxyState)
    → Spares ip e
    → get ip (happen e s).sticky ≡ get ip s.sticky
unfolding happen invalidate set_backends
get-happen (picked now later jp dead) ip s h = get-pick now later jp ip dead s h
get-happen (forgotten jp) ip s h = get-remove jp ip s.sticky ∙ rw h refl
get-happen (changed bs) ip s h = refl

get-happen_all :
    (es : List Event) (ip : String) (s : ProxyState)
    → All (Spares ip) es
    → get ip (happen_all es s).sticky ≡ get ip s.sticky
unfolding happen_all
get-happen_all [] ip s h = refl
get-happen_all (e ∷ es) ip s h = get-happen_all es ip (happen e s) h.1 ∙ get-happen e ip s h.0

entry_hit :
    (now : ℕ) (ip : String) (dead : List SocketAddr) (s : ProxyState) (a : SocketAddr) (exp : ℕ)
    → get ip s.sticky ≡ some (a, exp)
    → now < exp
    → contains dead a ≡ false
    → known s.ring.backends a ≡ true
    → sticky_hit now ip dead s ≡ some a
unfolding sticky_hit
entry_hit now ip dead s a exp e l d k =
    rw (e, sticky_hit) (rw (lt→ltb now exp l) (rw d (rw k refl)))

routed_entry :
    (now later : ℕ) (ip : String) (dead : List SocketAddr) (s : ProxyState) (b : Backend)
    → sticky_hit now ip dead s ≡ none
    → route_excluding s.ring ip dead ≡ some b
    → get ip (pick now later ip dead s).1.sticky ≡ some (b.addr, later + s.ttl)
unfolding pick
routed_entry now later ip dead s b e u =
    rw (e, pick) (rw u (get-insert_self ip (b.addr, later + s.ttl) s.sticky))

-- A client that was routed to a backend is sent there again as long as the time to live runs, whatever
-- happened to the ring and to other clients meanwhile, if the ring still has the backend and it is
-- not dead.
pub pick_again :
    (now later now' later' : ℕ) (ip : String) (dead dead' : List SocketAddr) (s : ProxyState)
    (b : Backend) (es : List Event)
    → sticky_hit now ip dead s ≡ none
    → route_excluding s.ring ip dead ≡ some b
    → All (Spares ip) es
    → now' < later + s.ttl
    → contains dead' b.addr ≡ false
    → known (happen_all es (pick now later ip dead s).1).ring.backends b.addr ≡ true
    → pick now' later' ip dead' (happen_all es (pick now later ip dead s).1) ≡ (
      some (record { addr = b.addr; id = String.[] }),
      happen_all es (pick now later ip dead s).1,
    )
unfolding pick
pick_again now later now' later' ip dead dead' s b es miss route spare l d k =
    let entry =
      get-happen_all es ip (pick now later ip dead s).1 spare
      ∙ routed_entry now later ip dead s b miss route in
    let hit =
      entry_hit now' ip dead' (happen_all es (pick now later ip dead s).1) b.addr (later + s.ttl)
        entry l d k in
    rw (hit, pick) refl
