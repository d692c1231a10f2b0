-- ===== src/Pool/Published.antt =====
-- The publication of the healthy pods to the proxy, `publish_backends` of src/bin/malkuth/pool.rs.
use malkuth.Prelude.{
  Bool-cases, Option-cases, ℕ_key, string_key, ◌==◌, any, Dict, get, insert, ℕ, String, ◌≡◌, refl,
  ap, subst, ◌∙◌, ◌⊎◌, inl, inr, Bool, true, false, ◌||◌, none, some, List, [], ◌∷◌, arith,
}
use malkuth.Proxy.{SocketAddr, ProxyState, from_backends, set_backends}
use malkuth.Pool.{
  Phase, inserted, removed, PodEvent, Pool, Action, stay, go, enlist, delist, publish, move_to,
  backends_from, publish_backends, perform, new, supervise, interleave,
}
use malkuth.Pool.Healthy.{pending, fits, go_parts, supervise-action}

abbrev pub pending_pod : ℕ × (ℕ × Phase) → Bool
pending_pod x = pending x.1.1

-- Some task is about to publish.
abbrev pub unsettled : Pool → Bool
unsettled s = any pending_pod s.pods

any-insert-pending :
    (id port : ℕ) (q : Phase) (pods : Dict ℕ (ℕ × Phase))
    → pending q ≡ true
    → any pending_pod (insert id (port, q) pods) ≡ true
unfolding insert
any-insert-pending id port q [] e = rw e refl
any-insert-pending id port q ((i, w) ∷ pods) e = ground (arith, any-insert-pending id port q pods e)

any-insert_quiet :
    (id port : ℕ) (p q : Phase) (pods : Dict ℕ (ℕ × Phase))
    → get id pods ≡ some (port, p)
    → pending p ≡ false
    → pending q ≡ false
    → any pending_pod (insert id (port, q) pods) ≡ any pending_pod pods
unfolding insert get
any-insert_quiet id port p q [] g e f = absurd (cc g)
any-insert_quiet id port p q ((i, w) ∷ pods) g e f = elim (Bool-cases (i == id)) [
  | inl u ↦
      let g' : some w ≡ some (port, p) = rw (u, get) at g in
      let same : w ≡ (port, p) = cc g' in rw (u, insert) (rw same (rw e (rw f refl)))
  | inr u ↦
      let ih = any-insert_quiet id port p q pods (rw (u, get) at g) e f in
      rw (u, insert) (ap (λ b. pending w.1 || b) ih)
]

module _ (addr_of : ℕ → SocketAddr) (pod_name : ℕ → String) where
  -- The proxy routes to exactly the healthy pods.
  abbrev pub Synced : Pool → Type 0
  Synced s = s.proxy.ring ≡ from_backends (backends_from addr_of pod_name s.meta)

  abbrev Follows : Pool → Type 0
  Follows s = (unsettled s ≡ true) ⊎ Synced s

  perform-Follows :
      (id port : ℕ) (p : Phase) (a : Action) (s : Pool)
      → get id s.pods ≡ some (port, p)
      → fits p a ≡ true
      → Follows s
      → Follows (perform addr_of pod_name id port a s)
  unfolding perform move_to publish_backends set_backends
  perform-Follows id port p stay s g f h = h
  perform-Follows id port p (go q) s g f (inl u) =
      let (e, e') = (go_parts p q f).0 in inl (any-insert_quiet id port p q s.pods g e e' ∙ u)
  perform-Follows id port p (go q) s g f (inr h) = inr h
  perform-Follows id port p enlist s g f h = inl (any-insert-pending id port inserted s.pods refl)
  perform-Follows id port p delist s g f h = inl (any-insert-pending id port removed s.pods refl)
  perform-Follows id port p (publish q) s g f h = inr refl

  interleave-Follows :
      (es : List (ℕ × PodEvent)) (s s' : Pool)
      → Follows s
      → interleave addr_of pod_name es s ≡ some s'
      → Follows s'
  unfolding interleave
  interleave-Follows [] s s' h r = let same : s ≡ s' = cc r in subst Follows same h
  interleave-Follows ((id, e) ∷ es) s s' h r =
      elim (Option-cases (supervise addr_of pod_name id e s)) [
        | inl u ↦ let r' : none ≡ some s' = rw (u, interleave) at r in absurd (cc r')
        | inr (s1, u) ↦
            let (port, p, a, g, f, same) = supervise-action addr_of pod_name id e s s1 u in
            let h' = subst Follows same (perform-Follows id port p a s g f h) in
            interleave-Follows es s1 s' h' (rw (u, interleave) at r)
      ]

  -- However the tasks of the pods interleave: as soon as no task is between a change of the map and
  -- its publication, the ring of the proxy is built from the healthy pods, whatever publications
  -- overtook each other before. The proxy starts with an empty ring.
  pub interleave-Synced :
      (ports : List (ℕ × ℕ)) (proxy : ProxyState) (es : List (ℕ × PodEvent)) (s : Pool)
      → proxy.ring ≡ from_backends []
      → interleave addr_of pod_name es (new addr_of pod_name ports proxy) ≡ some s
      → unsettled s ≡ false
      → Synced s
  unfolding new backends_from
  interleave-Synced ports proxy es s e r quiet =
      elim (interleave-Follows es (new addr_of pod_name ports proxy) s (inr e) r) [
        | inl u ↦ absurd (cc (quiet, u))
        | inr h ↦ h
      ]
