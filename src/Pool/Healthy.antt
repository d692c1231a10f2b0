-- ===== src/Pool/Healthy.antt =====
-- The map of healthy pods in src/bin/malkuth/pool.rs, next to where the supervision tasks stand.
use malkuth.Prelude.{
  eqb, if◌then◌else◌, Bool-cases, Option-cases, ℕ_key, string_key, ◌==◌, eq_iff, Dict, get, insert,
  get-insert, get-remove, ℕ, String, ◌≡◌, refl, sym, ap, subst, ◌∙◌, inl, inr, Bool, true, false,
  not, ◌&&◌, Option, none, some, List, [], ◌∷◌, arith,
}
use malkuth.Proxy.{SocketAddr, ProxyState}
use malkuth.Pool.{
  Phase, spawning, probing, late, inserted, running, running_unlisted, draining, draining_unlisted,
  removed, resting, PodEvent, spawned, answered, exited, drained, published, rested, Pool, Action,
  stay, go, enlist, delist, publish, action, move_to, publish_backends, perform, new, supervise,
  interleave,
}

-- The phases in which a pod is in the map.
abbrev pub listed : Phase → Bool
listed inserted = true
listed running = true
listed draining = true
listed _ = false

-- The phases in which the task is about to publish.
abbrev pub pending : Phase → Bool
pending inserted = true
pending removed = true
pending _ = false

abbrev pub same_listed : Phase → Phase → Bool
same_listed p q = eqb (if listed p then 1 else 0) (if listed q then 1 else 0)

-- What an action may be at a phase.
abbrev pub fits : Phase → Action → Bool
fits p stay = true
fits p (go q) = not (pending p) && (not (pending q) && same_listed p q)
fits p enlist = not (pending p)
fits p delist = not (pending p)
fits p (publish q) = pending p && (not (pending q) && same_listed p q)

abbrev fits_all : Phase → Option Action → Bool
fits_all p none = true
fits_all p (some a) = fits p a

fits-action : (port : ℕ) (p : Phase) (e : PodEvent) → fits_all p (action port p e) ≡ true
unfolding action
fits-action port spawning spawned = elim (Bool-cases (eqb port 0)) [
  | inl u ↦ rw u refl
  | inr u ↦ rw u refl
]
fits-action port spawning _ = refl
fits-action port probing answered = refl
fits-action port probing _ = refl
fits-action port late answered = refl
fits-action port late _ = refl
fits-action port inserted published = refl
fits-action port inserted _ = refl
fits-action port running exited = refl
fits-action port running _ = refl
fits-action port running_unlisted exited = refl
fits-action port running_unlisted _ = refl
fits-action port draining drained = refl
fits-action port draining _ = refl
fits-action port draining_unlisted drained = refl
fits-action port draining_unlisted _ = refl
fits-action port removed published = refl
fits-action port removed _ = refl
fits-action port resting rested = refl
fits-action port resting _ = refl

-- What the map holds for a pod, by where its task stands.
abbrev pub shown : Option (ℕ × Phase) → Option ℕ
shown none = none
shown (some (port, p)) = if listed p then some port else none

abbrev pub Registered : Pool → Type 0
Registered s = (id : ℕ) → get id s.meta ≡ shown (get id s.pods)

same_bits : (b c : Bool) → eqb (if b then 1 else 0) (if c then 1 else 0) ≡ true → b ≡ c
same_bits true true e = refl
same_bits true false e = absurd (cc e)
same_bits false true e = absurd (cc e)
same_bits false false e = refl

pub and_parts : (b c : Bool) → (b && c) ≡ true → (b ≡ true) × (c ≡ true)
and_parts true c e = (refl, e)
and_parts false c e = absurd (cc e)

pub go_parts :
    (p q : Phase)
    → fits p (go q) ≡ true
    → ((pending p ≡ false) × (pending q ≡ false)) × (same_listed p q ≡ true)
go_parts p q f =
    let (a, f') = and_parts (not (pending p)) (not (pending q) && same_listed p q) f in
    let (b, c) = and_parts (not (pending q)) (same_listed p q) f' in
    ((ground (arith, a), ground (arith, b)), c)

publish_parts :
    (p q : Phase) → fits p (publish q) ≡ true → (pending q ≡ false) × (same_listed p q ≡ true)
publish_parts p q f =
    let (a, f') = and_parts (pending p) (not (pending q) && same_listed p q) f in
    let (b, c) = and_parts (not (pending q)) (same_listed p q) f' in (ground (arith, b), c)

shown-insert :
    (id port j : ℕ) (p q : Phase) (pods : Dict ℕ (ℕ × Phase))
    → get id pods ≡ some (port, p)
    → listed p ≡ listed q
    → shown (get j pods) ≡ shown (get j (insert id (port, q) pods))
shown-insert id port j p q pods g e = elim (Bool-cases (id == j)) [
  | inr u ↦ rw (get-insert id j (port, q) pods) (rw u refl)
  | inl u ↦
      let same : id ≡ j = (eq_iff id j).0 u in
      let g' : get j pods ≡ some (port, p) = ap (λ k. get k pods) (sym same) ∙ g in
      rw (get-insert id j (port, q) pods) (rw u (rw g' (rw e refl)))
]

module _ (addr_of : ℕ → SocketAddr) (pod_name : ℕ → String) where
  perform-Registered :
      (id port : ℕ) (p : Phase) (a : Action) (s : Pool)
      → get id s.pods ≡ some (port, p)
      → fits p a ≡ true
      → Registered s
      → Registered (perform addr_of pod_name id port a s)
  unfolding perform move_to publish_backends
  perform-Registered id port p stay s g f h j = h j
  perform-Registered id port p (go q) s g f h j =
      let f' = (go_parts p q f).1 in
      h j ∙ shown-insert id port j p q s.pods g (same_bits (listed p) (listed q) f')
  perform-Registered id port p enlist s g f h j = rw (get-insert id j port s.meta) (
      rw (get-insert id j (port, inserted) s.pods)
        (elim (Bool-cases (id == j)) [ inl u ↦ rw u refl | inr u ↦ rw u (h j) ]))
  perform-Registered id port p delist s g f h j = rw (get-remove id j s.meta) (
      rw (get-insert id j (port, removed) s.pods)
        (elim (Bool-cases (id == j)) [ inl u ↦ rw u refl | inr u ↦ rw u (h j) ]))
  perform-Registered id port p (publish q) s g f h j =
      let f' = (publish_parts p q f).1 in
      h j ∙ shown-insert id port j p q s.pods g (same_bits (listed p) (listed q) f')

  -- A step of a task is one action, which fits the phase.
  pub supervise-action :
      (id : ℕ) (e : PodEvent) (s s' : Pool)
      → supervise addr_of pod_name id e s ≡ some s'
      → (port : ℕ) × (p : Phase) × (a : Action) × (get id s.pods ≡ some (port, p))
        × (fits p a ≡ true)
        × (perform addr_of pod_name id port a s ≡ s')
  unfolding supervise
  supervise-action id e s s' r = elim (Option-cases (get id s.pods)) [
    | inl u ↦ let r' : none ≡ some s' = rw (u, supervise) at r in absurd (cc r')
    | inr ((port, p), u) ↦ elim (Option-cases (action port p e)) [
      | inl v ↦ let r' : none ≡ some s' = rw v at (rw (u, supervise) at r) in absurd (cc r')
      | inr (a, v) ↦
          let r' : some (perform addr_of pod_name id port a s) ≡ some s' =
            rw v at (rw (u, supervise) at r) in
          let f : fits p a ≡ true = rw v at (fits-action port p e) in (port, p, a, u, f, cc r')
    ]
  ]

  interleave-Registered :
      (es : List (ℕ × PodEvent)) (s s' : Pool)
      → Registered s
      → interleave addr_of pod_name es s ≡ some s'
      → Registered s'
  unfolding interleave
  interleave-Registered [] s s' h r = let same : s ≡ s' = cc r in subst Registered same h
  interleave-Registered ((id, e) ∷ es) s s' h r =
      elim (Option-cases (supervise addr_of pod_name id e s)) [
        | inl u ↦ let r' : none ≡ some s' = rw (u, interleave) at r in absurd (cc r')
        | inr (s1, u) ↦
            let (port, p, a, g, f, same) = supervise-action id e s s1 u in
            let h' = subst Registered same (perform-Registered id port p a s g f h) in
            interleave-Registered es s1 s' h' (rw (u, interleave) at r)
      ]

  new-Registered :
      (ports : List (ℕ × ℕ)) (proxy : ProxyState) → Registered (new addr_of pod_name ports proxy)
  unfolding new get
  new-Registered [] proxy id = refl
  new-Registered ((i, port) ∷ ports) proxy id = elim (Bool-cases (i == id)) [
    | inl u ↦ rw u refl
    | inr u ↦ rw u (new-Registered ports proxy id)
  ]

  -- However the tasks of the pods interleave, from the start of the pool on: the map of healthy pods
  -- holds a pod, with its port, exactly while its task is between a probe that was answered and the
  -- end of the pod.
  pub interleave-listed :
      (ports : List (ℕ × ℕ)) (proxy : ProxyState) (es : List (ℕ × PodEvent)) (s : Pool) (id : ℕ)
      → interleave addr_of pod_name es (new addr_of pod_name ports proxy) ≡ some s
      → get id s.meta ≡ shown (get id s.pods)
  interleave-listed ports proxy es s id r =
      interleave-Registered es (new addr_of pod_name ports proxy) s (new-Registered ports proxy) r
        id
