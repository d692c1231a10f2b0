-- ===== src/Proxy/Upstream.antt =====
-- The loop of `handle_client` in src/bin/malkuth/proxy.rs.
use malkuth.Prelude.{
  eqb, eqb_iff, Bool-cases, Option-cases, ℕ_key, string_key, length, any, all, count_by, All, get,
  ℕ, zero, suc, ◌≤◌, ◌<◌, String, ◌≡◌, refl, sym, ap, subst, ◌∙◌, inl, inr, Bool, true, false, ◌||◌,
  Option, none, some, List, [], ◌∷◌, ◌++◌, arith,
}
use malkuth.Proxy.{
  SocketAddr, Backend, from_backends, route_excluding, contains, ProxyState, sticky_hit, pick,
  invalidate, after_pick, Served, forwarded, maintenance, hung_up, Moment, find_upstream,
  handle_client, client_looks_like_http,
}
use malkuth.Proxy.Serving.{available, route_excluding-All, route_excluding-none}

abbrev pub known : List Backend → SocketAddr → Bool
known bs a = any (λ (c : Backend). eqb c.addr a) bs

contains-append :
    (dead : List SocketAddr) (a x : SocketAddr)
    → contains (dead ++ a ∷ []) x ≡ (contains dead x || eqb x a)
contains-append [] a x = ground arith
contains-append (d ∷ dead) a x = ground (arith, contains-append dead a x)

All-implies {κ} :
    {A : Type 0} (P Q : A → Type κ) (xs : List A) → ((x : A) → P x → Q x) → All P xs → All Q xs
All-implies P Q [] f a = tt
All-implies P Q (x ∷ xs) f a = (f x a.0, All-implies P Q xs f a.1)

All-known : (bs : List Backend) → All (λ (b : Backend). known bs b.addr ≡ true) bs
All-known [] = tt
All-known (b ∷ bs) = (
  ground (arith, eqb_iff b.addr b.addr),
  All-implies (λ (c : Backend). known bs c.addr ≡ true)
      (λ (c : Backend). known (b ∷ bs) c.addr ≡ true) bs (λ c h. ground (arith, h)) (All-known bs),
)

fewer_available_le :
    (dead : List SocketAddr) (a : SocketAddr) (bs : List Backend)
    → count_by (available (dead ++ a ∷ [])) bs ≤ count_by (available dead) bs
fewer_available_le dead a [] = omega arith
fewer_available_le dead a (b ∷ bs) =
    ground (arith, fewer_available_le dead a bs, contains-append dead a b.addr)

fewer_available :
    (dead : List SocketAddr) (a : SocketAddr) (bs : List Backend)
    → contains dead a ≡ false
    → known bs a ≡ true
    → count_by (available (dead ++ a ∷ [])) bs < count_by (available dead) bs
fewer_available dead a [] h k = absurd (cc k)
fewer_available dead a (b ∷ bs) h k = elim (Bool-cases (eqb b.addr a)) [
  | inl e ↦
      let same : b.addr ≡ a = (eqb_iff b.addr a).0 e in
      let gone : contains dead b.addr ≡ false = ap (contains dead) same ∙ h in
      let le = fewer_available_le dead a bs in
      rw (contains-append dead a b.addr) (rw gone (rw e (omega (arith, le))))
  | inr e ↦
      let ih = fewer_available dead a bs h (rw e at k) in
      rw (contains-append dead a b.addr) (rw e (ground (arith, ih)))
]

sticky_hit_lem :
    (now : ℕ) (ip : String) (dead : List SocketAddr) (s : ProxyState) (a : SocketAddr)
    → sticky_hit now ip dead s ≡ some a
    → (contains dead a ≡ false) × (known s.ring.backends a ≡ true)
unfolding sticky_hit
sticky_hit_lem now ip dead s a e = elim (Option-cases (get ip s.sticky)) [
  | inl u ↦ absurd (ground (arith, e, u))
  | inr ((addr, exp), u) ↦ ground (arith, e, u)
]

-- What `pick` answers on a ring of `bs`: a backend of the ring that is not dead, or nothing if all are.
pub data Picked (bs : List Backend) (dead : List SocketAddr)
    : Option Backend × ProxyState → Type 0 where
  nothing :
      (s : ProxyState)
      → s.ring ≡ from_backends bs
      → All (λ (b : Backend). contains dead b.addr ≡ true) bs
      → Picked bs dead (none, s)
  found :
      (b : Backend) (s : ProxyState)
      → s.ring ≡ from_backends bs
      → contains dead b.addr ≡ false
      → known bs b.addr ≡ true
      → Picked bs dead (some b, s)

pub pick-Picked :
    (bs : List Backend) (now later : ℕ) (ip : String) (dead : List SocketAddr) (s : ProxyState)
    → s.ring ≡ from_backends bs
    → Picked bs dead (pick now later ip dead s)
unfolding pick from_backends
pick-Picked bs now later ip dead s r = elim (Option-cases (sticky_hit now ip dead s)) [
  | inr (a, e) ↦
      let (h, k) = sticky_hit_lem now ip dead s a e in
      rw (e, pick) (found (record { addr = a; id = String.[] }) s r h (rw r at k))
  | inl e ↦ elim (Option-cases (route_excluding s.ring ip dead)) [
    | inl u ↦
        let u' : route_excluding (from_backends bs) ip dead ≡ none =
          ap (λ g. route_excluding g ip dead) (sym r) ∙ u in
        rw (e, pick) (rw u (nothing s r ((route_excluding-none bs ip dead).0 u')))
    | inr (b, u) ↦
        let u' : route_excluding (from_backends bs) ip dead ≡ some b =
          ap (λ g. route_excluding g ip dead) (sym r) ∙ u in
        let (k, h) =
          route_excluding-All (λ (c : Backend). known bs c.addr ≡ true) bs ip dead b (All-known bs)
            u' in
        rw (e, pick) (rw u (found b _ r (ground (arith, h)) k))
  ]
]

module _ (moment : ℕ → Moment) (head : Option (List ℕ)) (ip : String) (bs : List Backend) where
  -- A backend refused a connection at some turn.
  abbrev pub Refused : SocketAddr → Type 0
  Refused a = (t : ℕ) × ((moment t).accepts a ≡ false)

  abbrev pub Accepted : SocketAddr → Type 0
  Accepted a = (t : ℕ) × ((moment t).accepts a ≡ true)

  -- What the search may answer.
  abbrev pub Right : Served → Type 0
  Right (forwarded a) = (known bs a ≡ true) × Accepted a
  Right maintenance =
      (client_looks_like_http head ≡ true) × All (λ (b : Backend). Refused b.addr) bs
  Right hung_up = (client_looks_like_http head ≡ false) × All (λ (b : Backend). Refused b.addr) bs

  abbrev Ends : Option (Served × ProxyState) → Type 0
  Ends r = (o : Served) × (s : ProxyState) × (r ≡ some (o, s)) × Right o

  no_backend :
      (dead : List SocketAddr) (accepts : SocketAddr → Bool)
      (retry : SocketAddr → ProxyState → Option (Served × ProxyState)) (s : ProxyState)
      → ((a : SocketAddr) → contains dead a ≡ true → Refused a)
      → All (λ (b : Backend). contains dead b.addr ≡ true) bs
      → Ends (after_pick (none, s) accepts (client_looks_like_http head) retry)
  unfolding after_pick
  no_backend dead accepts retry s ref all =
      let refused =
        All-implies (λ (b : Backend). contains dead b.addr ≡ true) (λ (b : Backend). Refused b.addr)
          bs (λ b h. ref b.addr h) all in
      elim (Bool-cases (client_looks_like_http head)) [
        | inl e ↦ rw e (maintenance, s, refl, (e, refused))
        | inr e ↦ rw e (hung_up, s, refl, (e, refused))
      ]

  try_backend :
      (b : Backend) (t : ℕ) (s : ProxyState)
      (retry : SocketAddr → ProxyState → Option (Served × ProxyState))
      → known bs b.addr ≡ true
      → ((moment t).accepts b.addr ≡ false → Ends (retry b.addr s))
      → Ends (after_pick (some b, s) (moment t).accepts (client_looks_like_http head) retry)
  unfolding after_pick
  try_backend b t s retry k next = elim (Bool-cases ((moment t).accepts b.addr)) [
    | inl e ↦ rw (e, after_pick) (forwarded b.addr, s, refl, (k, (t, e)))
    | inr e ↦ rw (e, after_pick) (next e)
  ]

  one_turn :
      (p : Option Backend × ProxyState) (dead : List SocketAddr)
      (retry : SocketAddr → ProxyState → Option (Served × ProxyState))
      → Picked bs dead p
      → ((a : SocketAddr) → contains dead a ≡ true → Refused a)
      → ((b : Backend) (s : ProxyState)
          → s.ring ≡ from_backends bs
          → contains dead b.addr ≡ false
          → known bs b.addr ≡ true
          → (moment (length dead)).accepts b.addr ≡ false
          → Ends (retry b.addr s))
      → Ends (after_pick p (moment (length dead)).accepts (client_looks_like_http head) retry)
  one_turn _ dead retry (nothing s r all) ref next =
      no_backend dead (moment (length dead)).accepts retry s ref all
  one_turn _ dead retry (found b s r h k) ref next =
      try_backend b (length dead) s retry k (λ e. next b s r h k e)

  Refused-append :
      (dead : List SocketAddr) (a : SocketAddr)
      → ((x : SocketAddr) → contains dead x ≡ true → Refused x)
      → Refused a
      → (x : SocketAddr) → contains (dead ++ a ∷ []) x ≡ true
      → Refused x
  Refused-append dead a ref r x h = elim (Bool-cases (contains dead x)) [
    | inl e ↦ ref x e
    | inr e ↦
        let same : eqb x a ≡ true = ground (arith, h, e, contains-append dead a x) in
        subst Refused (sym ((eqb_iff x a).0 same)) r
  ]

  find_upstream-Ends :
      (fuel : ℕ) (dead : List SocketAddr) (s : ProxyState)
      → s.ring ≡ from_backends bs
      → count_by (available dead) bs < fuel
      → ((a : SocketAddr) → contains dead a ≡ true → Refused a)
      → Ends (find_upstream fuel moment head ip dead s)
  unfolding find_upstream invalidate
  find_upstream-Ends zero dead s r enough ref = absurd (omega arith)
  find_upstream-Ends (suc fuel) dead s r enough ref =
      let m = moment (length dead) in
      one_turn (pick m.now m.later ip dead s) dead _ (pick-Picked bs m.now m.later ip dead s r) ref
        (λ b s' r' h k e.
          find_upstream-Ends fuel (dead ++ b.addr ∷ []) (invalidate ip s') r'
            (omega (arith, fewer_available dead b.addr bs h k))
            (Refused-append dead b.addr ref (length dead, e)))

count_by-le {ℓ} : {A : Type ℓ} (p : A → Bool) (l : List A) → count_by p l ≤ length l
count_by-le p [] = omega arith
count_by-le p (x ∷ l) = ground (arith, count_by-le p l)

-- handle_client ends, within one turn more than the ring has backends. It ends at a backend of the
-- ring that accepted the connection; or every backend of the ring refused one, and then the client
-- gets the maintenance page if its first bytes are an HTTP request, and is hung up on otherwise.
pub handle_client-Right :
    (moment : ℕ → Moment) (head : Option (List ℕ)) (ip : String) (bs : List Backend)
    (s : ProxyState)
    → s.ring ≡ from_backends bs
    → (o : Served) × (s' : ProxyState) × (handle_client moment head ip s ≡ some (o, s'))
      × Right moment head ip bs o
unfolding handle_client from_backends
handle_client-Right moment head ip bs s r =
    let n : length s.ring.backends ≡ length bs = ap (λ g. length g.backends) r in
    find_upstream-Ends moment head ip bs (suc (length s.ring.backends)) [] s r
      (omega (arith, count_by-le {0} (available []) bs, n)) (λ a h. absurd (cc h))

not-Refused :
    (moment : ℕ → Moment) (head : Option (List ℕ)) (ip : String) (bs cs : List Backend)
    (up : SocketAddr)
    → ((t : ℕ) → (moment t).accepts up ≡ true)
    → known cs up ≡ true
    → All (λ (b : Backend). Refused moment head ip bs b.addr) cs
    → ⊥
not-Refused moment head ip bs [] up live k ref = absurd (cc k)
not-Refused moment head ip bs (c ∷ cs) up live k ref = elim (Bool-cases (eqb c.addr up)) [
  | inl e ↦
      let (t, refusal) = subst (Refused moment head ip bs) ((eqb_iff c.addr up).0 e) ref.0 in
      absurd (cc (refusal, live t))
  | inr e ↦ not-Refused moment head ip bs cs up live (rw e at k) ref.1
]

-- A connection reaches some backend whenever one of the ring accepts at every turn.
pub handle_client_reaches :
    (moment : ℕ → Moment) (head : Option (List ℕ)) (ip : String) (bs : List Backend)
    (s : ProxyState) (up : SocketAddr)
    → s.ring ≡ from_backends bs
    → known bs up ≡ true
    → ((t : ℕ) → (moment t).accepts up ≡ true)
    → (a : SocketAddr) × (s' : ProxyState) × (handle_client moment head ip s
        ≡ some (forwarded a, s'))
      × (known bs a ≡ true)
      × Accepted moment head ip bs a
handle_client_reaches moment head ip bs s up r k live =
    let (o, s', e, right) = handle_client-Right moment head ip bs s r in
    elim o
        as (λ o.
          (handle_client moment head ip s ≡ some (o, s'))
          → Right moment head ip bs o
          → (a : SocketAddr) × (s' : ProxyState) × (handle_client moment head ip s
              ≡ some (forwarded a, s'))
            × (known bs a ≡ true)
            × Accepted moment head ip bs a) [
              | forwarded a ↦ λ e right. (a, s', e, right.0, right.1)
              | maintenance ↦ λ e right. absurd (not-Refused moment head ip bs bs up live k right.1)
              | hung_up ↦ λ e right. absurd (not-Refused moment head ip bs bs up live k right.1)
            ]
      e right
