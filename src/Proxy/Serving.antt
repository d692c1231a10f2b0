-- ===== src/Proxy/Serving.antt =====
-- Which backends `route_excluding` of src/bin/malkuth/proxy.rs can reach.
use malkuth.Prelude.{
  ltb, leb, Bool-cases, ℕ_key, string_key, retain, All, All-append, All-retain, ℕ, zero, suc,
  String, ◌≡◌, refl, sym, subst, ◌∙◌, ◌↔◌, inl, inr, Bool, true, not, none, some, List, [], ◌∷◌,
  ◌++◌, arith,
}
use malkuth.Proxy.{
  SocketAddr, Backend, vnodes, vnode_points, sort_by_hash, insert_point, from_backends, hash64,
  as_bytes, allowed, or_else, route_excluding, contains,
}
use malkuth.Proxy.Rotation.{first_allowed}
use malkuth.Proxy.Sorting.{clockwise, All-sort_by_hash}
use malkuth.Proxy.Routing.{owned, route_excluding-clockwise}

-- A backend is available unless it is excluded.
abbrev pub available : List SocketAddr → Backend → Bool
available exclude b = not (contains exclude b.addr)

All-clockwise {κ} :
    (P : ℕ × Backend → Type κ) (h : ℕ) (l : List (ℕ × Backend)) → All P l → All P (clockwise h l)
All-clockwise P h l a =
    All-append P _ _ (All-retain P (λ q. not (ltb q.0 h)) l a) (All-retain P (λ q. ltb q.0 h) l a)

All-vnode_points {κ} :
    (P : Backend → Type κ) (b : Backend) (vn n : ℕ)
    → P b
    → All (λ (q : ℕ × Backend). P q.1) (vnode_points b b vn n)
unfolding vnode_points
All-vnode_points P b vn zero p = tt
All-vnode_points P b vn (suc n) p = (p, All-vnode_points P b (suc vn) n p)

All-owned {κ} :
    (P : Backend → Type κ) (bs : List Backend)
    → All P bs
    → All (λ (q : ℕ × Backend). P q.1) (owned bs)
unfolding owned
All-owned P [] a = tt
All-owned P (b ∷ bs) a =
    All-append _ (vnode_points b b 0 vnodes) (owned bs) (All-vnode_points P b 0 vnodes a.0)
      (All-owned P bs a.1)

first_allowed-All {κ} :
    (P : Backend → Type κ) (exclude : List SocketAddr) (l : List (ℕ × Backend)) (b : Backend)
    → All (λ q. P q.1) l
    → first_allowed some exclude l ≡ some b
    → P b × (available exclude b ≡ true)
unfolding first_allowed allowed or_else
first_allowed-All P exclude [] b a e = absurd (cc e)
first_allowed-All P exclude ((_, c) ∷ l) b a e = elim (Bool-cases (contains exclude c.addr)) [
  | inl u ↦ first_allowed-All P exclude l b a.1 (rw u at e)
  | inr u ↦
      let same : c ≡ b = ground (arith, e, u) in
      (subst P same a.0, subst (λ d. available exclude d ≡ true) same (rw u refl))
]

-- What is routed to is one of the backends, and not an excluded one.
pub route_excluding-All {κ} :
    (P : Backend → Type κ) (bs : List Backend) (key : String) (exclude : List SocketAddr)
    (b : Backend)
    → All P bs
    → route_excluding (from_backends bs) key exclude ≡ some b
    → P b × (available exclude b ≡ true)
route_excluding-All P bs key exclude b a e =
    let h = hash64 (as_bytes key) in
    first_allowed-All P exclude (clockwise h (sort_by_hash (owned bs))) b
      (All-clockwise _ h (sort_by_hash (owned bs))
        (All-sort_by_hash _ (owned bs) (All-owned P bs a)))
      (sym (route_excluding-clockwise bs key exclude) ∙ e)

first_allowed-none :
    (exclude : List SocketAddr) (l : List (ℕ × Backend))
    → All (λ q. contains exclude q.1.addr ≡ true) l
    → first_allowed some exclude l ≡ none
unfolding first_allowed allowed or_else
first_allowed-none exclude [] a = refl
first_allowed-none exclude ((_, b) ∷ l) a = rw a.0 (first_allowed-none exclude l a.1)

All-excluded :
    (exclude : List SocketAddr) (l : List (ℕ × Backend))
    → first_allowed some exclude l ≡ none
    → All (λ q. contains exclude q.1.addr ≡ true) l
unfolding first_allowed allowed or_else
All-excluded exclude [] e = tt
All-excluded exclude ((_, b) ∷ l) e = elim (Bool-cases (contains exclude b.addr)) [
  | inl u ↦ (u, All-excluded exclude l (rw u at e))
  | inr u ↦ absurd (ground (arith, e, u))
]

module _ {κ} (P : ℕ × Backend → Type κ) where
  All-append_left : (xs ys : List (ℕ × Backend)) → All P (xs ++ ys) → All P xs
  All-append_left [] ys a = tt
  All-append_left (x ∷ xs) ys a = (a.0, All-append_left xs ys a.1)

  All-append_right : (xs ys : List (ℕ × Backend)) → All P (xs ++ ys) → All P ys
  All-append_right [] ys a = a
  All-append_right (x ∷ xs) ys a = All-append_right xs ys a.1

  All-of_halves :
      (p : ℕ × Backend → Bool) (l : List (ℕ × Backend))
      → All P (retain (λ q. not (p q)) l)
      → All P (retain p l)
      → All P l
  All-of_halves p [] a b = tt
  All-of_halves p (q ∷ l) a b = elim (Bool-cases (p q)) [
    | inl e ↦
        let b' : All P (q ∷ retain p l) = rw e at b in (b'.0, All-of_halves p l (rw e at a) b'.1)
    | inr e ↦
        let a' : All P (q ∷ retain (λ q. not (p q)) l) = rw e at a in
        (a'.0, All-of_halves p l a'.1 (rw e at b))
  ]

  All-of_insert_point :
      (h : ℕ) (b : Backend) (l : List (ℕ × Backend))
      → All P (insert_point h b l)
      → P (h, b) × All P l
  unfolding insert_point
  All-of_insert_point h b [] a = a
  All-of_insert_point h b ((k, c) ∷ l) a = elim (Bool-cases (leb h k)) [
    | inl e ↦ rw e at a
    | inr e ↦
        let a' : P (k, c) × All P (insert_point h b l) = rw e at a in
        let (x, y) = All-of_insert_point h b l a'.1 in (x, (a'.0, y))
  ]

  All-of_sort_by_hash : (l : List (ℕ × Backend)) → All P (sort_by_hash l) → All P l
  unfolding sort_by_hash
  All-of_sort_by_hash [] a = tt
  All-of_sort_by_hash ((h, b) ∷ l) a =
      let (x, y) = All-of_insert_point h b (sort_by_hash l) a in (x, All-of_sort_by_hash l y)

  All-of_clockwise : (h : ℕ) (l : List (ℕ × Backend)) → All P (clockwise h l) → All P l
  All-of_clockwise h l a =
      All-of_halves (λ q. ltb q.0 h) l (All-append_left (retain (λ q. not (ltb q.0 h)) l) _ a)
        (All-append_right (retain (λ q. not (ltb q.0 h)) l) _ a)

vnode_points_first {κ} :
    (P : Backend → Type κ) (b : Backend) (vn n : ℕ)
    → All (λ (q : ℕ × Backend). P q.1) (vnode_points b b vn (suc n))
    → P b
unfolding vnode_points
vnode_points_first P b vn n a = a.0

All-of_owned {κ} :
    (P : Backend → Type κ) (bs : List Backend)
    → All (λ (q : ℕ × Backend). P q.1) (owned bs)
    → All P bs
unfolding owned
All-of_owned P [] a = tt
All-of_owned P (b ∷ bs) a = (
  vnode_points_first P b 0 159 (All-append_left _ (vnode_points b b 0 vnodes) (owned bs) a),
  All-of_owned P bs (All-append_right _ (vnode_points b b 0 vnodes) (owned bs) a),
)

-- A key has nowhere to go exactly if every backend is excluded.
pub route_excluding-none :
    (bs : List Backend) (key : String) (exclude : List SocketAddr)
    → (route_excluding (from_backends bs) key exclude ≡ none)
      ↔ All (λ (b : Backend). contains exclude b.addr ≡ true) bs
route_excluding-none bs key exclude =
    let h = hash64 (as_bytes key) in
    let Gone = λ (b : Backend). contains exclude b.addr ≡ true in
    let sorted = sort_by_hash (owned bs) in
    (
      (λ e. All-of_owned Gone bs (
          All-of_sort_by_hash _ (owned bs) (
            All-of_clockwise _ h sorted (
              All-excluded exclude (clockwise h sorted)
                (sym (route_excluding-clockwise bs key exclude) ∙ e))))),
      (λ a.
          route_excluding-clockwise bs key exclude
          ∙ first_allowed-none exclude (clockwise h sorted)
              (All-clockwise _ h sorted (All-sort_by_hash _ (owned bs) (All-owned Gone bs a)))),
    )
