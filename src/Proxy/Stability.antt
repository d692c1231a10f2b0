-- ===== src/Proxy/Stability.antt =====
-- What a change of the backends, or of the excluded ones, does to `route_excluding`.
use malkuth.Prelude.{
  ltb, eqb, eqb_iff, Bool-cases, ℕ_key, string_key, retain, ℕ, zero, suc, String, ◌≡◌, refl, sym,
  ap, ◌∙◌, ◌≢◌, inl, inr, Bool, true, false, not, some, List, [], ◌∷◌, ◌++◌, arith,
}
use malkuth.Proxy.{
  SocketAddr, Backend, vnodes, vnode_points, sort_by_hash, from_backends, hash64, as_bytes, decimal,
  allowed, or_else, route_excluding,
}
use malkuth.Proxy.Rotation.{first_allowed}
use malkuth.Proxy.Sorting.{clockwise, sort_by_hash-retain}
use malkuth.Proxy.Routing.{owned, route_excluding-clockwise}

abbrev pub not_at : SocketAddr → Backend → Bool
not_at a b = not (eqb b.addr a)

abbrev point_not_at : SocketAddr → ℕ × Backend → Bool
point_not_at a q = not_at a q.1

retain-append {ℓ} :
    {A : Type ℓ} (p : A → Bool) (xs ys : List A) → retain p (xs ++ ys) ≡ retain p xs ++ retain p ys
retain-append p [] ys = refl
retain-append p (x ∷ xs) ys = elim (Bool-cases (p x)) [
  | inl e ↦ rw e (ap (λ l. x ∷ l) (retain-append p xs ys))
  | inr e ↦ rw e (retain-append p xs ys)
]

retain-retain {ℓ} :
    {A : Type ℓ} (p q : A → Bool) (xs : List A) → retain p (retain q xs) ≡ retain q (retain p xs)
retain-retain p q [] = refl
retain-retain p q (x ∷ xs) =
    let ih = retain-retain p q xs in
    elim (Bool-cases (p x)) [
      | inl e ↦ elim (Bool-cases (q x)) [
        | inl u ↦ rw e (rw u (rw e (ap (λ l. x ∷ l) ih)))
        | inr u ↦ rw e (rw u ih)
      ]
      | inr e ↦ elim (Bool-cases (q x)) [ inl u ↦ rw e (rw u (rw e ih)) | inr u ↦ rw e (rw u ih) ]
    ]

clockwise-retain :
    (p : ℕ × Backend → Bool) (h : ℕ) (l : List (ℕ × Backend))
    → clockwise h (retain p l) ≡ retain p (clockwise h l)
clockwise-retain p h l =
    (λ i. retain-retain (λ q. not (ltb q.0 h)) p l i ++ retain-retain (λ q. ltb q.0 h) p l i)
    ∙ sym (retain-append p (retain (λ q. not (ltb q.0 h)) l) (retain (λ q. ltb q.0 h) l))

retain-vnode_points_keep :
    (a : SocketAddr) (b : Backend) (vn n : ℕ)
    → not_at a b ≡ true
    → retain (point_not_at a) (vnode_points b b vn n) ≡ vnode_points b b vn n
unfolding vnode_points
retain-vnode_points_keep a b vn zero e = refl
retain-vnode_points_keep a b vn (suc n) e =
    let ih = retain-vnode_points_keep a b (suc vn) n e in
    rw e (λ i. (hash64 (as_bytes b.id ++ b'/' ∷ decimal vn), b) ∷ ih i)

retain-vnode_points_drop :
    (a : SocketAddr) (b : Backend) (vn n : ℕ)
    → not_at a b ≡ false
    → retain (point_not_at a) (vnode_points b b vn n) ≡ []
unfolding vnode_points
retain-vnode_points_drop a b vn zero e = refl
retain-vnode_points_drop a b vn (suc n) e = rw e (retain-vnode_points_drop a b (suc vn) n e)

owned-retain :
    (a : SocketAddr) (bs : List Backend)
    → owned (retain (not_at a) bs) ≡ retain (point_not_at a) (owned bs)
unfolding owned
owned-retain a [] = refl
owned-retain a (b ∷ bs) =
    let ih = owned-retain a bs in
    let split = retain-append (point_not_at a) (vnode_points b b 0 vnodes) (owned bs) in
    elim (Bool-cases (not_at a b)) [
      | inl e ↦
          rw (e, owned)
            ((λ i. vnode_points b b 0 vnodes ++ ih i)
              ∙ ap (λ l. l ++ retain (point_not_at a) (owned bs))
                  (sym (retain-vnode_points_keep a b 0 vnodes e))
              ∙ sym split)
      | inr e ↦ rw e (
          ih
          ∙ ap (λ l. l ++ retain (point_not_at a) (owned bs))
              (sym (retain-vnode_points_drop a b 0 vnodes e))
          ∙ sym split)
    ]

-- To exclude one more address is to search among the points of the others.
first_allowed-exclude :
    (a : SocketAddr) (exclude : List SocketAddr) (l : List (ℕ × Backend))
    → first_allowed some (a ∷ exclude) l ≡ first_allowed some exclude (retain (point_not_at a) l)
unfolding first_allowed allowed or_else
first_allowed-exclude a exclude [] = refl
first_allowed-exclude a exclude ((h, b) ∷ l) =
    ground (arith, first_allowed-exclude a exclude l, eqb_iff b.addr a)

-- Excluding a backend is the same as removing it from the ring: every key lands on the same backend
-- either way, whatever else is excluded.
pub route_excluding-from_backends :
    (bs : List Backend) (key : String) (a : SocketAddr) (exclude : List SocketAddr)
    → route_excluding (from_backends bs) key (a ∷ exclude)
      ≡ route_excluding (from_backends (retain (not_at a) bs)) key exclude
route_excluding-from_backends bs key a exclude =
    let h = hash64 (as_bytes key) in
    route_excluding-clockwise bs key (a ∷ exclude)
    ∙ first_allowed-exclude a exclude (clockwise h (sort_by_hash (owned bs)))
    ∙ ap (first_allowed some exclude) (
        sym (clockwise-retain (point_not_at a) h (sort_by_hash (owned bs)))
        ∙ ap (clockwise h) (
            sort_by_hash-retain (point_not_at a) (owned bs)
            ∙ ap sort_by_hash (sym (owned-retain a bs))))
    ∙ sym (route_excluding-clockwise (retain (not_at a) bs) key exclude)

first_allowed-keeps :
    (a : SocketAddr) (exclude : List SocketAddr) (l : List (ℕ × Backend)) (b : Backend)
    → first_allowed some exclude l ≡ some b
    → b.addr ≢ a
    → first_allowed some (a ∷ exclude) l ≡ some b
unfolding first_allowed allowed or_else
first_allowed-keeps a exclude [] b e h = absurd (cc e)
first_allowed-keeps a exclude ((_, c) ∷ l) b e h =
    ground (arith, first_allowed-keeps a exclude l b, eqb_iff c.addr a)

-- Minimal disruption: removing a backend moves only the keys that it owned. A key that landed on
-- another one still does.
pub removal_keeps_keys :
    (bs : List Backend) (key : String) (exclude : List SocketAddr) (a : SocketAddr) (b : Backend)
    → route_excluding (from_backends bs) key exclude ≡ some b
    → b.addr ≢ a
    → route_excluding (from_backends (retain (not_at a) bs)) key exclude ≡ some b
removal_keeps_keys bs key exclude a b e h =
    let l = clockwise (hash64 (as_bytes key)) (sort_by_hash (owned bs)) in
    sym (route_excluding-from_backends bs key a exclude)
    ∙ route_excluding-clockwise bs key (a ∷ exclude)
    ∙ first_allowed-keeps a exclude l b (sym (route_excluding-clockwise bs key exclude) ∙ e) h
