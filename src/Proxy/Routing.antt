-- ===== src/Proxy/Routing.antt =====
-- `route_excluding` against its specification: walk clockwise from the key's hash through the points
-- of all backends, and take the first backend that is not excluded.
use malkuth.Prelude.{
  ltb, leb, if◌then◌else◌, Bool-cases, ℕ_key, string_key, length, get_elem?, take, drop,
  length-append, is_empty, ℕ, zero, suc, String, ◌≡◌, refl, sym, ap, ◌∙◌, inl, inr, true, Option,
  none, some, List, [], ◌∷◌, ◌++◌, append_assoc, arith,
}
use malkuth.Proxy.{
  SocketAddr, Backend, Ring, vnodes, vnode_points, all_points, sort_by_hash, insert_point,
  from_backends, hash64, as_bytes, decimal, allowed, or_else, route_excluding, partition_point,
}
use malkuth.Proxy.Rotation.{first_allowed, rotate, route_loop-rotate}
use malkuth.Proxy.Sorting.{clockwise, sort_by_hash-Sorted, partition_point-le, rotate-clockwise}

-- The points of the backends, each labelled with its backend.
unfoldable pub owned : List Backend → List (ℕ × Backend)
owned [] = []
owned (b ∷ bs) = vnode_points b b 0 vnodes ++ owned bs

abbrev relabel {ℓ κ} : {A : Type ℓ} {B : Type κ} → (A → B) → List (ℕ × A) → List (ℕ × B)
relabel f [] = []
relabel f ((h, a) ∷ l) = (h, f a) ∷ relabel f l

module _ {ℓ κ} {A : Type ℓ} {B : Type κ} (f : A → B) where
  relabel-append : (xs ys : List (ℕ × A)) → relabel f (xs ++ ys) ≡ relabel f xs ++ relabel f ys
  relabel-append [] ys = refl
  relabel-append ((h, a) ∷ xs) ys = ap (λ l. (h, f a) ∷ l) (relabel-append xs ys)

  relabel-insert_point :
      (h : ℕ) (a : A) (l : List (ℕ × A))
      → relabel f (insert_point h a l) ≡ insert_point h (f a) (relabel f l)
  unfolding insert_point
  relabel-insert_point h a [] = refl
  relabel-insert_point h a ((k, b) ∷ l) = elim (Bool-cases (leb h k)) [
    | inl e ↦ rw e refl
    | inr e ↦ rw e (ap (λ r. (k, f b) ∷ r) (relabel-insert_point h a l))
  ]

  relabel-sort_by_hash :
      (l : List (ℕ × A)) → relabel f (sort_by_hash l) ≡ sort_by_hash (relabel f l)
  unfolding sort_by_hash
  relabel-sort_by_hash [] = refl
  relabel-sort_by_hash ((h, a) ∷ l) =
      relabel-insert_point h a (sort_by_hash l) ∙ ap (insert_point h (f a)) (relabel-sort_by_hash l)

  relabel-vnode_points :
      (b : Backend) (a : A) (vn n : ℕ)
      → relabel f (vnode_points b a vn n) ≡ vnode_points b (f a) vn n
  unfolding vnode_points
  relabel-vnode_points b a vn zero = refl
  relabel-vnode_points b a vn (suc n) =
      ap (λ l. (hash64 (as_bytes b.id ++ b'/' ∷ decimal vn), f a) ∷ l)
        (relabel-vnode_points b a (suc vn) n)

get_elem?-middle :
    (pre bs : List Backend) (b : Backend) → get_elem? (pre ++ b ∷ bs) (length pre) ≡ some b
get_elem?-middle [] bs b = refl
get_elem?-middle (p ∷ pre) bs b = get_elem?-middle pre bs b

relabel-all_points :
    (pre bs : List Backend)
    → relabel (get_elem? (pre ++ bs)) (all_points (length pre) bs) ≡ relabel some (owned bs)
unfolding all_points owned
relabel-all_points pre [] = refl
relabel-all_points pre (b ∷ bs) =
    let ih = relabel-all_points (pre ++ b ∷ []) bs in
    let same : (pre ++ b ∷ []) ++ bs ≡ pre ++ b ∷ bs = append_assoc pre (b ∷ []) bs in
    let next : length (pre ++ b ∷ []) ≡ suc (length pre) =
      omega (arith, length-append {0} pre (b ∷ [])) in
    let ih' : relabel (get_elem? (pre ++ b ∷ bs)) (all_points (suc (length pre)) bs)
        ≡ relabel some (owned bs) =
      rw (sym same) (rw (sym next) ih) in
    let f = get_elem? (pre ++ b ∷ bs) in
    relabel-append f (vnode_points b (length pre) 0 vnodes) (all_points (suc (length pre)) bs)
    ∙ (λ i. relabel-vnode_points f b (length pre) 0 vnodes i ++ ih' i)
    ∙ (λ i. vnode_points b (get_elem?-middle pre bs b i) 0 vnodes ++ relabel some (owned bs))
    ∙ sym (
        relabel-append some (vnode_points b b 0 vnodes) (owned bs)
        ∙ ap (λ l. l ++ relabel some (owned bs)) (relabel-vnode_points some b b 0 vnodes))

module _ {ℓ κ} {A : Type ℓ} {B : Type κ} (f : A → B) where
  relabel-take : (n : ℕ) (l : List (ℕ × A)) → relabel f (take n l) ≡ take n (relabel f l)
  relabel-take zero l = refl
  relabel-take (suc n) [] = refl
  relabel-take (suc n) ((h, a) ∷ l) = ap (λ r. (h, f a) ∷ r) (relabel-take n l)

  relabel-drop : (n : ℕ) (l : List (ℕ × A)) → relabel f (drop n l) ≡ drop n (relabel f l)
  relabel-drop zero l = refl
  relabel-drop (suc n) [] = refl
  relabel-drop (suc n) ((h, a) ∷ l) = relabel-drop n l

  relabel-rotate : (n : ℕ) (l : List (ℕ × A)) → relabel f (rotate n l) ≡ rotate n (relabel f l)
  relabel-rotate n l =
      relabel-append f (drop n l) (take n l) ∙ (λ i. relabel-drop n l i ++ relabel-take n l i)

  partition_point-relabel :
      (h : ℕ) (l : List (ℕ × A)) → partition_point h (relabel f l) ≡ partition_point h l
  unfolding partition_point
  partition_point-relabel h [] = refl
  partition_point-relabel h ((k, a) ∷ l) =
      ap (λ n. if ltb k h then suc n else 0) (partition_point-relabel h l)

  first_allowed-relabel :
      (g : B → Option Backend) (exclude : List SocketAddr) (l : List (ℕ × A))
      → first_allowed (λ a. g (f a)) exclude l ≡ first_allowed g exclude (relabel f l)
  unfolding first_allowed
  first_allowed-relabel g exclude [] = refl
  first_allowed-relabel g exclude ((h, a) ∷ l) =
      ap (or_else (allowed exclude (g (f a)))) (first_allowed-relabel g exclude l)

-- The search from `h` as it reads labels: by their index, or from the backend itself.
search_from {ℓ} :
    {A : Type ℓ} (f : A → Option Backend) → List SocketAddr → ℕ → List (ℕ × A) → Option Backend
search_from f exclude h l = first_allowed f exclude (rotate (partition_point h l) l)

search_from-relabel {ℓ} :
    {A : Type ℓ} (f : A → Option Backend) (exclude : List SocketAddr) (h : ℕ) (l : List (ℕ × A))
    → search_from f exclude h l ≡ search_from (λ o. o) exclude h (relabel f l)
unfolding search_from
search_from-relabel f exclude h l =
    first_allowed-relabel f (λ o. o) exclude (rotate (partition_point h l) l)
    ∙ ap (first_allowed (λ o. o) exclude) (
        relabel-rotate f (partition_point h l) l
        ∙ ap (λ n. rotate n (relabel f l)) (sym (partition_point-relabel f h l)))

sorted_points :
    (bs : List Backend)
    → relabel (get_elem? bs) (sort_by_hash (all_points 0 bs))
      ≡ relabel some (sort_by_hash (owned bs))
sorted_points bs =
    relabel-sort_by_hash (get_elem? bs) (all_points 0 bs)
    ∙ ap sort_by_hash (relabel-all_points [] bs)
    ∙ sym (relabel-sort_by_hash some (owned bs))

search_from-empty {ℓ} :
    {A : Type ℓ} (f : A → Option Backend) (exclude : List SocketAddr) (h : ℕ) (l : List (ℕ × A))
    → is_empty l ≡ true
    → search_from f exclude h l ≡ none
unfolding search_from first_allowed partition_point
search_from-empty f exclude h [] e = refl
search_from-empty f exclude h (_ ∷ _) e = absurd (cc e)

unless_empty {ℓ} :
    {A : Type ℓ} (l : List A) (x y : Option Backend)
    → x ≡ y
    → (is_empty l ≡ true → y ≡ none)
    → (if is_empty l then none else x) ≡ y
unless_empty [] x y e h = sym (h refl)
unless_empty (_ ∷ _) x y e h = e

route_excluding-search_from :
    (ring : Ring) (key : String) (exclude : List SocketAddr)
    → route_excluding ring key exclude
      ≡ search_from (get_elem? ring.backends) exclude (hash64 (as_bytes key)) ring.points
unfolding route_excluding search_from
route_excluding-search_from ring key exclude =
    let h = hash64 (as_bytes key) in
    let loop =
      route_loop-rotate ring exclude (partition_point h ring.points) 0 (length ring.points)
        (partition_point-le h ring.points) (omega arith) in
    unless_empty ring.points _ _ loop
      (search_from-empty (get_elem? ring.backends) exclude h ring.points)

-- The backend that a key lands on: the first one clockwise from the hash of the key that is not
-- excluded, among the points of all backends.
pub route_excluding-clockwise :
    (bs : List Backend) (key : String) (exclude : List SocketAddr)
    → route_excluding (from_backends bs) key exclude
      ≡ first_allowed some exclude (clockwise (hash64 (as_bytes key)) (sort_by_hash (owned bs)))
unfolding from_backends search_from
route_excluding-clockwise bs key exclude =
    let h = hash64 (as_bytes key) in
    route_excluding-search_from (from_backends bs) key exclude
    ∙ search_from-relabel (get_elem? bs) exclude h (sort_by_hash (all_points 0 bs))
    ∙ ap (search_from (λ o. o) exclude h) (sorted_points bs)
    ∙ sym (search_from-relabel some exclude h (sort_by_hash (owned bs)))
    ∙ ap (first_allowed some exclude)
        (rotate-clockwise h (sort_by_hash (owned bs)) (sort_by_hash-Sorted (owned bs)))
