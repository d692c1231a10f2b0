-- ===== src/Proxy/Rotation.antt =====
-- The loop of `route_excluding` over offsets, as one search through the rotated points.
use malkuth.Prelude.{
  ltb, ltb→lt, ltb→le, Bool-cases, ℕ_key, string_key, length, get_elem?, take, drop, length-append,
  length-take, length-drop, ℕ, zero, suc, ◌+◌, ◌-◌, ◌%◌, ◌≤◌, ◌<◌, ◌≡◌, refl, sym, ap, ◌∙◌, inl,
  inr, Option, none, some, List, [], ◌∷◌, ◌++◌, arith,
}
use native.Mathlib.Nat.{mod-eq_of_lt, mod-eq-sub-mod}
use malkuth.Proxy.{SocketAddr, Backend, Ring, backend_at, point_at, allowed, route_loop, or_else}

-- The first label that resolves to a backend which is not excluded.
unfoldable pub first_allowed {ℓ} :
    {A : Type ℓ} → (A → Option Backend) → List SocketAddr → List (ℕ × A) → Option Backend
unfolding allowed or_else
first_allowed f exclude [] = none
first_allowed f exclude ((_, a) ∷ rest) =
    or_else (allowed exclude (f a)) (first_allowed f exclude rest)

abbrev pub rotate {ℓ} : {A : Type ℓ} → ℕ → List A → List A
rotate start l = drop start l ++ take start l

around : (s i n d : ℕ) → s ≤ n → i < n → n ≤ s + i → d ≡ n - s → i - d ≡ (s + i) % n
around s i n d h k le e =
    let back : (s + i - n) % n ≡ s + i - n = mod-eq_of_lt (omega arith) in
    let same : i - d ≡ s + i - n = omega arith in same ∙ sym back ∙ sym (mod-eq-sub-mod le)

module _ {ℓ} {A : Type ℓ} where
  get_elem?-append_left :
      (xs ys : List A) (i : ℕ) → i < length xs → get_elem? (xs ++ ys) i ≡ get_elem? xs i
  get_elem?-append_left [] ys i h = absurd (omega arith)
  get_elem?-append_left (x ∷ xs) ys zero h = refl
  get_elem?-append_left (x ∷ xs) ys (suc i) h = get_elem?-append_left xs ys i (omega arith)

  get_elem?-append_right :
      (xs ys : List A) (i : ℕ)
      → length xs ≤ i
      → get_elem? (xs ++ ys) i ≡ get_elem? ys (i - length xs)
  get_elem?-append_right [] ys i h = ap (get_elem? ys) (omega arith)
  get_elem?-append_right (x ∷ xs) ys zero h = absurd (omega arith)
  get_elem?-append_right (x ∷ xs) ys (suc i) h =
      let e : i - length xs ≡ suc i - suc (length xs) = omega arith in
      get_elem?-append_right xs ys i (omega arith) ∙ ap (get_elem? ys) e

  get_elem?-drop : (s : ℕ) (xs : List A) (i : ℕ) → get_elem? (drop s xs) i ≡ get_elem? xs (s + i)
  get_elem?-drop zero xs i = ap (get_elem? xs) (omega arith)
  get_elem?-drop (suc s) [] i = refl
  get_elem?-drop (suc s) (x ∷ xs) i =
      let e : suc s + i ≡ suc (s + i) = omega arith in rw e (get_elem?-drop s xs i)

  get_elem?-take : (s : ℕ) (xs : List A) (i : ℕ) → i < s → get_elem? (take s xs) i ≡ get_elem? xs i
  get_elem?-take zero xs i h = absurd (omega arith)
  get_elem?-take (suc s) [] i h = refl
  get_elem?-take (suc s) (x ∷ xs) zero h = refl
  get_elem?-take (suc s) (x ∷ xs) (suc i) h = get_elem?-take s xs i (omega arith)

  drop_step :
      (i : ℕ) (xs : List A) (x : A) → get_elem? xs i ≡ some x → drop i xs ≡ x ∷ drop (suc i) xs
  drop_step zero [] x e = absurd (ground arith)
  drop_step zero (y ∷ ys) x e = ground arith
  drop_step (suc i) [] x e = absurd (ground arith)
  drop_step (suc i) (y ∷ ys) x e = drop_step i ys x e

  get_elem?-some : (xs : List A) (i : ℕ) → i < length xs → (x : A) × (get_elem? xs i ≡ some x)
  get_elem?-some [] i h = absurd (omega arith)
  get_elem?-some (x ∷ xs) zero h = (x, refl)
  get_elem?-some (x ∷ xs) (suc i) h = get_elem?-some xs i (omega arith)

  length-rotate : (s : ℕ) (xs : List A) → s ≤ length xs → length (rotate s xs) ≡ length xs
  length-rotate s xs h =
      omega (
        arith,
        length-append {ℓ} (drop s xs) (take s xs),
        length-drop {ℓ} s xs,
        length-take {ℓ} s xs,
      )

  get_elem?-rotate :
      (s : ℕ) (xs : List A) (i : ℕ)
      → s ≤ length xs
      → i < length xs
      → get_elem? (rotate s xs) i ≡ get_elem? xs ((s + i) % length xs)
  get_elem?-rotate s xs i h k = elim (Bool-cases (ltb (s + i) (length xs))) [
    | inl e ↦
        let lt : s + i < length xs = ltb→lt _ _ e in
        get_elem?-append_left (drop s xs) (take s xs) i (omega (arith, length-drop {ℓ} s xs))
        ∙ get_elem?-drop s xs i
        ∙ ap (get_elem? xs) (sym (mod-eq_of_lt lt))
    | inr e ↦
        let le : length xs ≤ s + i = ltb→le _ _ e in
        get_elem?-append_right (drop s xs) (take s xs) i (omega (arith, length-drop {ℓ} s xs))
        ∙ get_elem?-take s xs (i - length (drop s xs)) (omega (arith, length-drop {ℓ} s xs))
        ∙ ap (get_elem? xs) (around s i (length xs) (length (drop s xs)) h k le (length-drop s xs))
  ]

drop_all {ℓ} : {A : Type ℓ} (n : ℕ) (xs : List A) → length xs ≤ n → drop n xs ≡ []
drop_all zero [] h = refl
drop_all zero (x ∷ xs) h = absurd (omega arith)
drop_all (suc n) [] h = refl
drop_all (suc n) (x ∷ xs) h = drop_all n xs (omega arith)

point_at-get_elem? :
    (points : List (ℕ × ℕ)) (i : ℕ)
    → 0 < length points
    → point_at points i ≡ get_elem? points (i % length points)
unfolding point_at
point_at-get_elem? [] i h = absurd (omega arith)
point_at-get_elem? (p ∷ ps) i h = refl

first_allowed-cons :
    (ring : Ring) (exclude : List SocketAddr) (x : ℕ × ℕ) (rest : List (ℕ × ℕ))
    → first_allowed (get_elem? ring.backends) exclude (x ∷ rest)
      ≡ or_else
          (allowed exclude (backend_at ring (some x)))
          (first_allowed (get_elem? ring.backends) exclude rest)
unfolding first_allowed backend_at
first_allowed-cons ring exclude (h, i) rest = refl

-- What is left is the list, searched from `off` on.
pub route_loop-rotate :
    (ring : Ring) (exclude : List SocketAddr) (start off left : ℕ)
    → start ≤ length ring.points
    → off + left ≡ length ring.points
    → route_loop ring exclude start off left
      ≡ first_allowed (get_elem? ring.backends) exclude (drop off (rotate start ring.points))
unfolding route_loop first_allowed
route_loop-rotate ring exclude start off zero h e =
    rw
      (drop_all off (rotate start ring.points)
        (omega (arith, length-rotate {0} start ring.points h)))
      refl
route_loop-rotate ring exclude start off (suc left) h e =
    let (x, g) =
      get_elem?-some (rotate start ring.points) off
        (omega (arith, length-rotate {0} start ring.points h)) in
    let at : point_at ring.points (start + off) ≡ some x =
      point_at-get_elem? ring.points (start + off) (omega arith)
      ∙ sym (get_elem?-rotate start ring.points off h (omega arith))
      ∙ g in
    let ih = route_loop-rotate ring exclude start (suc off) left h (omega arith) in
    rw (drop_step off (rotate start ring.points) x g) (
      rw (first_allowed-cons ring exclude x (drop (suc off) (rotate start ring.points)))
        ((λ i. or_else (allowed exclude (backend_at ring (at i))) (ih i))))
