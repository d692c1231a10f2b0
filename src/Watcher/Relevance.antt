-- ===== src/Watcher/Relevance.antt =====
-- Which paths of src/bin/malkuth/watcher.rs are pending.
use malkuth.Prelude.{
  Bool-cases, ℕ_key, string_key, ◌==◌, eq_refl, any, is_empty, All, All-append, Dict, insert, ◌≡◌,
  refl, inl, inr, true, false, Option, List, [], ◌∷◌, arith,
}
use malkuth.Watcher.Paths.{FilePath, path_key, add_path}
use malkuth.Watcher.{
  FileIdentity, Turn, Watch, is_relevant, relevant_paths, is_known, poll_changes, add_all, catch_up,
  hits,
}

abbrev pub Relevant : List FilePath → FilePath → Type 0
Relevant roots p = is_relevant roots p ≡ true

pub All-mono {ℓ} :
    {A : Type ℓ} {P Q : A → Type 0} (xs : List A) → ((x : A) → P x → Q x) → All P xs → All Q xs
All-mono [] f h = tt
All-mono (x ∷ xs) f h = (f x h.0, All-mono xs f h.1)

pub roots-Relevant : (roots : List FilePath) → All (Relevant roots) roots
roots-Relevant [] = tt
roots-Relevant (r ∷ roots) =
    (ground (arith, eq_refl r), All-mono roots (λ p h. ground (arith, h)) (roots-Relevant roots))

pub add_path-Relevant :
    (roots : List FilePath) (p : FilePath) (ps : List FilePath)
    → Relevant roots p
    → All (Relevant roots) ps
    → All (Relevant roots) (add_path p ps)
unfolding add_path
add_path-Relevant roots p ps h a = elim (Bool-cases (any (λ q. q == p) ps)) [
  | inl e ↦ rw e a
  | inr e ↦ rw e (All-append (Relevant roots) ps (p ∷ []) a (h, tt))
]

pub add_path_filled : (p : FilePath) (ps : List FilePath) → is_empty (add_path p ps) ≡ false
unfolding add_path
add_path_filled p [] = refl
add_path_filled p (q ∷ ps) = ground arith

pub add_all-Relevant :
    (roots ps pending : List FilePath)
    → All (Relevant roots) ps
    → All (Relevant roots) pending
    → All (Relevant roots) (add_all ps pending)
unfolding add_all
add_all-Relevant roots [] pending h a = a
add_all-Relevant roots (p ∷ ps) pending h a =
    add_all-Relevant roots ps (add_path p pending) h.1 (add_path-Relevant roots p pending h.0 a)

pub add_all-filled :
    (ps pending : List FilePath) → is_empty pending ≡ false → is_empty (add_all ps pending) ≡ false
unfolding add_all
add_all-filled [] pending h = h
add_all-filled (p ∷ ps) pending h =
    add_all-filled ps (add_path p pending) (add_path_filled p pending)

pub add_all_filled :
    (ps pending : List FilePath) → is_empty ps ≡ false → is_empty (add_all ps pending) ≡ false
unfolding add_all
add_all_filled [] pending h = absurd (cc h)
add_all_filled (p ∷ ps) pending h =
    add_all-filled ps (add_path p pending) (add_path_filled p pending)

pub hits-Relevant : (roots ps : List FilePath) → All (Relevant roots) (hits roots ps)
unfolding hits relevant_paths
hits-Relevant roots [] = tt
hits-Relevant roots (p ∷ ps) = elim (Bool-cases (is_relevant roots p)) [
  | inl e ↦ rw e (e, hits-Relevant roots ps)
  | inr e ↦ rw e (hits-Relevant roots ps)
]

pub poll_changes-Relevant :
    (stat : FilePath → Option FileIdentity) (roots rs : List FilePath)
    (cache : Dict FilePath (Option FileIdentity))
    → All (Relevant roots) rs
    → All (Relevant roots) (poll_changes stat rs cache).0
unfolding poll_changes
poll_changes-Relevant stat roots [] cache h = tt
poll_changes-Relevant stat roots (r ∷ rs) cache h =
    let rest = poll_changes-Relevant stat roots rs (insert r (stat r) cache) h.1 in
    elim (Bool-cases (is_known r (stat r) cache)) [ inl e ↦ rw e rest | inr e ↦ rw e (h.0, rest) ]

pub catch_up-Relevant :
    (roots : List FilePath) (t : Turn) (ps : List FilePath) (s : Watch)
    → All (Relevant roots) s.pending
    → All (Relevant roots) (catch_up t roots ps s).1.pending
unfolding catch_up relevant_paths
catch_up-Relevant roots t [] s h = h
catch_up-Relevant roots t (p ∷ ps) s h = elim (Bool-cases (is_relevant roots p)) [
  | inr e ↦ rw e (catch_up-Relevant roots t ps s h)
  | inl e ↦ elim (Bool-cases (is_known p (t.file_identity p) s.identity)) [
    | inl k ↦ rw e (rw k (catch_up-Relevant roots t ps s h))
    | inr k ↦ rw e (rw k (catch_up-Relevant roots t ps _ (add_path-Relevant roots p s.pending e h)))
  ]
]
