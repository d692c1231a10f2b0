-- ===== src/Watcher/Pending.antt =====
-- The set of pending paths in src/bin/malkuth/watcher.rs.
use malkuth.Prelude.{
  Bool-cases, ℕ_key, string_key, ◌==◌, eq_iff, any, is_empty, ◌≡◌, refl, ap, subst, ◌∙◌, inl, inr,
  Bool, true, false, ◌||◌, List, [], ◌∷◌, ◌++◌, arith,
}
use malkuth.Watcher.Paths.{FilePath, path_key, add_path}
use malkuth.Watcher.{is_relevant, relevant_paths, add_all, hits}
use malkuth.Watcher.Relevance.{Relevant}

abbrev pub has : FilePath → List FilePath → Bool
has p ps = any (λ q. q == p) ps

pub has_none : (p : FilePath) (ps : List FilePath) → is_empty ps ≡ true → has p ps ≡ false
has_none p [] e = refl
has_none p (q ∷ ps) e = absurd (cc e)

pub has-append : (p : FilePath) (ps qs : List FilePath) → has p (ps ++ qs) ≡ (has p ps || has p qs)
has-append p [] qs = refl
has-append p (q ∷ ps) qs = ground (arith, has-append p ps qs)

pub has-add_path :
    (p q : FilePath) (ps : List FilePath) → has p (add_path q ps) ≡ (has p ps || (q == p))
unfolding add_path
has-add_path p q ps = elim (Bool-cases (has q ps)) [
  | inr e ↦ rw e (ground (arith, has-append p ps (q ∷ [])))
  | inl e ↦ elim (Bool-cases (q == p)) [
    | inr u ↦ rw e (ground (arith, u))
    | inl u ↦
        let same : q ≡ p = (eq_iff q p).0 u in
        let there : has p ps ≡ true = subst (λ r. has r ps ≡ true) same e in
        rw e (ground (arith, there))
  ]
]

pub has-add_all :
    (p : FilePath) (qs ps : List FilePath) → has p (add_all qs ps) ≡ (has p ps || has p qs)
unfolding add_all
has-add_all p [] ps = ground arith
has-add_all p (q ∷ qs) ps = ground (arith, has-add_all p qs (add_path q ps), has-add_path p q ps)

pub has-hits :
    (roots : List FilePath) (p : FilePath) (ps : List FilePath)
    → Relevant roots p
    → has p ps ≡ true
    → has p (hits roots ps) ≡ true
unfolding hits relevant_paths
has-hits roots p [] r h = absurd (cc h)
has-hits roots p (q ∷ ps) r h = elim (Bool-cases (q == p)) [
  | inl e ↦
      let same : q ≡ p = (eq_iff q p).0 e in
      let relevant : is_relevant roots q ≡ true = ap (is_relevant roots) same ∙ r in
      rw relevant (ground (arith, e))
  | inr e ↦
      let rest = has-hits roots p ps r (rw e at h) in
      ground (arith, e, rest, has-append p (relevant_paths q roots) (hits roots ps))
]
