-- ===== src/Watcher/Polling.antt =====
-- `poll_changes` of src/bin/malkuth/watcher.rs.
use malkuth.Prelude.{
  if◌then◌else◌, eqb_iff, Bool-cases, ℕ_key, string_key, ◌==◌, eq_iff, any, Dict, insert,
  get-insert, ℕ, ◌≡◌, refl, ap, ◌∙◌, inl, inr, true, false, not, ◌&&◌, ◌||◌, Option, none, some,
  List, [], ◌∷◌, arith,
}
use malkuth.Watcher.Paths.{FilePath, path_key}
use malkuth.Watcher.{FileIdentity, same_time, same_identity, is_known, poll_changes}

same_time_refl : (t : Option ℕ) → same_time t t ≡ true
unfolding same_time
same_time_refl none = refl
same_time_refl (some t) = (eqb_iff t t).1 refl

same_identity_refl : (i : Option FileIdentity) → same_identity i i ≡ true
unfolding same_identity
same_identity_refl none = refl
same_identity_refl (some i) = ground (
  arith,
  (eqb_iff i.inode i.inode).1 refl,
  (eqb_iff i.size i.size).1 refl,
  same_time_refl i.modified,
)

-- A path that was just looked at is known, and what is known of the others stays.
is_known-insert :
    (p r : FilePath) (now : Option FileIdentity) (stat : FilePath → Option FileIdentity)
    (cache : Dict FilePath (Option FileIdentity))
    → is_known p now (insert r (stat r) cache)
      ≡ (if r == p then same_identity (stat r) now else is_known p now cache)
unfolding is_known
is_known-insert p r now stat cache = elim (Bool-cases (r == p)) [
  | inl e ↦ rw (get-insert r p (stat r) cache, is_known) (rw e refl)
  | inr e ↦ rw (get-insert r p (stat r) cache, is_known) (rw e refl)
]

-- A path is among the changes exactly if it is one of the roots and its identity is not the one in the
-- cache, a missing file being an identity too; and what was reported or known is known afterwards.
poll_changes_exact :
    (stat : FilePath → Option FileIdentity) (roots : List FilePath)
    (cache : Dict FilePath (Option FileIdentity)) (p : FilePath)
    → (any (λ q. q == p) (poll_changes stat roots cache).0
        ≡ (any (λ q. q == p) roots && not (is_known p (stat p) cache)))
      × (is_known p (stat p) (poll_changes stat roots cache).1
          ≡ (any (λ q. q == p) roots || is_known p (stat p) cache))
unfolding poll_changes
poll_changes_exact stat [] cache p = (refl, refl)
poll_changes_exact stat (r ∷ roots) cache p =
    let (reported, known) = poll_changes_exact stat roots (insert r (stat r) cache) p in
    let now = is_known-insert p r (stat p) stat cache in
    elim (Bool-cases (r == p)) [
      | inl e ↦
          let same : r ≡ p = (eq_iff r p).0 e in
          let is_p : is_known r (stat r) cache ≡ is_known p (stat p) cache =
            ap (λ q. is_known q (stat q) cache) same in
          let fresh : same_identity (stat r) (stat p) ≡ true =
            ap (λ q. same_identity (stat q) (stat p)) same ∙ same_identity_refl (stat p) in
          (
            ground (arith, e, is_p, fresh, reported, now),
            ground (arith, e, is_p, fresh, known, now),
          )
      | inr e ↦ (ground (arith, e, reported, now), ground (arith, e, known, now))
    ]

-- The poll reports a path exactly if it is one of the watched ones and its identity is not the one in the
-- cache, a missing file being an identity too; and a second poll that finds the same reports nothing.
pub poll_changes_lem :
    (stat : FilePath → Option FileIdentity) (roots : List FilePath)
    (cache : Dict FilePath (Option FileIdentity)) (p : FilePath)
    → (any (λ q. q == p) (poll_changes stat roots cache).0
        ≡ (any (λ q. q == p) roots && not (is_known p (stat p) cache)))
      × (any (λ q. q == p) (poll_changes stat roots (poll_changes stat roots cache).1).0 ≡ false)
poll_changes_lem stat roots cache p =
    let (reported, known) = poll_changes_exact stat roots cache p in
    let (again, _) = poll_changes_exact stat roots (poll_changes stat roots cache).1 p in
    (reported, ground (arith, again, known))
