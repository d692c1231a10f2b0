-- ===== src/Watcher/Changes.antt =====
-- What src/bin/malkuth/watcher.rs takes for a change of a watched path. A set is a list without repetition.
use malkuth.Prelude.{
  eqb, if◌then◌else◌, is_some, ℕ_key, string_key, ◌==◌, any, is_empty, Dict, get, insert, ℕ, ◌*◌,
  Bool, true, false, ◌&&◌, ◌||◌, Option, none, some, List, [], ◌∷◌,
}
use malkuth.Watcher.Paths.{FilePath, path_key, starts_with, parent, add_path}
use malkuth.Watcher.State.{
  default_debounce, FileIdentity, EventKind, create, modify, modify_name, remove, other,
}

unfoldable pub debounce_of : ℕ → ℕ
debounce_of secs = if eqb secs 0 then default_debounce else secs * 1000

unfoldable pub is_change : EventKind → Bool
is_change create = true
is_change modify = true
is_change modify_name = true
is_change remove = true
is_change other = false

unfoldable pub watch_needs_rearm : EventKind → FilePath → List FilePath → Bool
watch_needs_rearm remove p roots = any (λ r. r == p) roots
watch_needs_rearm modify_name p roots = any (λ r. r == p) roots
watch_needs_rearm create p roots = false
watch_needs_rearm modify p roots = false
watch_needs_rearm other p roots = false

-- The loop of `parent_dirs`, with the directories so far.
unfoldable pub parent_loop : List FilePath → List FilePath → List FilePath → List FilePath
unfolding parent add_path
parent_loop roots dirs [] = dirs
parent_loop roots dirs (p ∷ ps) = elim (parent p) [
  | none ↦ parent_loop roots dirs ps
  | some dir ↦
      if is_empty dir || any (λ r. r == dir) roots
      then parent_loop roots dirs ps
      else parent_loop roots (add_path dir dirs) ps
]

unfoldable pub parent_dirs : List FilePath → List FilePath
unfolding parent_loop
parent_dirs paths = parent_loop paths [] paths

abbrev pub is_relevant : List FilePath → FilePath → Bool
is_relevant roots p = any (λ r. (p == r) || starts_with p r) roots

unfoldable pub relevant_paths : FilePath → List FilePath → List FilePath
unfolding starts_with
relevant_paths p roots = if is_relevant roots p then p ∷ [] else []

unfoldable pub same_time : Option ℕ → Option ℕ → Bool
same_time none none = true
same_time none (some _) = false
same_time (some _) none = false
same_time (some t) (some u) = eqb t u

unfoldable pub same_identity : Option FileIdentity → Option FileIdentity → Bool
unfolding same_time
same_identity none none = true
same_identity none (some _) = false
same_identity (some _) none = false
same_identity (some a) (some b) =
    eqb a.inode b.inode && eqb a.size b.size && same_time a.modified b.modified

-- `cache.get(path) == Some(&now)`
unfoldable pub is_known :
    FilePath → Option FileIdentity → Dict FilePath (Option FileIdentity) → Bool
unfolding same_identity get
is_known p now cache = elim (get p cache) [ none ↦ false | some old ↦ same_identity old now ]

-- The paths that changed, and the cache.
unfoldable pub poll_changes :
    (FilePath → Option FileIdentity)
    → List FilePath
    → Dict FilePath (Option FileIdentity)
    → List FilePath × Dict FilePath (Option FileIdentity)
unfolding is_known insert
poll_changes stat [] cache = ([], cache)
poll_changes stat (r ∷ roots) cache =
    let rest = poll_changes stat roots (insert r (stat r) cache) in
    (if is_known r (stat r) cache then rest.0 else r ∷ rest.0, rest.1)

unfoldable pub add_all : List FilePath → List FilePath → List FilePath
unfolding add_path
add_all [] pending = pending
add_all (p ∷ ps) pending = add_all ps (add_path p pending)

-- The identities that are taken when a batch is delivered: those of the tracked paths.
unfoldable pub snapshot :
    (FilePath → Option FileIdentity)
    → List FilePath
    → Dict FilePath (Option FileIdentity)
    → Dict FilePath (Option FileIdentity)
unfolding get insert
snapshot stat [] identity = identity
snapshot stat (w ∷ ws) identity =
    snapshot stat ws (if is_some (get w identity) then insert w (stat w) identity else identity)
