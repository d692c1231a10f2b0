-- ===== src/Watcher/Paths.antt =====
-- Paths as src/bin/malkuth/watcher.rs uses them: the list of the components, "/" the first one of an absolute
-- path. `starts_with` and equality go by whole components, as in `std::path`.
use malkuth.Prelude.{
  if◌then◌else◌, Key, ℕ_key, string_key, ◌==◌, eq_iff, any, String, ◌≡◌, refl, ◌↔◌, Bool, true,
  false, ◌&&◌, Option, none, some, List, [], ◌∷◌, ◌++◌, arith,
}

abbrev pub FilePath : Type 0
FilePath = List String

unfoldable pub same_path : FilePath → FilePath → Bool
same_path [] [] = true
same_path [] (_ ∷ _) = false
same_path (_ ∷ _) [] = false
same_path (c ∷ p) (d ∷ q) = (c == d) && same_path p q

pub same_path_iff : (p q : FilePath) → (same_path p q ≡ true) ↔ (p ≡ q)
unfolding same_path
same_path_iff [] [] = (λ h. refl, λ e. refl)
same_path_iff [] (d ∷ q) = (λ h. absurd (cc h), λ e. absurd (cc e))
same_path_iff (c ∷ p) [] = (λ h. absurd (cc h), λ e. absurd (cc e))
same_path_iff (c ∷ p) (d ∷ q) =
    let (there, back) = same_path_iff p q in
    (
      λ h.
          let parts : ((c == d) ≡ true) × (same_path p q ≡ true) = ground (arith, h) in
          let heads : c ≡ d = (eq_iff c d).0 parts.0 in
          let tails : p ≡ q = there parts.1 in cc (heads, tails),
      λ e.
          let heads : c ≡ d = cc e in
          let tails : p ≡ q = cc e in ground (arith, (eq_iff c d).1 heads, back tails),
    )

instance abbrev pub path_key : Key FilePath
path_key = record { decides = same_path_iff; test = same_path }

-- `ev_path.starts_with(root)`
unfoldable pub starts_with : FilePath → FilePath → Bool
starts_with p [] = true
starts_with [] (_ ∷ _) = false
starts_with (c ∷ p) (d ∷ root) = (c == d) && starts_with p root

unfoldable pub without_last : FilePath → FilePath
without_last [] = []
without_last (c ∷ []) = []
without_last (c ∷ d ∷ p) = c ∷ without_last (d ∷ p)

-- `Path::parent`: the root and the empty path have none.
unfoldable pub parent : FilePath → Option FilePath
unfolding without_last
parent [] = none
parent (c ∷ []) = if c == "/" then none else some []
parent (c ∷ d ∷ p) = some (without_last (c ∷ d ∷ p))

-- `HashSet::insert`
unfoldable pub add_path : FilePath → List FilePath → List FilePath
add_path p ps = if any (λ q. q == p) ps then ps else ps ++ p ∷ []
