-- ===== src/DbBackup/Windows.antt =====
-- The rolling windows of src/bin/malkuth/db_backup.rs, over the dumps that its own names stand for.
use malkuth.Prelude.{
  ltb, ℕ_key, string_key, count_by, ℕ, ◌≡◌, Bool, true, false, not, ◌&&◌, ◌||◌, none, List, ◌∷◌,
  ◌++◌,
}
use malkuth.LogRing.{Text}
use malkuth.DbBackup.{same_text, is_before, sanitize_label, db_name_from_uri, dump_name, group_of}
use malkuth.DbBackup.Stamps.{Stamp}

-- A dump as `run_backup` names it.
pub record Dump : Type 0 where
  pub hostname : Text
  pub uri : Text
  pub stamp : Text
  pub encrypted : Bool

-- A file of the directory: a dump, or something else.
pub data DirFile : Type 0 where
  dump : Dump → DirFile
  other : Text → DirFile

abbrev pub name_of : DirFile → Text
name_of (dump d) = dump_name d.hostname d.uri d.stamp d.encrypted
name_of (other name) = name

abbrev pub WellNamed : DirFile → Type 0
WellNamed (dump d) = Stamp d.stamp
WellNamed (other name) = group_of name ≡ none

-- What the dumps of one machine and database have in common.
abbrev pub window_of : Dump → Text
window_of d = sanitize_label d.hostname ++ b'-' ∷ db_name_from_uri d.uri

-- Whether `e` is newer than `d`: by the stamps, and of two with the same one the encrypted dump.
abbrev pub is_newer : Dump → Dump → Bool
is_newer d e =
    is_before d.stamp e.stamp || (same_text d.stamp e.stamp && (not d.encrypted && e.encrypted))

abbrev pub newer_in_window : Dump → DirFile → Bool
newer_in_window d (dump e) = same_text (window_of e) (window_of d) && is_newer d e
newer_in_window d (other _) = false

-- What rotation keeps: of the dumps those with fewer than `keep` newer ones in their window, and every
-- other file.
abbrev pub keeps : ℕ → List DirFile → DirFile → Bool
keeps keep fs (dump d) = ltb (count_by (newer_in_window d) fs) keep
keeps keep fs (other _) = true
