-- ===== src/DbBackup.antt =====
-- Names and rotation of the dumps of src/bin/malkuth/db_backup.rs. Texts are code points: the stamp is ASCII, so
-- that counting characters and counting bytes cut it off alike, and the order of code points is that of
-- the bytes. The directory is the list of its file names.
pub mod Order
pub mod Stamps
pub mod Stale
pub mod Rotation
pub mod Windows
mod Tests
use malkuth.Prelude.{
  ltb, leb, eqb, if◌then◌else◌, ltb→lt, lt→ltb, le→ltb, ltb→le, leb→le, le→leb, eqb_iff, tests,
  Bool-cases, Option-cases, Result-cases, is_some, Key, ℕ_key, string_key, ◌==◌, eq_iff, eq_refl,
  ne→beq, length, get_elem?, take, drop, retain, any, all, position, length-append, length-take,
  length-drop, length-retain, take_all, set, count_by, count_by-append, count_by-reverse,
  count_by-retain, is_blank, is_ws, byte_len, is_char_boundary, prefix, truncate, floor_boundary,
  len_utf8, floor_boundary-is_char_boundary, floor_boundary-le, byte_len-prefix, codes, trim,
  trim_start, trim_end, is_empty, reverse-cons, reverse-reverse, In, All, All-append, All-retain,
  retain-All, Dict, get, insert, remove, adjust, get-insert, get-remove, get-adjust,
  get-insert_self, Result, ok, err, ◌>>=◌, ◌>>◌, ℕ, zero, suc, ◌+◌, ◌-◌, ◌*◌, ◌/◌, ◌%◌, ◌^◌, ◌≤◌,
  ◌<◌, min, max, String, ◌≡◌, refl, sym, ap, subst, ◌∙◌, ◌≢◌, ◌↔◌, ◌⊎◌, inl, inr, Bool, true, false,
  not, ◌&&◌, ◌||◌, Option, none, some, List, [], ◌∷◌, ◌++◌, map, reverse, append-nil, append_assoc,
  arith,
}
use malkuth.LogRing.{Text}

unfoldable pub same_text : Text → Text → Bool
same_text [] [] = true
same_text [] (_ ∷ _) = false
same_text (_ ∷ _) [] = false
same_text (c ∷ s) (d ∷ t) = eqb c d && same_text s t

abbrev pub is_digit : ℕ → Bool
is_digit c = leb b'0' c && leb c b'9'

abbrev pub is_alphanumeric : ℕ → Bool
is_alphanumeric c = is_digit c || (leb b'A' c && leb c b'Z') || (leb b'a' c && leb c b'z')

abbrev pub is_label : ℕ → Bool
is_label c = is_alphanumeric c || eqb c b'-' || eqb c b'_'

unfoldable pub sanitize_label : Text → Text
sanitize_label [] = []
sanitize_label (c ∷ s) = (if is_label c then c else b'_') ∷ sanitize_label s

-- What stands behind the last `d`.
unfoldable pub after_last : ℕ → Text → Option Text
after_last d [] = none
after_last d (c ∷ s) = elim (after_last d s) [
  | some rest ↦ some rest
  | none ↦ if eqb c d then some s else none
]

-- `split(d).next()`
unfoldable pub before_first : ℕ → Text → Text
before_first d [] = []
before_first d (c ∷ s) = if eqb c d then [] else c ∷ before_first d s

unfoldable pub strip_prefix : Text → Text → Option Text
strip_prefix [] s = some s
strip_prefix (c ∷ p) [] = none
strip_prefix (c ∷ p) (d ∷ s) = if eqb c d then strip_prefix p s else none

abbrev pub or_else : Option Text → Text → Text
or_else none s = s
or_else (some t) s = t

unfoldable pub host_of : Text → Text
unfolding strip_prefix after_last before_first
host_of uri =
    let host =
      or_else (strip_prefix (codes "postgres://") uri)
        (or_else (strip_prefix (codes "postgresql://") uri) uri) in
    before_first b':' (or_else (after_last b'@' host) host)

unfoldable pub db_name_from_uri : Text → Text
unfolding after_last before_first host_of sanitize_label
db_name_from_uri uri =
    let name = before_first b'?' (or_else (after_last b'/' uri) []) in
    if is_empty name then sanitize_label (host_of uri) else sanitize_label name

-- The name of the final dump in `run_backup`: `host` is the name of this machine.
unfoldable pub dump_name : Text → Text → Text → Bool → Text
unfolding sanitize_label db_name_from_uri
dump_name hostname uri stamp encrypted =
    sanitize_label hostname
    ++ b'-' ∷ db_name_from_uri uri
    ++ b'-' ∷ stamp
    ++ codes (if encrypted then ".dump.age" else ".dump")

-- The test of the stamp, from position `i` on.
unfoldable pub is_stamp : ℕ → Text → Bool
is_stamp i [] = true
is_stamp i (c ∷ s) = (if eqb i 8 then eqb c b'-' else is_digit c) && is_stamp (suc i) s

abbrev pub is_dash : Option ℕ → Bool
is_dash none = false
is_dash (some c) = eqb c b'-'

unfoldable pub strip_stamp : Text → Text
unfolding is_stamp
strip_stamp base =
    let start = length base - 15 in
    if ltb (length base) 17
    then base
    else if is_stamp 0 (drop start base) && is_dash (get_elem? base (start - 1))
    then take (start - 1) base
    else base

unfoldable pub ends_with : Text → Text → Bool
unfolding same_text
ends_with suffix s =
    leb (length suffix) (length s) && same_text (drop (length s - length suffix) s) suffix

-- `s.strip_suffix(suffix).unwrap_or(s)`
unfoldable pub without_suffix : Text → Text → Text
unfolding ends_with
without_suffix suffix s = if ends_with suffix s then take (length s - length suffix) s else s

-- The group of a file: `none` for what is not a dump.
unfoldable pub group_of : Text → Option Text
unfolding ends_with without_suffix strip_stamp
group_of name =
    if ends_with (codes ".dump") name || ends_with (codes ".dump.age") name
    then some (strip_stamp (without_suffix (codes ".dump") (without_suffix (codes ".age") name)))
    else none

unfoldable pub is_before : Text → Text → Bool
is_before [] [] = false
is_before [] (_ ∷ _) = true
is_before (_ ∷ _) [] = false
is_before (c ∷ s) (d ∷ t) = ltb c d || (eqb c d && is_before s t)

-- `files.sort()`
unfoldable pub insert_file : Text → List Text → List Text
unfolding is_before
insert_file f [] = f ∷ []
insert_file f (g ∷ gs) = if is_before f g then f ∷ g ∷ gs else g ∷ insert_file f gs

unfoldable pub sort : List Text → List Text
unfolding insert_file
sort [] = []
sort (f ∷ fs) = insert_file f (sort fs)

-- The files of a group that are removed.
unfoldable pub stale : ℕ → List Text → List Text
unfolding sort
stale keep files = if ltb keep (length files) then take (length files - keep) (sort files) else []

-- The dumps of one group among the files of the directory.
unfoldable pub group_files : Text → List Text → List Text
unfolding group_of same_text
group_files g [] = []
group_files g (f ∷ fs) = elim (group_of f) [
  | none ↦ group_files g fs
  | some h ↦ if same_text h g then f ∷ group_files g fs else group_files g fs
]

-- Whether `rotate` asks for the removal of a file: the groups are disjoint, so that the loop over them comes
-- to each file once, in its own group.
unfoldable pub is_rotated_out : ℕ → List Text → Text → Bool
unfolding group_of stale group_files same_text
is_rotated_out keep dir f = elim (group_of f) [
  | none ↦ false
  | some g ↦ any (λ h. same_text h f) (stale keep (group_files g dir))
]

-- The directory after `rotate`, where `removable` are the files that the system lets it remove.
unfoldable pub rotate : ℕ → (Text → Bool) → List Text → List Text
unfolding is_rotated_out
rotate keep removable dir = retain (λ f. not (is_rotated_out keep dir f && removable f)) dir
