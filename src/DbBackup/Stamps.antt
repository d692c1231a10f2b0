-- ===== src/DbBackup/Stamps.antt =====
-- The names of the dumps of src/bin/malkuth/db_backup.rs, and the groups that are read off them.
use malkuth.Prelude.{
  ltb, if◌then◌else◌, le→ltb, Bool-cases, ℕ_key, string_key, length, get_elem?, take, drop,
  length-append, codes, All, ℕ, ◌-◌, ◌<◌, ◌≡◌, refl, sym, ap, subst, ◌∙◌, inl, inr, Bool, true,
  false, ◌||◌, some, [], ◌∷◌, ◌++◌, append_assoc, arith,
}
use malkuth.LogRing.{Text}
use malkuth.DbBackup.{
  same_text, is_label, sanitize_label, db_name_from_uri, dump_name, is_stamp, is_dash, strip_stamp,
  ends_with, without_suffix, group_of,
}
use malkuth.DbBackup.Order.{same_text_iff}

drop_front : (s t : Text) → drop (length s) (s ++ t) ≡ t
drop_front [] t = refl
drop_front (c ∷ s) t = drop_front s t

take_front : (s t : Text) → take (length s) (s ++ t) ≡ s
take_front [] t = refl
take_front (c ∷ s) t = ap (λ r. c ∷ r) (take_front s t)

get_elem_front : (s : Text) (c : ℕ) (t : Text) → get_elem? (s ++ c ∷ t) (length s) ≡ some c
get_elem_front [] c t = refl
get_elem_front (d ∷ s) c t = get_elem_front s c t

front-length : (s t : Text) (n : ℕ) → length t ≡ n → length (s ++ t) - n ≡ length s
front-length s t n h = omega (arith, h, length-append {0} s t)

ends_with-append : (suffix s : Text) → ends_with suffix (s ++ suffix) ≡ true
unfolding ends_with
ends_with-append suffix s =
    let back : drop (length (s ++ suffix) - length suffix) (s ++ suffix) ≡ suffix =
      ap (λ n. drop n (s ++ suffix)) (front-length s suffix (length suffix) refl)
      ∙ drop_front s suffix in
    ground (
      arith,
      length-append {0} s suffix,
      ap (λ t. same_text t suffix) back ∙ (same_text_iff suffix suffix).1 refl,
    )

without_suffix-append : (suffix s : Text) → without_suffix suffix (s ++ suffix) ≡ s
unfolding without_suffix
without_suffix-append suffix s = rw (ends_with-append suffix s) (
    ap (λ n. take n (s ++ suffix)) (front-length s suffix (length suffix) refl)
    ∙ take_front s suffix)

-- A text with another ending of the same length keeps it.
without_suffix_other :
    (suffix s t : Text)
    → length t ≡ length suffix
    → same_text t suffix ≡ false
    → without_suffix suffix (s ++ t) ≡ s ++ t
unfolding without_suffix ends_with
without_suffix_other suffix s t l n =
    let back : drop (length (s ++ t) - length suffix) (s ++ t) ≡ t =
      ap (λ k. drop k (s ++ t)) (front-length s t (length suffix) l) ∙ drop_front s t in
    let no_end : ends_with suffix (s ++ t) ≡ false =
      ground (arith, ap (λ u. same_text u suffix) back ∙ n) in
    rw no_end refl

-- `YYYYMMDD-HHMMSS`
abbrev pub Stamp : Text → Type 0
Stamp stamp = (length stamp ≡ 15) × (is_stamp 0 stamp ≡ true)

strip_stamp-append :
    (front stamp : Text)
    → 0 < length front
    → Stamp stamp
    → strip_stamp (front ++ b'-' ∷ stamp) ≡ front
unfolding strip_stamp
strip_stamp-append front stamp l (n, ok_) =
    let base = front ++ b'-' ∷ stamp in
    let len = length-append {0} front (b'-' ∷ stamp) in
    let long : ltb (length base) 17 ≡ false = le→ltb (length base) 17 (omega (arith, len, n, l)) in
    let start : length base - 15 ≡ length (front ++ b'-' ∷ []) =
      omega (arith, len, n, length-append {0} front (b'-' ∷ [])) in
    let dash : length base - 15 - 1 ≡ length front = omega (arith, len, n) in
    let tail : drop (length base - 15) base ≡ stamp =
      ap (λ k. drop k base) start
      ∙ ap (drop (length (front ++ b'-' ∷ []))) (sym (append_assoc front (b'-' ∷ []) stamp))
      ∙ drop_front (front ++ b'-' ∷ []) stamp in
    let stamped : is_stamp 0 (drop (length base - 15) base) ≡ true = ap (is_stamp 0) tail ∙ ok_ in
    let dashed : is_dash (get_elem? base (length base - 15 - 1)) ≡ true =
      ap (λ k. is_dash (get_elem? base k)) dash ∙ ap is_dash (get_elem_front front b'-' stamp) in
    rw long (rw stamped (rw dashed (ap (λ k. take k base) dash ∙ take_front front (b'-' ∷ stamp))))

abbrev pub ending : Bool → Text
ending encrypted = codes (if encrypted then ".dump.age" else ".dump")

group_of-append :
    (front stamp : Text) (encrypted : Bool)
    → 0 < length front
    → Stamp stamp
    → group_of ((front ++ b'-' ∷ stamp) ++ ending encrypted) ≡ some front
unfolding group_of
group_of-append front stamp true l s =
    let base = front ++ b'-' ∷ stamp in
    let age = codes ".age" in
    let whole : base ++ ending true ≡ (base ++ codes ".dump") ++ age =
      sym (append_assoc base (codes ".dump") age) in
    let bare : without_suffix (codes ".dump") (without_suffix age (base ++ ending true)) ≡ base =
      ap (λ x. without_suffix (codes ".dump") (without_suffix age x)) whole
      ∙ ap (without_suffix (codes ".dump")) (without_suffix-append age (base ++ codes ".dump"))
      ∙ without_suffix-append (codes ".dump") base in
    let dump : (ends_with (codes ".dump") (base ++ ending true)
          || ends_with (codes ".dump.age") (base ++ ending true))
        ≡ true =
      ground (arith, ends_with-append (codes ".dump.age") base) in
    rw dump (ap some (ap strip_stamp bare ∙ strip_stamp-append front stamp l s))
group_of-append front stamp false l s =
    let base = front ++ b'-' ∷ stamp in
    let age = codes ".age" in
    let whole : base ++ ending false ≡ (base ++ b'.' ∷ []) ++ codes "dump" =
      sym (append_assoc base (b'.' ∷ []) (codes "dump")) in
    let kept : without_suffix age (base ++ ending false) ≡ base ++ ending false =
      subst (λ x. without_suffix age x ≡ x) (sym whole)
        (without_suffix_other age (base ++ b'.' ∷ []) (codes "dump") refl
          (unfold same_text in refl)) in
    let bare : without_suffix (codes ".dump") (without_suffix age (base ++ ending false)) ≡ base =
      ap (without_suffix (codes ".dump")) kept ∙ without_suffix-append (codes ".dump") base in
    let dump : (ends_with (codes ".dump") (base ++ ending false)
          || ends_with (codes ".dump.age") (base ++ ending false))
        ≡ true =
      ground (arith, ends_with-append (codes ".dump") base) in
    rw dump (ap some (ap strip_stamp bare ∙ strip_stamp-append front stamp l s))

-- The group that rotation reads off the name of a dump is the machine and the database that the name was
-- made of, whatever they are called, whenever the dump was taken and whether it is encrypted: dumps of a
-- database from all days share one window.
pub group_of-dump_name :
    (hostname uri stamp : Text) (encrypted : Bool)
    → Stamp stamp
    → group_of (dump_name hostname uri stamp encrypted)
      ≡ some (sanitize_label hostname ++ b'-' ∷ db_name_from_uri uri)
unfolding dump_name
group_of-dump_name hostname uri stamp encrypted s =
    let host = sanitize_label hostname in
    let db = db_name_from_uri uri in
    let front = host ++ b'-' ∷ db in
    let long : 0 < length front = omega (arith, length-append {0} host (b'-' ∷ db)) in
    group_of-append front stamp encrypted long s

-- A label has no character but letters, digits, `-` and `_`: it names no other directory.
pub sanitize_label-All : (s : Text) → All (λ c. is_label c ≡ true) (sanitize_label s)
unfolding sanitize_label
sanitize_label-All [] = tt
sanitize_label-All (c ∷ s) = elim (Bool-cases (is_label c)) [
  | inl e ↦ rw e (e, sanitize_label-All s)
  | inr e ↦ rw e (refl, sanitize_label-All s)
]
