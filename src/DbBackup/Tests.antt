-- ===== src/DbBackup/Tests.antt =====
-- A directory with dumps of two databases, and the properties applied.
use malkuth.Prelude.{
  ℕ_key, string_key, codes, ◌≡◌, refl, Bool, true, false, some, List, [], ◌∷◌, ◌++◌, map,
}
use malkuth.LogRing.{Text}
use malkuth.DbBackup.{
  same_text, sanitize_label, db_name_from_uri, dump_name, group_of, rotate, is_stamp,
}
use malkuth.DbBackup.Stale.{among}
use malkuth.DbBackup.Windows.{DirFile, dump, other, name_of}
use malkuth.DbBackup.Stamps.{group_of-dump_name}

abbrev stamp : Text
stamp = codes "20260805-020000"

two_servers_share_a_name :
    db_name_from_uri (codes "postgres://one/app") ≡ db_name_from_uri (codes "postgres://two/app")
unfolding db_name_from_uri
two_servers_share_a_name = refl

group_of-dump_name_example :
    group_of (dump_name (codes "host") (codes "postgres://h/app-1") stamp true)
    ≡ some (sanitize_label (codes "host") ++ b'-' ∷ db_name_from_uri (codes "postgres://h/app-1"))
group_of-dump_name_example =
    group_of-dump_name (codes "host") (codes "postgres://h/app-1") stamp true
      (refl, unfold is_stamp in refl)

abbrev dump_of : Text → Text → Bool → DirFile
dump_of uri stamp encrypted =
    dump (record { hostname = codes "h"; uri = uri; stamp = stamp; encrypted = encrypted })

abbrev oldest : DirFile
oldest = dump_of (codes "a://x/a") (codes "20260803-020000") false

abbrev dir : List DirFile
dir =
    dump_of (codes "a://x/a") (codes "20260804-020000") true
    ∷ oldest
    ∷ other (codes "README")
    ∷ dump_of (codes "a://x/b") (codes "20260801-020000") false
    ∷ dump_of (codes "a://x/a") (codes "20260805-020000") false
    ∷ []

oldest_goes : among (name_of oldest) (rotate 2 (λ f. true) (map name_of dir)) ≡ false
unfolding rotate same_text dump_name
oldest_goes = refl
