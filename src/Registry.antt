-- ===== src/Registry.antt =====
-- The in-memory registry of src/registry.rs: instances by group and id. The order of a `HashMap`'s
-- values is the order of the dictionary here; a mutex is never poisoned.
pub mod Members
mod Tests
use malkuth.Prelude.{
  ltb, leb, eqb, if◌then◌else◌, ltb→lt, lt→ltb, le→ltb, ltb→le, leb→le, le→leb, eqb_iff, tests,
  Bool-cases, Option-cases, is_some, Key, ℕ_key, string_key, ◌==◌, eq_iff, eq_refl, ne→beq, length,
  get_elem?, take, drop, retain, any, all, position, length-append, length-take, length-drop,
  length-retain, take_all, set, count_by, count_by-append, count_by-reverse, count_by-retain,
  is_blank, is_ws, byte_len, is_char_boundary, prefix, truncate, floor_boundary, len_utf8,
  floor_boundary-is_char_boundary, floor_boundary-le, byte_len-prefix, codes, trim, trim_start,
  trim_end, is_empty, reverse-cons, reverse-reverse, In, All, All-append, All-retain, retain-All,
  Dict, get, insert, remove, adjust, get-insert, get-remove, get-adjust, get-insert_self, Result,
  ok, err, ◌>>=◌, ◌>>◌, ℕ, zero, suc, ◌+◌, ◌-◌, ◌*◌, ◌/◌, ◌%◌, ◌^◌, ◌≤◌, ◌<◌, min, max, String, ◌≡◌,
  refl, sym, ap, subst, ◌∙◌, ◌≢◌, ◌↔◌, ◌⊎◌, inl, inr, Bool, true, false, not, ◌&&◌, ◌||◌, Option,
  none, some, List, [], ◌∷◌, ◌++◌, map, reverse, append-nil, append_assoc, arith,
}

pub data InstanceRole : Type 0 where
  active : InstanceRole
  draining : InstanceRole

pub record InstanceInfo : Type 0 where
  pub instance_id : String
  pub group : String
  pub role : InstanceRole
  pub generation : ℕ
  pub started_at : String
  pub endpoint : Option String
  pub backend : Option String

abbrev pub Group : Type 0
Group = Dict String InstanceInfo

abbrev pub Groups : Type 0
Groups = Dict String Group

abbrev pub or_default : Option Group → Group
or_default none = []
or_default (some members) = members

unfoldable pub register : InstanceInfo → Groups → Groups
unfolding get insert
register info g = insert info.group (insert info.instance_id info (or_default (get info.group g))) g

-- The loops over the groups: `none` is `NotFound`.
unfoldable pub set_role : String → InstanceRole → Groups → Option Groups
unfolding get insert
set_role id role [] = none
set_role id role ((group, members) ∷ rest) = elim (get id members) [
  | some info ↦ some ((group, insert id (record info { role = role }) members) ∷ rest)
  | none ↦ elim (set_role id role rest) [
    | none ↦ none
    | some rest' ↦ some ((group, members) ∷ rest')
  ]
]

unfoldable pub deregister : String → Groups → Option Groups
unfolding get remove
deregister id [] = none
deregister id ((group, members) ∷ rest) = elim (get id members) [
  | some info ↦ some ((group, remove id members) ∷ rest)
  | none ↦ elim (deregister id rest) [ none ↦ none | some rest' ↦ some ((group, members) ∷ rest') ]
]

unfoldable pub list : String → Groups → List InstanceInfo
unfolding get
list group g = map (λ p. p.1) (or_default (get group g))
