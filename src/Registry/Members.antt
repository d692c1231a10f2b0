-- ===== src/Registry/Members.antt =====
-- Who is registered where, by the operations of src/registry.rs.
use malkuth.Prelude.{
  if◌then◌else◌, Bool-cases, Option-cases, is_some, ℕ_key, string_key, ◌==◌, eq_iff, eq_refl,
  count_by, get, insert, remove, get-insert, get-remove, ℕ, suc, String, ◌≡◌, refl, sym, ap, ◌∙◌,
  ◌⊎◌, inl, inr, true, false, ◌&&◌, Option, none, some, [], ◌∷◌, arith,
}
use malkuth.Registry.{InstanceInfo, Group, Groups, or_default, register, deregister}

-- The instance as a group holds it.
abbrev pub lookup : String → String → Groups → Option InstanceInfo
lookup group id g = get id (or_default (get group g))

-- A registration shows under its own group and id, in place of what was there, and nowhere else.
pub register_lem :
    (info : InstanceInfo) (group id : String) (g : Groups)
    → lookup group id (register info g)
      ≡ (if (info.group == group) && (info.instance_id == id) then some info else lookup group id g)
unfolding register
register_lem info group id g =
    let members = insert info.instance_id info (or_default (get info.group g)) in
    elim (Bool-cases (info.group == group)) [
      | inr e ↦ rw (get-insert info.group group members g) (rw e refl)
      | inl e ↦
          let same : info.group ≡ group = (eq_iff info.group group).0 e in
          rw (get-insert info.group group members g) (
            rw e (
              get-insert info.instance_id id info (or_default (get info.group g))
              ∙ ap
                  (λ k. if info.instance_id == id then some info else get id (or_default (get k g)))
                  same))
    ]

-- The number of groups that hold an instance of this id.
abbrev pub places : String → Groups → ℕ
places id g = count_by (λ (p : String × Group). is_some (get id p.1)) g

get-remove_self : (id : String) (members : Group) → get id (remove id members) ≡ none
get-remove_self id members = get-remove id id members ∙ rw (eq_refl id) refl

-- What a group holds when the first entry of the groups is its own, and when it is another's.
lookup_here :
    (k group j : String) (m : Group) (g : Groups)
    → (k == group) ≡ true
    → lookup group j ((k, m) ∷ g) ≡ get j m
unfolding get
lookup_here k group j m g e = rw e refl

lookup_there :
    (k group j : String) (m : Group) (g : Groups)
    → (k == group) ≡ false
    → lookup group j ((k, m) ∷ g) ≡ lookup group j g
unfolding get
lookup_there k group j m g e = rw e refl

-- What a deregistration of `id` makes of the groups: the id is gone from one of them, a group has lost
-- it or is as before in this, and every other instance is where it was.
abbrev pub TakenOut : String → String → String → Groups → Groups → Type 0
TakenOut id group j g g' =
    (places id g ≡ suc (places id g'))
    × ((lookup group id g' ≡ none) ⊎ (lookup group id g' ≡ lookup group id g))
    × (lookup group j g' ≡ lookup group j g)

take_out :
    (id k group j : String) (m : Group) (g : Groups) (info : InstanceInfo)
    → get id m ≡ some info
    → (id == j) ≡ false
    → TakenOut id group j ((k, m) ∷ g) ((k, remove id m) ∷ g)
take_out id k group j m g info e other =
    let gone = get-remove_self id m in
    let count : places id ((k, m) ∷ g) ≡ suc (places id ((k, remove id m) ∷ g)) =
      rw e (rw gone (omega arith)) in
    elim (Bool-cases (k == group)) [
      | inl here ↦ (
        count,
        inl (lookup_here k group id (remove id m) g here ∙ gone),
        lookup_here k group j (remove id m) g here
            ∙ get-remove id j m
            ∙ rw other (sym (lookup_here k group j m g here)),
      )
      | inr there ↦
          let same : (i : String)
              → lookup group i ((k, remove id m) ∷ g) ≡ lookup group i ((k, m) ∷ g) =
            λ i.
              lookup_there k group i (remove id m) g there
              ∙ sym (lookup_there k group i m g there) in
          (count, inr (same id), same j)
    ]

pass_over :
    (id k group j : String) (m : Group) (g g' : Groups)
    → get id m ≡ none
    → TakenOut id group j g g'
    → TakenOut id group j ((k, m) ∷ g) ((k, m) ∷ g')
pass_over id k group j m g g' e (count, mine, others) =
    let more : places id ((k, m) ∷ g) ≡ suc (places id ((k, m) ∷ g')) =
      rw e (omega (arith, count)) in
    elim (Bool-cases (k == group)) [
      | inl here ↦
          let same : (i : String) → lookup group i ((k, m) ∷ g') ≡ lookup group i ((k, m) ∷ g) =
            λ i. lookup_here k group i m g' here ∙ sym (lookup_here k group i m g here) in
          (more, inr (same id), same j)
      | inr there ↦
          let old : (i : String) → lookup group i ((k, m) ∷ g) ≡ lookup group i g =
            λ i. lookup_there k group i m g there in
          let new : (i : String) → lookup group i ((k, m) ∷ g') ≡ lookup group i g' =
            λ i. lookup_there k group i m g' there in
          (
            more,
            elim mine [ inl n ↦ inl (new id ∙ n) | inr n ↦ inr (new id ∙ n ∙ sym (old id)) ],
            new j ∙ others ∙ sym (old j),
          )
    ]

-- Deregistration reports an unknown instance exactly where no group holds it. Otherwise it takes it out
-- of one group and leaves it in any other group, so that an instance that was registered under two
-- groups is still registered; and every other instance is left in every group as it was.
pub deregister_lem :
    (id group j : String) (g : Groups)
    → (id == j) ≡ false
    → ((deregister id g ≡ none) × (places id g ≡ 0))
      ⊎ ((g' : Groups) × (deregister id g ≡ some g') × TakenOut id group j g g')
unfolding deregister
deregister_lem id group j [] other = inl (refl, refl)
deregister_lem id group j ((k, members) ∷ rest) other = elim (Option-cases (get id members)) [
  | inr (info, e) ↦ inr (
    (k, remove id members) ∷ rest,
    rw (e, deregister) refl,
    take_out id k group j members rest info e other,
  )
  | inl e ↦ elim (deregister_lem id group j rest other) [
    | inl (u, n) ↦ inl (rw (e, deregister) (rw u refl), rw e (omega (arith, n)))
    | inr (g', u, t) ↦ inr (
      (k, members) ∷ g',
      rw (e, deregister) (rw u refl),
      pass_over id k group j members rest g' e t,
    )
  ]
]
