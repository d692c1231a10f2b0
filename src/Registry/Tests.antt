-- ===== src/Registry/Tests.antt =====
-- Two instances, and the properties of the registry applied.
use malkuth.Prelude.{ℕ_key, string_key, ◌≡◌, refl, ◌⊎◌, none, some, [], ◌∷◌}
use malkuth.Registry.{InstanceInfo, active, draining, Groups, register, set_role, deregister, list}
use malkuth.Registry.Members.{TakenOut, places, deregister_lem}

abbrev info_a : InstanceInfo
info_a = record {
  instance_id = "a";
  group = "g";
  role = active;
  generation = 1;
  started_at = "1970-01-01T00:00:00Z";
  endpoint = none;
  backend = none;
}

abbrev moved : InstanceInfo
moved = record info_a { group = "h" }

abbrev both : Groups
both = ("g", ("a", info_a) ∷ []) ∷ ("h", ("a", moved) ∷ []) ∷ []

first_group_only :
    set_role "a" draining both
    ≡ some (("g", ("a", record info_a { role = draining }) ∷ []) ∷ ("h", ("a", moved) ∷ []) ∷ [])
unfolding set_role
first_group_only = refl

listed_h : list "h" (register moved (("g", ("a", info_a) ∷ []) ∷ [])) ≡ moved ∷ []
unfolding list register
listed_h = refl

deregister_lem_example :
    ((deregister "a" both ≡ none) × (places "a" both ≡ 0))
    ⊎ ((g' : Groups) × (deregister "a" both ≡ some g') × TakenOut "a" "h" "b" both g')
deregister_lem_example = deregister_lem "a" "h" "b" both refl
