-- ===== src/Pipeline/Specs.antt =====
-- The specs of stages and remotes in src/bin/malkuth/pipeline.rs, joined and split.
use malkuth.Prelude.{
  eqb, eqb_iff, ℕ_key, string_key, trim, is_empty, All, ok, ℕ, ◌≡◌, refl, true, false, some, [],
  ◌∷◌, ◌++◌,
}
use malkuth.Pipeline.{Text, split_once, stage_of, parse_stage, remote_of, parse_remote_spec}

-- A text without the separator.
abbrev pub Without : ℕ → Text → Type 0
Without sep t = All (λ c. eqb c sep ≡ false) t

-- The first separator splits: what follows may hold more of them.
split_once-append :
    (sep : ℕ) (a b : Text) → Without sep a → split_once sep (a ++ sep ∷ b) ≡ some (a, b)
unfolding split_once
split_once-append sep [] b w = let e : eqb sep sep ≡ true = (eqb_iff sep sep).1 refl in rw e refl
split_once-append sep (c ∷ a) b w = let ih = split_once-append sep a b w.1 in rw w.0 (rw ih refl)

-- A stage spec that joins a name without `=`, not blank, and any command is read back as both, the
-- name trimmed.
pub parse_stage-append :
    (name cmd : Text)
    → Without b'=' name
    → is_empty (trim name) ≡ false
    → parse_stage (name ++ b'=' ∷ cmd) ≡ ok (record { name = some (trim name); cmd = cmd })
unfolding parse_stage stage_of
parse_stage-append name cmd w e = rw (split_once-append b'=' name cmd w) (rw e refl)

-- A remote spec that joins a URL without `#` and a ref, neither empty, is read back as both.
pub parse_remote_spec-append :
    (url ref : Text)
    → Without b'#' url
    → is_empty url ≡ false
    → is_empty ref ≡ false
    → parse_remote_spec (url ++ b'#' ∷ ref) ≡ ok (url, ref)
unfolding parse_remote_spec remote_of
parse_remote_spec-append url ref w e f = rw (split_once-append b'#' url ref w) (rw e (rw f refl))
