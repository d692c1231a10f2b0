-- ===== src/Pipeline/Polling.antt =====
-- The remote poller of src/bin/malkuth/pipeline.rs over lists of samples.
use malkuth.Prelude.{
  if◌then◌else◌, Bool-cases, ℕ_key, string_key, ◌≡◌, refl, sym, ◌∙◌, inl, inr, Option, none, some,
  List, [], ◌∷◌, ◌++◌, append-nil, append_assoc,
}
use malkuth.Pipeline.{Text, same_text, poll, poll_all}

-- The samples that succeeded.
abbrev pub samples : List (Option Text) → List Text
samples [] = []
samples (none ∷ ps) = samples ps
samples (some sha ∷ ps) = sha ∷ samples ps

-- The samples that differ from the one just before them, of which the first is `prev`.
unfoldable pub changes : Text → List Text → List Text
unfolding same_text
changes prev [] = []
changes prev (sha ∷ shas) = if same_text prev sha then changes sha shas else sha ∷ changes sha shas

abbrev pub all_changes : List Text → List Text
all_changes [] = []
all_changes (sha ∷ shas) = changes sha shas

poll_all-changes :
    (ps : List (Option Text)) (prev : Text) (sent : List Text)
    → (poll_all ps (record { baseline = some prev; sent = sent })).sent
      ≡ sent ++ changes prev (samples ps)
unfolding poll_all poll changes
poll_all-changes [] prev sent = sym (append-nil sent)
poll_all-changes (none ∷ ps) prev sent = poll_all-changes ps prev sent
poll_all-changes (some sha ∷ ps) prev sent = elim (Bool-cases (same_text prev sha)) [
  | inl e ↦ rw (e, changes, poll_all, poll) (poll_all-changes ps sha sent)
  | inr e ↦
      rw (e, changes, poll_all, poll)
        (poll_all-changes ps sha (sent ++ sha ∷ [])
          ∙ append_assoc sent (sha ∷ []) (changes sha (samples ps)))
]

-- The poller fires exactly for the samples that differ from the one before, in order: the first only
-- sets the baseline, and failed probes change nothing.
pub poll_all_lem :
    (ps : List (Option Text))
    → (poll_all ps (record { baseline = none; sent = [] })).sent ≡ all_changes (samples ps)
unfolding poll_all poll
poll_all_lem [] = refl
poll_all_lem (none ∷ ps) = poll_all_lem ps
poll_all_lem (some sha ∷ ps) = poll_all-changes ps sha []
