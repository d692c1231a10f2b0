-- ===== src/Pipeline/Tests.antt =====
-- The parts of the pipeline on small inputs, and their properties applied.
use malkuth.Prelude.{
  ℕ_key, string_key, codes, ok, err, ◌≡◌, refl, Option, none, some, List, [], ◌∷◌,
}
use malkuth.Pipeline.{
  Text, parse_stage, empty_part, no_separator, poll_all, sha_of, run_shell_stage, finished,
}
use malkuth.Pipeline.Backoff.{Outcome, failed, succeeded}
use malkuth.Pipeline.Polling.{samples, all_changes, poll_all_lem}

no_name : parse_stage (codes "=cmd") ≡ err empty_part
unfolding parse_stage
no_name = refl

no_equals : parse_stage (codes "nonsense") ≡ err no_separator
unfolding parse_stage
no_equals = refl

first_field : sha_of (codes "abc\tHEAD" ∷ []) ≡ some (codes "abc")
unfolding sha_of
first_field = refl

tagged :
    run_shell_stage
      (some (record { name = some (codes "web"); cmd = [] }))
      (finished (codes " ok " ∷ codes "" ∷ []) 0)
      ([], none)
    ≡ (ok tt, (codes "[web] ok" ∷ [], none))
unfolding run_shell_stage
tagged = refl

abbrev history : List Outcome
history = failed 1 ∷ succeeded ∷ failed 100 ∷ failed 200 ∷ []

abbrev probes : List (Option Text)
probes =
    none ∷ some (codes "a") ∷ some (codes "a") ∷ none ∷ some (codes "b") ∷ some (codes "a") ∷ []

poll_all_lem_example :
    (poll_all probes (record { baseline = none; sent = [] })).sent ≡ all_changes (samples probes)
poll_all_lem_example = poll_all_lem probes
