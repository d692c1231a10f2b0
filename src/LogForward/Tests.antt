-- ===== src/LogForward/Tests.antt =====
-- A short stream, forwarded, and the properties applied to it.
use malkuth.Prelude.{ℕ_key, string_key, codes, ℕ, ◌≡◌, refl, some, List, [], ◌∷◌}
use malkuth.LogForward.{Text, Emission, logged, summarized, Forward, forward, emit, Emission}
use malkuth.LogForward.Reports.{Reports}

abbrev stream : List (ℕ × Text)
stream = (5, codes " up ") ∷ (6, codes "  ") ∷ (7, codes "ready") ∷ []

abbrev out : List Emission
out = logged (codes "up") ∷ logged (codes "ready") ∷ []

forwarded_stream : forward 0 stream [] ≡ some (out, codes "up" ∷ codes "ready" ∷ [])
unfolding forward
forwarded_stream = refl

abbrev flooded : Forward
flooded = record {
  window_start = 0;
  window_count = 200;
  dropped = 7;
  last_summary = 0;
  ring = [];
  emitted = [];
}

summary_when_due :
    emit 6000 (codes "x") flooded
    ≡ some (record flooded { dropped = 0; last_summary = 6000; emitted = summarized 8 ∷ [] })
unfolding emit
summary_when_due = refl
