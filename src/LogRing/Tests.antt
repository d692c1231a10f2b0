-- ===== src/LogRing/Tests.antt =====
-- Captures of short streams, and the theorems at them.
use malkuth.Prelude.{ℕ_key, string_key, codes, trim_end, ℕ, ◌≡◌, refl, some, List, [], ◌∷◌}
use malkuth.LogRing.{Text, capture_stream}
use malkuth.LogRing.Chunks.{capture_stream_lem}

-- ASCII bytes stand for themselves.
abbrev ascii : List ℕ → Text
ascii bs = bs

captured :
    capture_stream ascii (codes "up\n do" ∷ codes "wn \n\nend" ∷ []) []
    ≡ some (codes "up" ∷ codes " down" ∷ codes "end" ∷ [])
unfolding capture_stream trim_end
captured = refl

capture_stream_lem_example :
    (r : List Text) × (capture_stream ascii (codes "a\nb" ∷ codes "c\n" ∷ []) [] ≡ some r)
    × (capture_stream ascii (codes "a" ∷ codes "\nbc\n" ∷ []) [] ≡ some r)
capture_stream_lem_example =
    capture_stream_lem ascii (codes "a\nb" ∷ codes "c\n" ∷ []) (codes "a" ∷ codes "\nbc\n" ∷ []) []
      refl
