-- ===== src/Codec/RoundTrip.antt =====
-- `read_msg` (src/codec.rs) on a stream that `write_msg` wrote, under any division into reads.
use malkuth.Prelude.{
  ℕ_key, string_key, length, is_empty, All, ℕ, zero, suc, ◌≡◌, refl, ◌∙◌, false, Option, none, some,
  List, [], ◌∷◌, ◌++◌, map, append_assoc, arith,
}
use malkuth.Codec.{Json, Read, bytes, message, closed, error, pending, read_msg, write_msg}
use malkuth.Codec.Reading.{join, Prints, read_msg-next}

module _ (json : Json) where
  -- The bytes that `write_msg` puts on the wire, one message after another.
  unfoldable pub wire : List json.Value → List ℕ
  wire [] = []
  wire (v ∷ vs) = write_msg json v ++ wire vs

  abbrev prepend : json.Value → Option (List json.Value) → Option (List json.Value)
  prepend v none = none
  prepend v (some vs) = some (v ∷ vs)

  -- `read_msg` again and again until it reports the end; `none` where it fails, waits, or the fuel,
  -- one for each message and one for the end, runs out.
  unfoldable pub receive : ℕ → List Read → List ℕ → Option (List json.Value)
  receive zero reads buf = none
  receive (suc fuel) reads buf = elim (read_msg json reads buf) [
    | message v buf' reads' ↦ prepend v (receive fuel reads' buf')
    | closed ↦ some []
    | error e buf' reads' ↦ none
    | pending buf' ↦ none
  ]

  abbrev at_end : List Read
  at_end = bytes [] ∷ []

  receive-nil :
      (chunks : List (List ℕ)) (buf : List ℕ)
      → All (λ c. is_empty c ≡ false) chunks
      → buf ++ join chunks ≡ []
      → receive 1 (map bytes chunks ++ at_end) buf ≡ some []
  unfolding receive read_msg
  receive-nil [] [] ne e = refl
  receive-nil [] (b ∷ buf) ne e = absurd (ground arith)
  receive-nil ([] ∷ cs) buf ne e = absurd (cc ne.0)
  receive-nil ((c ∷ cs) ∷ chunks) [] ne e = absurd (ground arith)
  receive-nil ((c ∷ cs) ∷ chunks) (b ∷ buf) ne e = absurd (ground arith)

  receive-wire :
      (vs : List json.Value) (chunks : List (List ℕ)) (buf : List ℕ)
      → All (Prints json) vs
      → All (λ c. is_empty c ≡ false) chunks
      → buf ++ join chunks ≡ wire vs
      → receive (suc (length vs)) (map bytes chunks ++ at_end) buf ≡ some vs
  unfolding receive wire write_msg
  receive-wire [] chunks buf h ne e = receive-nil chunks buf ne e
  receive-wire (v ∷ vs) chunks buf h ne e =
      let (buf', chunks', r, e', ne') =
        read_msg-next json v h.0 chunks buf (wire vs) at_end ne
          (e ∙ append_assoc (json.to_vec v) (b'\n' ∷ []) (wire vs)) in
      rw (r, receive) (rw (receive-wire vs chunks' buf' h.1 ne' e') refl)

  -- Messages none of which is null, and which `serde_json` parses back from what it prints, are read
  -- back after they are written one after another: all of them and in order, and then the end of the
  -- stream, however the bytes of the stream fall into reads.
  pub receive-write_msg :
      (vs : List json.Value) (chunks : List (List ℕ))
      → All (Prints json) vs
      → All (λ c. is_empty c ≡ false) chunks
      → join chunks ≡ wire vs
      → receive (suc (length vs)) (map bytes chunks ++ at_end) [] ≡ some vs
  receive-write_msg vs chunks h ne e = receive-wire vs chunks [] h ne e
