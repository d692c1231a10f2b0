-- ===== src/Codec/Tests.antt =====
-- Framing with a toy JSON: a value is a number, printed as that many `1`s, and null is 0.
use malkuth.Prelude.{
  eqb, if◌then◌else◌, ℕ_key, string_key, codes, ℕ, zero, suc, ◌≡◌, refl, Option, none, some, List,
  [], ◌∷◌,
}
use malkuth.Codec.{Json, bytes, read_msg, write_msg, message, error, unexpected_eof}
use malkuth.Codec.Reading.{Prints}
use malkuth.Codec.RoundTrip.{wire, receive, receive-write_msg}

abbrev ones : ℕ → List ℕ
ones zero = []
ones (suc n) = b'1' ∷ ones n

abbrev count_ones : List ℕ → Option ℕ
count_ones [] = none
count_ones (b ∷ bs) =
    let rest = count_ones bs in
    if eqb b b'\n' then some 0 else elim rest [ none ↦ none | some n ↦ some (suc n) ]

abbrev toy : Json
toy = record { Value = ℕ; null = 0; is_null = λ v. eqb v 0; from_slice = count_ones; to_vec = ones }

two-Prints : Prints toy 2
two-Prints = record {
  no_newline = (refl, (refl, tt));
  not_blank = refl;
  parses = refl;
  not_null = refl;
}

mid_frame :
    read_msg toy (bytes (codes "11\n1") ∷ bytes [] ∷ []) [] ≡ message 2 (codes "1") (bytes [] ∷ [])
unfolding read_msg
mid_frame = refl

cut_off : read_msg toy (bytes [] ∷ []) (codes "1") ≡ error unexpected_eof (codes "1") []
unfolding read_msg
cut_off = refl

receive-write_msg_example :
    receive toy 3
      (bytes (codes "1") ∷ bytes (codes "1\n11") ∷ bytes (codes "\n") ∷ bytes [] ∷ [])
      []
    ≡ some (2 ∷ 2 ∷ [])
unfolding wire write_msg
receive-write_msg_example =
    receive-write_msg toy (2 ∷ 2 ∷ []) (codes "1" ∷ codes "1\n11" ∷ codes "\n" ∷ [])
      (two-Prints, (two-Prints, tt)) (refl, (refl, (refl, tt))) refl
