-- ===== src/Mcp/Paging/Cuts.antt =====
-- Cuts at character boundaries, as `page_logs` of src/mcp.rs makes them from the head of a text.
use malkuth.Prelude.{
  ltb, eqb, ltb→le, Bool-cases, ℕ_key, string_key, byte_len, is_char_boundary, len_utf8, ℕ, zero,
  suc, ◌+◌, ◌-◌, ◌≤◌, ◌<◌, ◌≡◌, inl, inr, true, [], ◌∷◌, ◌++◌, arith,
}
use malkuth.LogRing.{Text}
use malkuth.Mcp.Paging.{ceil_boundary, next_boundary, suffix, get_from}

pub byte_len-append : (s t : Text) → byte_len (s ++ t) ≡ byte_len s + byte_len t
unfolding byte_len
byte_len-append [] t = omega arith
byte_len-append (c ∷ s) t = omega (arith, byte_len-append s t)

ceil_boundary-ge : (fuel : ℕ) (s : Text) (cut : ℕ) → cut ≤ ceil_boundary fuel s cut
unfolding ceil_boundary
ceil_boundary-ge zero s cut = omega arith
ceil_boundary-ge (suc fuel) s cut = ground (arith, ceil_boundary-ge fuel s (suc cut))

pub next_boundary-ge : (s : Text) (cut : ℕ) → cut ≤ next_boundary s cut
unfolding next_boundary
next_boundary-ge s cut = ceil_boundary-ge (byte_len s - cut) s cut

len_utf8-pos : (c : ℕ) → 0 < len_utf8 c
len_utf8-pos c = ground arith

byte_len-suffix :
    (s : Text) (i : ℕ) → is_char_boundary s i ≡ true → byte_len (suffix s i) + i ≤ byte_len s
unfolding byte_len suffix is_char_boundary
byte_len-suffix [] i b = ground (arith, b)
byte_len-suffix (c ∷ cs) i b = elim (Bool-cases (eqb i 0)) [
  | inl e ↦ rw e (ground (arith, e))
  | inr e ↦ elim (Bool-cases (ltb i (len_utf8 c))) [
    | inl u ↦ absurd (cc (rw u at (rw e at b)))
    | inr u ↦
        let b' : is_char_boundary cs (i - len_utf8 c) ≡ true = rw u at (rw e at b) in
        let ih = byte_len-suffix cs (i - len_utf8 c) b' in
        rw e (omega (arith, ih, ltb→le i (len_utf8 c) u))
  ]
]

-- What is left from `cut` on is at most the rest, also where `get` fails.
pub byte_len-get_from : (s : Text) (cut : ℕ) → byte_len (get_from s cut) ≤ byte_len s - cut
unfolding get_from
byte_len-get_from s cut = elim (Bool-cases (is_char_boundary s cut)) [
  | inl e ↦ rw e (omega (arith, byte_len-suffix s cut e))
  | inr e ↦ rw e (unfold byte_len in omega arith)
]
