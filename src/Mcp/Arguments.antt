-- ===== src/Mcp/Arguments.antt =====
-- The arguments of the control tools, and how src/mcp.rs reads them.
pub mod Ids
use malkuth.Prelude.{
  ltb, leb, eqb, if◌then◌else◌, ltb→lt, lt→ltb, le→ltb, ltb→le, leb→le, le→leb, eqb_iff, tests,
  Bool-cases, Option-cases, is_some, Key, ℕ_key, string_key, ◌==◌, eq_iff, eq_refl, ne→beq, length,
  get_elem?, take, drop, retain, any, all, position, length-append, length-take, length-drop,
  length-retain, take_all, set, count_by, count_by-append, count_by-reverse, count_by-retain,
  is_blank, is_ws, byte_len, is_char_boundary, prefix, truncate, floor_boundary, len_utf8,
  floor_boundary-is_char_boundary, floor_boundary-le, byte_len-prefix, codes, trim, trim_start,
  trim_end, is_empty, reverse-cons, reverse-reverse, In, All, All-append, All-retain, retain-All,
  Dict, get, insert, remove, adjust, get-insert, get-remove, get-adjust, get-insert_self, Result,
  ok, err, ◌>>=◌, ◌>>◌, ℕ, zero, suc, ◌+◌, ◌-◌, ◌*◌, ◌/◌, ◌%◌, ◌^◌, ◌≤◌, ◌<◌, min, max, String, ◌≡◌,
  refl, sym, ap, subst, ◌∙◌, ◌≢◌, ◌↔◌, ◌⊎◌, inl, inr, Bool, true, false, not, ◌&&◌, ◌||◌, Option,
  none, some, List, [], ◌∷◌, ◌++◌, map, reverse, append-nil, append_assoc, arith,
}
use Prim.Native.Char.{code}
use malkuth.Lifecycle.{ShutdownKind, graceful, immediate}
use malkuth.DrainAuth.{GateDecision, allow, review, block}
use malkuth.Worker.{RestartPolicy, permanent, transient, temporary}

-- `str::to_ascii_lowercase`
unfoldable pub lowercase : List ℕ → List ℕ
lowercase [] = []
lowercase (c ∷ cs) = (if leb 65 c && leb c 90 then c + 32 else c) ∷ lowercase cs

unfoldable pub same_codes : List ℕ → List ℕ → Bool
same_codes [] [] = true
same_codes [] (_ ∷ _) = false
same_codes (_ ∷ _) [] = false
same_codes (c ∷ cs) (d ∷ ds) = eqb c d && same_codes cs ds

-- `raw.map(str::trim).map(str::to_ascii_lowercase)`, where a missing text and an empty one match the
-- same arm.
unfoldable pub word_of : Option String → List ℕ
unfolding lowercase trim
word_of none = []
word_of (some raw) = lowercase (trim (codes raw))

abbrev pub one_of : List ℕ → List String → Bool
one_of word names = any (λ name. same_codes word (codes name)) names

unfoldable pub parse_gate_decision : Option String → Result String GateDecision
unfolding word_of same_codes
parse_gate_decision raw =
    let word = word_of raw in
    if one_of word ("" ∷ "allow" ∷ "approved" ∷ [])
    then ok allow
    else if one_of word ("review" ∷ [])
    then ok review
    else if one_of word ("block" ∷ "blocked" ∷ [])
    then ok block
    else err "unsupported_decision"

unfoldable pub parse_drain_kind : Option String → Result String ShutdownKind
unfolding word_of same_codes
parse_drain_kind raw =
    let word = word_of raw in
    if one_of word ("" ∷ "graceful" ∷ [])
    then ok graceful
    else if one_of word ("immediate" ∷ [])
    then ok immediate
    else err "unsupported_kind"

unfoldable pub parse_policy : Option String → RestartPolicy
unfolding word_of same_codes
parse_policy name =
    let word = word_of name in
    if one_of word ("transient" ∷ [])
    then transient
    else if one_of word ("temporary" ∷ [])
    then temporary
    else permanent

-- `str::trim` on a text that is kept
unfoldable pub without_head : String → String
unfolding is_ws
without_head String.[] = ""
without_head (String.◌∷◌ c s) = if is_ws (code c) then without_head s else String.◌∷◌ c s

abbrev pub is_empty_text : String → Bool
is_empty_text s = s == ""

unfoldable pub without_tail : String → String
unfolding is_ws
without_tail String.[] = ""
without_tail (String.◌∷◌ c s) =
    let rest = without_tail s in
    if is_ws (code c) && is_empty_text rest then "" else String.◌∷◌ c rest

unfoldable pub trimmed : String → String
unfolding without_head without_tail
trimmed s = without_tail (without_head s)

-- A trimmed text that is there and not empty.
unfoldable pub given : Option String → Option String
unfolding trimmed
given none = none
given (some raw) = if is_empty_text (trimmed raw) then none else some (trimmed raw)

unfoldable pub require_proposal : Option String → Result String String
unfolding given
require_proposal proposal_id = elim (given proposal_id) [
  | none ↦ err "approval_required"
  | some id ↦ ok id
]

pub data IdError : Type 0 where
  empty_id : IdError
  duplicate_id : String → IdError

-- The loop of `validate_worker_ids`, over the set of the ids seen so far.
unfoldable pub validate_loop : List String → List String → Result IdError (Unit {0})
unfolding trimmed
validate_loop seen [] = ok tt
validate_loop seen (id ∷ ids) =
    let name = trimmed id in
    let rest = validate_loop (name ∷ seen) ids in
    if is_empty_text name
    then err empty_id
    else if any (λ s. s == name) seen
    then err (duplicate_id name)
    else rest

unfoldable pub validate_worker_ids : List String → Result IdError (Unit {0})
unfolding validate_loop
validate_worker_ids ids = validate_loop [] ids
