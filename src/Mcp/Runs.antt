-- ===== src/Mcp/Runs.antt =====
-- The registry of supervision runs, `RunHandle` and `Server` of src/mcp.rs. The mutexes make each
-- operation one step and are never poisoned; a handle that is shared (`Arc`) is changed where it stands
-- in the list. The restart signals hold whether a permit is stored (`notify_one`).
pub mod Capacity
pub mod Eviction
pub mod Reuse
use malkuth.Prelude.{
  ltb, leb, eqb, if◌then◌else◌, ltb→lt, lt→ltb, le→ltb, ltb→le, leb→le, le→leb, eqb_iff, tests,
  Bool-cases, Option-cases, is_some, Key, ℕ_key, string_key, ◌==◌, eq_iff, eq_refl, ne→beq, length,
  get_elem?, take, drop, retain, any, all, position, length-append, length-take, length-drop,
  length-retain, take_all, set, count_by, count_by-append, count_by-reverse, count_by-retain,
  is_blank, is_ws, byte_len, is_char_boundary, prefix, truncate, floor_boundary, len_utf8,
  floor_boundary-is_char_boundary, floor_boundary-le, byte_len-prefix, codes, trim, trim_start,
  trim_end, is_empty, reverse-cons, reverse-reverse, In, All, All-append, All-retain, retain-All,
  Dict, get, insert, remove, adjust, get-insert, get-remove, get-adjust, get-insert_self, Result,
  ok, err, ◌>>=◌, ◌>>◌, ℕ, zero, suc, ◌+◌, ◌-◌, ◌*◌, ◌/◌, ◌%◌, ◌^◌, ◌≤◌, ◌<◌, min, max, String, ◌≡◌,
  refl, sym, ap, subst, ◌∙◌, ◌≢◌, ◌↔◌, ◌⊎◌, inl, inr, Bool, true, false, not, ◌&&◌, ◌||◌, Option,
  none, some, List, [], ◌∷◌, ◌++◌, map, reverse, append-nil, append_assoc, arith,
}
use malkuth.Lifecycle.{Controller}
use malkuth.Worker.Fleet.{FleetState}
use malkuth.LogRing.{Text}
use malkuth.Mcp.Restarts.{RestartBook, empty_book}

abbrev pub max_runs : ℕ
max_runs = 8

abbrev pub max_remembered_run_ids : ℕ
max_remembered_run_ids = 256

pub record RunHandle : Type 0 where
  pub run_id : String
  pub started_at : ℕ
  pub fleet : FleetState
  pub drain : Controller
  pub restart_signals : Dict String Bool
  pub log_rings : Dict String (List Text)
  pub restart_book : RestartBook
  -- when the run finished
  pub finished : Option ℕ

pub record Server : Type 0 where
  pub runs : List RunHandle
  pub used_run_ids : List String

abbrev pub new_server : Server
new_server = record { runs = []; used_run_ids = [] }

abbrev pub is_finished : RunHandle → Bool
is_finished run = is_some run.finished

unfoldable pub mark_finished : ℕ → RunHandle → RunHandle
mark_finished now run = record run { finished = some now }

abbrev pub has_id : String → RunHandle → Bool
has_id id run = run.run_id == id

-- `iter().find(..)`
unfoldable pub find {ℓ} : {A : Type ℓ} → (A → Bool) → List A → Option A
find p [] = none
find p (x ∷ xs) = if p x then some x else find p xs

unfoldable pub find_run : String → Server → Option RunHandle
unfolding find
find_run id s = find (has_id id) s.runs

-- `Vec::remove` at an index within the bounds
unfoldable pub remove_at {ℓ} : {A : Type ℓ} → ℕ → List A → List A
remove_at n [] = []
remove_at zero (x ∷ xs) = xs
remove_at (suc n) (x ∷ xs) = x ∷ remove_at n xs

-- Room for a run more: the oldest finished one goes.
unfoldable pub make_slot : List RunHandle → Option (List RunHandle)
unfolding remove_at
make_slot runs =
    if leb max_runs (length runs)
    then elim (position is_finished runs) [ none ↦ none | some pos ↦ some (remove_at pos runs) ]
    else some runs

unfoldable pub remember : String → List String → List String
remember id used =
    let grown = used ++ id ∷ [] in
    if ltb max_remembered_run_ids (length grown) then drop 1 grown else grown

unfoldable pub insert_run : RunHandle → Server → Result String Server
unfolding make_slot remember
insert_run handle s =
    if any (has_id handle.run_id) s.runs
    then err "run_id already in use"
    else if any (λ id. id == handle.run_id) s.used_run_ids
    then err "run_id already used by an evicted run"
    else elim (make_slot s.runs) [
      | none ↦ err "too many concurrent runs"
      | some runs ↦ ok (record {
        runs = runs ++ handle ∷ [];
        used_run_ids = remember handle.run_id s.used_run_ids;
      })
    ]

-- A change of the handle with this id, through its `Arc`.
unfoldable pub update_run : String → (RunHandle → RunHandle) → List RunHandle → List RunHandle
update_run id f [] = []
update_run id f (run ∷ runs) = if has_id id run then f run ∷ runs else run ∷ update_run id f runs

abbrev pub after {ℓ} : {E A : Type ℓ} → A → Result E A → A
after old (ok new) = new
after old (err _) = old

-- What happens to the registry: a supervision is asked for, or a run ends.
pub data RunEvent : Type 0 where
  supervised : RunHandle → RunEvent
  ended : String → ℕ → RunEvent

unfoldable pub on_event : RunEvent → Server → Server
unfolding insert_run update_run mark_finished
on_event (supervised handle) s = after s (insert_run handle s)
on_event (ended id now) s = record s { runs = update_run id (mark_finished now) s.runs }

unfoldable pub on_events : List RunEvent → Server → Server
unfolding on_event
on_events [] s = s
on_events (e ∷ es) s = on_events es (on_event e s)
