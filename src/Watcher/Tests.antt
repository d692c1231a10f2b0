-- ===== src/Watcher/Tests.antt =====
-- A service binary in its directory, replaced while it is watched, and the properties applied.
use malkuth.Prelude.{
  ℕ_key, string_key, ◌==◌, any, All, ℕ, ◌+◌, ◌≡◌, refl, true, false, not, ◌&&◌, Option, none, some,
  List, [], ◌∷◌, arith,
}
use malkuth.Watcher.Paths.{FilePath, path_key, same_path}
use malkuth.Watcher.{
  recursive, FileIdentity, create, Event, Received, event, timeout, Turn, Watch, goes_on, is_change,
  is_relevant, relevant_paths, parent_dirs, poll_changes, is_known, start_watch, on_event,
  delivered, state_after,
}
use malkuth.Watcher.Batches.{Batch, delivered-Relevant}
use malkuth.Watcher.Debounce.{Told, event_delivered}
use malkuth.Watcher.Pending.{has}
use malkuth.Watcher.Polling.{poll_changes_lem}
use malkuth.Watcher.Arms.{waits, watch_not_given_up}

abbrev binary : FilePath
binary = "/" ∷ "srv" ∷ "app" ∷ []

abbrev log_file : FilePath
log_file = "/" ∷ "srv" ∷ "app.log" ∷ []

parent_of_binary : parent_dirs (binary ∷ []) ≡ ("/" ∷ "srv" ∷ []) ∷ []
unfolding parent_dirs same_path
parent_of_binary = refl

sibling_is_dropped : relevant_paths log_file (binary ∷ []) ≡ []
unfolding relevant_paths same_path
sibling_is_dropped = refl

abbrev stat : FilePath → Option FileIdentity
stat p = some (record { inode = 5; size = 10; modified = none })

abbrev turn_at : ℕ → Received → Turn
turn_at now received = record {
  now = now;
  later = now;
  arm_watch = λ p m. false;
  file_identity = stat;
  received = received;
  receiver_open = true;
}

abbrev replaced : Event
replaced = record { kind = create; paths = log_file ∷ binary ∷ [] }

abbrev first_turn : Turn
first_turn = turn_at 0 timeout

abbrev turns : List Turn
turns = turn_at 100 (event replaced) ∷ turn_at 3100 timeout ∷ []

one_batch :
    delivered 3000 (binary ∷ []) turns (start_watch first_turn (binary ∷ []))
    ≡ (3100, binary ∷ []) ∷ []
unfolding delivered start_watch same_path
one_batch = refl

delivered-Relevant_example :
    All
      (λ (d : ℕ × List FilePath). Batch (binary ∷ []) d.1)
      (delivered 3000 (binary ∷ []) turns (start_watch first_turn (binary ∷ [])))
delivered-Relevant_example = delivered-Relevant 3000 (binary ∷ []) first_turn turns

abbrev idle : Watch
idle = record { pending = []; window_end = none; failed = []; identity = []; next_poll = 5000 }

abbrev noted : Watch
noted = record idle { pending = binary ∷ []; window_end = some 3100 }

event_is_noted :
    on_event 3000 (turn_at 100 timeout) (binary ∷ []) replaced idle ≡ goes_on none noted
unfolding on_event same_path
event_is_noted = refl

abbrev later_turns : List Turn
later_turns = turn_at 2000 timeout ∷ turn_at 3100 timeout ∷ []

abbrev state_or : Option Watch → Watch
state_or none = idle
state_or (some s) = s

abbrev after_later : Watch
after_later = state_or (state_after 3000 (binary ∷ []) later_turns noted)

later_state : state_after 3000 (binary ∷ []) later_turns noted ≡ some after_later
unfolding state_after same_path
later_state = refl

create_is_change : is_change create ≡ true
unfolding is_change
create_is_change = refl

relevant_binary : is_relevant (binary ∷ []) binary ≡ true
unfolding same_path
relevant_binary = refl

binary_in_event : has binary replaced.paths ≡ true
unfolding same_path
binary_in_event = refl

event_delivered_example :
    Told binary (100 + 3000) (delivered 3000 (binary ∷ []) later_turns noted) after_later
event_delivered_example =
    event_delivered 3000 (binary ∷ []) (turn_at 100 timeout) replaced binary later_turns idle noted
      after_later create_is_change relevant_binary binary_in_event event_is_noted
      (omega arith, (omega arith, tt)) later_state

poll_changes_lem_example :
    (any (λ q. q == binary) (poll_changes stat (binary ∷ []) []).0
      ≡ (any (λ q. q == binary) (binary ∷ []) && not (is_known binary (stat binary) [])))
    × (any
          (λ q. q == binary)
          (poll_changes stat (binary ∷ []) (poll_changes stat (binary ∷ []) []).1).0
        ≡ false)
poll_changes_lem_example = poll_changes_lem stat (binary ∷ []) [] binary

abbrev after_turns : Watch
after_turns = state_or (state_after 3000 (binary ∷ []) turns (start_watch first_turn (binary ∷ [])))

turns_end :
    state_after 3000 (binary ∷ []) turns (start_watch first_turn (binary ∷ [])) ≡ some after_turns
unfolding state_after start_watch same_path
turns_end = refl

watch_not_given_up_example : waits binary recursive after_turns.failed ≡ true
watch_not_given_up_example =
    watch_not_given_up 3000 (binary ∷ []) binary first_turn turns after_turns
      (unfold same_path in refl) (refl, (refl, (refl, tt))) turns_end
