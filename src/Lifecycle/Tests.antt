-- ===== src/Lifecycle/Tests.antt =====
-- Runs of the drain controller, and the theorems at concrete inputs.
use malkuth.Prelude.{◌≡◌, refl, true, none, some, List, [], ◌∷◌}
use malkuth.Lifecycle.{
  graceful, immediate, reload, kind_of, is_draining, wait_for_signal, wait_for_drain, begin_drain,
  clear_drain, new, causes_drain,
}
use malkuth.Lifecycle.Laws.{trigger_all, trigger_all_lem, clear_drain-trigger_all}
use malkuth.Lifecycle.Wait.{Move, wait, begin, act, run, move, start, done, parked}
use malkuth.Lifecycle.Wakeup.{wait_for_drain_returns}

trigger_all_lem_example :
    (is_draining (trigger_all (reload ∷ immediate ∷ reload ∷ []) new) ≡ true)
    × (kind_of (trigger_all (reload ∷ immediate ∷ reload ∷ []) new) ≡ some reload)
unfolding causes_drain
trigger_all_lem_example = trigger_all_lem (reload ∷ immediate ∷ reload ∷ [])

clear_drain-trigger_all_example :
    (wait_for_drain (clear_drain (begin_drain graceful new)) ≡ none)
    × (wait_for_signal (clear_drain (begin_drain graceful new)) ≡ none)
    × (trigger_all (reload ∷ []) (clear_drain (begin_drain graceful new))
        ≡ trigger_all (reload ∷ []) new)
clear_drain-trigger_all_example = clear_drain-trigger_all (begin_drain graceful new) (reload ∷ [])

-- The drain bit is stored between the waiter's second look and its sleep.
abbrev schedule : List Move
schedule = wait ∷ wait ∷ begin graceful 0 ∷ act 0 ∷ act 0 ∷ wait ∷ act 0 ∷ act 0 ∷ []

asleep_then_woken : (run schedule (start 1)).waiter ≡ parked true
unfolding run move
asleep_then_woken = refl

wait_for_drain_returns_example :
    (run (wait ∷ wait ∷ wait ∷ []) (run schedule (start 1))).waiter ≡ done graceful
unfolding run move kind_of
wait_for_drain_returns_example = wait_for_drain_returns 1 schedule refl refl
