-- ===== src/Lifecycle/Wait.antt =====
-- `DrainController::wait_for_drain` against concurrent triggers, one atomic access at a time: the
-- loop of one waiter, any number of threads inside `begin_drain` or `clear_drain`, and a schedule
-- that says who moves. A `Notified` future is woken by every `notify_waiters` after its creation.
use malkuth.Prelude.{
  if◌then◌else◌, get_elem?, set, ℕ, zero, suc, Bool, true, false, Option, none, some, List, [], ◌∷◌,
}
use malkuth.Lifecycle.{ShutdownKind, Controller, to_u8, causes_drain, kind_of, or_graceful, new}

-- Where the waiter stands; a flag is whether its `Notified` future has been woken.
pub data Waiter : Type 0 where
  looking registering reading : Waiter
  rechecking : Bool → Waiter
  parked : Bool → Waiter
  done : ShutdownKind → Waiter

unfoldable pub wait_step : Controller → Waiter → Waiter
unfolding kind_of
wait_step c looking = if c.draining then reading else registering
wait_step c registering = rechecking false
wait_step c (rechecking woken) = if c.draining then reading else parked woken
wait_step c (parked true) = looking
wait_step c (parked false) = parked false
wait_step c reading = done (or_graceful (kind_of c))
wait_step c (done k) = done k

-- `notify_waiters` wakes the futures that exist.
unfoldable pub wake : Waiter → Waiter
wake (rechecking woken) = rechecking true
wake (parked woken) = parked true
wake w = w

-- Where a triggering thread stands: the access that it makes next.
pub data Caller : Type 0 where
  idle : Caller
  store_kind : ShutdownKind → Caller
  notify_kind : ShutdownKind → Caller
  store_draining notify_drain : Caller
  clear_draining clear_kind : Caller

unfoldable pub call_step : Caller → Controller → Waiter → Caller × Controller × Waiter
unfolding to_u8 causes_drain
call_step idle c w = (idle, c, w)
call_step (store_kind k) c w = (notify_kind k, record c { kind = to_u8 k }, w)
call_step (notify_kind k) c w = (if causes_drain k then store_draining else idle, c, w)
call_step store_draining c w = (notify_drain, record c { draining = true }, w)
call_step notify_drain c w = (idle, c, wake w)
call_step clear_draining c w = (clear_kind, record c { draining = false }, w)
call_step clear_kind c w = (idle, record c { kind = 0 }, w)

pub record System : Type 0 where
  pub ctrl : Controller
  pub waiter : Waiter
  pub callers : List Caller

pub data Move : Type 0 where
  -- the waiter makes its next access
  wait : Move
  -- an idle thread enters `begin_drain` or `clear_drain`
  begin : ShutdownKind → ℕ → Move
  clear : ℕ → Move
  -- the thread makes its next access
  act : ℕ → Move

abbrev pub enter_as : Caller → ℕ → System → Option Caller → System
enter_as entry i s (some idle) = record s { callers = set s.callers i entry }
enter_as entry i s _ = s

abbrev pub act_as : ℕ → System → Option Caller → System
act_as i s none = s
act_as i s (some c) =
    let r = call_step c s.ctrl s.waiter in
    record { ctrl = r.1; waiter = r.2; callers = set s.callers i r.0 }

unfoldable pub move : Move → System → System
unfolding wait_step call_step wake
move wait s = record s { waiter = wait_step s.ctrl s.waiter }
move (begin k i) s = enter_as (store_kind k) i s (get_elem? s.callers i)
move (clear i) s = enter_as clear_draining i s (get_elem? s.callers i)
move (act i) s = act_as i s (get_elem? s.callers i)

unfoldable pub run : List Move → System → System
run [] s = s
run (m ∷ ms) s = run ms (move m s)

-- A fresh controller, a waiter that enters its loop, and n idle threads.
abbrev pub idles : ℕ → List Caller
idles zero = []
idles (suc n) = idle ∷ idles n

abbrev pub start : ℕ → System
start n = record { ctrl = new; waiter = looking; callers = idles n }
