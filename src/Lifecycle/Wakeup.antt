-- ===== src/Lifecycle/Wakeup.antt =====
-- `wait_for_drain` of src/lifecycle.rs under schedules with concurrent triggers.
use malkuth.Prelude.{
  Bool-cases, get_elem?, any, set, ℕ, zero, suc, ◌≡◌, refl, ◌≢◌, inl, inr, Bool, true, false,
  Option, none, some, List, [], ◌∷◌, arith,
}
use malkuth.Lifecycle.{ShutdownKind, Controller, kind_of, or_graceful}
use malkuth.Lifecycle.Wait.{
  Waiter, looking, registering, reading, rechecking, parked, done, wait_step, wake, Caller, idle,
  store_kind, notify_kind, store_draining, notify_drain, clear_draining, clear_kind, call_step,
  System, enter_as, Move, wait, begin, clear, act, act_as, move, run, start,
}

-- A thread that has stored the drain bit and still owes its notification.
abbrev pub owes : Caller → Bool
owes notify_drain = true
owes _ = false

abbrev IsAsleep : Waiter → Type 0
IsAsleep (parked false) = Unit {0}
IsAsleep _ = ⊥

-- A waiter that sleeps while the drain bit is set is about to be notified.
abbrev Inv : Controller → Waiter → List Caller → Type 0
Inv c w cs = IsAsleep w → c.draining ≡ true → any owes cs ≡ true

any-set_keep :
    (cs : List Caller) (i : ℕ) (c c' : Caller)
    → get_elem? cs i ≡ some c
    → owes c ≡ false
    → any owes cs ≡ true
    → any owes (set cs i c') ≡ true
any-set_keep [] i c c' g o h = cc
any-set_keep (x ∷ xs) zero c c' g o h = ground arith
any-set_keep (x ∷ xs) (suc i) c c' g o h = ground (arith, any-set_keep xs i c c' g o)

any-set_new :
    (cs : List Caller) (i : ℕ) (c c' : Caller)
    → get_elem? cs i ≡ some c
    → owes c' ≡ true
    → any owes (set cs i c') ≡ true
any-set_new [] i c c' g o = cc
any-set_new (x ∷ xs) zero c c' g o = ground arith
any-set_new (x ∷ xs) (suc i) c c' g o = ground (arith, any-set_new xs i c c' g o)

wait-Inv : (c : Controller) (w : Waiter) (cs : List Caller) → Inv c w cs → Inv c (wait_step c w) cs
unfolding wait_step
wait-Inv c looking cs v = elim (Bool-cases c.draining) [
  | inl e ↦ rw e (λ h _. absurd h)
  | inr e ↦ rw e (λ h _. absurd h)
]
wait-Inv c registering cs v = λ h _. absurd h
wait-Inv c reading cs v = λ h _. absurd h
wait-Inv c (rechecking woken) cs v = elim (Bool-cases c.draining) [
  | inl e ↦ rw e (λ h _. absurd h)
  | inr e ↦ λ _ d. cc
]
wait-Inv c (parked true) cs v = λ h _. absurd h
wait-Inv c (parked false) cs v = v
wait-Inv c (done k) cs v = λ h _. absurd h

wake_not_IsAsleep : (w : Waiter) → ¬ IsAsleep (wake w)
unfolding wake
wake_not_IsAsleep (rechecking woken) h = h
wake_not_IsAsleep (parked woken) h = h
wake_not_IsAsleep looking h = h
wake_not_IsAsleep registering h = h
wake_not_IsAsleep reading h = h
wake_not_IsAsleep (done k) h = h

call-Inv :
    (i : ℕ) (x : Caller) (c : Controller) (w : Waiter) (cs : List Caller)
    → get_elem? cs i ≡ some x
    → Inv c w cs
    → let r = call_step x c w in Inv r.1 r.2 (set cs i r.0)
unfolding call_step
call-Inv i idle c w cs g v = λ h d. any-set_keep cs i idle idle g refl (v h d)
call-Inv i (store_kind k) c w cs g v = λ h d. any-set_keep cs i (store_kind k) _ g refl (v h d)
call-Inv i (notify_kind k) c w cs g v = λ h d. any-set_keep cs i (notify_kind k) _ g refl (v h d)
call-Inv i store_draining c w cs g v = λ h d. any-set_new cs i store_draining _ g refl
call-Inv i notify_drain c w cs g v = λ h d. absurd (wake_not_IsAsleep w h)
call-Inv i clear_draining c w cs g v = λ h d. cc
call-Inv i clear_kind c w cs g v = λ h d. any-set_keep cs i clear_kind _ g refl (v h d)

abbrev SysInv : System → Type 0
SysInv s = Inv s.ctrl s.waiter s.callers

enter_as-Inv :
    (entry : Caller) (i : ℕ) (s : System) (o : Option Caller)
    → get_elem? s.callers i ≡ o
    → SysInv s
    → SysInv (enter_as entry i s o)
enter_as-Inv entry i s none g v = v
enter_as-Inv entry i s (some idle) g v = λ h d. any-set_keep s.callers i idle entry g refl (v h d)
enter_as-Inv entry i s (some _) g v = v

act_as-Inv :
    (i : ℕ) (s : System) (o : Option Caller)
    → get_elem? s.callers i ≡ o
    → SysInv s
    → SysInv (act_as i s o)
act_as-Inv i s none g v = v
act_as-Inv i s (some x) g v = call-Inv i x s.ctrl s.waiter s.callers g v

move-Inv : (m : Move) (s : System) → SysInv s → SysInv (move m s)
unfolding move
move-Inv wait s v = wait-Inv s.ctrl s.waiter s.callers v
move-Inv (begin k i) s v = enter_as-Inv (store_kind k) i s (get_elem? s.callers i) refl v
move-Inv (clear i) s v = enter_as-Inv clear_draining i s (get_elem? s.callers i) refl v
move-Inv (act i) s v = act_as-Inv i s (get_elem? s.callers i) refl v

run-Inv : (ms : List Move) (s : System) → SysInv s → SysInv (run ms s)
unfolding run
run-Inv [] s v = v
run-Inv (m ∷ ms) s v = run-Inv ms (move m s) (move-Inv m s v)

-- Whatever threads triggered or cleared a drain, and in whatever order their accesses fell: where
-- the drain bit is set and no thread still owes its notification, the waiter is not asleep.
no_lost_wakeup :
    (n : ℕ) (ms : List Move)
    → (run ms (start n)).ctrl.draining ≡ true
    → any owes (run ms (start n)).callers ≡ false
    → (run ms (start n)).waiter ≢ parked false
no_lost_wakeup n ms d o e = let v = run-Inv ms (start n) (λ h _. absurd h) in cc (v (rw e tt) d)

abbrev pub answer : Controller → Waiter → ShutdownKind
answer c (done k) = k
answer c w = or_graceful (kind_of c)

three_accesses :
    (c : Controller) (w : Waiter)
    → c.draining ≡ true
    → w ≢ parked false
    → wait_step c (wait_step c (wait_step c w)) ≡ done (answer c w)
unfolding wait_step
three_accesses c looking d h = ground arith
three_accesses c registering d h = ground arith
three_accesses c reading d h = refl
three_accesses c (rechecking woken) d h = ground arith
three_accesses c (parked true) d h = ground arith
three_accesses c (parked false) d h = absurd (h refl)
three_accesses c (done k) d h = refl

-- `wait_for_drain` returns: after any schedule, with the drain bit set and no notification owed,
-- three more accesses of the waiter end its loop, with the kind that the controller then holds
-- (graceful where it holds none) unless it had ended already.
pub wait_for_drain_returns :
    (n : ℕ) (ms : List Move)
    → (run ms (start n)).ctrl.draining ≡ true
    → any owes (run ms (start n)).callers ≡ false
    → (run (wait ∷ wait ∷ wait ∷ []) (run ms (start n))).waiter
      ≡ done (answer (run ms (start n)).ctrl (run ms (start n)).waiter)
wait_for_drain_returns n ms d o =
    let s = run ms (start n) in
    unfold move run in three_accesses s.ctrl s.waiter d (no_lost_wakeup n ms d o)
