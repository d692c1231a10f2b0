-- ===== src/Lifecycle.antt =====
-- src/lifecycle.rs: the drain controller. The two atomics are fields; an operation that mutates the
-- shared `Inner` returns the new controller. The waiting loops are in `Lifecycle.Wait`.
pub mod Laws
pub mod Wait
pub mod Wakeup
mod Tests
use malkuth.Prelude.{
  ltb, leb, eqb, if◌then◌else◌, ltb→lt, lt→ltb, le→ltb, ltb→le, leb→le, le→leb, eqb_iff, tests,
  Bool-cases, Option-cases, is_some, Key, ◌==◌, eq_iff, eq_refl, ne→beq, length, get_elem?, take,
  drop, retain, any, all, position, length-append, length-take, length-drop, length-retain,
  take_all, set, In, All, All-append, All-retain, retain-All, Dict, get, insert, remove, adjust,
  get-insert, get-remove, get-adjust, get-insert_self, Result, ok, err, ◌>>=◌, ◌>>◌, ℕ, zero, suc,
  ◌+◌, ◌-◌, ◌*◌, ◌/◌, ◌%◌, ◌^◌, ◌≤◌, ◌<◌, min, max, String, ◌≡◌, refl, sym, ap, subst, ◌∙◌, ◌≢◌,
  ◌↔◌, ◌⊎◌, inl, inr, Bool, true, false, not, ◌&&◌, ◌||◌, Option, none, some, List, [], ◌∷◌, ◌++◌,
  map, reverse, append-nil, append_assoc, arith,
}

pub data ShutdownKind : Type 0 where
  graceful immediate reload : ShutdownKind

unfoldable pub to_u8 : ShutdownKind → ℕ
to_u8 graceful = 1
to_u8 immediate = 2
to_u8 reload = 3

unfoldable pub from_u8 : ℕ → Option ShutdownKind
from_u8 v =
    if eqb v 0
    then none
    else if eqb v 1
    then some graceful
    else if eqb v 2
    then some immediate
    else if eqb v 3
    then some reload
    else none

unfoldable pub causes_drain : ShutdownKind → Bool
causes_drain graceful = true
causes_drain immediate = true
causes_drain reload = false

-- `Inner`: `draining` is the `AtomicBool`, `kind` the `AtomicU8`.
pub record Controller : Type 0 where
  pub draining : Bool
  pub kind : ℕ

abbrev pub new : Controller
new = record { draining = false; kind = 0 }

-- `DrainController::kind`
unfoldable pub kind_of : Controller → Option ShutdownKind
unfolding from_u8
kind_of c = from_u8 c.kind

unfoldable pub is_draining : Controller → Bool
is_draining c = c.draining

abbrev pub or_graceful : Option ShutdownKind → ShutdownKind
or_graceful none = graceful
or_graceful (some k) = k

-- What `wait_for_signal` returns without waiting, `none` where it blocks.
unfoldable pub wait_for_signal : Controller → Option ShutdownKind
unfolding kind_of
wait_for_signal c = kind_of c

-- What `wait_for_drain` returns without waiting, `none` where it blocks.
unfoldable pub wait_for_drain : Controller → Option ShutdownKind
unfolding kind_of is_draining
wait_for_drain c = if is_draining c then some (or_graceful (kind_of c)) else none

unfoldable pub begin_drain : ShutdownKind → Controller → Controller
unfolding to_u8 causes_drain
begin_drain k c =
    let stored = record c { kind = to_u8 k } in
    if causes_drain k then record stored { draining = true } else stored

unfoldable pub clear_drain : Controller → Controller
clear_drain c = record { draining = false; kind = 0 }
