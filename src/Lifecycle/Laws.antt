-- ===== src/Lifecycle/Laws.antt =====
-- What a sequence of triggers leaves in the controller.
use malkuth.Prelude.{any, ◌≡◌, refl, ap, ◌∙◌, true, ◌||◌, Option, none, some, List, [], ◌∷◌, arith}
use malkuth.Lifecycle.{
  ShutdownKind, graceful, immediate, reload, Controller, to_u8, from_u8, causes_drain, kind_of,
  is_draining, wait_for_signal, wait_for_drain, begin_drain, clear_drain, new,
}

-- The byte that stands for a kind reads back as that kind.
pub from_u8-to_u8 : (k : ShutdownKind) → from_u8 (to_u8 k) ≡ some k
unfolding from_u8 to_u8
from_u8-to_u8 graceful = refl
from_u8-to_u8 immediate = refl
from_u8-to_u8 reload = refl

unfoldable pub trigger_all : List ShutdownKind → Controller → Controller
trigger_all [] c = c
trigger_all (k ∷ ks) c = trigger_all ks (begin_drain k c)

abbrev pub last_kind : List ShutdownKind → Option ShutdownKind → Option ShutdownKind
last_kind [] o = o
last_kind (k ∷ ks) o = last_kind ks (some k)

begin_drain-kind_of : (k : ShutdownKind) (c : Controller) → kind_of (begin_drain k c) ≡ some k
unfolding begin_drain kind_of
begin_drain-kind_of graceful c = refl
begin_drain-kind_of immediate c = refl
begin_drain-kind_of reload c = refl

begin_drain-is_draining :
    (k : ShutdownKind) (c : Controller)
    → is_draining (begin_drain k c) ≡ (is_draining c || causes_drain k)
unfolding begin_drain is_draining
begin_drain-is_draining graceful c = ground arith
begin_drain-is_draining immediate c = ground arith
begin_drain-is_draining reload c = ground arith

trigger_all-kind_of :
    (ks : List ShutdownKind) (c : Controller)
    → kind_of (trigger_all ks c) ≡ last_kind ks (kind_of c)
unfolding trigger_all
trigger_all-kind_of [] c = refl
trigger_all-kind_of (k ∷ ks) c =
    trigger_all-kind_of ks (begin_drain k c) ∙ rw (begin_drain-kind_of k c)

trigger_all-is_draining :
    (ks : List ShutdownKind) (c : Controller)
    → is_draining (trigger_all ks c) ≡ (is_draining c || any causes_drain ks)
unfolding trigger_all
trigger_all-is_draining [] c = ground arith
trigger_all-is_draining (k ∷ ks) c =
    ground (arith, trigger_all-is_draining ks (begin_drain k c), begin_drain-is_draining k c)

-- From a fresh controller, after any triggers in any order: the drain bit is set exactly when one of
-- them was graceful or immediate, and the kind is that of the last trigger, a reload included.
pub trigger_all_lem :
    (ks : List ShutdownKind)
    → (is_draining (trigger_all ks new) ≡ any causes_drain ks)
      × (kind_of (trigger_all ks new) ≡ last_kind ks none)
trigger_all_lem ks = (
  trigger_all-is_draining ks new ∙ (unfold is_draining in refl),
  trigger_all-kind_of ks new ∙ ap (last_kind ks) (unfold kind_of in refl),
)

-- A reload that arrives while a drain is under way keeps the drain bit, but replaces the kind: what
-- `wait_for_drain` then answers is `reload`, whatever kind caused the drain.
pub reload_masks_kind :
    (c : Controller) → is_draining c ≡ true → wait_for_drain (begin_drain reload c) ≡ some reload
unfolding wait_for_drain begin_drain
reload_masks_kind c h = ground arith

-- After `clear_drain` neither wait has an answer, and triggers act as on a fresh controller.
pub clear_drain-trigger_all :
    (c : Controller) (ks : List ShutdownKind)
    → (wait_for_drain (clear_drain c) ≡ none)
      × (wait_for_signal (clear_drain c) ≡ none)
      × (trigger_all ks (clear_drain c) ≡ trigger_all ks new)
unfolding wait_for_drain wait_for_signal clear_drain
clear_drain-trigger_all c ks = (refl, refl, refl)
