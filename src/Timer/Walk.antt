-- ===== src/Timer/Walk.antt =====
-- src/sertos_timer.c: `sertos_timer_tick`, the walk over the active timers at each tick.
use sertos.Base.{
  ℕ, zero, suc, ◌-◌, Bool, true, false, not, Option, none, some, List, [], ◌∷◌, head?, ◌==◌, ltb,
  if◌then◌else◌, update,
}
use sertos.Modules.{Modules}
use sertos.Kernel.{Kernel, Timer}
use sertos.Port.{Port}
use sertos.Timer.Control.{set_timer}

-- The node behind a node of the list, and none behind the last one. A node outside the list has
-- null pointers, since `sertos_timer_stop` and the walk reset them; `sertos_timer_delete` does not,
-- and behind a timer that a callback deletes the model ends the walk too.
unfoldable pub next_node : ℕ → List ℕ → Option ℕ
next_node c [] = none
next_node c (x ∷ xs) = let rest = next_node c xs in if x == c then head? xs else rest

unfoldable pub tick_down : Timer → Timer
tick_down t =
    if ltb 0 t.remaining_ticks then record t { remaining_ticks = t.remaining_ticks - 1 } else t

module _ ⦃m : Modules⦄ where
  -- A periodic timer is loaded again; a one-shot one leaves the list.
  unfoldable pub reload_as : Kernel → ℕ → Bool → Kernel
  reload_as k c true =
      set_timer k c (record (k.timers c) { remaining_ticks = (k.timers c).period_ticks })
  reload_as k c false = record k {
    active_timers = m.linked_list_remove_direct k.active_timers c;
    timers = update k.timers c (record (k.timers c) { node_linked = false; is_active = false });
  }

  unfoldable pub reload : Kernel → ℕ → Kernel
  unfolding reload_as
  reload k c = reload_as k c (k.timers c).is_periodic

module _ ⦃m : Modules⦄ ⦃e : Port⦄ where
  unfoldable pub call_back : Kernel → ℕ → Kernel
  call_back k c = elim (k.timers c).callback [
    | none ↦ k
    | some f ↦ e.call_timer f c (k.timers c).param k
  ]

  -- One timer of the walk.
  unfoldable pub visit_timer : Kernel → ℕ → Kernel
  unfolding tick_down reload call_back
  visit_timer k c =
      let k' = set_timer k c (tick_down (k.timers c)) in
      if (k'.timers c).remaining_ticks == 0 then call_back (reload k' c) c else k'

  -- The loop, with fuel for its rounds: `next` is read before the visit.
  unfoldable pub walk : ℕ → Kernel → Option ℕ → Option Kernel
  unfolding next_node
  walk zero k none = some k
  walk zero k (some c) = none
  walk (suc fuel) k none = some k
  walk (suc fuel) k (some c) = walk fuel (visit_timer k c) (next_node c k.active_timers)

  -- `sertos_timer_tick`; `none` means that the fuel ran out.
  unfoldable pub timer_tick : ℕ → Kernel → Option Kernel
  unfolding walk
  timer_tick fuel k =
      if not k.timer_subsystem_initialized
      then some k
      else walk fuel k (m.linked_list_peek_head k.active_timers)
