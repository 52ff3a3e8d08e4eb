-- ===== src/Scheduler/Tick.antt =====
-- src/sertos_scheduler.c: the tick interrupt.
use sertos.Base.{ℕ, ◌+◌, Bool, ◌||◌, Option, none, some, if◌then◌else◌}
use sertos.Types.{u64}
use sertos.Modules.{Modules}
use sertos.Kernel.{Kernel}
use sertos.Port.{Port}
use sertos.Scheduler.Switch.{switch_context}
use sertos.Scheduler.Delay.{process_delayed_tasks, process_time_slicing}
use sertos.Timer.Walk.{timer_tick}

unfoldable pub count_tick : Kernel → Kernel
count_tick k = record k { system_ticks = u64 (k.system_ticks + 1) }

module _ ⦃m : Modules⦄ ⦃e : Port⦄ where
  unfoldable pub call_tick_hook : Kernel → Kernel
  call_tick_hook k = elim k.tick_hook [ none ↦ k | some f ↦ e.call_hook f k ]

  -- What follows the walk over the timers.
  unfoldable pub finish_tick : Bool → Kernel → Kernel
  unfolding call_tick_hook
  finish_tick need_reschedule k =
      let k' = call_tick_hook k in
      if need_reschedule || k'.time_slicing_enabled then switch_context k' else k'

  -- `sertos_scheduler_tick`, with fuel for the walk over the timers.
  unfoldable pub tick : ℕ → Kernel → Option Kernel
  unfolding count_tick finish_tick
  tick fuel k =
      let (k', need_reschedule) = process_delayed_tasks (count_tick k) in
      elim (timer_tick fuel (process_time_slicing k')) [
        | none ↦ none
        | some k'' ↦ some (finish_tick need_reschedule k'')
      ]
