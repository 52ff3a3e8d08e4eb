-- ===== src/Scheduler/Switch.antt =====
-- src/sertos_scheduler.c: the context switch, rescheduling, starting and stopping, and the lock
-- that defers a switch. The host build is modelled: the kernel's switch is made before the yield.
pub mod Kept
pub mod Perform
pub mod Locking
use sertos.Base.{
  ℕ, ◌+◌, ◌-◌, Bool, true, false, ◌&&◌, ◌||◌, not, Option, none, some, ◌==◌, ltb, if◌then◌else◌,
  update, is_handle,
}
use sertos.Types.{Status, is_ok, ready, running, is_running_state, u32}
use sertos.Modules.{Modules}
use sertos.Kernel.{Kernel, Tcb, set_tcb}
use sertos.Port.{Port}
use sertos.Scheduler.Ready.{select_next_task}
use sertos.Stats.Accounting.{on_switch}

-- The task that leaves the processor is ready again, if it was running.
unfoldable pub preempt : Kernel → Option ℕ → Kernel
preempt k none = k
preempt k (some t) =
    if is_running_state (k.tcbs t).state
    then set_tcb k t (record (k.tcbs t) { state = ready })
    else k

unfoldable pub dispatch : Kernel → ℕ → Kernel
dispatch k t = record (set_tcb k t (record (k.tcbs t) { state = running })) { current_tcb = some t }

-- `sertos_scheduler_is_locked`, `sertos_scheduler_is_running`.
unfoldable pub is_locked : Kernel → Bool
is_locked k = ltb 0 k.lock_nesting

unfoldable pub is_running : Kernel → Bool
is_running k = k.is_running

module _ ⦃m : Modules⦄ where
  -- `sertos_scheduler_perform_switch`, which also returns `current_tcb`.
  unfoldable pub perform_switch : Kernel → Kernel
  unfolding preempt dispatch
  perform_switch k = elim (select_next_task k) [
    | none ↦ k
    | some t ↦ on_switch (dispatch (preempt k k.current_tcb) t) k.current_tcb (some t)
  ]

module _ ⦃m : Modules⦄ ⦃e : Port⦄ where
  -- `sertos_scheduler_switch_context`.
  unfoldable pub switch_context : Kernel → Kernel
  switch_context k =
      if ltb 0 k.lock_nesting
      then record k { reschedule_pending = true }
      else elim (select_next_task k) [
        | none ↦ k
        | some t ↦ if is_handle k.current_tcb t then k else e.port_yield (perform_switch k)
      ]

  -- Whether the task is to run before the current one.
  unfoldable pub outranks : Kernel → ℕ → Option ℕ → Bool
  outranks k t none = true
  outranks k t (some c) = ltb (k.tcbs c).priority (k.tcbs t).priority

  -- `sertos_scheduler_reschedule`.
  unfoldable pub reschedule : Kernel → Kernel
  unfolding outranks
  reschedule k = if not k.is_running then k else elim (select_next_task k) [
    | none ↦ k
    | some t ↦ if outranks k t k.current_tcb then switch_context k else k
  ]

  -- `sertos_scheduler_start`.
  unfoldable pub start : Kernel → Kernel
  start k =
      let k' = e.port_runtime_counter_init (record k { is_running = true }) in
      if not (is_ok (e.port_tick_init k'.tick_rate_hz))
      then record k' { is_running = false }
      else e.port_start_first_task (perform_switch k')

  -- `sertos_scheduler_stop`.
  unfoldable pub stop : Kernel → Kernel
  stop k = e.port_stop_scheduler (record k { is_running = false })

  -- `sertos_scheduler_lock`.
  unfoldable pub lock : Kernel → Kernel
  lock k = record k { lock_nesting = u32 (k.lock_nesting + 1) }

  -- `sertos_scheduler_unlock`.
  unfoldable pub unlock : Kernel → Kernel
  unlock k =
      if ltb 0 k.lock_nesting
      then if k.lock_nesting - 1 == 0 && k.reschedule_pending
        then switch_context
            (record k { lock_nesting = k.lock_nesting - 1; reschedule_pending = false })
        else record k { lock_nesting = k.lock_nesting - 1 }
      else k
