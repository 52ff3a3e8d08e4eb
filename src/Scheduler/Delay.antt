-- ===== src/Scheduler/Delay.antt =====
-- src/sertos_scheduler.c: delays, the delay list and round robin.
pub mod Blocking
pub mod Expiry
pub mod Ticking
pub mod Wakeup
pub mod Conversion
pub mod RoundRobin
pub mod Gap
use sertos.Base.{
  ℕ, ◌+◌, ◌-◌, ◌*◌, ◌/◌, ◌^◌, Bool, true, false, ◌&&◌, ◌||◌, not, Option, none, some, List, [], ◌∷◌,
  length, ◌==◌, ltb, if◌then◌else◌, update,
}
use sertos.Types.{
  Status, ok, null_ptr, invalid_param, not_initialized, blocked, tick_rate_default, u32, u64,
}
use sertos.Modules.{Modules}
use sertos.Kernel.{Kernel, Tcb, set_tcb}
use sertos.Port.{Port}
use sertos.Scheduler.Ready.{after_remove, add_ready, remove_ready}
use sertos.Scheduler.Switch.{switch_context}
use sertos.Scheduler.Wait.{wait_list_remove, forget_wait_list}

-- `sertos_scheduler_get_tick_count`, a `size_t` read as `SertosTick`.
unfoldable pub get_tick_count : Kernel → ℕ
get_tick_count k = u32 k.system_ticks

-- `sertos_scheduler_get_tick_rate_hz`.
unfoldable pub get_tick_rate_hz : Kernel → ℕ
get_tick_rate_hz k = if ltb 0 k.tick_rate_hz then k.tick_rate_hz else tick_rate_default

-- `sertos_scheduler_is_time_slicing_enabled`.
unfoldable pub is_time_slicing_enabled : Kernel → Bool
is_time_slicing_enabled k = k.time_slicing_enabled

-- `sertos_scheduler_get_current_tcb`, `sertos_scheduler_set_current_tcb`.
unfoldable pub get_current_tcb : Kernel → Option ℕ
get_current_tcb k = k.current_tcb

unfoldable pub set_current_tcb : Kernel → Option ℕ → Kernel
set_current_tcb k t = record k { current_tcb = t }

-- SERTOS_MS_TO_TICKS and SERTOS_TICKS_TO_MS, at a tick rate.
unfoldable pub ms_to_ticks : ℕ → ℕ → ℕ
ms_to_ticks rate ms = u32 (u64 (ms * rate + 999) / 1000)

unfoldable pub ticks_to_ms : ℕ → ℕ → ℕ
ticks_to_ms rate ticks = u32 (u64 (ticks * 1000) / rate)

-- One tick less on the task's delay, if any is left.
unfoldable pub count_down : Kernel → ℕ → Kernel
count_down k t =
    if ltb 0 (k.tcbs t).delay_ticks
    then set_tcb k t (record (k.tcbs t) { delay_ticks = (k.tcbs t).delay_ticks - 1 })
    else k

module _ ⦃m : Modules⦄ where
  unfoldable pub leave_delay_list : Kernel → ℕ → Kernel
  leave_delay_list k t = record k {
    delay_list = m.linked_list_remove_direct k.delay_list t;
    tcbs =
        update k.tcbs t (record (k.tcbs t) { state_linked = after_remove (k.tcbs t).state_linked });
  }

  unfoldable pub leave_wait_list : Kernel → ℕ → Kernel
  unfolding forget_wait_list
  leave_wait_list k t = elim (k.tcbs t).wait_list [
    | none ↦ k
    | some w ↦ forget_wait_list (wait_list_remove k (some w) (some t)) t
  ]

  unfoldable pub expire : Kernel → ℕ → Kernel
  unfolding leave_delay_list leave_wait_list
  expire k t = (add_ready (leave_wait_list (leave_delay_list k t) t) (some t)).0

  -- The loop's body: whether a task was unblocked is kept in the flag.
  unfoldable pub visit_delayed : Kernel × Bool → ℕ → Kernel × Bool
  visit_delayed (k, unblocked) t =
      let k' = count_down k t in
      if (k'.tcbs t).delay_ticks == 0 then (expire k' t, true) else (k', unblocked)

  -- The walk: the next node is read before the current one is taken out, and nothing else leaves
  -- or enters the delay list, so it visits the tasks that the list holds at the start.
  unfoldable pub visit_all_delayed : List ℕ → Kernel × Bool → Kernel × Bool
  visit_all_delayed [] s = s
  visit_all_delayed (t ∷ ts) s = visit_all_delayed ts (visit_delayed s t)

  -- `process_delayed_tasks`.
  unfoldable pub process_delayed_tasks : Kernel → Kernel × Bool
  process_delayed_tasks k = visit_all_delayed k.delay_list (k, false)

  unfoldable pub rotate : Kernel → ℕ → Kernel
  rotate k t =
      let p : ℕ = (k.tcbs t).priority in
      if ltb 1 (length (k.ready_queues p))
      then record k {
        ready_queues =
            update k.ready_queues p (
              m.linked_list_insert_tail_direct (m.linked_list_remove_direct (k.ready_queues p) t)
                t);
        tcbs = update k.tcbs t (record (k.tcbs t) { state_linked = true });
      }
      else k

  -- `process_time_slicing`.
  unfoldable pub process_time_slicing : Kernel → Kernel
  unfolding rotate
  process_time_slicing k =
      if not k.time_slicing_enabled
      then k
      else elim k.current_tcb [ none ↦ k | some t ↦ rotate k t ]

  -- The critical section of `sertos_scheduler_delay`.
  unfoldable pub enter_delay : Kernel → ℕ → ℕ → Kernel
  enter_delay k t ticks =
      let k' = (remove_ready k (some t)).0 in
      record k' {
        delay_list = m.linked_list_insert_tail_direct k'.delay_list t;
        tcbs =
            update k'.tcbs t
              (record (k'.tcbs t) { state = blocked; delay_ticks = ticks; state_linked = true });
      }

module _ ⦃m : Modules⦄ ⦃e : Port⦄ where
  -- `sertos_scheduler_yield`.
  unfoldable pub yield : Kernel → Kernel
  yield k = switch_context (process_time_slicing k)

  unfoldable pub delay_current : Kernel → Option ℕ → ℕ → Kernel × Status
  unfolding enter_delay
  delay_current k none ticks = (k, not_initialized)
  delay_current k (some t) ticks =
      if not k.is_running
      then (k, not_initialized)
      else (switch_context (enter_delay k t ticks), ok)

  -- `sertos_scheduler_delay`.
  unfoldable pub delay : Kernel → ℕ → Kernel × Status
  unfolding yield delay_current
  delay k ticks = if ticks == 0 then (yield k, ok) else delay_current k k.current_tcb ticks

  -- `sertos_scheduler_delay_ms`.
  unfoldable pub delay_ms : Kernel → ℕ → Kernel × Status
  unfolding delay
  delay_ms k ms = if ms == 0 then (yield k, ok) else delay k (ms_to_ticks (get_tick_rate_hz k) ms)

  -- `sertos_scheduler_delay_until`; the second part is what `*last_wake_time` holds after it.
  unfoldable pub delay_until : Kernel → Option ℕ → ℕ → Kernel × Option ℕ × Status
  unfolding delay
  delay_until k none period = (k, none, null_ptr)
  delay_until k (some last) period =
      if period == 0
      then (k, some last, invalid_param)
      else let elapsed : ℕ = u32 (get_tick_count k + 2 ^ 32 - last) in
        let wake : Option ℕ = some (u32 (last + period)) in
        if ltb elapsed period
        then (let (k', status) = delay k (period - elapsed) in (k', wake, status))
        else (yield k, wake, ok)
