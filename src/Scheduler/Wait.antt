-- ===== src/Scheduler/Wait.antt =====
-- src/sertos_scheduler.c: the wait lists of the IPC objects, ordered by priority.
pub mod Order
pub mod Blocking
pub mod Waking
pub mod Timeouts
use sertos.Base.{
  ℕ, Bool, true, false, ◌&&◌, not, Option, none, some, List, [], ◌∷◌, ◌==◌, is_none, ltb,
  if◌then◌else◌, update,
}
use sertos.Types.{Status, ok, null_ptr, timeout, not_initialized, blocked, wait_forever}
use sertos.Modules.{Modules}
use sertos.Kernel.{Kernel, Tcb, WaitList, set_tcb, update_list}
use sertos.Port.{Port}
use sertos.Scheduler.Ready.{after_remove, add_ready, remove_ready}
use sertos.Scheduler.Switch.{switch_context}

-- The loop of `insert_wait_list_priority`: the task before the first one that it outranks, or
-- nothing if it outranks none.
unfoldable pub insert_before : (ℕ → Tcb) → ℕ → List ℕ → Option (List ℕ)
insert_before b t [] = none
insert_before b t (c ∷ cs) =
    let rest = insert_before b t cs in
    if ltb (b c).priority (b t).priority
    then some (t ∷ c ∷ cs)
    else elim rest [ none ↦ none | some l ↦ some (c ∷ l) ]

module _ ⦃m : Modules⦄ where
  unfoldable pub insert_priority : (ℕ → Tcb) → ℕ → List ℕ → List ℕ
  unfolding insert_before
  insert_priority b t l = elim (insert_before b t l) [
    | none ↦ m.linked_list_insert_tail_direct l t
    | some l' ↦ l'
  ]

  -- `insert_wait_list_priority`.
  unfoldable pub insert_wait_list_priority : Kernel → WaitList → ℕ → Kernel
  unfolding insert_priority
  insert_wait_list_priority k w t = record k {
    wait_lists = update_list k.wait_lists w (insert_priority k.tcbs t (k.wait_lists w));
    tcbs = update k.tcbs t (record (k.tcbs t) { event_linked = true });
  }

  -- `sertos_scheduler_wait_list_remove`.
  unfoldable pub wait_list_remove : Kernel → Option WaitList → Option ℕ → Kernel
  wait_list_remove k none t = k
  wait_list_remove k (some w) none = k
  wait_list_remove k (some w) (some t) = if not (k.tcbs t).event_linked then k else record k {
    wait_lists = update_list k.wait_lists w (m.linked_list_remove_direct (k.wait_lists w) t);
    tcbs = update k.tcbs t (record (k.tcbs t) { event_linked = false });
  }

  -- A task with a running delay leaves the delay list.
  unfoldable pub cancel_delay : Kernel → ℕ → Kernel
  cancel_delay k t =
      if ltb 0 (k.tcbs t).delay_ticks
      then record k {
        delay_list = m.linked_list_remove_direct k.delay_list t;
        tcbs = update k.tcbs t (record (k.tcbs t) {
          delay_ticks = 0;
          state_linked = after_remove (k.tcbs t).state_linked;
        });
      }
      else k

  unfoldable pub forget_wait_list : Kernel → ℕ → Kernel
  forget_wait_list k t = set_tcb k t (record (k.tcbs t) { wait_list = none })

  unfoldable pub unblock : Kernel → WaitList → ℕ → Kernel
  unfolding cancel_delay forget_wait_list
  unblock k w t =
      (add_ready (forget_wait_list (cancel_delay (wait_list_remove k (some w) (some t)) t) t)
        (some t)).0

  -- `sertos_scheduler_wait_list_unblock_highest`.
  unfoldable pub wait_list_unblock_highest : Kernel → Option WaitList → Kernel × Option ℕ
  unfolding unblock
  wait_list_unblock_highest k none = (k, none)
  wait_list_unblock_highest k (some w) = elim (m.linked_list_peek_head (k.wait_lists w)) [
    | none ↦ (k, none)
    | some t ↦ (unblock k w t, some t)
  ]

  -- The state and the wait list of the task that is to block, and its place in the queue.
  unfoldable pub mark_blocked : Kernel → WaitList → ℕ → Kernel
  mark_blocked k w t =
      insert_wait_list_priority
        (set_tcb k t (record (k.tcbs t) { state = blocked; wait_list = some w })) w t

  -- A timeout puts the task on the delay list too; without one its state node is in no list.
  unfoldable pub arm_timeout : Kernel → ℕ → ℕ → Kernel
  arm_timeout k t ticks =
      if not (ticks == wait_forever)
      then record k {
        delay_list = m.linked_list_insert_tail_direct k.delay_list t;
        tcbs = update k.tcbs t (record (k.tcbs t) { delay_ticks = ticks; state_linked = true });
      }
      else set_tcb k t (record (k.tcbs t) { delay_ticks = 0; state_linked = false })

  -- The critical section of `sertos_scheduler_wait_list_block`.
  unfoldable pub enter_wait : Kernel → WaitList → ℕ → ℕ → Kernel
  unfolding mark_blocked arm_timeout
  enter_wait k w t ticks = arm_timeout (mark_blocked (remove_ready k (some t)).0 w t) t ticks

  -- The status when the task runs again.
  unfoldable pub wait_status : Tcb → ℕ → Status
  wait_status b ticks =
      if not (ticks == wait_forever) && b.delay_ticks == 0 && is_none b.wait_list
      then timeout
      else ok

module _ ⦃m : Modules⦄ ⦃e : Port⦄ where
  unfoldable pub block_current : Kernel → WaitList → Option ℕ → ℕ → Kernel × Status
  unfolding enter_wait wait_status
  block_current k w none ticks = (k, not_initialized)
  block_current k w (some t) ticks =
      if not k.is_running
      then (k, not_initialized)
      else let k' = switch_context (enter_wait k w t ticks) in (k', wait_status (k'.tcbs t) ticks)

  -- `sertos_scheduler_wait_list_block`.
  unfoldable pub wait_list_block : Kernel → Option WaitList → ℕ → Kernel × Status
  unfolding block_current
  wait_list_block k none ticks = (k, null_ptr)
  wait_list_block k (some w) ticks = block_current k w k.current_tcb ticks
