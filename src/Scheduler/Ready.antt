-- ===== src/Scheduler/Ready.antt =====
-- src/sertos_scheduler.c: the ready queues, their bitmap and the choice of the next task.
pub mod Choice
pub mod Membership
pub mod Requeue
use sertos.Base.{
  ℕ, Bool, true, false, ◌&&◌, Option, none, some, List, ◌==◌, leb, if◌then◌else◌, update,
}
use sertos.Types.{Status, ok, invalid_param, ready, max_priorities}
use sertos.Modules.{Modules}
use sertos.Kernel.{Kernel, Tcb, set_tcb}

module _ ⦃m : Modules⦄ where
  -- The flag of a node that `linked_list_remove_direct` has taken out.
  abbrev pub after_remove : Bool → Bool
  after_remove b = if m.remove_clears_node then false else b

  unfoldable pub enqueue_ready : Kernel → ℕ → Kernel
  enqueue_ready k t = record k {
    ready_queues = update k.ready_queues p (m.linked_list_insert_tail_direct (k.ready_queues p) t);
    ready_bitmap = m.bitmap_set_bit k.ready_bitmap p;
    tcbs = update k.tcbs t (record (k.tcbs t) { state_linked = true; state = ready });
  }
    where
      p : ℕ
      p = (k.tcbs t).priority

  -- `sertos_scheduler_add_ready`.
  unfoldable pub add_ready : Kernel → Option ℕ → Kernel × Status
  unfolding enqueue_ready
  add_ready k none = (k, invalid_param)
  add_ready k (some t) =
      if leb max_priorities (k.tcbs t).priority then (k, invalid_param) else (enqueue_ready k t, ok)

  unfoldable pub dequeue_ready : Kernel → ℕ → Kernel
  dequeue_ready k t = record k {
    ready_queues = update k.ready_queues p queue;
    ready_bitmap =
        if m.linked_list_is_empty queue
        then m.bitmap_clear_bit k.ready_bitmap p
        else k.ready_bitmap;
    tcbs =
        update k.tcbs t (record (k.tcbs t) { state_linked = after_remove (k.tcbs t).state_linked });
  }
    where
      p : ℕ
      p = (k.tcbs t).priority

      queue : List ℕ
      queue = m.linked_list_remove_direct (k.ready_queues p) t

  -- `sertos_scheduler_remove_ready`.
  unfoldable pub remove_ready : Kernel → Option ℕ → Kernel × Status
  unfolding dequeue_ready
  remove_ready k none = (k, invalid_param)
  remove_ready k (some t) =
      if leb max_priorities (k.tcbs t).priority
      then (k, invalid_param)
      else if (k.tcbs t).state_linked
      then (dequeue_ready k t, ok)
      else (k, ok)

  -- `sertos_scheduler_select_next_task`.
  unfoldable pub select_next_task : Kernel → Option ℕ
  select_next_task k = elim (m.bitmap_find_last_set k.ready_bitmap) [
    | none ↦ none
    | some p ↦ m.linked_list_peek_head (k.ready_queues p)
  ]
