-- ===== src/Queue/Transfer.antt =====
-- src/sertos_queue.c: sending, receiving, peeking and deletion.
use sertos.Base.{
  ℕ, zero, suc, Bool, true, false, not, Option, none, some, List, ◌==◌, ltb, if◌then◌else◌,
}
use sertos.Types.{Status, ok, invalid_param, timeout, resource_busy, no_wait, is_ok}
use sertos.Modules.{Modules}
use sertos.Kernel.{Kernel, Queue, queue_wait_send, queue_wait_recv}
use sertos.Port.{Port}
use sertos.Scheduler.Wait.{wait_list_unblock_highest, wait_list_block}
use sertos.Scheduler.WakeAll.{wake_all}
use sertos.Task.Create.{reschedule_if_running}
use sertos.Sem.{higher_prio_woken}
use sertos.Queue.{set_queue, is_queue, queue_free_bytes, queue_peek_bytes}

module _ ⦃m : Modules⦄ where
  -- The room for an item, and an item to read.
  unfoldable pub has_room : Queue → Bool
  unfolding queue_free_bytes
  has_room q = not (ltb (queue_free_bytes q.ring_buf) q.item_size)

  unfoldable pub has_item : Queue → Bool
  has_item q = not (ltb (m.ring_buffer_count q.ring_buf) q.item_size)

  -- The write of an item, and the task that it wakes.
  unfoldable pub put : Kernel → ℕ → List ℕ → Kernel × Option ℕ
  put k h item =
      wait_list_unblock_highest
        (set_queue k h
          (record (k.queues h) { ring_buf = (m.ring_buffer_write (k.queues h).ring_buf item).0 }))
        (some (queue_wait_recv h))

  -- The read of an item; the bytes, and the task that it wakes.
  unfoldable pub fetch : Kernel → ℕ → Kernel × Option ℕ × List ℕ
  fetch k h =
      let (rb, item) = m.ring_buffer_read (k.queues h).ring_buf (k.queues h).item_size in
      let (k', unblocked) =
        wait_list_unblock_highest (set_queue k h (record (k.queues h) { ring_buf = rb }))
          (some (queue_wait_send h)) in
      (k', unblocked, item)

  abbrev woken_higher : Kernel → Option ℕ → Bool
  woken_higher k none = false
  woken_higher k (some t) = higher_prio_woken k t k.current_tcb

  -- `sertos_queue_send_from_isr`; the second part is what `*out_higher_prio_woken` holds.
  unfoldable pub send_from_isr : Kernel → Option ℕ → Option (List ℕ) → Kernel × Bool × Status
  unfolding has_room put
  send_from_isr k none item = (k, false, invalid_param)
  send_from_isr k (some h) none = (k, false, invalid_param)
  send_from_isr k (some h) (some item) =
      if not (is_queue k h)
      then (k, false, invalid_param)
      else if not (has_room (k.queues h))
      then (k, false, resource_busy)
      else let (k', unblocked) = put k h item in (k', woken_higher k' unblocked, ok)

  -- `sertos_queue_receive_from_isr`; the third part is what is written to `item`, if anything is.
  unfoldable pub receive_from_isr :
      Kernel → Option ℕ → Bool → Kernel × Bool × Option (List ℕ) × Status
  unfolding has_item fetch
  receive_from_isr k none item = (k, false, none, invalid_param)
  receive_from_isr k (some h) false = (k, false, none, invalid_param)
  receive_from_isr k (some h) true =
      if not (is_queue k h)
      then (k, false, none, invalid_param)
      else if not (has_item (k.queues h))
      then (k, false, none, resource_busy)
      else let (k', unblocked, item) = fetch k h in (k', woken_higher k' unblocked, some item, ok)

module _ ⦃m : Modules⦄ ⦃e : Port⦄ where
  -- `sertos_queue_delete`.
  unfoldable pub delete : Kernel → Option ℕ → Kernel × Status
  delete k none = (k, invalid_param)
  delete k (some h) =
      if not (is_queue k h)
      then (k, invalid_param)
      else let k1 =
          wake_all
            (wake_all (set_queue k h (record (k.queues h) { magic = 0 })) (queue_wait_send h))
            (queue_wait_recv h) in
        let k2 = if (k.queues h).is_statically_allocated then k1 else record k1 {
          pool = m.memory_pool_free (m.memory_pool_free k1.pool (k.queues h).storage_buffer) h;
        } in
        (reschedule_if_running k2, ok)

  abbrev reschedule_woken : Kernel × Option ℕ → Kernel
  reschedule_woken (k, none) = k
  reschedule_woken (k, some t) = reschedule_if_running k

  -- The loop of `sertos_queue_send`, with fuel for its rounds.
  unfoldable pub send_rounds : ℕ → Kernel → ℕ → List ℕ → ℕ → Option (Kernel × Status)
  send_rounds zero k h item ticks = none
  send_rounds (suc fuel) k h item ticks =
      let (k', s) = wait_list_block k (some (queue_wait_send h)) ticks in
      let rest = send_rounds fuel k' h item ticks in
      if has_room (k.queues h)
      then some (reschedule_woken (put k h item), ok)
      else if ticks == no_wait
      then some (k, timeout)
      else if is_ok s
      then rest
      else some (k', s)

  -- `sertos_queue_send`.
  unfoldable pub send : ℕ → Kernel → Option ℕ → Option (List ℕ) → ℕ → Option (Kernel × Status)
  unfolding send_rounds
  send fuel k none item ticks = some (k, invalid_param)
  send fuel k (some h) none ticks = some (k, invalid_param)
  send fuel k (some h) (some item) ticks =
      if not (is_queue k h) then some (k, invalid_param) else send_rounds fuel k h item ticks

  -- The loop of `sertos_queue_receive`, with fuel for its rounds.
  unfoldable pub receive_rounds : ℕ → Kernel → ℕ → ℕ → Option (Kernel × Option (List ℕ) × Status)
  receive_rounds zero k h ticks = none
  receive_rounds (suc fuel) k h ticks =
      let (k', s) = wait_list_block k (some (queue_wait_recv h)) ticks in
      let rest = receive_rounds fuel k' h ticks in
      if has_item (k.queues h)
      then (let (k'', unblocked, item) = fetch k h in
          some (reschedule_woken (k'', unblocked), some item, ok))
      else if ticks == no_wait
      then some (k, none, timeout)
      else if is_ok s
      then rest
      else some (k', none, s)

  -- `sertos_queue_receive`.
  unfoldable pub receive :
      ℕ → Kernel → Option ℕ → Bool → ℕ → Option (Kernel × Option (List ℕ) × Status)
  unfolding receive_rounds
  receive fuel k none item ticks = some (k, none, invalid_param)
  receive fuel k (some h) false ticks = some (k, none, invalid_param)
  receive fuel k (some h) true ticks =
      if not (is_queue k h) then some (k, none, invalid_param) else receive_rounds fuel k h ticks

  -- The loop of `sertos_queue_peek`, with fuel for its rounds.
  unfoldable pub peek_rounds : ℕ → Kernel → ℕ → ℕ → Option (Kernel × Option (List ℕ) × Status)
  unfolding queue_peek_bytes
  peek_rounds zero k h ticks = none
  peek_rounds (suc fuel) k h ticks =
      let (k', s) = wait_list_block k (some (queue_wait_recv h)) ticks in
      let rest = peek_rounds fuel k' h ticks in
      if has_item (k.queues h)
      then some (k, some (queue_peek_bytes (k.queues h).ring_buf (k.queues h).item_size), ok)
      else if ticks == no_wait
      then some (k, none, timeout)
      else if is_ok s
      then rest
      else some (k', none, s)

  -- `sertos_queue_peek`.
  unfoldable pub peek :
      ℕ → Kernel → Option ℕ → Bool → ℕ → Option (Kernel × Option (List ℕ) × Status)
  unfolding peek_rounds
  peek fuel k none item ticks = some (k, none, invalid_param)
  peek fuel k (some h) false ticks = some (k, none, invalid_param)
  peek fuel k (some h) true ticks =
      if not (is_queue k h) then some (k, none, invalid_param) else peek_rounds fuel k h ticks
