-- ===== src/Stream/Transfer.antt =====
-- src/sertos_stream_buffer.c: sending, receiving, the trigger level, reset and deletion.
use sertos.Base.{
  ℕ, zero, suc, Bool, false, ◌&&◌, ◌||◌, not, Option, none, some, List, [], ◌==◌, ltb, leb, null,
  if◌then◌else◌,
}
use sertos.Types.{Status, ok, invalid_param, no_wait, is_ok}
use sertos.Modules.{Modules, RingBuffer}
use sertos.Kernel.{Kernel, StreamBuffer, stream_wait_send, stream_wait_recv}
use sertos.Port.{Port}
use sertos.Scheduler.Wait.{wait_list_unblock_highest, wait_list_block}
use sertos.Scheduler.WakeAll.{wake_all}
use sertos.Task.Create.{reschedule_if_running}
use sertos.Sem.{higher_prio_woken}
use sertos.Stream.{set_stream, is_valid_handle, at_least_one, stream_buffer_free_bytes}

-- `is_send_params_valid`, for data of a length.
unfoldable pub is_send_params_valid : Kernel → Option ℕ → Option (List ℕ) → Bool
is_send_params_valid k h none = false
is_send_params_valid k h (some bytes) = is_valid_handle k h && not (null bytes)

-- `is_recv_params_valid`.
unfoldable pub is_recv_params_valid : Kernel → Option ℕ → Bool → ℕ → Bool
is_recv_params_valid k h buffer max_length = is_valid_handle k h && buffer && ltb 0 max_length

-- `update_higher_prio_woken`.
unfoldable pub update_higher_prio_woken : Kernel → Option ℕ → Bool
update_higher_prio_woken k none = false
update_higher_prio_woken k (some t) = higher_prio_woken k t k.current_tcb

module _ ⦃m : Modules⦄ where
  abbrev set_ring : Kernel → ℕ → RingBuffer → Kernel
  set_ring k h rb = set_stream k h (record (k.stream_buffers h) { ring_buf = rb })

  -- Enough bytes for the reader.
  unfoldable pub has_trigger : StreamBuffer → Bool
  has_trigger s = leb s.trigger_level_bytes (m.ring_buffer_count s.ring_buf)

  -- A reader is woken once the trigger level is reached.
  unfoldable pub wake_reader : Kernel → ℕ → Kernel × Option ℕ
  unfolding has_trigger
  wake_reader k h =
      if has_trigger (k.stream_buffers h)
      then wait_list_unblock_highest k (some (stream_wait_recv h))
      else (k, none)

  -- A writer is woken if bytes were read.
  unfoldable pub wake_writer : Kernel → ℕ → List ℕ → Kernel × Option ℕ
  wake_writer k h bytes =
      if null bytes then (k, none) else wait_list_unblock_highest k (some (stream_wait_send h))

  -- The write and the read, with the number of bytes written and the bytes read.
  unfoldable pub put : Kernel → ℕ → List ℕ → (Kernel × Option ℕ) × ℕ
  unfolding wake_reader
  put k h bytes =
      let (rb, sent) = m.ring_buffer_write (k.stream_buffers h).ring_buf bytes in
      (wake_reader (set_ring k h rb) h, sent)

  unfoldable pub fetch : Kernel → ℕ → ℕ → (Kernel × Option ℕ) × List ℕ
  unfolding wake_writer
  fetch k h max_length =
      let (rb, bytes) = m.ring_buffer_read (k.stream_buffers h).ring_buf max_length in
      (wake_writer (set_ring k h rb) h bytes, bytes)

  -- `sertos_stream_buffer_send_from_isr`; the second part is `*out_higher_prio_woken`.
  unfoldable pub send_from_isr : Kernel → Option ℕ → Option (List ℕ) → Kernel × Bool × ℕ
  unfolding is_send_params_valid update_higher_prio_woken wake_reader
  send_from_isr k none bytes = (k, false, 0)
  send_from_isr k (some h) none = (k, false, 0)
  send_from_isr k (some h) (some bytes) =
      if not (is_send_params_valid k (some h) (some bytes))
      then (k, false, 0)
      else let (rb, sent) = m.ring_buffer_write (k.stream_buffers h).ring_buf bytes in
        let k1 = set_ring k h rb in
        let (k2, unblocked) = if ltb 0 sent then wake_reader k1 h else (k1, none) in
        (k2, update_higher_prio_woken k2 unblocked, sent)

  -- `sertos_stream_buffer_receive_from_isr`, with the bytes that are written to the buffer.
  unfoldable pub receive_from_isr : Kernel → Option ℕ → Bool → ℕ → Kernel × Bool × List ℕ
  unfolding is_recv_params_valid update_higher_prio_woken fetch
  receive_from_isr k none buffer max_length = (k, false, [])
  receive_from_isr k (some h) buffer max_length =
      if not (is_recv_params_valid k (some h) buffer max_length)
      then (k, false, [])
      else let ((k', unblocked), bytes) = fetch k h max_length in
        (k', update_higher_prio_woken k' unblocked, bytes)

module _ ⦃m : Modules⦄ ⦃e : Port⦄ where
  -- `notify_unblocked_task`.
  unfoldable pub notify_unblocked_task : Kernel × Option ℕ → Kernel
  notify_unblocked_task (k, none) = k
  notify_unblocked_task (k, some t) = reschedule_if_running k

  -- `sertos_stream_buffer_delete`.
  unfoldable pub delete : Kernel → Option ℕ → Kernel × Status
  delete k none = (k, invalid_param)
  delete k (some h) =
      if not (is_valid_handle k (some h))
      then (k, invalid_param)
      else let k1 =
          wake_all
            (wake_all (set_stream k h (record (k.stream_buffers h) { magic = 0 }))
              (stream_wait_send h))
            (stream_wait_recv h) in
        let k2 = if (k.stream_buffers h).is_statically_allocated then k1 else record k1 {
          pool =
              m.memory_pool_free (m.memory_pool_free k1.pool (k.stream_buffers h).storage_buffer) h;
        } in
        (reschedule_if_running k2, ok)

  -- `sertos_stream_buffer_set_trigger_level`.
  unfoldable pub set_trigger_level : Kernel → Option ℕ → ℕ → Kernel × Status
  unfolding at_least_one wake_reader notify_unblocked_task
  set_trigger_level k none trigger = (k, invalid_param)
  set_trigger_level k (some h) trigger =
      if not (is_valid_handle k (some h))
      then (k, invalid_param)
      else if ltb (m.ring_buffer_capacity (k.stream_buffers h).ring_buf) (at_least_one trigger)
      then (k, invalid_param)
      else (
        notify_unblocked_task (
            wake_reader
              (set_stream k h
                (record (k.stream_buffers h) { trigger_level_bytes = at_least_one trigger }))
              h),
        ok,
      )

  -- `sertos_stream_buffer_reset`.
  unfoldable pub reset : Kernel → Option ℕ → Kernel × Status
  reset k none = (k, invalid_param)
  reset k (some h) = if not (is_valid_handle k (some h)) then (k, invalid_param) else (
    reschedule_if_running (
        wake_all (set_ring k h (m.ring_buffer_clear (k.stream_buffers h).ring_buf))
          (stream_wait_send h)),
    ok,
  )

  -- The loop of `sertos_stream_buffer_send`, with fuel for its rounds.
  unfoldable pub send_rounds : ℕ → Kernel → ℕ → List ℕ → ℕ → Option (Kernel × ℕ)
  unfolding put notify_unblocked_task
  send_rounds zero k h bytes ticks = none
  send_rounds (suc fuel) k h bytes ticks =
      let (k', s) = wait_list_block k (some (stream_wait_send h)) ticks in
      let rest = send_rounds fuel k' h bytes ticks in
      if not (stream_buffer_free_bytes (k.stream_buffers h).ring_buf == 0)
      then (let (woken, sent) = put k h bytes in some (notify_unblocked_task woken, sent))
      else if ticks == no_wait
      then some (k, 0)
      else if is_ok s && is_valid_handle k' (some h)
      then rest
      else some (k', 0)

  -- `sertos_stream_buffer_send`, with the number of bytes sent.
  unfoldable pub send : ℕ → Kernel → Option ℕ → Option (List ℕ) → ℕ → Option (Kernel × ℕ)
  unfolding send_rounds is_send_params_valid
  send fuel k none bytes ticks = some (k, 0)
  send fuel k (some h) none ticks = some (k, 0)
  send fuel k (some h) (some bytes) ticks =
      if not (is_send_params_valid k (some h) (some bytes))
      then some (k, 0)
      else send_rounds fuel k h bytes ticks

  abbrev read_now : Kernel → ℕ → ℕ → Kernel × List ℕ
  read_now k h max_length =
      let (woken, bytes) = fetch k h max_length in (notify_unblocked_task woken, bytes)

  -- The loop of `sertos_stream_buffer_receive`, with fuel for its rounds.
  unfoldable pub receive_rounds : ℕ → Kernel → ℕ → ℕ → ℕ → Option (Kernel × List ℕ)
  unfolding has_trigger fetch notify_unblocked_task
  receive_rounds zero k h max_length ticks = none
  receive_rounds (suc fuel) k h max_length ticks =
      let (k', s) = wait_list_block k (some (stream_wait_recv h)) ticks in
      let rest = receive_rounds fuel k' h max_length ticks in
      if has_trigger (k.stream_buffers h) || ticks == no_wait
      then some (read_now k h max_length)
      else if not (is_valid_handle k' (some h))
      then some (k', [])
      else if not (is_ok s)
      then some (read_now k' h max_length)
      else rest

  -- `sertos_stream_buffer_receive`, with the bytes received.
  unfoldable pub receive : ℕ → Kernel → Option ℕ → Bool → ℕ → ℕ → Option (Kernel × List ℕ)
  unfolding receive_rounds is_recv_params_valid
  receive fuel k none buffer max_length ticks = some (k, [])
  receive fuel k (some h) buffer max_length ticks =
      if not (is_recv_params_valid k (some h) buffer max_length)
      then some (k, [])
      else receive_rounds fuel k h max_length ticks
