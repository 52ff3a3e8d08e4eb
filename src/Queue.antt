-- ===== src/Queue.antt =====
-- src/sertos_queue.c: fixed-size items in a ring buffer, with two wait lists.
pub mod Capacity
pub mod Transfer
pub mod Ring
pub mod Fifo
use sertos.Base.{
  ℕ, zero, suc, ◌+◌, ◌-◌, ◌*◌, ◌/◌, Bool, true, false, ◌&&◌, ◌||◌, not, Option, none, some, List,
  [], ◌∷◌, ◌==◌, ltb, if◌then◌else◌, update, is_none,
}
use Prim.Native.Nat.{bit_and}
use sertos.Types.{
  Status, ok, null_ptr, invalid_param, no_memory, timeout, resource_busy, no_wait, is_ok, u64,
}
use sertos.Modules.{Modules, RingBuffer}
use sertos.Kernel.{Kernel, Queue, WaitList, queue_wait_send, queue_wait_recv, update_list}
use sertos.Port.{Port}
use sertos.Scheduler.Wait.{wait_list_unblock_highest, wait_list_block}
use sertos.Scheduler.WakeAll.{wake_all}
use sertos.Task.Create.{reschedule_if_running}
use sertos.Sem.{higher_prio_woken}

-- SERTOS_QUEUE_MAGIC_WORD.
abbrev pub queue_magic_word : ℕ
queue_magic_word = 0x51554555

abbrev pub set_queue : Kernel → ℕ → Queue → Kernel
set_queue k h q = record k { queues = update k.queues h q }

abbrev pub is_queue : Kernel → ℕ → Bool
is_queue k h = (k.queues h).magic == queue_magic_word

-- The loop of `next_power_of_two`, with fuel for its rounds; the shift wraps.
unfoldable pub shift_rounds : ℕ → ℕ → ℕ → Option ℕ
shift_rounds zero value p = none
shift_rounds (suc fuel) value p =
    let rest = shift_rounds fuel value (u64 (p * 2)) in if ltb p value then rest else some p

-- `next_power_of_two`.
unfoldable pub next_power_of_two : ℕ → ℕ → Option ℕ
unfolding shift_rounds
next_power_of_two fuel value = shift_rounds fuel value 2

abbrev pub byte_at : List ℕ → ℕ → ℕ
byte_at [] i = 0
byte_at (b ∷ bs) zero = b
byte_at (b ∷ bs) (suc i) = byte_at bs i

-- `queue_peek_bytes`: the bytes from the index on.
unfoldable pub peek_from : RingBuffer → ℕ → ℕ → List ℕ
peek_from rb i zero = []
peek_from rb i (suc n) = byte_at rb.buffer (bit_and i rb.mask) ∷ peek_from rb (i + 1) n

unfoldable pub queue_peek_bytes : RingBuffer → ℕ → List ℕ
unfolding peek_from
queue_peek_bytes rb n = peek_from rb rb.tail n

-- The bytes of a block of memory.
abbrev pub read_bytes : (ℕ → ℕ) → ℕ → ℕ → List ℕ
read_bytes memory a zero = []
read_bytes memory a (suc n) = memory a ∷ read_bytes memory (a + 1) n

module _ ⦃m : Modules⦄ where
  -- `queue_free_bytes`.
  unfoldable pub queue_free_bytes : RingBuffer → ℕ
  queue_free_bytes rb =
      if ltb (m.ring_buffer_count rb) (m.ring_buffer_capacity rb)
      then m.ring_buffer_capacity rb - m.ring_buffer_count rb
      else 0

  -- `sertos_queue_create_static`: the storage is an address with the bytes there, or null.
  unfoldable pub create_static :
      Kernel → Option ℕ → Option (ℕ × List ℕ) → ℕ → ℕ → Bool → Kernel × Option ℕ × Status
  create_static k none storage size item_size out = (k, none, null_ptr)
  create_static k (some h) none size item_size out = (k, none, null_ptr)
  create_static k (some h) (some s) size item_size false = (k, none, null_ptr)
  create_static k (some h) (some (address, bytes)) size item_size true =
      if item_size == 0 || ltb size 2
      then (k, none, invalid_param)
      else elim (m.ring_buffer_init bytes size) [
        | none ↦ (k, none, invalid_param)
        | some rb ↦ (
          record (set_queue k h (record {
            ring_buf = rb;
            item_size = item_size;
            max_items = m.ring_buffer_capacity rb / item_size;
            storage_buffer = address;
            is_statically_allocated = true;
            magic = queue_magic_word;
          })) {
            wait_lists =
                update_list (update_list k.wait_lists (queue_wait_send h) m.linked_list_init)
                  (queue_wait_recv h) m.linked_list_init;
          },
          some h,
          ok,
        )
      ]

  unfoldable pub finish_create : ℕ → ℕ → Kernel × Option ℕ × Status → Kernel × Option ℕ × Status
  finish_create h storage (k, out, ok) =
      (set_queue k h (record (k.queues h) { is_statically_allocated = false }), out, ok)
  finish_create h storage (k, out, s) =
      (record k { pool = m.memory_pool_free (m.memory_pool_free k.pool storage) h }, out, s)

  -- The allocations of `sertos_queue_create`, of a `SertosQueue` and of the storage.
  unfoldable pub allocate : ℕ → Kernel → ℕ → ℕ → Kernel × Option ℕ × Status
  unfolding create_static finish_create
  allocate struct_size k item_size capacity = elim (m.memory_pool_malloc k.pool struct_size) [
    | none ↦ (k, none, no_memory)
    | some (h, pool1) ↦ elim (m.memory_pool_malloc pool1 capacity) [
      | none ↦ (record k { pool = m.memory_pool_free pool1 h }, none, no_memory)
      | some (storage, pool2) ↦ finish_create h storage (
          create_static (record k { pool = pool2 }) (some h)
            (some (storage, read_bytes k.memory storage capacity)) capacity item_size true)
    ]
  ]

  -- `sertos_queue_create`, with fuel for the loop of `next_power_of_two`.
  unfoldable pub create : ℕ → ℕ → Kernel → ℕ → ℕ → Bool → Option (Kernel × Option ℕ × Status)
  unfolding allocate next_power_of_two
  create fuel struct_size k item_size max_items false = some (k, none, null_ptr)
  create fuel struct_size k item_size max_items true =
      if item_size == 0 || max_items == 0
      then some (k, none, invalid_param)
      else elim (next_power_of_two fuel (u64 (u64 (item_size * max_items) + 1))) [
        | none ↦ none
        | some capacity ↦ some (allocate struct_size k item_size capacity)
      ]

  -- `sertos_queue_reset`.
  unfoldable pub reset : Kernel → Option ℕ → Kernel × Status
  reset k none = (k, invalid_param)
  reset k (some h) = if not (is_queue k h) then (k, invalid_param) else (
    set_queue k h (record (k.queues h) { ring_buf = m.ring_buffer_clear (k.queues h).ring_buf }),
    ok,
  )

  -- `sertos_queue_get_count`.
  unfoldable pub get_count : Kernel → Option ℕ → ℕ
  get_count k none = 0
  get_count k (some h) =
      if not (is_queue k h)
      then 0
      else m.ring_buffer_count (k.queues h).ring_buf / (k.queues h).item_size

  -- `sertos_queue_get_spaces_available`.
  unfoldable pub get_spaces_available : Kernel → Option ℕ → ℕ
  unfolding queue_free_bytes
  get_spaces_available k none = 0
  get_spaces_available k (some h) =
      if not (is_queue k h)
      then 0
      else queue_free_bytes (k.queues h).ring_buf / (k.queues h).item_size
