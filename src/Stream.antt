-- ===== src/Stream.antt =====
-- src/sertos_stream_buffer.c: a byte stream in a ring buffer, with a trigger level for the reader.
pub mod Transfer
pub mod Trigger
use sertos.Base.{
  ℕ, ◌+◌, ◌-◌, Bool, true, false, ◌&&◌, ◌||◌, not, Option, none, some, List, ◌==◌, ltb, leb,
  if◌then◌else◌, update,
}
use sertos.Types.{Status, ok, null_ptr, invalid_param, no_memory, u64}
use sertos.Modules.{Modules, RingBuffer}
use sertos.Kernel.{Kernel, StreamBuffer, stream_wait_send, stream_wait_recv, update_list}
use sertos.Queue.{next_power_of_two, read_bytes}

-- SERTOS_STREAM_BUFFER_MAGIC_WORD.
abbrev pub stream_buffer_magic_word : ℕ
stream_buffer_magic_word = 0x53545242

abbrev pub set_stream : Kernel → ℕ → StreamBuffer → Kernel
set_stream k h s = record k { stream_buffers = update k.stream_buffers h s }

-- `is_valid_handle`.
unfoldable pub is_valid_handle : Kernel → Option ℕ → Bool
is_valid_handle k none = false
is_valid_handle k (some h) = (k.stream_buffers h).magic == stream_buffer_magic_word

-- A trigger level of 0 stands for 1.
unfoldable pub at_least_one : ℕ → ℕ
at_least_one n = if n == 0 then 1 else n

module _ ⦃m : Modules⦄ where
  -- `stream_buffer_free_bytes`.
  unfoldable pub stream_buffer_free_bytes : RingBuffer → ℕ
  stream_buffer_free_bytes rb =
      if ltb (m.ring_buffer_count rb) (m.ring_buffer_capacity rb)
      then m.ring_buffer_capacity rb - m.ring_buffer_count rb
      else 0

  -- The end of `sertos_stream_buffer_create_static`, with the ring buffer set up.
  unfoldable pub set_up : Kernel → ℕ → ℕ → RingBuffer → ℕ → Kernel × Option ℕ × Status
  set_up k h address rb trigger =
      if ltb (m.ring_buffer_capacity rb) trigger
      then (set_stream k h (record (k.stream_buffers h) { ring_buf = rb }), none, invalid_param)
      else (
        record (set_stream k h (record {
          ring_buf = rb;
          trigger_level_bytes = trigger;
          storage_buffer = address;
          is_statically_allocated = true;
          magic = stream_buffer_magic_word;
        })) {
          wait_lists =
              update_list (update_list k.wait_lists (stream_wait_send h) m.linked_list_init)
                (stream_wait_recv h) m.linked_list_init;
        },
        some h,
        ok,
      )

  -- `sertos_stream_buffer_create_static`: the storage is an address with the bytes there, or null.
  unfoldable pub create_static :
      Kernel → Option ℕ → Option (ℕ × List ℕ) → ℕ → ℕ → Bool → Kernel × Option ℕ × Status
  unfolding set_up at_least_one
  create_static k none storage size trigger out = (k, none, null_ptr)
  create_static k (some h) none size trigger out = (k, none, null_ptr)
  create_static k (some h) (some s) size trigger false = (k, none, null_ptr)
  create_static k (some h) (some (address, bytes)) size trigger true =
      if ltb size 2 then (k, none, invalid_param) else elim (m.ring_buffer_init bytes size) [
        | none ↦ (k, none, invalid_param)
        | some rb ↦ set_up k h address rb (at_least_one trigger)
      ]

  unfoldable pub finish_create : ℕ → ℕ → Kernel × Option ℕ × Status → Kernel × Option ℕ × Status
  finish_create h storage (k, out, ok) =
      (set_stream k h (record (k.stream_buffers h) { is_statically_allocated = false }), out, ok)
  finish_create h storage (k, out, s) =
      (record k { pool = m.memory_pool_free (m.memory_pool_free k.pool storage) h }, out, s)

  -- The allocations of `sertos_stream_buffer_create`.
  unfoldable pub allocate : ℕ → Kernel → ℕ → ℕ → Kernel × Option ℕ × Status
  unfolding create_static finish_create
  allocate struct_size k trigger capacity = elim (m.memory_pool_malloc k.pool struct_size) [
    | none ↦ (k, none, no_memory)
    | some (h, pool1) ↦ elim (m.memory_pool_malloc pool1 capacity) [
      | none ↦ (record k { pool = m.memory_pool_free pool1 h }, none, no_memory)
      | some (storage, pool2) ↦ finish_create h storage (
          create_static (record k { pool = pool2 }) (some h)
            (some (storage, read_bytes k.memory storage capacity)) capacity trigger true)
    ]
  ]

  -- `sertos_stream_buffer_create`, with fuel for the loop of `next_power_of_two`.
  unfoldable pub create : ℕ → ℕ → Kernel → ℕ → ℕ → Bool → Option (Kernel × Option ℕ × Status)
  unfolding allocate
  create fuel struct_size k buffer_size trigger false = some (k, none, null_ptr)
  create fuel struct_size k buffer_size trigger true =
      if buffer_size == 0
      then some (k, none, invalid_param)
      else elim (next_power_of_two fuel (u64 (buffer_size + 1))) [
        | none ↦ none
        | some capacity ↦ some (allocate struct_size k trigger capacity)
      ]

  -- `sertos_stream_buffer_bytes_available`, `sertos_stream_buffer_spaces_available`.
  unfoldable pub bytes_available : Kernel → Option ℕ → ℕ
  bytes_available k none = 0
  bytes_available k (some h) =
      if not (is_valid_handle k (some h))
      then 0
      else m.ring_buffer_count (k.stream_buffers h).ring_buf

  unfoldable pub spaces_available : Kernel → Option ℕ → ℕ
  unfolding stream_buffer_free_bytes
  spaces_available k none = 0
  spaces_available k (some h) =
      if not (is_valid_handle k (some h))
      then 0
      else stream_buffer_free_bytes (k.stream_buffers h).ring_buf

  -- `sertos_stream_buffer_is_empty`, `sertos_stream_buffer_is_full`.
  unfoldable pub is_empty : Kernel → Option ℕ → Bool
  is_empty k none = true
  is_empty k (some h) =
      if not (is_valid_handle k (some h))
      then true
      else m.ring_buffer_is_empty (k.stream_buffers h).ring_buf

  unfoldable pub is_full : Kernel → Option ℕ → Bool
  is_full k none = false
  is_full k (some h) =
      if not (is_valid_handle k (some h))
      then false
      else m.ring_buffer_is_full (k.stream_buffers h).ring_buf
