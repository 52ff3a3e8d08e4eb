-- ===== src/Queue/Ring.antt =====
-- What src/sertos_queue.c and src/sertos_stream_buffer.c rely on of the submodule ring_buffer.
use sertos.Base.{ℕ, ◌+◌, ◌≤◌, ◌<◌, ◌≡◌, List, [], ◌++◌, length, take, drop}
use Prim.Native.Nat.{bit_and}
use sertos.Modules.{Modules, RingBuffer}
use sertos.Queue.{byte_at}

-- A ring holds bytes in their order: writing adds at the end what fits, reading takes from the
-- front what there is. A byte stands where the code that peeks looks for it.
pub record RingLaws (m : Modules) : Type 1 where
  pub IsRing : RingBuffer → Type 0
  pub contents : RingBuffer → List ℕ
  pub count_lem : (r : RingBuffer) → IsRing r → m.ring_buffer_count r ≡ length (contents r)
  pub within : (r : RingBuffer) → IsRing r → length (contents r) ≤ m.ring_buffer_capacity r
  pub write_lem :
      (r : RingBuffer) (l : List ℕ)
      → IsRing r
      → length (contents r) + length l ≤ m.ring_buffer_capacity r
      → let (r', n) = m.ring_buffer_write r l in
        IsRing r'
        × (contents r' ≡ contents r ++ l)
        × (m.ring_buffer_capacity r' ≡ m.ring_buffer_capacity r)
        × (n ≡ length l)
  pub read_lem :
      (r : RingBuffer) (n : ℕ)
      → IsRing r
      → n ≤ length (contents r)
      → let (r', l) = m.ring_buffer_read r n in
        IsRing r'
        × (contents r' ≡ drop n (contents r))
        × (m.ring_buffer_capacity r' ≡ m.ring_buffer_capacity r)
        × (l ≡ take n (contents r))
  pub byte_lem :
      (r : RingBuffer) (i : ℕ)
      → IsRing r
      → i < length (contents r)
      → byte_at r.buffer (bit_and (r.tail + i) r.mask) ≡ byte_at (contents r) i
  pub clear_lem :
      (r : RingBuffer)
      → IsRing r
      → let r' = m.ring_buffer_clear r in
        IsRing r' × (contents r' ≡ []) × (m.ring_buffer_capacity r' ≡ m.ring_buffer_capacity r)
