-- ===== src/Modules.antt =====
-- The submodules linked_list, bitmap, ring_buffer, memory_pool and crc, which .gitmodules names and
-- the repository does not hold. A list is the sequence of the handles linked into it, head first; a
-- bitmap is its bits. The operations are parameters; `Laws` is what the kernel relies on.
pub mod Plain
use sertos.Base.{
  ℕ, ◌+◌, ◌-◌, ◌≤◌, ◌<◌, ◌≡◌, Bool, true, false, not, Option, none, some, List, [], ◌∷◌, ◌++◌, mem,
  erase, distinct, head?, null, ◌==◌, if◌then◌else◌,
}
use sertos.Types.{max_priorities}

-- The fields of `RingBuffer` that src/sertos_queue.c reads by name.
pub record RingBuffer : Type 0 where
  pub buffer : List ℕ
  pub mask : ℕ
  pub head : ℕ
  pub tail : ℕ

pub record Modules : Type 0 where
  pub linked_list_init : List ℕ
  pub linked_list_insert_tail_direct : List ℕ → ℕ → List ℕ
  pub linked_list_remove_direct : List ℕ → ℕ → List ℕ
  -- Whether `linked_list_remove_direct` leaves the pointers of the removed node null.
  pub remove_clears_node : Bool
  pub linked_list_is_empty : List ℕ → Bool
  pub linked_list_peek_head : List ℕ → Option ℕ
  pub bitmap_init : ℕ → Option (ℕ → Bool)
  pub bitmap_set_bit : (ℕ → Bool) → ℕ → ℕ → Bool
  pub bitmap_clear_bit : (ℕ → Bool) → ℕ → ℕ → Bool
  pub bitmap_find_last_set : (ℕ → Bool) → Option ℕ
  pub ring_buffer_init : List ℕ → ℕ → Option RingBuffer
  pub ring_buffer_write : RingBuffer → List ℕ → RingBuffer × ℕ
  pub ring_buffer_read : RingBuffer → ℕ → RingBuffer × List ℕ
  pub ring_buffer_count : RingBuffer → ℕ
  pub ring_buffer_capacity : RingBuffer → ℕ
  pub ring_buffer_clear : RingBuffer → RingBuffer
  pub ring_buffer_is_empty : RingBuffer → Bool
  pub ring_buffer_is_full : RingBuffer → Bool
  -- The pool is the list of the blocks in use; an allocation names a block or fails.
  pub memory_pool_malloc : List ℕ → ℕ → Option (ℕ × List ℕ)
  pub memory_pool_free : List ℕ → ℕ → List ℕ
  pub crc_32_calculate : List ℕ → ℕ

-- Intrusive circular lists: a node is linked at the tail when it is in no list yet, and is taken
-- out of the list that holds it.
pub record ListLaws (m : Modules) : Type 0 where
  pub init_lem : m.linked_list_init ≡ []
  pub insert_tail_lem :
      (l : List ℕ) (t : ℕ) → mem t l ≡ false → m.linked_list_insert_tail_direct l t ≡ l ++ t ∷ []
  pub remove_lem :
      (l : List ℕ) (t : ℕ)
      → mem t l ≡ true
      → distinct l ≡ true
      → m.linked_list_remove_direct l t ≡ erase t l
  pub is_empty_lem : (l : List ℕ) → m.linked_list_is_empty l ≡ null l
  pub peek_head_lem : (l : List ℕ) → m.linked_list_peek_head l ≡ head? l

-- A bit array with a search for the highest bit that is set, over the priorities.
pub record BitmapLaws (m : Modules) : Type 0 where
  pub bits_init : (b : ℕ → Bool) × (m.bitmap_init max_priorities ≡ some b) × ((i : ℕ) → b i ≡ false)
  pub set_lem :
      (b : ℕ → Bool) (i j : ℕ)
      → i < max_priorities
      → m.bitmap_set_bit b i j ≡ (if i == j then true else b j)
  pub clear_lem :
      (b : ℕ → Bool) (i j : ℕ)
      → i < max_priorities
      → m.bitmap_clear_bit b i j ≡ (if i == j then false else b j)
  pub find_none :
      (b : ℕ → Bool) (i : ℕ) → m.bitmap_find_last_set b ≡ none → i < max_priorities → b i ≡ false
  pub find_some :
      (b : ℕ → Bool) (p : ℕ)
      → m.bitmap_find_last_set b ≡ some p
      → (p < max_priorities) × (b p ≡ true)
  pub find_last :
      (b : ℕ → Bool) (p q : ℕ)
      → m.bitmap_find_last_set b ≡ some p
      → p < q
      → q < max_priorities
      → b q ≡ false
