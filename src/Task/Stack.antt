-- ===== src/Task/Stack.antt =====
-- The stack of a task of src/sertos_task.c: its top, and the high-water mark.
use sertos.Base.{
  ℕ, zero, suc, ◌+◌, ◌-◌, ◌%◌, ◌^◌, ◌≤◌, ◌<◌, ◌≡◌, ◌≢◌, ◌⊎◌, inl, inr, true, some, ◌==◌, leb,
  leb→le, ==→eq, arith, Bool-cases,
}
use sertos.Types.{stack_fill_byte, stack_alignment_bytes}
use sertos.Kernel.{Kernel}
use sertos.Task.Create.{aligned_top}
use sertos.Task.Lifecycle.{is_task}
use sertos.Task.Inspect.{get_stack_high_water_mark, count_painted}

-- The top of a stack that does not wrap is aligned, and lies less than the alignment below the end
-- of the buffer.
pub aligned_top_lem :
    (base size : ℕ)
    → base + size < 2 ^ 64
    → let top = aligned_top base size in
      (top % stack_alignment_bytes ≡ 0)
      × (top ≤ base + size)
      × (base + size < top + stack_alignment_bytes)
unfolding aligned_top
aligned_top_lem base size h = omega arith

-- The count starts from what it is given and takes at most one for each byte.
count_painted_bounds :
    (memory : ℕ → ℕ) (left address free_bytes : ℕ)
    → let n = count_painted memory left address free_bytes in
      (free_bytes ≤ n) × (n ≤ free_bytes + left)
unfolding count_painted
count_painted_bounds memory zero address free_bytes = omega arith
count_painted_bounds memory (suc left) address free_bytes =
    ground (arith, count_painted_bounds memory left (address + 1) (free_bytes + 1))

-- The bytes that are counted are painted.
count_painted_all :
    (memory : ℕ → ℕ) (left address free_bytes i : ℕ)
    → free_bytes + i < count_painted memory left address free_bytes
    → memory (address + i) ≡ stack_fill_byte
unfolding count_painted
count_painted_all memory zero address free_bytes i h = absurd (omega (arith, h))
count_painted_all memory (suc left) address free_bytes zero h = ground arith
count_painted_all memory (suc left) address free_bytes (suc i) h =
    ground (arith, count_painted_all memory left (address + 1) (free_bytes + 1) i)

-- The first byte that is not counted is not painted.
count_painted_end :
    (memory : ℕ → ℕ) (left address free_bytes : ℕ)
    → let n = count_painted memory left address free_bytes in
      n < free_bytes + left → memory (address + (n - free_bytes)) ≢ stack_fill_byte
unfolding count_painted
count_painted_end memory zero address free_bytes h = absurd (omega (arith, h))
count_painted_end memory (suc left) address free_bytes h = ground (
  arith,
  count_painted_end memory left (address + 1) (free_bytes + 1),
  count_painted_bounds memory left (address + 1) (free_bytes + 1),
)

-- The high-water mark of a task is the length of the longest stretch of painted bytes at the low
-- end of its stack: at most the size of the stack, with every byte below it painted, and with the
-- next byte written over, unless the whole stack is painted.
pub get_stack_high_water_mark_lem :
    (k : Kernel) (t i : ℕ)
    → is_task k t ≡ true
    → let n = get_stack_high_water_mark k (some t) in
      let base : ℕ = (k.tcbs t).stack_base in
      (n ≤ (k.tcbs t).stack_size)
      × ((n ≤ i) ⊎ (k.memory (base + i) ≡ stack_fill_byte))
      × ((n ≡ (k.tcbs t).stack_size) ⊎ (k.memory (base + n) ≢ stack_fill_byte))
unfolding get_stack_high_water_mark
get_stack_high_water_mark_lem k t i valid =
    let base : ℕ = (k.tcbs t).stack_base in
    let size : ℕ = (k.tcbs t).stack_size in
    let n = count_painted k.memory size base 0 in
    let z : n - 0 ≡ n = omega arith in
    let bounds = count_painted_bounds k.memory size base 0 in
    rw (get_stack_high_water_mark, valid)
      (
        omega (arith, bounds),
        elim (Bool-cases (leb n i)) [
          | inl h ↦ inl (leb→le n i h)
          | inr h ↦ inr (count_painted_all k.memory size base 0 i (ground (arith, h)))
        ],
        elim (Bool-cases (n == size)) [
          | inl h ↦ inl (==→eq n size h)
          | inr h ↦
              inr (λ q. count_painted_end k.memory size base 0 (ground (arith, h, bounds)) (rw z q))
        ],
      )
