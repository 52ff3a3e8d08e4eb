-- ===== src/Ports/Frames.antt =====
-- The initial stack frame of a task on each core: `sertos_port_stack_init` of
-- port/arm/*/port_cpu.c, on the stack that `init_tcb_and_stack` of src/sertos_task.c hands to it.
use sertos.Base.{
  ℕ, ◌+◌, ◌-◌, ◌*◌, ◌%◌, ◌^◌, ◌≤◌, ◌<◌, ◌≡◌, sym, ap, ap₂, ◌∙◌, ◌⊎◌, inl, inr, List, [], ◌∷◌, ◌++◌,
  map, length, length-append, arith,
}
use sertos.Types.{u32, stack_alignment_bytes, minimal_stack_size}
use sertos.Task.Create.{aligned_top}
use sertos.Task.Stack.{aligned_top_lem}
use sertos.Ports.Words.{
  place_frame, place_frame-pointer, read_words, read_words-write_words, write_words,
  write_words-append, write_words-elsewhere,
}
use sertos.Ports.CortexM.{exception_words, initial_exception}
use sertos.Ports.Core.{
  Core, stack_init, stack_init-layout, return_words, length-return_words, map-return_words,
}

-- A frame that is placed below an aligned top: its upper part, whose words are read back, ends at
-- the top, and no byte outside the frame changes.
place_frame-parts :
    (memory : ℕ → ℕ) (top : ℕ) (saved pushed : List ℕ)
    → 0 < top
    → top < 2 ^ 32
    → top % stack_alignment_bytes ≡ 0
    → 4 * length (saved ++ pushed) ≤ top
    → let (memory', sp) = place_frame memory top (saved ++ pushed) in
      (sp + 4 * length (saved ++ pushed) ≡ top)
      × (read_words memory' (sp + 4 * length saved) (length pushed) ≡ map u32 pushed)
      × ((i : ℕ) → (i < sp) ⊎ (top ≤ i) → memory' i ≡ memory i)
place_frame-parts memory top saved pushed p l h f =
    let (sp, end, placed) = place_frame-pointer memory top (saved ++ pushed) p l h f in
    rw placed (
      end,
      ap (λ (after : ℕ → ℕ). read_words after (sp + 4 * length saved) (length pushed))
            (write_words-append memory sp saved pushed)
          ∙ read_words-write_words (write_words memory sp saved) (sp + 4 * length saved) pushed,
      λ i o.
          write_words-elsewhere memory sp (saved ++ pushed) i
            (elim o [ inl b ↦ inl b | inr a ↦ inr (omega (arith, end, a)) ]),
    )

-- The words of the exception's frame are words of 32 bits.
exception_words-u32 :
    (entry param : ℕ)
    → map u32 (exception_words (initial_exception entry param))
      ≡ u32 param ∷ 0 ∷ 0 ∷ 0 ∷ 0 ∷ 0 ∷ u32 entry ∷ 0x01000000 ∷ []
exception_words-u32 entry param =
    ap₂ (λ r0 pc. r0 ∷ 0 ∷ 0 ∷ 0 ∷ 0 ∷ 0 ∷ pc ∷ 0x01000000 ∷ []) (omega arith) (omega arith)

-- On every core, the frame of a new task whose stack has the minimal size at least and lies below
-- 2^32 stays within the buffer: the stack pointer is not below its base, and no byte outside the
-- buffer changes. Behind the eight registers that the context switch loads from the stack pointer
-- up, the frame has what a start of the task takes from it, up to the top of the stack: the value
-- for the return from the exception, on the cores whose switch loads one, and, at a multiple of
-- eight, the eight words that the core pops: the argument in r0, zeros, the entry as the program
-- counter, and an xPSR with the Thumb bit.
pub stack_init-fits :
    (core : Core) (memory : ℕ → ℕ) (base size limit entry param : ℕ)
    → minimal_stack_size ≤ size
    → base + size < 2 ^ 32
    → let top = aligned_top base size in
      let (memory', sp) = stack_init core memory top limit entry param in
      (base ≤ sp)
      × (sp + 32 + 4 * (length (return_words core) + 8) ≡ top)
      × ((top - 32) % stack_alignment_bytes ≡ 0)
      × (read_words memory' (sp + 32) (length (return_words core) + 8)
          ≡ return_words core ++ u32 param ∷ 0 ∷ 0 ∷ 0 ∷ 0 ∷ 0 ∷ u32 entry ∷ 0x01000000 ∷ [])
      × ((i : ℕ) → (i < base) ⊎ (base + size ≤ i) → memory' i ≡ memory i)
stack_init-fits core memory base size limit entry param l h =
    let top = aligned_top base size in
    let (aligned, under, near) = aligned_top_lem base size (omega (arith, h)) in
    let exception = exception_words (initial_exception entry param) in
    let pushed = return_words core ++ exception in
    let (registers, eight, placed) = stack_init-layout core in
    let sum = length-append registers pushed in
    let more = length-append (return_words core) exception in
    let few = length-return_words core in
    let (memory', sp) = place_frame memory top (registers ++ pushed) in
    let (end, words, kept) =
      place_frame-parts memory top registers pushed (omega arith) (omega arith) aligned
        (omega arith) in
    rw (placed memory top limit entry param) (
      omega arith,
      omega arith,
      omega arith,
      ap₂ (λ (a n : ℕ). read_words memory' a n) (omega (arith, eight)) (sym more)
          ∙ words
          ∙ map-return_words core exception
          ∙ ap (λ ws. return_words core ++ ws) (exception_words-u32 entry param),
      λ i o. kept i (elim o [ inl b ↦ inl (omega arith) | inr a ↦ inr (omega (arith, a)) ]),
    )
