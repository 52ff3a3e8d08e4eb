-- ===== src/Ports/Words.antt =====
-- The 32-bit words of the ports' initial stack frames, in memory of bytes, the low byte first, and
-- the place of a frame below the top of a stack (port/arm/*/port_cpu.c, port/riscv/port_cpu.c).
use sertos.Base.{
  ℕ, zero, suc, ◌+◌, ◌-◌, ◌*◌, ◌/◌, ◌%◌, ◌^◌, ◌≤◌, ◌<◌, ◌≡◌, refl, ap₂, ◌∙◌, ◌⊎◌, inl, inr, List,
  [], ◌∷◌, ◌++◌, map, ap, length, update, ◌==◌, ==-false, if◌then◌else◌, arith,
}
use sertos.Types.{u32, stack_alignment_bytes}

-- A word with one bit set or cleared, and with the byte of the bits 16 to 23 set to 0xFF.
abbrev pub with_bit : ℕ → ℕ → ℕ
with_bit b v = if v / 2 ^ b % 2 == 0 then v + 2 ^ b else v

abbrev pub without_bit : ℕ → ℕ → ℕ
without_bit b v = if v / 2 ^ b % 2 == 0 then v else v - 2 ^ b

abbrev pub with_third_byte : ℕ → ℕ
with_third_byte v = v % 2 ^ 16 + 0x00FF0000 + v / 2 ^ 24 * 2 ^ 24

-- Little-endian stores and loads.
unfoldable pub write_word : (ℕ → ℕ) → ℕ → ℕ → ℕ → ℕ
write_word memory a v =
    update
      (update (update (update memory a (v % 256)) (a + 1) (v / 256 % 256)) (a + 2)
        (v / 65536 % 256))
      (a + 3) (v / 16777216 % 256)

unfoldable pub read_word : (ℕ → ℕ) → ℕ → ℕ
read_word memory a =
    memory a + 256 * memory (a + 1) + 65536 * memory (a + 2) + 16777216 * memory (a + 3)

unfoldable pub write_words : (ℕ → ℕ) → ℕ → List ℕ → ℕ → ℕ
write_words memory a [] = memory
write_words memory a (w ∷ ws) = write_words (write_word memory a w) (a + 4) ws

unfoldable pub read_words : (ℕ → ℕ) → ℕ → ℕ → List ℕ
read_words memory a zero = []
read_words memory a (suc n) = read_word memory a ∷ read_words memory (a + 4) n

-- `top_addr &= ~(align - 1); top_addr -= sizeof(frame)`, and the frame stored there; a null top
-- gives a null stack pointer. The subtraction of `uintptr_t` wraps.
unfoldable pub place_frame : (ℕ → ℕ) → ℕ → List ℕ → (ℕ → ℕ) × ℕ
place_frame memory top words =
    if top == 0
    then (memory, 0)
    else let top_addr = u32 (top - top % stack_alignment_bytes + (2 ^ 32 - 4 * length words)) in
      (write_words memory top_addr words, top_addr)

-- A store touches four bytes.
write_word-elsewhere :
    (memory : ℕ → ℕ) (a v i : ℕ) → (i < a) ⊎ (a + 4 ≤ i) → write_word memory a v i ≡ memory i
unfolding write_word
write_word-elsewhere memory a v i h = ground arith

word_bytes :
    (v : ℕ)
    → v % 256 + 256 * (v / 256 % 256) + 65536 * (v / 65536 % 256) + 16777216 * (v / 16777216 % 256)
      ≡ u32 v
word_bytes v = omega arith

write_word-bytes :
    (memory : ℕ → ℕ) (a v : ℕ)
    → let after = write_word memory a v in
      (after a ≡ v % 256)
      × (after (a + 1) ≡ v / 256 % 256)
      × (after (a + 2) ≡ v / 65536 % 256)
      × (after (a + 3) ≡ v / 16777216 % 256)
unfolding write_word
write_word-bytes memory a v = (ground arith, ground arith, ground arith, ground arith)

-- A sequence of stores touches the bytes of its words.
pub write_words-elsewhere :
    (memory : ℕ → ℕ) (a : ℕ) (ws : List ℕ) (i : ℕ)
    → (i < a) ⊎ (a + 4 * length ws ≤ i)
    → write_words memory a ws i ≡ memory i
unfolding write_words
write_words-elsewhere memory a [] i h = refl
write_words-elsewhere memory a (w ∷ ws) i h =
    write_words-elsewhere (write_word memory a w) (a + 4) ws i
      (elim h [ inl l ↦ inl (omega (arith, l)) | inr l ↦ inr (omega (arith, l)) ])
    ∙ write_word-elsewhere memory a w i (elim h [ inl l ↦ inl l | inr l ↦ inr (omega (arith, l)) ])

-- The first word of a sequence is read back.
read_word-write_words :
    (memory : ℕ → ℕ) (a w : ℕ) (ws : List ℕ)
    → read_word (write_words (write_word memory a w) (a + 4) ws) a ≡ u32 w
unfolding read_word
read_word-write_words memory a w ws =
    let (b₀, b₁, b₂, b₃) = write_word-bytes memory a w in
    ap₂ (λ x y. x + 16777216 * y)
      (ap₂ (λ x y. x + 65536 * y)
        (ap₂ (λ x y. x + 256 * y) (keep a (omega arith) ∙ b₀) (keep (a + 1) (omega arith) ∙ b₁))
        (keep (a + 2) (omega arith) ∙ b₂))
      (keep (a + 3) (omega arith) ∙ b₃)
    ∙ word_bytes w
  where
    keep :
        (i : ℕ)
        → i < a + 4
        → write_words (write_word memory a w) (a + 4) ws i ≡ write_word memory a w i
    keep i l = write_words-elsewhere (write_word memory a w) (a + 4) ws i (inl l)

-- Words that are stored are read back, as words of 32 bits.
pub read_words-write_words :
    (memory : ℕ → ℕ) (a : ℕ) (ws : List ℕ)
    → read_words (write_words memory a ws) a (length ws) ≡ map u32 ws
unfolding write_words read_words read_word
read_words-write_words memory a [] = refl
read_words-write_words memory a (w ∷ ws) =
    ap₂ (λ x xs. x ∷ xs) (read_word-write_words memory a w ws)
      (read_words-write_words (write_word memory a w) (a + 4) ws)

-- A frame whose words follow those of another starts behind them.
pub write_words-append :
    (memory : ℕ → ℕ) (a : ℕ) (ws vs : List ℕ)
    → write_words memory a (ws ++ vs) ≡ write_words (write_words memory a ws) (a + 4 * length ws) vs
unfolding write_words
write_words-append memory a [] vs = ap (λ b. write_words memory b vs) (omega arith)
write_words-append memory a (w ∷ ws) vs =
    write_words-append (write_word memory a w) (a + 4) ws vs
    ∙ ap (λ b. write_words (write_words memory a (w ∷ ws)) b vs) (omega arith)

-- The stack pointer of a frame that fits below the top.
pub place_frame-pointer :
    (memory : ℕ → ℕ) (top : ℕ) (words : List ℕ)
    → 0 < top
    → top < 2 ^ 32
    → top % stack_alignment_bytes ≡ 0
    → 4 * length words ≤ top
    → (sp : ℕ) × (sp + 4 * length words ≡ top)
      × (place_frame memory top words ≡ (write_words memory sp words, sp))
unfolding place_frame
place_frame-pointer memory top words p l h f = (
  top - 4 * length words,
  omega (arith, f),
  rw (==-false top 0 (omega arith)) (rw (pointer (length words) f) refl),
)
  where
    pointer :
        (n : ℕ)
        → 4 * n ≤ top
        → u32 (top - top % stack_alignment_bytes + (2 ^ 32 - 4 * n)) ≡ top - 4 * n
    pointer n f = omega arith
