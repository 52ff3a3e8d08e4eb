-- ===== src/Ports/Core.antt =====
-- The cores of port/arm, each with the operations of its own port_cpu.c.
use sertos.Base.{ℕ, ◌≤◌, ◌≡◌, refl, List, [], ◌∷◌, ◌++◌, length, map, arith}
use sertos.Types.{Status, u32}
use sertos.Ports.CortexM.{
  Cpu, mask_interrupts, restore_interrupts, start_systick, exception_words, initial_exception,
}
use sertos.Ports.Words.{place_frame}
use sertos.Ports.M0
use sertos.Ports.M0plus
use sertos.Ports.M23
use sertos.Ports.M3
use sertos.Ports.M4
use sertos.Ports.M7
use sertos.Ports.M33
use sertos.Ports.M55

pub data Core : Type 0 where
  m0 m0plus m23 m3 m4 m7 m33 m55 : Core

-- The initial frame of a task.
unfoldable pub stack_init : Core → (ℕ → ℕ) → ℕ → ℕ → ℕ → ℕ → (ℕ → ℕ) × ℕ
unfolding M0.stack_init M0plus.stack_init M23.stack_init M3.stack_init M4.stack_init M7.stack_init
    M33.stack_init M55.stack_init
stack_init m0 = M0.stack_init
stack_init m0plus = M0plus.stack_init
stack_init m23 = M23.stack_init
stack_init m3 = M3.stack_init
stack_init m4 = M4.stack_init
stack_init m7 = M7.stack_init
stack_init m33 = M33.stack_init
stack_init m55 = M55.stack_init

-- The ends of a critical section.
unfoldable pub enter_critical : Core → Cpu → Cpu × ℕ
unfolding M0.enter_critical M0plus.enter_critical M23.enter_critical M3.enter_critical
    M4.enter_critical M7.enter_critical M33.enter_critical M55.enter_critical
enter_critical m0 = M0.enter_critical
enter_critical m0plus = M0plus.enter_critical
enter_critical m23 = M23.enter_critical
enter_critical m3 = M3.enter_critical
enter_critical m4 = M4.enter_critical
enter_critical m7 = M7.enter_critical
enter_critical m33 = M33.enter_critical
enter_critical m55 = M55.enter_critical

unfoldable pub exit_critical : Core → Cpu → ℕ → Cpu
unfolding M0.exit_critical M0plus.exit_critical M23.exit_critical M3.exit_critical M4.exit_critical
    M7.exit_critical M33.exit_critical M55.exit_critical
exit_critical m0 = M0.exit_critical
exit_critical m0plus = M0plus.exit_critical
exit_critical m23 = M23.exit_critical
exit_critical m3 = M3.exit_critical
exit_critical m4 = M4.exit_critical
exit_critical m7 = M7.exit_critical
exit_critical m33 = M33.exit_critical
exit_critical m55 = M55.exit_critical

-- The start of the tick.
unfoldable pub tick_init : Core → Cpu → ℕ → Cpu × Status
unfolding M0.tick_init M0plus.tick_init M23.tick_init M3.tick_init M4.tick_init M7.tick_init
    M33.tick_init M55.tick_init
tick_init m0 = M0.tick_init
tick_init m0plus = M0plus.tick_init
tick_init m23 = M23.tick_init
tick_init m3 = M3.tick_init
tick_init m4 = M4.tick_init
tick_init m7 = M7.tick_init
tick_init m33 = M33.tick_init
tick_init m55 = M55.tick_init

-- The critical sections and the tick are the same on every core.
pub enter_critical-shared : (core : Core) → enter_critical core ≡ mask_interrupts
unfolding enter_critical M0.enter_critical M0plus.enter_critical M23.enter_critical
    M3.enter_critical M4.enter_critical M7.enter_critical M33.enter_critical M55.enter_critical
enter_critical-shared m0 = refl
enter_critical-shared m0plus = refl
enter_critical-shared m23 = refl
enter_critical-shared m3 = refl
enter_critical-shared m4 = refl
enter_critical-shared m7 = refl
enter_critical-shared m33 = refl
enter_critical-shared m55 = refl

pub exit_critical-shared : (core : Core) → exit_critical core ≡ restore_interrupts
unfolding exit_critical M0.exit_critical M0plus.exit_critical M23.exit_critical M3.exit_critical
    M4.exit_critical M7.exit_critical M33.exit_critical M55.exit_critical
exit_critical-shared m0 = refl
exit_critical-shared m0plus = refl
exit_critical-shared m23 = refl
exit_critical-shared m3 = refl
exit_critical-shared m4 = refl
exit_critical-shared m7 = refl
exit_critical-shared m33 = refl
exit_critical-shared m55 = refl

pub tick_init-shared : (core : Core) → tick_init core ≡ start_systick 25000000
unfolding tick_init M0.tick_init M0plus.tick_init M23.tick_init M3.tick_init M4.tick_init
    M7.tick_init M33.tick_init M55.tick_init
tick_init-shared m0 = refl
tick_init-shared m0plus = refl
tick_init-shared m23 = refl
tick_init-shared m3 = refl
tick_init-shared m4 = refl
tick_init-shared m7 = refl
tick_init-shared m33 = refl
tick_init-shared m55 = refl

-- What the code of port_context.s that resumes a task loads behind the eight saved registers: the
-- value for the return from the exception, to thread mode and the process stack, which the ARMv6-M
-- cores have as a constant instead.
abbrev pub return_words : Core → List ℕ
return_words m0 = []
return_words m0plus = []
return_words m23 = 0xFFFFFFFD ∷ []
return_words m3 = 0xFFFFFFFD ∷ []
return_words m4 = 0xFFFFFFFD ∷ []
return_words m7 = 0xFFFFFFFD ∷ []
return_words m33 = 0xFFFFFFFD ∷ []
return_words m55 = 0xFFFFFFFD ∷ []

pub length-return_words : (core : Core) → length (return_words core) ≤ 1
length-return_words m0 = omega arith
length-return_words m0plus = omega arith
length-return_words m23 = omega arith
length-return_words m3 = omega arith
length-return_words m4 = omega arith
length-return_words m7 = omega arith
length-return_words m33 = omega arith
length-return_words m55 = omega arith

-- The words that follow the return words, cut down to 32 bits with them.
pub map-return_words :
    (core : Core) (ws : List ℕ)
    → map u32 (return_words core ++ ws) ≡ return_words core ++ map u32 ws
map-return_words m0 ws = refl
map-return_words m0plus ws = refl
map-return_words m23 ws = refl
map-return_words m3 ws = refl
map-return_words m4 ws = refl
map-return_words m7 ws = refl
map-return_words m33 ws = refl
map-return_words m55 ws = refl

-- A core's frame has the eight registers first, then the return words and the exception's frame.
pub stack_init-layout :
    (core : Core)
    → (registers : List ℕ) × (length registers ≡ 8)
      × ((memory : ℕ → ℕ) (top limit entry param : ℕ)
          → stack_init core memory top limit entry param
            ≡ place_frame memory top (
                registers
                ++ (return_words core ++ exception_words (initial_exception entry param))))
unfolding stack_init M0.stack_init M0plus.stack_init M23.stack_init M3.stack_init M4.stack_init
    M7.stack_init M33.stack_init M55.stack_init
stack_init-layout m0 = (
  0x08080808 ∷ 0x09090909 ∷ 0x10101010 ∷ 0x11111111 ∷ 0x04040404 ∷ 0x05050505 ∷ 0x06060606
      ∷ 0x07070707 ∷ [],
  refl,
  λ memory top limit entry param. refl,
)
stack_init-layout m0plus = (
  0x04040404 ∷ 0x05050505 ∷ 0x06060606 ∷ 0x07070707 ∷ 0x08080808 ∷ 0x09090909 ∷ 0x10101010
      ∷ 0x11111111 ∷ [],
  refl,
  λ memory top limit entry param. refl,
)
stack_init-layout m23 = (
  0x04040404 ∷ 0x05050505 ∷ 0x06060606 ∷ 0x07070707 ∷ 0x08080808 ∷ 0x09090909 ∷ 0x10101010
      ∷ 0x11111111 ∷ [],
  refl,
  λ memory top limit entry param. refl,
)
stack_init-layout m3 = (
  0x04040404 ∷ 0x05050505 ∷ 0x06060606 ∷ 0x07070707 ∷ 0x08080808 ∷ 0x09090909 ∷ 0x10101010
      ∷ 0x11111111 ∷ [],
  refl,
  λ memory top limit entry param. refl,
)
stack_init-layout m4 = (
  0x04040404 ∷ 0x05050505 ∷ 0x06060606 ∷ 0x07070707 ∷ 0x08080808 ∷ 0x09090909 ∷ 0x10101010
      ∷ 0x11111111 ∷ [],
  refl,
  λ memory top limit entry param. refl,
)
stack_init-layout m7 = (
  0x04040404 ∷ 0x05050505 ∷ 0x06060606 ∷ 0x07070707 ∷ 0x08080808 ∷ 0x09090909 ∷ 0x10101010
      ∷ 0x11111111 ∷ [],
  refl,
  λ memory top limit entry param. refl,
)
stack_init-layout m33 = (
  0x04040404 ∷ 0x05050505 ∷ 0x06060606 ∷ 0x07070707 ∷ 0x08080808 ∷ 0x09090909 ∷ 0x10101010
      ∷ 0x11111111 ∷ [],
  refl,
  λ memory top limit entry param. refl,
)
stack_init-layout m55 = (
  0x04040404 ∷ 0x05050505 ∷ 0x06060606 ∷ 0x07070707 ∷ 0x08080808 ∷ 0x09090909 ∷ 0x10101010
      ∷ 0x11111111 ∷ [],
  refl,
  λ memory top limit entry param. refl,
)
