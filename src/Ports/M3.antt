-- ===== src/Ports/M3.antt =====
-- port/arm/cortex-m3/port_cpu.c: the port to the Cortex-M3.
use sertos.Base.{ℕ, List, ◌∷◌, Option}
use sertos.Types.{Status}
use sertos.Modules.{Modules}
use sertos.Kernel.{Kernel}
use sertos.Port.{Port}
use sertos.Ports.Words.{place_frame}
use sertos.Ports.CortexM.{
  SavedRegisters, ExceptionFrame, initial_registers, initial_exception, exception_words,
  exc_return_thread_psp, Cpu, pend_switch, mask_interrupts, restore_interrupts, start_systick,
  cycle_counter, start_cycle_counter, tick_if_running, request_reset,
}

-- The order of the words of a saved context, from the stack pointer up.
abbrev pub layout : SavedRegisters → ExceptionFrame → List ℕ
layout s e =
    s.r4
    ∷ s.r5
    ∷ s.r6
    ∷ s.r7
    ∷ s.r8
    ∷ s.r9
    ∷ s.r10
    ∷ s.r11
    ∷ exc_return_thread_psp
    ∷ exception_words e

-- From the memory, the top of the stack, its limit, which is not used, the entry and its argument.
unfoldable pub stack_init : (ℕ → ℕ) → ℕ → ℕ → ℕ → ℕ → (ℕ → ℕ) × ℕ
unfolding place_frame
stack_init memory stack_top stack_limit entry param =
    place_frame memory stack_top (layout initial_registers (initial_exception entry param))

abbrev yield : Cpu → Cpu
yield = pend_switch

unfoldable pub enter_critical : Cpu → Cpu × ℕ
unfolding mask_interrupts
enter_critical = mask_interrupts

unfoldable pub exit_critical : Cpu → ℕ → Cpu
unfolding restore_interrupts
exit_critical = restore_interrupts

abbrev pub tick_clock_hz : ℕ
tick_clock_hz = 25000000

unfoldable pub tick_init : Cpu → ℕ → Cpu × Status
unfolding start_systick
tick_init = start_systick tick_clock_hz

abbrev runtime_counter : Cpu → Kernel → ℕ
runtime_counter = cycle_counter

abbrev runtime_counter_init : (Cpu → Cpu) → (Cpu → Cpu) → Cpu → Cpu
unfolding start_cycle_counter
runtime_counter_init = start_cycle_counter

-- The hooks of this port do nothing.
abbrev task_create_hook : Kernel → ℕ → Kernel
task_create_hook k tcb = k

abbrev task_delete_hook : Kernel → ℕ → Kernel
task_delete_hook k tcb = k

abbrev systick_handler : ⦃m : Modules⦄ ⦃e : Port⦄ → ℕ → Kernel → Option Kernel
unfolding tick_if_running
systick_handler fuel k = tick_if_running fuel k

abbrev stop_scheduler : Cpu → Cpu
unfolding request_reset
stop_scheduler = request_reset
