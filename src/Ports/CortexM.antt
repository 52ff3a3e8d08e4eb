-- ===== src/Ports/CortexM.antt =====
-- What the ports to the Arm Cortex-M cores share (port/arm/*/port_cpu.c and
-- port/arm/cortex_m_systick.h): the registers that a context saves, the critical sections, the
-- SysTick timer and the cycle counter. Each core's own file puts them together.
use sertos.Base.{
  ℕ, ◌+◌, ◌-◌, ◌/◌, ◌%◌, ◌^◌, Bool, not, ◌||◌, Option, none, some, List, [], ◌∷◌, ltb, ◌==◌,
  if◌then◌else◌, update,
}
use sertos.Types.{Status, ok, invalid_param, u32}
use sertos.Ports.Words.{with_bit, with_third_byte}
use sertos.Modules.{Modules}
use sertos.Kernel.{Kernel}
use sertos.Port.{Port}
use sertos.Scheduler.Delay.{get_tick_count}
use sertos.Scheduler.Switch.{is_running}
use sertos.Scheduler.Tick.{tick}

-- The registers that PendSV saves, and those that the core stacks on an exception.
pub record SavedRegisters : Type 0 where
  pub r4 : ℕ
  pub r5 : ℕ
  pub r6 : ℕ
  pub r7 : ℕ
  pub r8 : ℕ
  pub r9 : ℕ
  pub r10 : ℕ
  pub r11 : ℕ

pub record ExceptionFrame : Type 0 where
  pub r0 : ℕ
  pub r1 : ℕ
  pub r2 : ℕ
  pub r3 : ℕ
  pub r12 : ℕ
  pub lr : ℕ
  pub pc : ℕ
  pub xpsr : ℕ

abbrev pub default_xpsr : ℕ
default_xpsr = 0x01000000

abbrev pub exc_return_thread_psp : ℕ
exc_return_thread_psp = 0xFFFFFFFD

-- What every `sertos_port_stack_init` stores in them.
abbrev pub initial_registers : SavedRegisters
initial_registers = record {
  r4 = 0x04040404;
  r5 = 0x05050505;
  r6 = 0x06060606;
  r7 = 0x07070707;
  r8 = 0x08080808;
  r9 = 0x09090909;
  r10 = 0x10101010;
  r11 = 0x11111111;
}

abbrev pub initial_exception : ℕ → ℕ → ExceptionFrame
initial_exception entry param = record {
  r0 = u32 param;
  r1 = 0;
  r2 = 0;
  r3 = 0;
  r12 = 0;
  lr = 0;
  pc = u32 entry;
  xpsr = default_xpsr;
}

-- The exception frame in memory, the same on every core.
abbrev pub exception_words : ExceptionFrame → List ℕ
exception_words e = e.r0 ∷ e.r1 ∷ e.r2 ∷ e.r3 ∷ e.r12 ∷ e.lr ∷ e.pc ∷ e.xpsr ∷ []

-- The state of the core that a port works on: PRIMASK, `s_critical_nesting`, the words of the
-- registers that are mapped to memory, and `s_runtime_dwt_ok`.
pub record Cpu : Type 0 where
  pub primask : ℕ
  pub critical_nesting : ℕ
  pub registers : ℕ → ℕ
  pub runtime_dwt_ok : Bool

-- The addresses of the registers.
abbrev pub icsr : ℕ
icsr = 0xE000ED04

abbrev pub aircr : ℕ
aircr = 0xE000ED0C

abbrev pub shpr3 : ℕ
shpr3 = 0xE000ED20

abbrev pub demcr : ℕ
demcr = 0xE000EDFC

abbrev pub systick_ctrl : ℕ
systick_ctrl = 0xE000E010

abbrev pub systick_load : ℕ
systick_load = 0xE000E014

abbrev pub systick_val : ℕ
systick_val = 0xE000E018

abbrev pub dwt_ctrl : ℕ
dwt_ctrl = 0xE0001000

abbrev pub dwt_cyccnt : ℕ
dwt_cyccnt = 0xE0001004

abbrev pub set_register : Cpu → ℕ → ℕ → Cpu
set_register c a v = record c { registers = update c.registers a v }

-- `sertos_port_yield` asks for the PendSV exception.
abbrev pub pend_switch : Cpu → Cpu
pend_switch c = set_register c icsr (2 ^ 28)

-- `sertos_port_enter_critical`: PRIMASK as it was, which is then set.
unfoldable pub mask_interrupts : Cpu → Cpu × ℕ
mask_interrupts c =
    (record c { primask = 1; critical_nesting = u32 (c.critical_nesting + 1) }, c.primask)

-- `sertos_port_exit_critical`: the outermost exit writes PRIMASK, which has one bit.
unfoldable pub restore_interrupts : Cpu → ℕ → Cpu
restore_interrupts c status =
    let n : ℕ = c.critical_nesting - 1 in
    if ltb 0 c.critical_nesting
    then (if n == 0
        then record c { primask = status % 2; critical_nesting = n }
        else record c { critical_nesting = n })
    else c

-- `cortex_m_systick`, with somewhere to store the reload value, which is the result.
abbrev pub max_reload_counts : ℕ
max_reload_counts = 0x01000000

unfoldable pub cortex_m_systick : ℕ → ℕ → Option ℕ
cortex_m_systick timer_clock_hz tick_rate_hz =
    let counts_per_tick : ℕ = timer_clock_hz / tick_rate_hz in
    if (timer_clock_hz == 0) || (tick_rate_hz == 0)
    then none
    else if (counts_per_tick == 0) || ltb max_reload_counts counts_per_tick
    then none
    else some (counts_per_tick - 1)

-- `sertos_port_tick_init`, at the clock of the port: PendSV gets the lowest priority, SysTick its
-- reload value, and it starts from the core's clock with its interrupt on.
unfoldable pub configure_systick : Cpu → Option ℕ → Cpu × Status
configure_systick c none = (c, invalid_param)
configure_systick c (some reload_value) =
    let lowest = set_register c shpr3 (with_third_byte (c.registers shpr3)) in
    let loaded = set_register lowest systick_load reload_value in
    let cleared = set_register loaded systick_val 0 in
    (set_register cleared systick_ctrl (4 + 2 + 1), ok)

unfoldable pub start_systick : ℕ → Cpu → ℕ → Cpu × Status
unfolding cortex_m_systick configure_systick
start_systick timer_clock_hz c tick_rate_hz =
    configure_systick c (cortex_m_systick timer_clock_hz tick_rate_hz)

-- The coarse counter of the cores without a cycle counter, and the other.
abbrev pub tick_counter : Kernel → ℕ
unfolding get_tick_count
tick_counter k = u32 (get_tick_count k)

abbrev pub cycle_counter : Cpu → Kernel → ℕ
unfolding get_tick_count
cycle_counter c k = if c.runtime_dwt_ok then c.registers dwt_cyccnt else tick_counter k

-- `sertos_port_runtime_counter_init`: `count` is what the core does to its registers before it
-- reads the counter, `spin` what it does while the loop runs; a counter that does not move is not
-- used.
unfoldable pub start_cycle_counter : (Cpu → Cpu) → (Cpu → Cpu) → Cpu → Cpu
start_cycle_counter count spin c =
    let traced = set_register c demcr (with_bit 24 (c.registers demcr)) in
    let cleared = set_register traced dwt_cyccnt 0 in
    let counting =
      count (set_register cleared dwt_ctrl (with_bit 0 (cleared.registers dwt_ctrl))) in
    let start : ℕ = counting.registers dwt_cyccnt in
    let spun = spin counting in
    record spun { runtime_dwt_ok = not (spun.registers dwt_cyccnt == start) }

-- `SysTick_Handler`, with fuel for the walk over the timers.
module _ ⦃m : Modules⦄ ⦃e : Port⦄ where
  unfoldable pub tick_if_running : ℕ → Kernel → Option Kernel
  unfolding is_running tick
  tick_if_running fuel k = if is_running k then tick fuel k else some k

-- `sertos_port_stop_scheduler`, up to the endless loop that waits for the reset it asks for.
unfoldable pub request_reset : Cpu → Cpu
request_reset c = set_register (set_register c systick_ctrl 0) aircr (0x05FA0000 + 4)
