-- ===== src/Ports/RiscV.antt =====
-- port/riscv/port_cpu.c: the port to a 32-bit RISC-V hart, with or without floating-point registers,
-- as it is built for the target.
use sertos.Base.{
  ℕ, zero, suc, ◌+◌, ◌*◌, ◌-◌, ◌/◌, ◌%◌, ◌^◌, Bool, true, false, ◌||◌, Option, none, some, List, [],
  ◌∷◌, ltb, ◌==◌, if◌then◌else◌,
}
use sertos.Types.{Status, ok, invalid_param, u32, u64}
use sertos.Modules.{Modules}
use sertos.Kernel.{Kernel}
use sertos.Port.{Port}
use sertos.Scheduler.Tick.{tick}
use sertos.Ports.Words.{place_frame, with_bit, without_bit}

-- MSTATUS_MPP_MACHINE and MSTATUS_MPIE_ENABLE, and MSTATUS_FS_INITIAL.
abbrev pub initial_mstatus : Bool → ℕ
initial_mstatus true = 3 * 2 ^ 11 + 2 ^ 7 + 2 ^ 13
initial_mstatus false = 3 * 2 ^ 11 + 2 ^ 7

abbrev zeros : ℕ → List ℕ → List ℕ
zeros zero ws = ws
zeros (suc n) ws = 0 ∷ zeros n ws

-- The words of the frame, which is cleared but for `a0`, `mepc` and `mstatus`: 32 of them, or 64
-- with the floating-point registers.
abbrev pub frame_words : Bool → ℕ → ℕ → List ℕ
frame_words fpu entry param =
    zeros 6
      (u32 param ∷ zeros 21 (u32 entry ∷ initial_mstatus fpu ∷ zeros (if fpu then 34 else 2) []))

unfoldable pub stack_init : Bool → (ℕ → ℕ) → ℕ → ℕ → ℕ → ℕ → (ℕ → ℕ) × ℕ
unfolding place_frame
stack_init fpu memory stack_top stack_limit entry param =
    place_frame memory stack_top (frame_words fpu entry param)

-- The state of the hart that the port works on: the control registers, the compare register of the
-- timer by its two halves, and the variables of the file.
pub record Hart : Type 0 where
  pub mstatus : ℕ
  pub mie : ℕ
  pub mtvec : ℕ
  pub mtimecmp_l : ℕ
  pub mtimecmp_h : ℕ
  pub critical_nesting : ℕ
  pub in_isr : ℕ
  pub tick_cycles : ℕ

abbrev pub tick_clock_hz : ℕ
tick_clock_hz = 10000000

-- `mcycle` is the counter's word at the time of the call.
abbrev runtime_counter : ℕ → ℕ
runtime_counter mcycle = mcycle

abbrev runtime_counter_init : Hart → Hart
runtime_counter_init h = h

-- `sertos_port_yield`: outside the handler of the timer, a trap, which is what `ecall` does.
abbrev yield : (Hart → Hart) → Hart → Hart
yield ecall h = if h.in_isr == 0 then ecall h else h

-- Bit 3 of `mstatus` lets interrupts in.
unfoldable pub enter_critical : Hart → Hart × ℕ
enter_critical h = (
  record h { mstatus = without_bit 3 h.mstatus; critical_nesting = u32 (h.critical_nesting + 1) },
  h.mstatus,
)

unfoldable pub exit_critical : Hart → ℕ → Hart
exit_critical h status =
    let n : ℕ = h.critical_nesting - 1 in
    if ltb 0 h.critical_nesting
    then (if n == 0
        then record h { mstatus = status; critical_nesting = n }
        else record h { critical_nesting = n })
    else h

-- The loop that reads the 64 bits of `mtime`: `time i` is the counter at the i-th access to one of
-- its halves. The high half is read before and after the low one, until both agree. The result has
-- the time and the number of accesses so far.
unfoldable pub read_mtime : ℕ → (ℕ → ℕ) → ℕ → Option (ℕ × ℕ)
read_mtime zero time i = none
read_mtime (suc fuel) time i =
    let rest = read_mtime fuel time (i + 3) in
    let now_h : ℕ = time i / 2 ^ 32 in
    let now_l : ℕ = time (i + 1) % 2 ^ 32 in
    if now_h == time (i + 2) / 2 ^ 32 then some (now_h * 2 ^ 32 + now_l, i + 3) else rest

-- The compare register is set `tick_cycles` after the time that was read. Its high half is at its
-- greatest in between, which the last store ends.
unfoldable pub set_compare : Hart → ℕ → Hart
set_compare h now =
    let next : ℕ = u64 (now + h.tick_cycles) in
    let parked = record h { mtimecmp_h = 0xFFFFFFFF } in
    let low = record parked { mtimecmp_l = next % 2 ^ 32 } in
    record low { mtimecmp_h = next / 2 ^ 32 }

unfoldable pub next_compare : ℕ → (ℕ → ℕ) → Hart → Option Hart
unfolding read_mtime set_compare
next_compare fuel time h = elim (read_mtime fuel time 0) [
  | none ↦ none
  | some (now, accesses) ↦ some (set_compare h now)
]

-- `sertos_port_riscv_timer_handler`, with fuel for the loop and for the walk over the timers.
module _ ⦃m : Modules⦄ ⦃e : Port⦄ where
  unfoldable pub timer_handler : ℕ → ℕ → (ℕ → ℕ) → Hart → Kernel → Option (Hart × Kernel)
  unfolding next_compare tick
  timer_handler fuel timers time h k = elim (next_compare fuel time h) [
    | none ↦ none
    | some h' ↦
        let handling = record h' { in_isr = 1 } in
        elim (tick timers k) [ none ↦ none | some k' ↦ some (record handling { in_isr = 0 }, k') ]
  ]

-- `sertos_port_tick_init`: `trap_addr` is the address of the trap handler.
unfoldable pub tick_init : Bool → ℕ → ℕ → (ℕ → ℕ) → Hart → ℕ → Option (Hart × Status)
unfolding next_compare
tick_init fpu trap_addr fuel time h tick_rate_hz =
    let vectored = record h { mtvec = trap_addr } in
    let prepared =
      if fpu then record vectored { mstatus = with_bit 13 vectored.mstatus } else vectored in
    let counting = record prepared { tick_cycles = tick_clock_hz / tick_rate_hz } in
    if (tick_rate_hz == 0) || ltb tick_clock_hz tick_rate_hz
    then some (prepared, invalid_param)
    else elim (next_compare fuel time counting) [
      | none ↦ none
      | some h' ↦ some (record h' { mie = with_bit 7 h'.mie }, ok)
    ]

-- The hooks of this port do nothing.
abbrev task_create_hook : Kernel → ℕ → Kernel
task_create_hook k tcb = k

abbrev task_delete_hook : Kernel → ℕ → Kernel
task_delete_hook k tcb = k

-- `sertos_port_stop_scheduler`, up to its endless loop: the hart, and the word that the test device
-- at 0x100000 receives.
abbrev stop_scheduler : Hart → Hart × ℕ
stop_scheduler h = (record h { mstatus = without_bit 3 h.mstatus }, 0x5555)
