-- ===== src/Ports/Compare.antt =====
-- The tick of the RISC-V port: the compare register that `sertos_port_tick_init` and
-- `sertos_port_riscv_timer_handler` of port/riscv/port_cpu.c set.
use sertos.Base.{
  ◌%◌, ℕ, suc, ◌+◌, ◌*◌, ◌/◌, ◌^◌, ◌≤◌, ◌<◌, ◌≡◌, refl, ◌∙◌, ap, ◌⊎◌, inl, inr, Bool, true, false,
  Option, none, some, ◌||◌, ltb, ◌==◌, if◌then◌else◌, arith, Bool-cases,
}
use sertos.Types.{Status, ok, invalid_param, u64}
use sertos.Modules.{Modules}
use sertos.Kernel.{Kernel}
use sertos.Port.{Port}
use sertos.Scheduler.Tick.{tick}
use sertos.Ports.Words.{with_bit}
use sertos.Ports.RiscV.{Hart, set_compare, next_compare, timer_handler, tick_init, tick_clock_hz}
use sertos.Ports.Clock.{read_mtime-reads}

-- The 64 bits of the compare register.
abbrev compare_at : Hart → ℕ
compare_at h = h.mtimecmp_h * 2 ^ 32 + h.mtimecmp_l

set_compare_lem : (h : Hart) (now : ℕ) → compare_at (set_compare h now) ≡ u64 (now + h.tick_cycles)
unfolding set_compare
set_compare_lem h now = omega arith

set_compare-tick_cycles : (h : Hart) (now : ℕ) → (set_compare h now).tick_cycles ≡ h.tick_cycles
unfolding set_compare
set_compare-tick_cycles h now = refl

set_compare_control :
    (h : Hart) (now : ℕ)
    → ((set_compare h now).mtvec ≡ h.mtvec) × ((set_compare h now).mstatus ≡ h.mstatus)
unfolding set_compare
set_compare_control h now = (refl, refl)

-- The compare register is set from a time within the accesses.
pub next_compare-sets :
    (time : ℕ → ℕ) (fuel : ℕ) (h : Hart)
    → ((i : ℕ) → time i ≤ time (i + 1))
    → time 5 < time 0 + 2 ^ 32
    → (now : ℕ) × (time 0 ≤ now)
      × (now ≤ time 5)
      × (next_compare (suc (suc fuel)) time h ≡ some (set_compare h now))
unfolding next_compare
next_compare-sets time fuel h steady slow =
    let (now, accesses, early, late, read) = read_mtime-reads time fuel steady slow in
    (
      now,
      early,
      late,
      ap (λ r. elim r [ none ↦ none | some (now, accesses) ↦ some (set_compare h now) ]) read,
    )

with_bit-sets : (v : ℕ) → with_bit 7 v / 2 ^ 7 % 2 ≡ 1
with_bit-sets v = ground arith

with_bit_fs : (v : ℕ) → with_bit 13 v / 2 ^ 13 % 2 ≡ 1
with_bit_fs v = ground arith

-- What both outcomes have set: the vector of the traps, and, with floating-point registers, the bit
-- that gives access to them.
unfoldable pub Prepared : Bool → ℕ → Hart → Hart → Type 0
Prepared true trap_addr h h' = (h'.mtvec ≡ trap_addr) × (h'.mstatus / 2 ^ 13 % 2 ≡ 1)
Prepared false trap_addr h h' = (h'.mtvec ≡ trap_addr) × (h'.mstatus ≡ h.mstatus)

-- How the tick starts: at a rate that the clock can count, with the interrupt of the timer (bit 7 of
-- `mie`) on, or not at all.
unfoldable pub Started : (ℕ → ℕ) → Hart → ℕ → Hart → Status → Type 0
Started time h rate h' s =
    ((s ≡ ok)
      × (0 < rate)
      × (rate ≤ tick_clock_hz)
      × (h'.mie / 2 ^ 7 % 2 ≡ 1)
      × (h'.tick_cycles ≡ tick_clock_hz / rate)
      × (now : ℕ) × (time 0 ≤ now)
      × (now ≤ time 5)
      × (compare_at h' ≡ u64 (now + tick_clock_hz / rate)))
    ⊎ ((s ≡ invalid_param)
        × ((rate ≡ 0) ⊎ (tick_clock_hz < rate))
        × (h'.mie ≡ h.mie)
        × (h'.tick_cycles ≡ h.tick_cycles)
        × (compare_at h' ≡ compare_at h))

module _ (time : ℕ → ℕ) (fuel : ℕ) (steady : (i : ℕ) → time i ≤ time (i + 1))
    (slow : time 5 < time 0 + 2 ^ 32) (h : Hart) where
  -- What follows the set-up of the control registers.
  abbrev start_tick : Hart → ℕ → Option (Hart × Status)
  start_tick prepared rate =
      let counting = record prepared { tick_cycles = tick_clock_hz / rate } in
      if (rate == 0) || ltb tick_clock_hz rate
      then some (prepared, invalid_param)
      else elim (next_compare (suc (suc fuel)) time counting) [
        | none ↦ none
        | some h' ↦ some (record h' { mie = with_bit 7 h'.mie }, ok)
      ]

  start_tick-Started :
      (prepared : Hart) (rate : ℕ)
      → prepared.tick_cycles ≡ h.tick_cycles
      → prepared.mie ≡ h.mie
      → compare_at prepared ≡ compare_at h
      → (h' : Hart) × (s : Status) × (start_tick prepared rate ≡ some (h', s))
        × (h'.mtvec ≡ prepared.mtvec)
        × (h'.mstatus ≡ prepared.mstatus)
        × Started time h rate h' s
  unfolding Started
  start_tick-Started prepared rate same off c =
      elim (Bool-cases ((rate == 0) || ltb tick_clock_hz rate)) [
        | inl bad ↦ (
          prepared,
          invalid_param,
          rw bad refl,
          refl,
          refl,
          inr (refl, ground arith, off, same, c),
        )
        | inr good ↦
            let counting = record prepared { tick_cycles = tick_clock_hz / rate } in
            let (now, early, late, set) = next_compare-sets time fuel counting steady slow in
            let h' = set_compare counting now in
            (
              record h' { mie = with_bit 7 h'.mie },
              ok,
              rw good (rw set refl),
              (set_compare_control counting now).0,
              (set_compare_control counting now).1,
              inl (
                refl,
                ground arith,
                ground arith,
                with_bit-sets (h'.mie),
                set_compare-tick_cycles counting now,
                now,
                early,
                late,
                set_compare_lem counting now,
              ),
            )
      ]

  -- With two rounds of the loop that reads the time, of a clock that does not run back and advances
  -- by less than 2^32 in six accesses, the port's tick starts or refuses. A rate from 1 to the
  -- clock's is accepted: the cycles of a tick are the clock's divided by it, the compare register
  -- holds, in its 64 bits, a time between the first and the last access plus these cycles, and the
  -- interrupt of the timer is on. Any other rate is an invalid parameter, and leaves the cycles, the
  -- compare register and the interrupt enables alone. In both cases the traps go to the port's
  -- handler, and the floating-point registers of a hart that has them are on.
  pub tick_init-starts :
      (fpu : Bool) (trap_addr rate : ℕ)
      → (h' : Hart) × (s : Status) × (tick_init fpu trap_addr (suc (suc fuel)) time h rate
          ≡ some (h', s))
        × Prepared fpu trap_addr h h'
        × Started time h rate h' s
  unfolding tick_init Prepared
  tick_init-starts true trap_addr rate =
      let prepared = record h { mtvec = trap_addr; mstatus = with_bit 13 h.mstatus } in
      let (h', s, run, traps, mstatus, started) = start_tick-Started prepared rate refl refl refl in
      (h', s, run, (traps, ap (λ (v : ℕ). v / 2 ^ 13 % 2) mstatus ∙ with_bit_fs h.mstatus), started)
  tick_init-starts false trap_addr rate =
      let prepared = record h { mtvec = trap_addr } in
      let (h', s, run, traps, mstatus, started) = start_tick-Started prepared rate refl refl refl in
      (h', s, run, (traps, mstatus), started)

  -- With two rounds of the loop that reads the time, of a clock that does not run back and advances
  -- by less than 2^32 in six accesses, the handler of the timer runs the kernel's tick once, with
  -- its outcome, leaves the flag of the handler at 0, and sets the compare register, in its 64 bits,
  -- to a time between the first and the last access plus the cycles of a tick.
  pub timer_handler-ticks :
      ⦃m : Modules⦄ ⦃e : Port⦄ (timers : ℕ) (k : Kernel)
      → (h' : Hart) × (timer_handler (suc (suc fuel)) timers time h k
          ≡ elim (tick timers k) [ none ↦ none | some k' ↦ some (h', k') ])
        × (h'.in_isr ≡ 0)
        × (now : ℕ) × (time 0 ≤ now)
        × (now ≤ time 5)
        × (compare_at h' ≡ u64 (now + h.tick_cycles))
  unfolding timer_handler
  timer_handler-ticks timers k =
      let (now, early, late, set) = next_compare-sets time fuel h steady slow in
      (
        record (set_compare h now) { in_isr = 0 },
        ap
            (λ (o : Option Hart). elim o [
              | none ↦ none
              | some h' ↦ elim (tick timers k) [
                | none ↦ none
                | some k' ↦ some (record h' { in_isr = 0 }, k')
              ]
            ])
            set,
        refl,
        now,
        early,
        late,
        set_compare_lem h now,
      )
