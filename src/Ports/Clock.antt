-- ===== src/Ports/Clock.antt =====
-- The 64-bit time of the RISC-V port, read by halves: the loops of
-- `sertos_port_riscv_timer_handler` and `sertos_port_tick_init` of port/riscv/port_cpu.c.
use sertos.Base.{
  ℕ, suc, ◌+◌, ◌*◌, ◌/◌, ◌%◌, ◌^◌, ◌≤◌, ◌<◌, ◌≡◌, inl, inr, some, Bool-cases, false, ◌==◌, ==→eq,
  arith,
}
use sertos.Ports.RiscV.{read_mtime}

-- When both readings of the high half agree, the halves belong together.
halves :
    (before now after : ℕ)
    → before ≤ now
    → now ≤ after
    → before / 2 ^ 32 ≡ after / 2 ^ 32
    → before / 2 ^ 32 * 2 ^ 32 + now % 2 ^ 32 ≡ now
halves before now after l h e = omega arith

-- In a time that advances by less than 2^32 the high half changes at most once.
one_carry :
    (a b c d : ℕ)
    → a ≤ b
    → b ≤ c
    → c ≤ d
    → d < a + 2 ^ 32
    → (a / 2 ^ 32 == b / 2 ^ 32) ≡ false
    → c / 2 ^ 32 ≡ d / 2 ^ 32
one_carry a b c d l h k m e = ground arith

-- Two rounds of the loop are enough: the time is read, as it is at one of the six accesses, if it
-- does not run back and advances by less than 2^32 in the six.
pub read_mtime-reads :
    (time : ℕ → ℕ) (fuel : ℕ)
    → ((i : ℕ) → time i ≤ time (i + 1))
    → time 5 < time 0 + 2 ^ 32
    → (now accesses : ℕ) × (time 0 ≤ now)
      × (now ≤ time 5)
      × (read_mtime (suc (suc fuel)) time 0 ≡ some (now, accesses))
unfolding read_mtime
read_mtime-reads time fuel steady slow = elim (Bool-cases (time 0 / 2 ^ 32 == time 2 / 2 ^ 32)) [
  | inl e ↦
      let now = halves (time 0) (time 1) (time 2) (steady 0) (steady 1) (==→eq _ _ e) in
      (
        time 1,
        3,
        steady 0,
        omega (arith, steady 1, steady 2, steady 3, steady 4),
        ground (arith, now),
      )
  | inr e ↦
      let same : time 3 / 2 ^ 32 ≡ time 5 / 2 ^ 32 =
        one_carry (time 0) (time 2) (time 3) (time 5) (omega (arith, steady 0, steady 1)) (steady 2)
          (omega (arith, steady 3, steady 4)) slow e in
      let now = halves (time 3) (time 4) (time 5) (steady 3) (steady 4) same in
      (
        time 4,
        6,
        omega (arith, steady 0, steady 1, steady 2, steady 3),
        steady 4,
        ground (arith, now),
      )
]
