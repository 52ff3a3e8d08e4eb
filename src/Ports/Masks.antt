-- ===== src/Ports/Masks.antt =====
-- The critical sections of each port against the interface of `Critical`.
use sertos.Base.{ℕ, ◌+◌, ◌/◌, ◌%◌, ◌^◌, ◌<◌, ◌≡◌, refl, sym, ap₂, subst, ◌⊎◌, inl, inr, arith}
use sertos.Ports.Words.{without_bit}
use sertos.Ports.CortexM.{Cpu, mask_interrupts, restore_interrupts}
use sertos.Ports.Core.{
  Core, enter_critical, exit_critical, enter_critical-shared, exit_critical-shared,
}
use sertos.Ports.RiscV.{Hart}
use sertos.Ports.RiscV
use sertos.Ports.Critical.{Masking, MaskingLaws, Sections, depth, run_sections, run_sections-same}

-- A core outside every section, or inside with its interrupts masked.
unfoldable pub CpuIsValid : Cpu → Type 0
CpuIsValid c =
    (c.primask < 2) × ((c.critical_nesting ≡ 0) ⊎ (0 < c.critical_nesting × (c.primask ≡ 1)))

unfoldable pub HartIsValid : Hart → Type 0
HartIsValid h = (h.critical_nesting ≡ 0) ⊎ (0 < h.critical_nesting × (h.mstatus / 8 % 2 ≡ 0))

unfoldable pub cortex_m : Core → Masking Cpu
unfolding enter_critical exit_critical
cortex_m core = record {
  enter = enter_critical core;
  exit = exit_critical core;
  nesting = λ c. c.critical_nesting;
}

-- What all cores do.
abbrev shared : Masking Cpu
shared = record {
  enter = mask_interrupts;
  exit = restore_interrupts;
  nesting = λ c. c.critical_nesting;
}

unfoldable pub risc_v : Masking Hart
unfolding RiscV.enter_critical RiscV.exit_critical
risc_v = record {
  enter = RiscV.enter_critical;
  exit = RiscV.exit_critical;
  nesting = λ h. h.critical_nesting;
}

exit-enter_cpu :
    (c : Cpu)
    → CpuIsValid c
    → c.critical_nesting + 1 < 2 ^ 32
    → restore_interrupts ((mask_interrupts c).0) ((mask_interrupts c).1) ≡ c
unfolding restore_interrupts mask_interrupts CpuIsValid
exit-enter_cpu c (b, inl z) l = ground arith
exit-enter_cpu c (b, inr (p, m)) l = ground arith

exit-enter_hart :
    (h : Hart)
    → HartIsValid h
    → h.critical_nesting + 1 < 2 ^ 32
    → RiscV.exit_critical ((RiscV.enter_critical h).0) ((RiscV.enter_critical h).1) ≡ h
unfolding RiscV.exit_critical RiscV.enter_critical HartIsValid
exit-enter_hart h (inl z) l = ground arith
exit-enter_hart h (inr (p, m)) l = ground arith

mask_interrupts-IsValid :
    (c : Cpu)
    → CpuIsValid c
    → c.critical_nesting + 1 < 2 ^ 32
    → CpuIsValid ((mask_interrupts c).0)
      × ((mask_interrupts c).0.critical_nesting ≡ c.critical_nesting + 1)
unfolding mask_interrupts CpuIsValid
mask_interrupts-IsValid c v l = ((omega arith, inr (omega (arith, l), refl)), omega (arith, l))

enter_critical-HartIsValid :
    (h : Hart)
    → HartIsValid h
    → h.critical_nesting + 1 < 2 ^ 32
    → HartIsValid ((RiscV.enter_critical h).0)
      × ((RiscV.enter_critical h).0.critical_nesting ≡ h.critical_nesting + 1)
unfolding RiscV.enter_critical HartIsValid
enter_critical-HartIsValid h v l = (inr (omega (arith, l), cleared h.mstatus), omega (arith, l))
  where
    cleared : (w : ℕ) → without_bit 3 w / 8 % 2 ≡ 0
    cleared w = ground arith

shared-laws : MaskingLaws shared CpuIsValid
shared-laws = record {
  enter_valid = λ c v l. (mask_interrupts-IsValid c v l).0;
  enter_nesting = λ c v l. (mask_interrupts-IsValid c v l).1;
  exit_lem = exit-enter_cpu;
}

cortex_m-shared : (core : Core) → shared ≡ cortex_m core
unfolding cortex_m
cortex_m-shared core =
    ap₂ (λ enter exit. record { enter = enter; exit = exit; nesting = λ c. c.critical_nesting })
      (sym (enter_critical-shared core)) (sym (exit_critical-shared core))

cortex_m-laws : (core : Core) → MaskingLaws (cortex_m core) CpuIsValid
cortex_m-laws core = subst (λ p. MaskingLaws p CpuIsValid) (cortex_m-shared core) shared-laws

risc_v-laws : MaskingLaws risc_v HartIsValid
unfolding risc_v
risc_v-laws = record {
  enter_valid = λ h v l. (enter_critical-HartIsValid h v l).0;
  enter_nesting = λ h v l. (enter_critical-HartIsValid h v l).1;
  exit_lem = exit-enter_hart;
}

-- Critical sections in one another, fewer than 2^32 deep, each of which hands its exit what its
-- enter returned, leave the core or the hart as it was, its interrupt mask and its count included,
-- if they start outside every section, or inside one with the interrupts masked.
pub run_sections-restores :
    (core : Core) (sections : Sections) (c : Cpu) (h : Hart)
    → CpuIsValid c
    → HartIsValid h
    → c.critical_nesting + depth sections < 2 ^ 32
    → h.critical_nesting + depth sections < 2 ^ 32
    → (run_sections (cortex_m core) sections c ≡ c) × (run_sections risc_v sections h ≡ h)
unfolding cortex_m risc_v
run_sections-restores core sections c h v w l l' = (
  run_sections-same (cortex_m core) (cortex_m-laws core) sections c v l,
  run_sections-same risc_v risc_v-laws sections h w l',
)
