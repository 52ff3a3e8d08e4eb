-- ===== src/Examples/Targets.antt =====
-- The theorems on the ports, at concrete cores and times.
use sertos.Base.{
  update, ◌==◌, if◌then◌else◌, ℕ, zero, suc, ◌+◌, ◌*◌, ◌-◌, ◌^◌, ◌%◌, ◌≤◌, ◌<◌, ◌≡◌, refl, ◌⊎◌, inl,
  true, false, none, some, [], ◌∷◌, arith,
}
use sertos.Types.{Status, u32, u64, stack_alignment_bytes}
use sertos.Modules.Plain.{plain}
use sertos.Scheduler.Tick.{tick}
use sertos.Examples.States.{empty, host, task}
use sertos.Kernel.{Kernel}
use sertos.Ports.Posix.{Host, tick_thread, yield, context_of, task_create_hook, task_delete_hook}
use sertos.Ports.Contexts.{HasBaton, caller_context, yield-HasBaton}
use sertos.Ports.Bindings.{Bound, hooks-Bound}
use sertos.Task.Create.{aligned_top}
use sertos.Ports.Words.{read_words}
use sertos.Ports.CortexM.{Cpu}
use sertos.Ports.Core.{Core, m0, m4, m33, stack_init}
use sertos.Ports.Core
use sertos.Ports.RiscV.{Hart}
use sertos.Ports.RiscV
use sertos.Ports.Critical.{Sections, done, section, depth, run_sections}
use sertos.Ports.Masks.{CpuIsValid, HartIsValid, cortex_m, risc_v, run_sections-restores}
use sertos.Ports.Frames.{stack_init-fits}
use sertos.Ports.Systick.{tick_init-Started}
use sertos.Ports.Systick
use sertos.Ports.Compare.{tick_init-starts, timer_handler-ticks}
use sertos.Ports.Compare

-- A core and a hart after reset, with interrupts on.
abbrev reset_cpu : Cpu
reset_cpu = record { primask = 0; critical_nesting = 0; registers = λ i. 0; runtime_dwt_ok = false }

abbrev reset_hart : Hart
reset_hart = record {
  mstatus = 8;
  mie = 0;
  mtvec = 0;
  mtimecmp_l = 0;
  mtimecmp_h = 0;
  critical_nesting = 0;
  in_isr = 0;
  tick_cycles = 0;
}

reset_cpu-IsValid : CpuIsValid reset_cpu
unfolding CpuIsValid
reset_cpu-IsValid = (omega arith, inl refl)

reset_hart-IsValid : HartIsValid reset_hart
unfolding HartIsValid
reset_hart-IsValid = inl refl

-- Two sections in one, and one behind it.
abbrev nested : Sections
nested = section (section done (section done done)) (section done done)

nested-depth : 0 + depth nested < 2 ^ 32
unfolding depth
nested-depth = omega arith

run_sections-restores_example :
    (run_sections (cortex_m m33) nested reset_cpu ≡ reset_cpu)
    × (run_sections risc_v nested reset_hart ≡ reset_hart)
run_sections-restores_example =
    run_sections-restores m33 nested reset_cpu reset_hart reset_cpu-IsValid reset_hart-IsValid
      nested-depth nested-depth

stack_init-fits_example :
    let top = aligned_top 4096 300 in
    let (memory', sp) = stack_init m4 (λ i. i % 256) top 4096 0x8001 7 in
    (4096 ≤ sp)
    × (sp + 32 + 4 * 9 ≡ top)
    × ((top - 32) % stack_alignment_bytes ≡ 0)
    × (read_words memory' (sp + 32) 9
        ≡ 0xFFFFFFFD ∷ u32 7 ∷ 0 ∷ 0 ∷ 0 ∷ 0 ∷ 0 ∷ u32 0x8001 ∷ 0x01000000 ∷ [])
    × ((i : ℕ) → (i < 4096) ⊎ (4096 + 300 ≤ i) → memory' i ≡ i % 256)
stack_init-fits_example =
    stack_init-fits m4 (λ i. i % 256) 4096 300 4096 0x8001 7 (omega arith) (omega arith)

tick_init-Started_example :
    let (c', s) = Core.tick_init m4 reset_cpu 1000 in Systick.Started reset_cpu 1000 c' s
tick_init-Started_example = tick_init-Started m4 reset_cpu 1000

-- A time whose low half carries in the first round of the loop.
abbrev carrying : ℕ → ℕ
carrying i = 2 ^ 32 - 2 + i

carrying_steady : (i : ℕ) → carrying i ≤ carrying (i + 1)
carrying_steady i = omega arith

carrying_slow : carrying 5 < carrying 0 + 2 ^ 32
carrying_slow = omega arith

tick_init-starts_example :
    (h' : Hart) × (s : Status) × (RiscV.tick_init true 64 (suc (suc zero)) carrying reset_hart 1000
      ≡ some (h', s))
    × Compare.Prepared true 64 reset_hart h'
    × Compare.Started carrying reset_hart 1000 h' s
tick_init-starts_example =
    tick_init-starts carrying zero carrying_steady carrying_slow reset_hart true 64 1000

timer_handler-ticks_example :
    (h' : Hart) × (RiscV.timer_handler (suc (suc zero)) 8 carrying reset_hart empty
      ≡ elim (tick 8 empty) [ none ↦ none | some k' ↦ some (h', k') ])
    × (h'.in_isr ≡ 0)
    × (now : ℕ) × (carrying 0 ≤ now)
    × (now ≤ carrying 5)
    × (h'.mtimecmp_h * 2 ^ 32 + h'.mtimecmp_l ≡ u64 (now + 0))
timer_handler-ticks_example =
    timer_handler-ticks carrying zero carrying_steady carrying_slow reset_hart 8 empty

-- Task 5 runs in the context 3, and task 7, which has the context 4, is the current task of the
-- kernel.
abbrev two_contexts : Host
two_contexts = record {
  task_contexts = λ i.
      if i == 3
      then record { signaled = true; tcb = some 5; in_use = true }
      else if i == 4
      then record { signaled = false; tcb = some 7; in_use = true }
      else record { signaled = false; tcb = none; in_use = false };
  running_ctx = some 3;
  scheduler_running = true;
  tick_thread_created = true;
  exit_signaled = false;
}

abbrev seven_current : Kernel
seven_current = record empty {
  current_tcb = some 7;
  tcbs =
      update (update empty.tcbs 5 (record (task 5) { port_context = some 3 })) 7
        (record (task 7) { port_context = some 4 });
}

two_contexts-HasBaton : HasBaton two_contexts
unfolding HasBaton
two_contexts-HasBaton i = (λ s. ground arith, λ e. ground arith)

two_contexts-Bound : Bound two_contexts seven_current
unfolding Bound
two_contexts-Bound t i e = ground arith

yield-HasBaton_example :
    let h' = (yield two_contexts seven_current tick_thread).0 in
    HasBaton h' × (h'.running_ctx ≡ some 4)
unfolding caller_context
yield-HasBaton_example =
    yield-HasBaton two_contexts seven_current tick_thread 7 4 two_contexts-HasBaton refl refl refl
      refl

hooks-Bound_example :
    (let (h', k') = task_create_hook true two_contexts seven_current (some 9) in Bound h' k')
    × (let (h', k') = task_delete_hook two_contexts seven_current (some 9) in Bound h' k')
    × ((t u i : ℕ)
        → context_of seven_current t ≡ some i
        → context_of seven_current u ≡ some i
        → t ≡ u)
hooks-Bound_example = hooks-Bound true two_contexts seven_current (some 9) two_contexts-Bound
