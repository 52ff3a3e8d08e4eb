-- ===== src/Examples/Whole.antt =====
-- Runs of the whole system from fresh memory.
use sertos.Base.{
  erase, erase_of_not-mem, ℕ, ◌≤◌, ◌<◌, ◌≡◌, refl, true, false, some, List, length, mem, arith,
}
use sertos.Types.{ready}
use sertos.Modules.Plain.{plain, plain_lists, plain_bits}
use sertos.Kernel.{Kernel}
use sertos.Scheduler.Invariant.{Inv}
use sertos.Scheduler.Init.{clear_lists}
use sertos.Scheduler.Ready.{select_next_task, add_ready}
use sertos.Scheduler.Ready.Membership.{IsQueued, add_ready-Inv}
use sertos.Scheduler.Registry.{register_task}
use sertos.Scheduler.Switch.{perform_switch}
use sertos.Scheduler.Delay.{enter_delay, process_time_slicing}
use sertos.Scheduler.Delay.Gap.{process_time_slicing-enter_delay}
use sertos.Stats.Accounting.{on_switch}
use sertos.Task.Create.{TaskConfig, new_tcb}
use sertos.System.{publish_new, Reach, here, next, create, switch}
use sertos.System.Safe.{Safe}
use sertos.System.Reachable.{IsFresh, Reach-clear_lists-Safe, Safe-select_next_task}
use sertos.System.Safe.{Safe}
use sertos.Scheduler.Delay.Gap.{BlockedYetQueued}
use sertos.Examples.Scheduling.{five, five-Inv}
use sertos.Examples.States.{empty, task, host}

abbrev fresh : Kernel
fresh = record empty { tcbs = λ t. record (task t) { magic = 0; state = ready } }

fresh-IsFresh : IsFresh fresh
fresh-IsFresh = record {
  no_task = λ t h. ground (arith, h);
  no_delay = λ t. refl;
  no_wait_list = λ t. refl;
  none_runs = λ t h. ground (arith, h);
  none_waits = λ w. refl;
  few_queues = λ p h. refl;
}

-- A task of a priority, whose stack the caller gives.
abbrev config : ℕ → TaskConfig
config p = record {
  name = some "Task";
  entry_func = some 1;
  param = 0;
  priority = p;
  stack_buffer = some 4096;
  stack_size = 256;
}

-- Task 1 of priority 4 is created, chosen, and delays itself.
abbrev cleared : Kernel
cleared = clear_lists fresh (λ i. false)

abbrev created : Kernel
created = publish_new cleared 1 (new_tcb (config 4) true 4352)

abbrev started : Kernel
started = perform_switch created

created-Reach : Reach cleared created
unfolding clear_lists
created-Reach = next here (
    create 1 (config 4) true 4352
      (record { unqueued = λ p. ground arith; no_delay = refl; no_wait_list = refl })
      (ground arith))

created-select : select_next_task created ≡ some 1
unfolding clear_lists add_ready register_task select_next_task new_tcb
created-select = refl

started-Reach : Reach cleared started
started-Reach = next created-Reach (switch 1 created-select)

Safe-select_next_task_example :
    (t : ℕ) × (select_next_task started ≡ some t)
    × ((started.tcbs 1).priority ≤ (started.tcbs t).priority)
unfolding clear_lists add_ready register_task select_next_task new_tcb perform_switch on_switch
Safe-select_next_task_example =
    Safe-select_next_task plain_lists plain_bits started 1
      (Reach-clear_lists-Safe plain_lists plain_bits fresh started (λ i. false) fresh-IsFresh refl
        started-Reach)
      refl refl

-- Task 5, which runs, and tasks 37 and 69 are ready at priority 5.
abbrev two_ready : Kernel
two_ready = (add_ready five (some 37)).0

two_ready-Inv : Inv two_ready
unfolding add_ready
two_ready-Inv =
    (add_ready-Inv plain_lists plain_bits five 37 five-Inv
      (record { unqueued = λ p. ground arith; no_delay = refl; no_wait_list = refl })
      (ground arith)).1

abbrev three_ready : Kernel
three_ready = (add_ready two_ready (some 69)).0

three_ready-Inv : Inv three_ready
unfolding add_ready
three_ready-Inv =
    (add_ready-Inv plain_lists plain_bits two_ready 69 two_ready-Inv
      (record { unqueued = λ p. ground arith; no_delay = refl; no_wait_list = refl })
      (ground arith)).1

three_ready-IsQueued : IsQueued three_ready 5
unfolding add_ready
three_ready-IsQueued = (ground arith, refl)

three_ready-length : 2 < length (three_ready.ready_queues (three_ready.tcbs 5).priority)
unfolding add_ready
three_ready-length = omega arith

three_ready-slicing : three_ready.time_slicing_enabled ≡ true
unfolding add_ready
three_ready-slicing = refl

three_ready-current : three_ready.current_tcb ≡ some 5
unfolding add_ready
three_ready-current = refl

erase-absent : (t : ℕ) (l : List ℕ) → mem t l ≡ false → mem t (erase t l) ≡ false
erase-absent t l h = rw (erase_of_not-mem t l h) h

process_time_slicing-enter_delay_example :
    BlockedYetQueued 5 (process_time_slicing (enter_delay three_ready 5 2))
process_time_slicing-enter_delay_example =
    process_time_slicing-enter_delay plain_lists plain_bits three_ready 5 2 three_ready-Inv
      (erase-absent 5) three_ready-slicing three_ready-current three_ready-IsQueued (ground arith)
      three_ready-length
