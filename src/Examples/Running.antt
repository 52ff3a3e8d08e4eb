-- ===== src/Examples/Running.antt =====
-- Round robin, suspension and the release of a mutex, on the states of Examples/States.antt.
use sertos.Base.{◌≡◌, refl, true, some, [], ◌∷◌, ◌++◌, mem, erase, arith}
use sertos.Types.{ready, running, suspended, wait_forever}
use sertos.Modules.Plain.{plain, plain_lists, plain_bits}
use sertos.Kernel.{Kernel, mutex_wait}
use sertos.Scheduler.Invariant.{Inv}
use sertos.Scheduler.Ready.{add_ready, remove_ready, select_next_task}
use sertos.Scheduler.Ready.Membership.{IsQueued}
use sertos.Scheduler.Switch.{perform_switch}
use sertos.Scheduler.Switch.Perform.{perform_switch-Inv}
use sertos.Scheduler.Wait.{enter_wait, insert_wait_list_priority}
use sertos.Scheduler.Delay.{process_time_slicing}
use sertos.Scheduler.Delay.RoundRobin.{process_time_slicing-Inv}
use sertos.Stats.Accounting.{on_switch}
use sertos.Task.Lifecycle.{park}
use sertos.Task.Suspension.{park-running}
use sertos.Examples.States.{host}
use sertos.Examples.Scheduling.{
  five, five-Inv, five-IsQueued, both, both-Inv, both-selects, none_runs,
}

five-slicing : five.time_slicing_enabled ≡ true
unfolding add_ready
five-slicing = refl

five-current : five.current_tcb ≡ some 5
unfolding add_ready
five-current = refl

process_time_slicing-Inv_example :
    let k' = process_time_slicing five in
    Inv k'
    × (k'.ready_queues (five.tcbs 5).priority
        ≡ erase 5 (five.ready_queues (five.tcbs 5).priority) ++ 5 ∷ [])
process_time_slicing-Inv_example =
    process_time_slicing-Inv plain_lists five 5 five-Inv five-slicing five-current five-IsQueued

five-ready : (five.tcbs 5).state ≡ ready
unfolding add_ready
five-ready = refl

-- Task 7 runs.
abbrev pub seven_runs : Kernel
seven_runs = perform_switch both

pub seven_runs-Inv : Inv seven_runs
seven_runs-Inv =
    (perform_switch-Inv plain_lists plain_bits both 7 both-Inv none_runs both-selects).0

pub seven_runs-state : (seven_runs.tcbs 7).state ≡ running
seven_runs-state =
    (perform_switch-Inv plain_lists plain_bits both 7 both-Inv none_runs both-selects).3

pub seven_runs-IsQueued : IsQueued seven_runs 7
unfolding perform_switch add_ready select_next_task on_switch
seven_runs-IsQueued = (ground arith, refl)

park-running_example :
    let k' = park seven_runs 7 in
    ((k'.tcbs 7).state ≡ suspended)
    × (mem 7 (k'.ready_queues (seven_runs.tcbs 7).priority) ≡ true)
    × ¬ Inv k'
park-running_example =
    park-running plain_lists plain_bits seven_runs 7 seven_runs-Inv seven_runs-state
      seven_runs-IsQueued

-- Task 7 waits for mutex 0, which task 5 holds.
abbrev contended : Kernel
contended = enter_wait both (mutex_wait 0) 7 wait_forever

contended-priority : (contended.tcbs 5).priority ≡ (contended.mutexes 0).original_owner_priority
unfolding enter_wait add_ready remove_ready insert_wait_list_priority
contended-priority = refl
