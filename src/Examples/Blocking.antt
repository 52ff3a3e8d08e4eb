-- ===== src/Examples/Blocking.antt =====
-- Blocking, waking and delays, on the states of Examples/States.antt.
use sertos.Base.{
  length, ℕ, ◌+◌, ◌*◌, ◌≤◌, ◌<◌, ◌≡◌, refl, ◌⊎◌, true, false, none, some, List, [], ◌∷◌, ◌++◌, mem,
  head?, erase, arith,
}
use sertos.Types.{u32, timeout, ready, blocked}
use sertos.Modules.Plain.{plain, plain_lists, plain_bits}
use sertos.Kernel.{Kernel, sem_wait, same_list}
use sertos.Scheduler.Invariant.{Inv}
use sertos.Scheduler.Ready.{add_ready, remove_ready}
use sertos.Scheduler.Ready.Membership.{IsQueued}
use sertos.Scheduler.Wait.{
  enter_wait, insert_priority, wait_list_unblock_highest, wait_status, insert_wait_list_priority,
}
use sertos.Scheduler.Wait.Order.{insert_priority-split, all_at_least, all_below}
use sertos.Scheduler.Wait.Blocking.{enter_wait-Inv}
use sertos.Scheduler.Wait.Waking.{wait_list_unblock_highest-Inv}
use sertos.Scheduler.Wait.Timeouts.{wait_status-woken}
use sertos.Scheduler.WakeAll.{wake_all, wake_rounds}
use sertos.Scheduler.WakeAll.Emptied.{wake_all-Inv}
use sertos.Scheduler.Delay.{enter_delay, process_delayed_tasks, ms_to_ticks}
use sertos.Scheduler.Delay.Blocking.{enter_delay-Inv}
use sertos.Scheduler.Delay.Ticking.{Ticked, Untouched}
use sertos.Scheduler.Delay.Wakeup.{
  process_delayed_tasks-Inv, any_expires, ticks_later, delay_ends, delay_lasts,
}
use sertos.Scheduler.Delay.Conversion.{ms_to_ticks_lem}
use sertos.Examples.States.{host, task}
use sertos.Examples.Scheduling.{five, five-Inv, five-IsQueued, both, both-Inv, both-IsQueued}

-- Task 7 waits for semaphore 0, for ten ticks at most.
abbrev pub waiting : Kernel
waiting = enter_wait both (sem_wait 0) 7 10

pub waiting-Inv : Inv waiting
waiting-Inv =
    (enter_wait-Inv plain_lists plain_bits both (sem_wait 0) 7 10 both-Inv both-IsQueued
      (ground arith)).0

pub waiting-head : head? (waiting.wait_lists (sem_wait 0)) ≡ some 7
unfolding enter_wait add_ready remove_ready same_list insert_priority insert_wait_list_priority
waiting-head = refl

waiting-mem : mem 7 (waiting.wait_lists (sem_wait 0)) ≡ true
unfolding enter_wait add_ready remove_ready same_list insert_priority insert_wait_list_priority
waiting-mem = refl

-- Task 5 is delayed for two ticks.
abbrev delayed : Kernel
delayed = enter_delay five 5 2

delayed-Inv : Inv delayed
delayed-Inv =
    (enter_delay-Inv plain_lists plain_bits five 5 2 five-Inv five-IsQueued (ground arith)).0

delayed-mem : mem 5 delayed.delay_list ≡ true
unfolding enter_delay add_ready remove_ready
delayed-mem = refl

delayed-ticks : (delayed.tcbs 5).delay_ticks ≡ 2
unfolding enter_delay add_ready remove_ready
delayed-ticks = refl

enter_wait-Inv_example :
    let k' = enter_wait both (sem_wait 0) 7 10 in
    Inv k'
    × ((k'.tcbs 7).state ≡ blocked)
    × ((k'.tcbs 7).wait_list ≡ some (sem_wait 0))
    × ((k'.tcbs 7).delay_ticks ≡ 10)
    × (mem 7 (k'.ready_queues (both.tcbs 7).priority) ≡ false)
enter_wait-Inv_example =
    enter_wait-Inv plain_lists plain_bits both (sem_wait 0) 7 10 both-Inv both-IsQueued
      (ground arith)

wait_list_unblock_highest-Inv_example :
    let (k', woken) = wait_list_unblock_highest waiting (some (sem_wait 0)) in
    (woken ≡ some 7)
    × ((waiting.tcbs 7).priority ≤ (waiting.tcbs 7).priority)
    × Inv k'
    × IsQueued k' 7
    × ((k'.tcbs 7).state ≡ ready)
    × ((k'.tcbs 7).wait_list ≡ none)
    × ((k'.tcbs 7).delay_ticks ≡ 0)
    × (k'.wait_lists (sem_wait 0) ≡ erase 7 (waiting.wait_lists (sem_wait 0)))
wait_list_unblock_highest-Inv_example =
    wait_list_unblock_highest-Inv plain_lists plain_bits waiting (sem_wait 0) 7 7 waiting-Inv
      waiting-head waiting-mem

wait_status-woken_example :
    wait_status ((wait_list_unblock_highest waiting (some (sem_wait 0))).0.tcbs 7) 10 ≡ timeout
wait_status-woken_example =
    wait_status-woken plain_lists plain_bits waiting (sem_wait 0) 7 10 waiting-Inv waiting-head

waiting-few : length (waiting.wait_lists (sem_wait 0)) < 9
unfolding enter_wait add_ready remove_ready insert_wait_list_priority
waiting-few = ground arith

wake_all-Inv_example :
    let k' = wake_all waiting (sem_wait 0) in
    (wake_rounds 9 waiting (sem_wait 0) ≡ some k')
    × Inv k'
    × (k'.wait_lists (sem_wait 0) ≡ [])
    × (((mem 7 (waiting.wait_lists (sem_wait 0)) ≡ true) × ((k'.tcbs 7).state ≡ ready))
        ⊎ ((mem 7 (waiting.wait_lists (sem_wait 0)) ≡ false) × (k'.tcbs 7 ≡ waiting.tcbs 7)))
wake_all-Inv_example =
    wake_all-Inv plain_lists plain_bits (sem_wait 0) waiting 9 7 waiting-Inv waiting-few

insert_priority-split_example :
    (before after : List ℕ) × (9 ∷ 7 ∷ 2 ∷ [] ≡ before ++ after)
    × (insert_priority task 39 (9 ∷ 7 ∷ 2 ∷ []) ≡ before ++ 39 ∷ after)
    × (all_at_least task 7 before ≡ true)
    × (all_below task 7 after ≡ true)
insert_priority-split_example = insert_priority-split plain_lists task 39 (9 ∷ 7 ∷ 2 ∷ []) refl refl

process_delayed_tasks-Inv_example :
    let (k', unblocked) = process_delayed_tasks delayed in
    Inv k'
    × (unblocked ≡ any_expires delayed.tcbs delayed.delay_list)
    × (((mem 5 delayed.delay_list ≡ true) × Ticked delayed k' 5)
        ⊎ ((mem 5 delayed.delay_list ≡ false) × Untouched 5 delayed k'))
process_delayed_tasks-Inv_example =
    process_delayed_tasks-Inv plain_lists plain_bits delayed delayed-Inv 5

delay_ends_example :
    let k' = ticks_later 2 delayed in
    IsQueued k' 5 × ((k'.tcbs 5).state ≡ ready) × (mem 5 k'.delay_list ≡ false)
delay_ends_example =
    delay_ends plain_lists plain_bits 1 delayed 5 delayed-Inv delayed-mem delayed-ticks

delay_lasts_example :
    let k' = ticks_later 1 delayed in
    ((k'.tcbs 5).state ≡ blocked) × (mem 5 k'.delay_list ≡ true) × ((k'.tcbs 5).delay_ticks ≡ 1)
delay_lasts_example =
    delay_lasts plain_lists plain_bits 2 1 delayed 5 delayed-Inv delayed-mem delayed-ticks
      (ground arith)

ms_to_ticks_lem_example :
    (n : ℕ) × (ms_to_ticks 1000 5000000 ≡ u32 n)
    × (5000000 * 1000 ≤ n * 1000)
    × (n * 1000 < 5000000 * 1000 + 1000)
ms_to_ticks_lem_example = ms_to_ticks_lem 1000 5000000 (omega arith) (omega arith)
