-- ===== src/Examples/Objects.antt =====
-- Semaphores, mutexes, timers and tasks, on the states of Examples/States.antt.
use sertos.Base.{
  ℕ, ◌+◌, ◌≤◌, ◌<◌, ◌≡◌, refl, ◌≢◌, ◌⊎◌, true, false, ◌&&◌, none, some, length, mem, head?, erase,
  arith, if◌then◌else◌,
}
use sertos.Types.{ok, resource_busy, ready, max_priorities, stack_fill_byte}
use sertos.Modules.Plain.{plain, plain_lists, plain_bits}
use sertos.Kernel.{Kernel, sem_wait}
use sertos.Scheduler.Invariant.{Inv}
use sertos.Scheduler.Ready.{add_ready, remove_ready, select_next_task}
use sertos.Scheduler.Switch.{perform_switch}
use sertos.Stats.Accounting.{on_switch}
use sertos.Scheduler.Wait.{enter_wait, insert_wait_list_priority}
use sertos.Sem.{give_from_isr, is_sem}
use sertos.Sem.Tokens.{give_from_isr_cases}
use sertos.Mutex.{restore_owner_priority, lock, unlock}
use sertos.Mutex.Inheritance.{restore_owner_priority-running}
use sertos.Mutex.Recursion.{unlock-lock}
use sertos.Timer.Control.{start, delete, is_timer}
use sertos.Timer.Active.{TimerInv, start-TimerInv, delete-TimerInv}
use sertos.Timer.Visit.{IsQuiet, advance, stays}
use sertos.Timer.Walk.{timer_tick}
use sertos.Timer.Ticking.{timer_tick-advances}
use sertos.Task.Lifecycle.{change_priority}
use sertos.Task.Inspect.{get_stack_high_water_mark}
use sertos.Task.Stack.{get_stack_high_water_mark_lem}
use sertos.Task.Priority.{change_priority-running}
use sertos.Examples.States.{empty, host}
use sertos.Examples.Scheduling.{both}
use sertos.Examples.Running.{seven_runs, seven_runs-Inv, seven_runs-state, seven_runs-IsQueued}
use sertos.Examples.Blocking.{waiting, waiting-Inv}

waiting-is_sem : is_sem waiting 0 ≡ true
unfolding enter_wait add_ready remove_ready insert_wait_list_priority
waiting-is_sem = refl

both-ready : (both.tcbs 7).state ≡ ready
unfolding add_ready
both-ready = refl

give_from_isr_cases_example :
    let (k', _, status) = give_from_isr waiting (some 0) in
    ((t : ℕ) × (head? (waiting.wait_lists (sem_wait 0)) ≡ some t)
      × (status ≡ ok)
      × ((k'.tcbs t).state ≡ ready)
      × (k'.wait_lists (sem_wait 0) ≡ erase t (waiting.wait_lists (sem_wait 0)))
      × (k'.semaphores ≡ waiting.semaphores))
    ⊎ ((head? (waiting.wait_lists (sem_wait 0)) ≡ none)
        × ((waiting.semaphores 0).count < (waiting.semaphores 0).max_count)
        × (status ≡ ok)
        × ((k'.semaphores 0).count ≡ (waiting.semaphores 0).count + 1))
    ⊎ ((head? (waiting.wait_lists (sem_wait 0)) ≡ none)
        × ((waiting.semaphores 0).max_count ≤ (waiting.semaphores 0).count)
        × (status ≡ resource_busy)
        × (k' ≡ waiting))
give_from_isr_cases_example =
    give_from_isr_cases plain_lists plain_bits waiting 0 waiting-Inv waiting-is_sem

nine-low : (both.tcbs 9).priority < max_priorities
unfolding add_ready
nine-low = ground arith

seven-boosted : (seven_runs.tcbs 7).priority ≢ (seven_runs.mutexes 0).original_owner_priority
unfolding perform_switch add_ready select_next_task on_switch
seven-boosted h = ground arith

seven-not_twelve : 12 ≢ (seven_runs.tcbs 7).priority
unfolding perform_switch add_ready select_next_task on_switch
seven-not_twelve h = ground arith

restore_owner_priority-running_example :
    let k' = restore_owner_priority seven_runs 0 7 in
    ((k'.tcbs 7).priority ≡ (seven_runs.mutexes 0).original_owner_priority)
    × (k'.ready_queues ≡ seven_runs.ready_queues)
    × (k'.ready_bitmap ≡ seven_runs.ready_bitmap)
    × (mem 7 (k'.ready_queues (seven_runs.tcbs 7).priority) ≡ true)
    × ¬ Inv k'
restore_owner_priority-running_example =
    restore_owner_priority-running plain_lists plain_bits seven_runs 7 seven_runs-Inv 0
      seven_runs-state seven_runs-IsQueued seven-boosted

unlock-lock_example :
    let (k', status) = lock empty (some 0) 3 in (status ≡ ok) × (unlock k' (some 0) ≡ (empty, ok))
unlock-lock_example = unlock-lock empty 0 5 3 refl refl refl (ground arith) (ground arith)

get_stack_high_water_mark_lem_example :
    let n = get_stack_high_water_mark empty (some 5) in
    (n ≤ 4)
    × ((n ≤ 2) ⊎ (empty.memory (4096 + 2) ≡ stack_fill_byte))
    × ((n ≡ 4) ⊎ (empty.memory (4096 + n) ≢ stack_fill_byte))
get_stack_high_water_mark_lem_example = get_stack_high_water_mark_lem empty 5 2 refl

change_priority-running_example :
    let k' = change_priority seven_runs 7 12 in
    ((k'.tcbs 7).priority ≡ 12)
    × (k'.ready_queues ≡ seven_runs.ready_queues)
    × (k'.ready_bitmap ≡ seven_runs.ready_bitmap)
    × (mem 7 (k'.ready_queues (seven_runs.tcbs 7).priority) ≡ true)
    × ¬ Inv k'
change_priority-running_example =
    change_priority-running plain_lists plain_bits seven_runs 7 12 seven_runs-Inv seven_runs-state
      seven_runs-IsQueued seven-not_twelve

timers-Inv : TimerInv empty.active_timers empty.timers
timers-Inv = record { listed = λ t. refl; once = refl }

-- Timer 1 is active.
abbrev armed : Kernel
armed = (start empty (some 1)).0

armed-TimerInv : TimerInv armed.active_timers armed.timers
armed-TimerInv = (start-TimerInv plain_lists empty 1 timers-Inv refl).1

armed-is_timer : is_timer armed 1 ≡ true
unfolding start
armed-is_timer = refl

start-TimerInv_example :
    let (k', status) = start empty (some 1) in
    (status ≡ ok)
    × TimerInv k'.active_timers k'.timers
    × (mem 1 k'.active_timers ≡ true)
    × ((k'.timers 1).remaining_ticks ≡ (empty.timers 1).period_ticks)
start-TimerInv_example = start-TimerInv plain_lists empty 1 timers-Inv refl

delete-TimerInv_example :
    let (k', status) = delete armed (some 1) in
    (status ≡ ok)
    × TimerInv k'.active_timers k'.timers
    × (mem 1 k'.active_timers ≡ false)
    × (is_timer k' 1 ≡ false)
delete-TimerInv_example = delete-TimerInv plain_lists armed 1 armed-TimerInv armed-is_timer

armed-IsQuiet : (v : ℕ) → mem v armed.active_timers ≡ true → IsQuiet host (armed.timers v)
armed-IsQuiet v g f e = record { same_list = λ c p k. refl; same_timers = λ c p k. refl }

armed-initialized : armed.timer_subsystem_initialized ≡ true
unfolding start
armed-initialized = refl

armed-enough : length armed.active_timers ≤ 1
unfolding start
armed-enough = ground arith

timer_tick-advances_example :
    (k' : Kernel) × (timer_tick 1 armed ≡ some k')
    × (k'.timers 1
        ≡ (if mem 1 armed.active_timers then advance (armed.timers 1) else armed.timers 1))
    × (mem 1 k'.active_timers ≡ (mem 1 armed.active_timers && stays (armed.timers 1)))
timer_tick-advances_example =
    timer_tick-advances plain_lists armed 1 1 armed-initialized armed-TimerInv armed-enough
      armed-IsQuiet
