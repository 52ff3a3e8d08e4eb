-- ===== src/Examples/Scheduling.antt =====
-- The scheduler's theorems, on the states of Examples/States.antt.
use sertos.Base.{ℕ, ◌≤◌, ◌≡◌, refl, some, head?, arith}
use sertos.Types.{running}
use sertos.Modules.Plain.{plain, plain_lists, plain_bits}
use sertos.Kernel.{Kernel}
use sertos.Scheduler.Invariant.{Inv}
use sertos.Scheduler.Ready.{add_ready, select_next_task}
use sertos.Scheduler.Ready.Membership.{IsDetached, IsQueued, add_ready-Inv}
use sertos.Scheduler.Ready.Choice.{select_next_task-highest}
use sertos.Scheduler.Switch.{perform_switch, lock, unlock, switch_context}
use sertos.Scheduler.Switch.Perform.{OnlyCurrentRuns, perform_switch-Inv}
use sertos.Scheduler.Switch.Locking.{unlock-switch_context-lock}
use sertos.Examples.States.{empty, empty-Inv, host}

detached : (t : ℕ) → IsDetached empty t
detached t = record { unqueued = λ p. refl; no_delay = refl; no_wait_list = refl }

-- Task 5 in its ready queue, and then task 7 too.
abbrev pub five : Kernel
five = (add_ready empty (some 5)).0

pub five-Inv : Inv five
five-Inv = (add_ready-Inv plain_lists plain_bits empty 5 empty-Inv (detached 5) (ground arith)).1

pub five-IsQueued : IsQueued five 5
five-IsQueued =
    (add_ready-Inv plain_lists plain_bits empty 5 empty-Inv (detached 5) (ground arith)).2

IsDetached-seven : IsDetached five 7
unfolding add_ready
IsDetached-seven = record { unqueued = λ p. ground arith; no_delay = refl; no_wait_list = refl }

abbrev pub both : Kernel
both = (add_ready five (some 7)).0

pub both-Inv : Inv both
unfolding add_ready
both-Inv = (add_ready-Inv plain_lists plain_bits five 7 five-Inv IsDetached-seven (ground arith)).1

pub both-IsQueued : IsQueued both 7
unfolding add_ready
both-IsQueued =
    (add_ready-Inv plain_lists plain_bits five 7 five-Inv IsDetached-seven (ground arith)).2

select_next_task-highest_example :
    (t : ℕ) × (select_next_task both ≡ some t)
    × (head? (both.ready_queues (both.tcbs t).priority) ≡ some t)
    × ((both.tcbs 5).priority ≤ (both.tcbs t).priority)
unfolding add_ready
select_next_task-highest_example =
    select_next_task-highest plain_lists plain_bits both both-Inv.at_ready 5 5 (ground arith) refl

-- The choice is task 7.
pub both-selects : select_next_task both ≡ some 7
unfolding add_ready select_next_task
both-selects = refl

pub none_runs : OnlyCurrentRuns both
unfolding add_ready
none_runs u h = ground arith

perform_switch-Inv_example :
    let k' = perform_switch both in
    Inv k' × OnlyCurrentRuns k' × (k'.current_tcb ≡ some 7) × ((k'.tcbs 7).state ≡ running)
perform_switch-Inv_example =
    perform_switch-Inv plain_lists plain_bits both 7 both-Inv none_runs both-selects

unlock-switch_context-lock_example : unlock (switch_context (lock empty)) ≡ switch_context empty
unlock-switch_context-lock_example = unlock-switch_context-lock empty (ground arith) refl
