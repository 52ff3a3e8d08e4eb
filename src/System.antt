-- ===== src/System.antt =====
-- The kernel of src/ as a transition system. Interrupts are masked in a critical section, so the
-- tasks and the interrupts take turns between sections: a step is one of them, whoever enters it.
pub mod Safe
pub mod Effects
pub mod Blocking
pub mod Waking
pub mod Tasks
pub mod Requests
pub mod Resting
pub mod Creation
pub mod Reachable
pub mod Runs
pub mod Interrupts
pub mod Calls
use sertos.Base.{ℕ, ◌<◌, ◌≡◌, ◌∙◌, ◌⊎◌, inl, inr, Bool, true, Option, none, some, sym, arith}
use sertos.Types.{ready, running, blocked, suspended, max_priorities, task_magic_word}
use sertos.Modules.{Modules}
use sertos.Kernel.{Kernel, Tcb, WaitList, set_tcb}
use sertos.Port.{Port}
use sertos.Scheduler.Registry.{register_task}
use sertos.Scheduler.Ready.Membership.{IsDetached}
use sertos.Task.Create.{TaskConfig, new_tcb}
use sertos.Scheduler.Ready.{add_ready, select_next_task}
use sertos.Scheduler.Switch.{perform_switch}
use sertos.Scheduler.Wait.{enter_wait, wait_list_unblock_highest}
use sertos.Scheduler.Delay.{enter_delay, process_delayed_tasks, process_time_slicing}
use sertos.Task.Lifecycle.{park, change_priority, retire}
use sertos.Mutex.{move_priority}

-- A created task that was not deleted.
abbrev pub IsLive : Kernel → ℕ → Type 0
IsLive k t = (k.tcbs t).magic ≡ task_magic_word

-- A task that neither runs nor is blocked.
abbrev pub IsIdle : Kernel → ℕ → Type 0
IsIdle k t = ((k.tcbs t).state ≡ ready) ⊎ ((k.tcbs t).state ≡ suspended)

-- The task that runs the code of a section.
abbrev pub Runs : Kernel → ℕ → Type 0
Runs k t = (k.current_tcb ≡ some t) × ((k.tcbs t).state ≡ running) × IsLive k t

-- Two states with the same tasks in the same lists: between them only the objects, the timers, the
-- tick count, the lock or the memory were written.
pub record SameTasks (k k' : Kernel) : Type 0 where
  pub same_bitmap : k'.ready_bitmap ≡ k.ready_bitmap
  pub same_queues : k'.ready_queues ≡ k.ready_queues
  pub same_delay_list : k'.delay_list ≡ k.delay_list
  pub same_wait_lists : k'.wait_lists ≡ k.wait_lists
  pub same_tcbs : k'.tcbs ≡ k.tcbs
  pub same_current : k'.current_tcb ≡ k.current_tcb

-- A new task joins the ready queue and the registry.
abbrev pub publish_new : ⦃m : Modules⦄ → Kernel → ℕ → Tcb → Kernel
publish_new k t b = register_task (add_ready (set_tcb k t b) (some t)).0 (some t)

module _ ⦃m : Modules⦄ ⦃e : Port⦄ where
  -- The sections, with the conditions under which they keep the lists. Some the callers see to: the
  -- one that blocks is the running task, a switch has a task to switch to, a valid priority. Others
  -- the sources do not test (src/sertos_task.c, src/sertos_mutex.c, src/sertos_scheduler.c), and a
  -- step has them as its guards: a task is deleted, or given another priority, while it is ready or
  -- suspended, and suspended while it is ready, not while it runs or is blocked, and round robin
  -- comes while the current task runs.
  pub data Step (k : Kernel) : Kernel → Type 0 where
    switch : (t : ℕ) → select_next_task k ≡ some t → Step k (perform_switch k)
    block : (w : WaitList) (t ticks : ℕ) → Runs k t → 0 < ticks → Step k (enter_wait k w t ticks)
    sleep : (t ticks : ℕ) → Runs k t → 0 < ticks → Step k (enter_delay k t ticks)
    wake : (w : WaitList) → Step k (wait_list_unblock_highest k (some w)).0
    count_ticks : Step k (process_delayed_tasks k).0
    slice : (t : ℕ) → Runs k t → Step k (process_time_slicing k)
    suspend : (t : ℕ) → IsLive k t → (k.tcbs t).state ≡ ready → Step k (park k t)
    reprioritise :
        (t p : ℕ) → IsLive k t → IsIdle k t → p < max_priorities → Step k (change_priority k t p)
    inherit :
        (t p : ℕ) → IsLive k t → IsIdle k t → p < max_priorities → Step k (move_priority k t p)
    resume : (t : ℕ) → IsLive k t → (k.tcbs t).state ≡ suspended → Step k (add_ready k (some t)).0
    create :
        (t : ℕ) (c : TaskConfig) (is_static : Bool) (stack_ptr : ℕ)
        → IsDetached k t
        → c.priority < max_priorities
        → Step k (publish_new k t (new_tcb c is_static stack_ptr))
    delete :
        (t : ℕ)
        → IsLive k t
        → IsIdle k t
        → ((j : Kernel) → SameTasks j (e.port_task_delete_hook j t))
        → Step k (retire k t)
    write : (k' : Kernel) → SameTasks k k' → Step k k'

  -- What the kernel comes to in some number of steps.
  pub data Reach (k : Kernel) : Kernel → Type 0 where
    here : Reach k k
    next : {i j : Kernel} → Reach k i → Step i j → Reach k j
