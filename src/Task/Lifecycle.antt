-- ===== src/Task/Lifecycle.antt =====
-- src/sertos_task.c: the table of the transitions, deletion, suspension, resumption and the change
-- of a priority.
use sertos.Base.{
  ℕ, Bool, false, ◌&&◌, ◌||◌, not, Option, none, some, List, [], ◌∷◌, ◌==◌, leb, if◌then◌else◌,
  is_handle,
}
use sertos.Types.{
  Status, ok, invalid_param, is_ok, TaskState, ready, running, blocked, suspended, terminated,
  is_ready, max_priorities, task_magic_word,
}
use sertos.Modules.{Modules}
use sertos.Kernel.{Kernel, set_tcb}
use sertos.Port.{Port}
use sertos.Scheduler.Ready.{add_ready, remove_ready}
use sertos.Scheduler.Registry.{unregister_task}
use sertos.Scheduler.Delay.{yield}
use sertos.Task.Create.{reschedule_if_running}

-- A row of `s_task_transitions`: no row has a guard or an action.
pub record Transition : Type 0 where
  pub current_state : TaskState
  pub event : ℕ
  pub next_state : TaskState

abbrev row : TaskState → ℕ → TaskState → Transition
row a n b = record { current_state = a; event = n; next_state = b }

-- `s_task_transitions`.
abbrev pub task_transitions : List Transition
task_transitions =
    row ready 1 running
    ∷ row running 2 ready
    ∷ row running 3 blocked
    ∷ row blocked 4 ready
    ∷ row ready 5 suspended
    ∷ row running 5 suspended
    ∷ row blocked 5 suspended
    ∷ row suspended 6 ready
    ∷ row ready 7 terminated
    ∷ row running 7 terminated
    ∷ row blocked 7 terminated
    ∷ row suspended 7 terminated
    ∷ []

-- The values of the enumeration, by which states are compared.
abbrev pub state_id : TaskState → ℕ
state_id ready = 0
state_id running = 1
state_id blocked = 2
state_id suspended = 3
state_id terminated = 4

unfoldable pub has_row : List Transition → TaskState → TaskState → Bool
has_row [] from to = false
has_row (r ∷ rs) from to =
    state_id r.current_state == state_id from && state_id r.next_state == state_id to
    || has_row rs from to

-- `sertos_task_is_valid_transition`.
unfoldable pub is_valid_transition : TaskState → TaskState → Bool
unfolding has_row
is_valid_transition from to =
    if state_id from == state_id to then false else has_row task_transitions from to

-- A null handle stands for the current task.
unfoldable pub resolve : Kernel → Option ℕ → Option ℕ
resolve k none = k.current_tcb
resolve k (some t) = some t

-- A task's canary is intact.
abbrev pub is_task : Kernel → ℕ → Bool
is_task k t = (k.tcbs t).magic == task_magic_word

module _ ⦃m : Modules⦄ where
  -- A ready task leaves its queue.
  unfoldable pub withdraw : Kernel → ℕ → Kernel
  withdraw k t = if is_ready (k.tcbs t).state then (remove_ready k (some t)).0 else k

  -- The critical section of `sertos_task_suspend`.
  unfoldable pub park : Kernel → ℕ → Kernel
  unfolding withdraw
  park k t = let k' = withdraw k t in set_tcb k' t (record (k'.tcbs t) { state = suspended })

  -- The critical section of `sertos_task_set_priority`.
  unfoldable pub change_priority : Kernel → ℕ → ℕ → Kernel
  unfolding withdraw
  change_priority k t p =
      let k' = withdraw k t in
      let k'' = set_tcb k' t (record (k'.tcbs t) { priority = p; base_priority = p }) in
      if is_ready (k.tcbs t).state then (add_ready k'' (some t)).0 else k''

module _ ⦃m : Modules⦄ ⦃e : Port⦄ where
  unfoldable pub yield_if : Bool → Kernel → Kernel
  yield_if is_current k = if is_current && k.is_running then yield k else k

  -- The critical section of `sertos_task_delete`.
  unfoldable pub retire : Kernel → ℕ → Kernel
  unfolding withdraw
  retire k t =
      let k' = unregister_task (withdraw k t) (some t) in
      let k'' =
        e.port_task_delete_hook (set_tcb k' t (record (k'.tcbs t) { state = terminated })) t in
      if not (k''.tcbs t).is_statically_allocated
      then record k'' {
        pool = m.memory_pool_free (m.memory_pool_free k''.pool (k''.tcbs t).stack_base) t;
      }
      else k''

  unfoldable pub delete_task : Kernel → Option ℕ → Kernel × Status
  unfolding retire yield_if
  delete_task k none = (k, invalid_param)
  delete_task k (some t) =
      if not (is_task k t) || not (is_valid_transition (k.tcbs t).state terminated)
      then (k, invalid_param)
      else (yield_if (is_handle k.current_tcb t) (retire k t), ok)

  -- `sertos_task_delete`.
  unfoldable pub delete : Kernel → Option ℕ → Kernel × Status
  unfolding delete_task resolve
  delete k handle = delete_task k (resolve k handle)

  unfoldable pub suspend_task : Kernel → Option ℕ → Kernel × Status
  unfolding park yield_if
  suspend_task k none = (k, invalid_param)
  suspend_task k (some t) =
      if not (is_task k t) || not (is_valid_transition (k.tcbs t).state suspended)
      then (k, invalid_param)
      else (yield_if (is_handle k.current_tcb t) (park k t), ok)

  -- `sertos_task_suspend`.
  unfoldable pub suspend : Kernel → Option ℕ → Kernel × Status
  unfolding suspend_task resolve
  suspend k handle = suspend_task k (resolve k handle)

  -- The end of `sertos_task_resume`.
  unfoldable pub finish_resume : Kernel × Status → Kernel × Status
  finish_resume (k, s) = (if is_ok s then reschedule_if_running k else k, s)

  -- `sertos_task_resume`.
  unfoldable pub resume : Kernel → Option ℕ → Kernel × Status
  unfolding finish_resume
  resume k none = (k, invalid_param)
  resume k (some t) =
      if not (is_task k t) || not (is_valid_transition (k.tcbs t).state ready)
      then (k, invalid_param)
      else finish_resume (add_ready k (some t))

  unfoldable pub set_task_priority : Kernel → Option ℕ → ℕ → Kernel × Status
  unfolding change_priority
  set_task_priority k none p = (k, invalid_param)
  set_task_priority k (some t) p =
      if not (is_task k t)
      then (k, invalid_param)
      else (reschedule_if_running (change_priority k t p), ok)

  -- `sertos_task_set_priority`.
  unfoldable pub set_priority : Kernel → Option ℕ → ℕ → Kernel × Status
  unfolding set_task_priority resolve
  set_priority k handle p =
      if leb max_priorities p then (k, invalid_param) else set_task_priority k (resolve k handle) p
