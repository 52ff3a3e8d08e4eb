-- ===== src/Sem.antt =====
-- src/sertos_sem.c: binary and counting semaphores.
pub mod Tokens
pub mod Bounds
use sertos.Base.{
  ℕ, ◌+◌, ◌-◌, Bool, true, false, ◌&&◌, ◌||◌, not, Option, none, some, ◌==◌, ltb, if◌then◌else◌,
  update,
}
use sertos.Types.{Status, ok, null_ptr, invalid_param, no_memory, timeout, resource_busy, no_wait}
use sertos.Modules.{Modules}
use sertos.Kernel.{Kernel, Semaphore, sem_wait, update_list}
use sertos.Port.{Port}
use sertos.Scheduler.Switch.{outranks}
use sertos.Scheduler.Wait.{wait_list_unblock_highest, wait_list_block}
use sertos.Scheduler.WakeAll.{wake_all}
use sertos.Task.Create.{reschedule_if_running}

-- SERTOS_SEM_MAGIC_WORD.
abbrev pub sem_magic_word : ℕ
sem_magic_word = 0x53454D41

abbrev pub set_sem : Kernel → ℕ → Semaphore → Kernel
set_sem k h s = record k { semaphores = update k.semaphores h s }

abbrev pub is_sem : Kernel → ℕ → Bool
is_sem k h = (k.semaphores h).magic == sem_magic_word

abbrev pub bool_count : Bool → ℕ
bool_count true = 1
bool_count false = 0

-- `*out_higher_prio_woken`, a pointer that may be null: whether the woken task has a higher
-- priority than the current one.
unfoldable pub higher_prio_woken : Kernel → ℕ → Option ℕ → Bool
higher_prio_woken k t none = false
higher_prio_woken k t (some c) = ltb (k.tcbs c).priority (k.tcbs t).priority

-- A token that nobody waits for is kept, up to the maximum.
unfoldable pub keep_token : Kernel → ℕ → Kernel × Status
keep_token k h =
    if ltb (k.semaphores h).count (k.semaphores h).max_count
    then (set_sem k h (record (k.semaphores h) { count = (k.semaphores h).count + 1 }), ok)
    else (k, resource_busy)

module _ ⦃m : Modules⦄ where
  -- `sertos_sem_create_counting_static`; the last part but one is what `*out_handle` receives.
  unfoldable pub create_counting_static :
      Kernel → Option ℕ → ℕ → ℕ → Bool → Kernel × Option ℕ × Status
  create_counting_static k none initial_count max_count out = (k, none, null_ptr)
  create_counting_static k (some h) initial_count max_count false = (k, none, null_ptr)
  create_counting_static k (some h) initial_count max_count true =
      if max_count == 0 || ltb max_count initial_count then (k, none, invalid_param) else (
        record (set_sem k h (record {
          count = initial_count;
          max_count = max_count;
          is_statically_allocated = true;
          magic = sem_magic_word;
        })) { wait_lists = update_list k.wait_lists (sem_wait h) m.linked_list_init },
        some h,
        ok,
      )

  -- `sertos_sem_create_binary_static`.
  unfoldable pub create_binary_static : Kernel → Option ℕ → Bool → Bool → Kernel × Option ℕ × Status
  unfolding create_counting_static
  create_binary_static k h initial_state out =
      create_counting_static k h (bool_count initial_state) 1 out

  unfoldable pub finish_create : ℕ → Kernel × Option ℕ × Status → Kernel × Option ℕ × Status
  finish_create h (k, out, ok) =
      (set_sem k h (record (k.semaphores h) { is_statically_allocated = false }), out, ok)
  finish_create h (k, out, s) = (record k { pool = m.memory_pool_free k.pool h }, out, s)

  -- `sertos_sem_create_counting`, with the size of a `SertosSemaphore`.
  unfoldable pub create_counting : ℕ → Kernel → ℕ → ℕ → Bool → Kernel × Option ℕ × Status
  unfolding create_counting_static finish_create
  create_counting size k initial_count max_count false = (k, none, null_ptr)
  create_counting size k initial_count max_count true = elim (m.memory_pool_malloc k.pool size) [
    | none ↦ (k, none, no_memory)
    | some (h, pool') ↦
        finish_create h
          (create_counting_static (record k { pool = pool' }) (some h) initial_count max_count true)
  ]

  -- `sertos_sem_create_binary`.
  unfoldable pub create_binary : ℕ → Kernel → Bool → Bool → Kernel × Option ℕ × Status
  unfolding create_counting
  create_binary size k initial_state out = create_counting size k (bool_count initial_state) 1 out

  -- `sertos_sem_give_from_isr`; the second part is what `*out_higher_prio_woken` holds.
  unfoldable pub give_from_isr : Kernel → Option ℕ → Kernel × Bool × Status
  unfolding keep_token higher_prio_woken
  give_from_isr k none = (k, false, invalid_param)
  give_from_isr k (some h) =
      if not (is_sem k h)
      then (k, false, invalid_param)
      else let (k', unblocked) = wait_list_unblock_highest k (some (sem_wait h)) in
        elim unblocked [
          | none ↦ (let (k'', s) = keep_token k' h in (k'', false, s))
          | some t ↦ (k', higher_prio_woken k' t k'.current_tcb, ok)
        ]

module _ ⦃m : Modules⦄ ⦃e : Port⦄ where
  -- `sertos_sem_delete`.
  unfoldable pub delete : Kernel → Option ℕ → Kernel × Status
  delete k none = (k, invalid_param)
  delete k (some h) =
      if not (is_sem k h)
      then (k, invalid_param)
      else let k' = wake_all (set_sem k h (record (k.semaphores h) { magic = 0 })) (sem_wait h) in
        let k'' =
          if (k.semaphores h).is_statically_allocated
          then k'
          else record k' { pool = m.memory_pool_free k'.pool h } in
        (reschedule_if_running k'', ok)

  -- `sertos_sem_take`.
  unfoldable pub take : Kernel → Option ℕ → ℕ → Kernel × Status
  take k none ticks = (k, invalid_param)
  take k (some h) ticks =
      if not (is_sem k h)
      then (k, invalid_param)
      else if ltb 0 (k.semaphores h).count
      then (set_sem k h (record (k.semaphores h) { count = (k.semaphores h).count - 1 }), ok)
      else if ticks == no_wait
      then (k, timeout)
      else wait_list_block k (some (sem_wait h)) ticks

  -- `sertos_sem_give`.
  unfoldable pub give : Kernel → Option ℕ → Kernel × Status
  unfolding keep_token
  give k none = (k, invalid_param)
  give k (some h) =
      if not (is_sem k h)
      then (k, invalid_param)
      else let (k', unblocked) = wait_list_unblock_highest k (some (sem_wait h)) in
        elim unblocked [ none ↦ keep_token k' h | some t ↦ (reschedule_if_running k', ok) ]

-- `sertos_sem_get_count`.
unfoldable pub get_count : Kernel → Option ℕ → ℕ
get_count k none = 0
get_count k (some h) = if not (is_sem k h) then 0 else (k.semaphores h).count
