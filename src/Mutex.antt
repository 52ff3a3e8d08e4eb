-- ===== src/Mutex.antt =====
-- src/sertos_mutex.c: recursive mutexes with priority inheritance.
pub mod Inheritance
pub mod Recursion
pub mod HandOver
use sertos.Base.{
  ℕ, ◌+◌, ◌-◌, ◌^◌, Bool, true, false, ◌&&◌, ◌||◌, not, Option, none, some, ◌==◌, ltb,
  if◌then◌else◌, update, is_handle,
}
use sertos.Types.{
  Status, ok, null_ptr, invalid_param, no_memory, timeout, not_initialized, no_wait, is_ready, u32,
}
use sertos.Modules.{Modules}
use sertos.Kernel.{Kernel, Tcb, Mutex, mutex_wait, set_tcb, update_list}
use sertos.Port.{Port}
use sertos.Scheduler.Ready.{add_ready, remove_ready}
use sertos.Scheduler.Wait.{wait_list_unblock_highest, wait_list_block}
use sertos.Scheduler.WakeAll.{wake_all}
use sertos.Task.Create.{reschedule_if_running}

-- SERTOS_MUTEX_MAGIC_WORD.
abbrev pub mutex_magic_word : ℕ
mutex_magic_word = 0x4D555458

abbrev pub set_mutex : Kernel → ℕ → Mutex → Kernel
set_mutex k h x = record k { mutexes = update k.mutexes h x }

abbrev pub is_mutex : Kernel → ℕ → Bool
is_mutex k h = (k.mutexes h).magic == mutex_magic_word

unfoldable pub hold : Mutex → ℕ → ℕ → Mutex
hold x t priority = record x { owner = some t; lock_count = 1; original_owner_priority = priority }

module _ ⦃m : Modules⦄ where
  -- A task's active priority changes; a ready task moves to the queue of the new one.
  unfoldable pub move_priority : Kernel → ℕ → ℕ → Kernel
  move_priority k t p =
      let was_ready = is_ready (k.tcbs t).state in
      let k' = if was_ready then (remove_ready k (some t)).0 else k in
      let k'' = set_tcb k' t (record (k'.tcbs t) { priority = p }) in
      if was_ready then (add_ready k'' (some t)).0 else k''

  -- `apply_priority_inheritance`, for the owner of the mutex.
  unfoldable pub apply_priority_inheritance : Kernel → ℕ → ℕ → Kernel
  unfolding move_priority
  apply_priority_inheritance k owner current =
      if ltb (k.tcbs owner).priority (k.tcbs current).priority
      then move_priority k owner (k.tcbs current).priority
      else k

  -- `restore_owner_priority`.
  unfoldable pub restore_owner_priority : Kernel → ℕ → ℕ → Kernel
  unfolding move_priority
  restore_owner_priority k h current =
      if not ((k.tcbs current).priority == (k.mutexes h).original_owner_priority)
      then move_priority k current (k.mutexes h).original_owner_priority
      else k

  -- `sertos_mutex_create_static`.
  unfoldable pub create_static : Kernel → Option ℕ → Bool → Kernel × Option ℕ × Status
  create_static k none out = (k, none, null_ptr)
  create_static k (some h) false = (k, none, null_ptr)
  create_static k (some h) true = (
    record (set_mutex k h (record {
      owner = none;
      lock_count = 0;
      original_owner_priority = 0;
      is_statically_allocated = true;
      magic = mutex_magic_word;
    })) { wait_lists = update_list k.wait_lists (mutex_wait h) m.linked_list_init },
    some h,
    ok,
  )

  unfoldable pub finish_create : ℕ → Kernel × Option ℕ × Status → Kernel × Option ℕ × Status
  finish_create h (k, out, ok) =
      (set_mutex k h (record (k.mutexes h) { is_statically_allocated = false }), out, ok)
  finish_create h (k, out, s) = (record k { pool = m.memory_pool_free k.pool h }, out, s)

  -- `sertos_mutex_create`, with the size of a `SertosMutex`.
  unfoldable pub create : ℕ → Kernel → Bool → Kernel × Option ℕ × Status
  unfolding create_static finish_create
  create size k false = (k, none, null_ptr)
  create size k true = elim (m.memory_pool_malloc k.pool size) [
    | none ↦ (k, none, no_memory)
    | some (h, pool') ↦ finish_create h (create_static (record k { pool = pool' }) (some h) true)
  ]

  -- The mutex passes to the task that was woken, or to nobody.
  unfoldable pub hand_over : Kernel × Option ℕ → ℕ → Kernel
  unfolding hold
  hand_over (k, none) h = set_mutex k h (record (k.mutexes h) { owner = none })
  hand_over (k, some t) h = set_mutex k h (hold (k.mutexes h) t (k.tcbs t).base_priority)

  -- The critical section of a full release.
  unfoldable pub release : Kernel → ℕ → ℕ → Kernel
  unfolding hand_over
  release k h current =
      hand_over
        (wait_list_unblock_highest (restore_owner_priority k h current) (some (mutex_wait h))) h

module _ ⦃m : Modules⦄ ⦃e : Port⦄ where
  -- `sertos_mutex_delete`.
  unfoldable pub delete : Kernel → Option ℕ → Kernel × Status
  delete k none = (k, invalid_param)
  delete k (some h) =
      if not (is_mutex k h)
      then (k, invalid_param)
      else let k1 : Kernel = elim (k.mutexes h).owner [
        | none ↦ k
        | some owner ↦ restore_owner_priority k h owner
      ] in
        let k2 = wake_all (set_mutex k1 h (record (k1.mutexes h) { magic = 0 })) (mutex_wait h) in
        let k3 =
          if (k.mutexes h).is_statically_allocated
          then k2
          else record k2 { pool = m.memory_pool_free k2.pool h } in
        (reschedule_if_running k3, ok)

  -- The task that was woken takes the mutex as its own.
  unfoldable pub finish_lock : Kernel × Status → ℕ → ℕ → Kernel × Status
  unfolding hold
  finish_lock (k, ok) h current =
      (set_mutex k h (hold (k.mutexes h) current (k.tcbs current).base_priority), ok)
  finish_lock (k, s) h current = (k, s)

  unfoldable pub lock_owned : Kernel → ℕ → ℕ → ℕ → ℕ → Kernel × Status
  unfolding finish_lock
  lock_owned k h current owner ticks =
      if owner == current
      then (
        set_mutex k h (record (k.mutexes h) { lock_count = u32 ((k.mutexes h).lock_count + 1) }),
        ok,
      )
      else let k' = apply_priority_inheritance k owner current in
        if ticks == no_wait
        then (k', timeout)
        else finish_lock (wait_list_block k' (some (mutex_wait h)) ticks) h current

  -- By the owner: a free mutex is taken.
  unfoldable pub lock_from : Kernel → ℕ → ℕ → ℕ → Option ℕ → Kernel × Status
  unfolding lock_owned hold
  lock_from k h current ticks none =
      (set_mutex k h (hold (k.mutexes h) current (k.tcbs current).priority), ok)
  lock_from k h current ticks (some owner) = lock_owned k h current owner ticks

  unfoldable pub lock_as : Kernel → ℕ → Option ℕ → ℕ → Kernel × Status
  unfolding lock_from
  lock_as k h none ticks = (k, not_initialized)
  lock_as k h (some current) ticks = lock_from k h current ticks (k.mutexes h).owner

  -- `sertos_mutex_lock`.
  unfoldable pub lock : Kernel → Option ℕ → ℕ → Kernel × Status
  unfolding lock_as
  lock k none ticks = (k, invalid_param)
  lock k (some h) ticks =
      if not (is_mutex k h) then (k, invalid_param) else lock_as k h k.current_tcb ticks

  unfoldable pub unlock_as : Kernel → ℕ → Option ℕ → Kernel × Status
  unlock_as k h none = (k, invalid_param)
  unlock_as k h (some current) =
      if not (is_handle (k.mutexes h).owner current)
      then (k, invalid_param)
      else let k' =
          set_mutex k h
            (record (k.mutexes h) { lock_count = u32 ((k.mutexes h).lock_count + 2 ^ 32 - 1) }) in
        if ltb 0 (k'.mutexes h).lock_count
        then (k', ok)
        else (reschedule_if_running (release k' h current), ok)

  -- `sertos_mutex_unlock`.
  unfoldable pub unlock : Kernel → Option ℕ → Kernel × Status
  unfolding unlock_as
  unlock k none = (k, invalid_param)
  unlock k (some h) = if not (is_mutex k h) then (k, invalid_param) else unlock_as k h k.current_tcb

-- `sertos_mutex_get_owner`.
unfoldable pub get_owner : Kernel → Option ℕ → Option ℕ
get_owner k none = none
get_owner k (some h) = if not (is_mutex k h) then none else (k.mutexes h).owner
