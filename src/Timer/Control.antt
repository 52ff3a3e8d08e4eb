-- ===== src/Timer/Control.antt =====
-- src/sertos_timer.c: creation, deletion and control of the software timers.
use sertos.Base.{
  ℕ, Bool, true, false, ◌||◌, not, Option, none, some, String, ◌==◌, is_none, if◌then◌else◌, update,
}
use sertos.Types.{Status, ok, null_ptr, invalid_param, no_memory}
use sertos.Modules.{Modules}
use sertos.Kernel.{Kernel, Timer}

-- SERTOS_TIMER_MAGIC_WORD.
abbrev pub timer_magic_word : ℕ
timer_magic_word = 0x54494D52

-- `SertosTimerConfig`.
pub record TimerConfig : Type 0 where
  pub name : Option String
  pub period : ℕ
  pub is_periodic : Bool
  pub callback : Option ℕ
  pub param : ℕ

abbrev pub set_timer : Kernel → ℕ → Timer → Kernel
set_timer k h t = record k { timers = update k.timers h t }

-- A null handle, or one whose canary is not the magic word, is refused.
abbrev pub is_timer : Kernel → ℕ → Bool
is_timer k h = (k.timers h).magic == timer_magic_word

abbrev name_or : Option String → String → String
name_or none d = d
name_or (some n) d = n

-- The fields of a new timer; those of the old one are overwritten.
unfoldable pub new_timer : TimerConfig → Timer
new_timer c = record {
  name = name_or c.name "Timer";
  period_ticks = c.period;
  remaining_ticks = c.period;
  is_periodic = c.is_periodic;
  is_active = false;
  callback = c.callback;
  param = c.param;
  node_linked = false;
  is_statically_allocated = true;
  magic = timer_magic_word;
}

module _ ⦃m : Modules⦄ where
  -- `sertos_timer_init`.
  unfoldable pub timer_init : Kernel → Kernel
  timer_init k = record k { active_timers = m.linked_list_init; timer_subsystem_initialized = true }

  -- `sertos_timer_create_static`; the last part is what `*out_handle` receives.
  unfoldable pub create_static :
      Kernel → Option TimerConfig → Option ℕ → Bool → Kernel × Option ℕ × Status
  unfolding timer_init new_timer
  create_static k none timer out = (k, none, null_ptr)
  create_static k (some c) none out = (k, none, null_ptr)
  create_static k (some c) (some h) false = (k, none, null_ptr)
  create_static k (some c) (some h) true =
      if c.period == 0 || is_none c.callback
      then (k, none, invalid_param)
      else let k' = if k.timer_subsystem_initialized then k else timer_init k in
        (set_timer k' h (new_timer c), some h, ok)

  -- The end of `sertos_timer_create`: the block goes back if the creation failed.
  unfoldable pub finish_create : ℕ → Kernel × Option ℕ × Status → Kernel × Option ℕ × Status
  finish_create h (k, out, ok) =
      (set_timer k h (record (k.timers h) { is_statically_allocated = false }), out, ok)
  finish_create h (k, out, s) = (record k { pool = m.memory_pool_free k.pool h }, out, s)

  -- `sertos_timer_create`, with the size of a `SertosTimer`.
  unfoldable pub create : ℕ → Kernel → Option TimerConfig → Bool → Kernel × Option ℕ × Status
  unfolding create_static finish_create
  create size k c false = (k, none, null_ptr)
  create size k c true = elim (m.memory_pool_malloc k.pool size) [
    | none ↦ (k, none, no_memory)
    | some (h, pool') ↦ finish_create h (create_static (record k { pool = pool' }) c (some h) true)
  ]

  -- An active timer leaves the list of the active ones.
  unfoldable pub disarm : Kernel → ℕ → Kernel
  disarm k h =
      if (k.timers h).is_active
      then record k { active_timers = m.linked_list_remove_direct k.active_timers h }
      else k

  -- The critical section of `sertos_timer_delete`.
  unfoldable pub invalidate : Kernel → ℕ → Kernel
  unfolding disarm
  invalidate k h = set_timer (disarm k h) h (record (k.timers h) { is_active = false; magic = 0 })

  -- A block of the pool goes back.
  unfoldable pub free_unless : Bool → Kernel → ℕ → Kernel
  free_unless true k h = k
  free_unless false k h = record k { pool = m.memory_pool_free k.pool h }

  -- `sertos_timer_delete`.
  unfoldable pub delete : Kernel → Option ℕ → Kernel × Status
  unfolding invalidate free_unless
  delete k none = (k, invalid_param)
  delete k (some h) =
      if not (is_timer k h)
      then (k, invalid_param)
      else (free_unless (k.timers h).is_statically_allocated (invalidate k h) h, ok)

  unfoldable pub arm : Kernel → ℕ → Kernel
  unfolding disarm
  arm k h =
      let k' = disarm k h in
      record k' {
        active_timers = m.linked_list_insert_tail_direct k'.active_timers h;
        timers = update k.timers h (record (k.timers h) {
          remaining_ticks = (k.timers h).period_ticks;
          is_active = true;
          node_linked = true;
        });
      }

  -- `sertos_timer_start`.
  unfoldable pub start : Kernel → Option ℕ → Kernel × Status
  unfolding arm
  start k none = (k, invalid_param)
  start k (some h) = if not (is_timer k h) then (k, invalid_param) else (arm k h, ok)

  -- `sertos_timer_stop`.
  unfoldable pub stop : Kernel → Option ℕ → Kernel × Status
  stop k none = (k, invalid_param)
  stop k (some h) =
      if not (is_timer k h)
      then (k, invalid_param)
      else if not (k.timers h).is_active
      then (k, ok)
      else (
        record k {
          active_timers = m.linked_list_remove_direct k.active_timers h;
          timers =
              update k.timers h (record (k.timers h) { node_linked = false; is_active = false });
        },
        ok,
      )

  -- `sertos_timer_reset`.
  unfoldable pub reset : Kernel → Option ℕ → Kernel × Status
  unfolding start
  reset k h = start k h

  -- `sertos_timer_change_period`.
  unfoldable pub change_period : Kernel → Option ℕ → ℕ → Kernel × Status
  unfolding reset
  change_period k none period = (k, invalid_param)
  change_period k (some h) period =
      if not (is_timer k h)
      then (k, invalid_param)
      else if period == 0
      then (k, invalid_param)
      else reset (set_timer k h (record (k.timers h) { period_ticks = period })) (some h)

-- `sertos_timer_is_active`.
unfoldable pub is_active : Kernel → Option ℕ → Bool
is_active k none = false
is_active k (some h) = if not (is_timer k h) then false else (k.timers h).is_active
