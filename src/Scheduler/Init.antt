-- ===== src/Scheduler/Init.antt =====
-- src/sertos_scheduler.c: the set-up of the scheduler, and its idle task.
use sertos.Base.{ℕ, Bool, true, false, not, Option, none, some, ◌==◌, leb, ltb, if◌then◌else◌}
use sertos.Types.{
  Status, invalid_param, max_priorities, tick_rate_default, minimal_stack_size,
  idle_task_stack_size, time_slicing_default,
}
use sertos.Modules.{Modules}
use sertos.Kernel.{Kernel}
use sertos.Port.{Port}
use sertos.Stats.Accounting.{set_enabled}
use sertos.Stats.Snapshot.{reset}
use sertos.Task.Create.{TaskConfig, create_static}

-- `SertosConfig`.
pub record Config : Type 0 where
  pub tick_rate_hz : ℕ
  pub enable_time_slicing : Bool
  pub idle_task_stack : Option ℕ
  pub idle_task_stack_size : ℕ
  pub tick_hook : Option ℕ
  pub idle_hook : Option ℕ
  pub enable_runtime_stats : Bool

-- The addresses of `s_idle_stack` and of `idle_task_entry`.
pub record IdleTask : Type 0 where
  pub stack : ℕ
  pub entry : ℕ

unfoldable pub apply_config : Kernel → Option Config → Kernel
apply_config k none =
    set_enabled
      (record k {
        tick_rate_hz = tick_rate_default;
        time_slicing_enabled = not (time_slicing_default == 0);
        tick_hook = none;
        idle_hook = none;
      })
      false
apply_config k (some c) =
    set_enabled
      (record k {
        tick_rate_hz = if ltb 0 c.tick_rate_hz then c.tick_rate_hz else tick_rate_default;
        time_slicing_enabled = c.enable_time_slicing;
        tick_hook = c.tick_hook;
        idle_hook = c.idle_hook;
      })
      c.enable_runtime_stats

unfoldable pub idle_config : IdleTask → ℕ → ℕ → TaskConfig
idle_config idle stack size = record {
  name = some "Idle";
  entry_func = some idle.entry;
  param = 0;
  priority = 0;
  stack_buffer = some stack;
  stack_size = size;
}

-- The caller's stack, if there is one and it is large enough.
unfoldable pub choose_idle_stack : IdleTask → Option Config → TaskConfig
unfolding idle_config
choose_idle_stack idle none = idle_config idle idle.stack idle_task_stack_size
choose_idle_stack idle (some c) = elim c.idle_task_stack [
  | none ↦ idle_config idle idle.stack idle_task_stack_size
  | some stack ↦
      if leb minimal_stack_size c.idle_task_stack_size
      then idle_config idle stack c.idle_task_stack_size
      else idle_config idle idle.stack idle_task_stack_size
]

module _ ⦃m : Modules⦄ where
  unfoldable pub clear_lists : Kernel → (ℕ → Bool) → Kernel
  clear_lists k bitmap = record k {
    ready_bitmap = bitmap;
    ready_queues = λ p. if ltb p max_priorities then m.linked_list_init else k.ready_queues p;
    delay_list = m.linked_list_init;
    suspended_list = m.linked_list_init;
    task_registry = m.linked_list_init;
    current_tcb = none;
    is_running = false;
    lock_nesting = 0;
    reschedule_pending = false;
    system_ticks = 0;
  }

module _ ⦃m : Modules⦄ ⦃e : Port⦄ where
  -- `sertos_scheduler_init_with_config`.
  unfoldable pub init_with_config : IdleTask → Kernel → Option Config → Kernel × Status
  unfolding clear_lists apply_config choose_idle_stack
  init_with_config idle k config = elim (m.bitmap_init max_priorities) [
    | none ↦ (k, invalid_param)
    | some bitmap ↦
        let (k', handle, status) =
          create_static (apply_config (clear_lists k bitmap) config)
            (some (choose_idle_stack idle config)) (some k.idle_tcb) true in
        (reset k', status)
  ]

  -- `sertos_scheduler_init`.
  unfoldable pub init : IdleTask → Kernel → Kernel × Status
  unfolding init_with_config
  init idle k = init_with_config idle k none

  -- A round of the loop of `idle_task_entry`, on the host.
  unfoldable pub idle_round : Kernel → Kernel
  idle_round k = elim k.idle_hook [
    | none ↦ e.port_yield k
    | some f ↦ e.port_yield (e.call_hook f k)
  ]
