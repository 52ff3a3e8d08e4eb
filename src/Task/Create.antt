-- ===== src/Task/Create.antt =====
-- src/sertos_task.c: the check of a configuration, the set-up of a control block and of its stack,
-- and the two ways to create a task.
use sertos.Base.{
  ℕ, ◌+◌, ◌-◌, ◌%◌, Bool, true, false, ◌&&◌, not, Option, none, some, String, ◌==◌, leb, ltb,
  is_none, if◌then◌else◌, update,
}
use sertos.Types.{
  Status, ok, null_ptr, invalid_param, no_memory, ready, max_priorities, minimal_stack_size,
  stack_alignment_bytes, stack_fill_byte, task_magic_word, is_ok, u64,
}
use sertos.Modules.{Modules}
use sertos.Kernel.{Kernel, Tcb}
use sertos.Port.{Port}
use sertos.Scheduler.Ready.{add_ready}
use sertos.Scheduler.Registry.{register_task}
use sertos.Scheduler.Switch.{reschedule}

-- `SertosTaskConfig`.
pub record TaskConfig : Type 0 where
  pub name : Option String
  pub entry_func : Option ℕ
  pub param : ℕ
  pub priority : ℕ
  pub stack_buffer : Option ℕ
  pub stack_size : ℕ

abbrev pub is_aligned : Option ℕ → Bool
is_aligned none = true
is_aligned (some a) = a % stack_alignment_bytes == 0

-- `validate_task_config`.
unfoldable pub validate_task_config : Option TaskConfig → Status
validate_task_config none = null_ptr
validate_task_config (some c) =
    if is_none c.entry_func
    then invalid_param
    else if leb max_priorities c.priority
    then invalid_param
    else if ltb c.stack_size minimal_stack_size
    then invalid_param
    else if not (is_aligned c.stack_buffer)
    then invalid_param
    else ok

-- `memset`.
abbrev pub fill : (ℕ → ℕ) → ℕ → ℕ → ℕ → ℕ → ℕ
fill memory base byte size a = if leb base a && ltb a (base + size) then byte else memory a

-- The end of the buffer, rounded down to the alignment.
unfoldable pub aligned_top : ℕ → ℕ → ℕ
aligned_top base size = u64 (base + size) - u64 (base + size) % stack_alignment_bytes

abbrev address_or_null : Option ℕ → ℕ
address_or_null none = 0
address_or_null (some a) = a

abbrev task_name : Option String → String
task_name none = "Task"
task_name (some n) = n

unfoldable pub new_tcb : TaskConfig → Bool → ℕ → Tcb
new_tcb c is_static stack_ptr = record {
  stack_ptr = stack_ptr;
  stack_base = address_or_null c.stack_buffer;
  stack_size = c.stack_size;
  stack_limit = address_or_null c.stack_buffer;
  state = ready;
  priority = c.priority;
  base_priority = c.priority;
  delay_ticks = 0;
  entry_func = address_or_null c.entry_func;
  param = c.param;
  name = task_name c.name;
  state_linked = false;
  event_linked = false;
  wait_list = none;
  is_statically_allocated = is_static;
  magic = task_magic_word;
  port_context = none;
  run_time_total = 0;
  run_time_last_entry = 0;
  switch_in_count = 0;
  registry_linked = false;
}

module _ ⦃m : Modules⦄ ⦃e : Port⦄ where
  -- `init_tcb_and_stack`.
  unfoldable pub init_tcb_and_stack : Kernel → ℕ → TaskConfig → Bool → Kernel
  unfolding aligned_top new_tcb
  init_tcb_and_stack k t c is_static =
      let base : ℕ = address_or_null c.stack_buffer in
      let (memory', stack_ptr) =
        e.port_stack_init (fill k.memory base stack_fill_byte c.stack_size)
          (aligned_top base c.stack_size) base (address_or_null c.entry_func) c.param in
      e.port_task_create_hook
        (record k { memory = memory'; tcbs = update k.tcbs t (new_tcb c is_static stack_ptr) }) t

  unfoldable pub reschedule_if_running : Kernel → Kernel
  reschedule_if_running k = if k.is_running then reschedule k else k

  -- The task joins the ready queue and the registry.
  unfoldable pub publish : Kernel × Status → ℕ → Kernel × Option ℕ × Status
  unfolding reschedule_if_running
  publish (k, ok) t = (reschedule_if_running (register_task k (some t)), some t, ok)
  publish (k, s) t = (k, none, s)

  unfoldable pub create_static_checked :
      Kernel → TaskConfig → ℕ → Status → Kernel × Option ℕ × Status
  unfolding init_tcb_and_stack publish
  create_static_checked k c t ok = publish (add_ready (init_tcb_and_stack k t c true) (some t)) t
  create_static_checked k c t s = (k, none, s)

  unfoldable pub create_static_configured :
      Kernel → Option TaskConfig → ℕ → Kernel × Option ℕ × Status
  unfolding create_static_checked
  create_static_configured k none t = (k, none, invalid_param)
  create_static_configured k (some c) t =
      if is_none c.stack_buffer
      then (k, none, invalid_param)
      else create_static_checked k c t (validate_task_config (some c))

  -- `sertos_task_create_static`: the control block and `out_handle` are the caller's, the latter
  -- given by whether it is not null. The last part but one is what `*out_handle` receives.
  unfoldable pub create_static :
      Kernel → Option TaskConfig → Option ℕ → Bool → Kernel × Option ℕ × Status
  unfolding create_static_configured
  create_static k c none out = (k, none, null_ptr)
  create_static k c (some t) false = (k, none, null_ptr)
  create_static k c (some t) true = create_static_configured k c t

  -- The end of `sertos_task_create`: the blocks go back if the task could not join its queue.
  unfoldable pub publish_or_free : Kernel × Status → ℕ → ℕ → Kernel × Option ℕ × Status
  unfolding publish
  publish_or_free (k, ok) stack t = publish (k, ok) t
  publish_or_free (k, s) stack t =
      (record k { pool = m.memory_pool_free (m.memory_pool_free k.pool stack) t }, none, s)

  unfoldable pub create_with_tcb : Kernel → TaskConfig → ℕ → Kernel × Option ℕ × Status
  unfolding init_tcb_and_stack publish_or_free
  create_with_tcb k c t = elim (m.memory_pool_malloc k.pool c.stack_size) [
    | none ↦ (record k { pool = m.memory_pool_free k.pool t }, none, no_memory)
    | some (stack, pool') ↦
        publish_or_free
          (add_ready
            (init_tcb_and_stack (record k { pool = pool' }) t
              (record c { stack_buffer = some stack }) false)
            (some t))
          stack t
  ]

  unfoldable pub create_checked :
      ℕ → Kernel → Option TaskConfig → Status → Kernel × Option ℕ × Status
  unfolding create_with_tcb
  create_checked size k none s = (k, none, s)
  create_checked size k (some c) s =
      if not (is_ok s) then (k, none, s) else elim (m.memory_pool_malloc k.pool size) [
        | none ↦ (k, none, no_memory)
        | some (t, pool') ↦ create_with_tcb (record k { pool = pool' }) c t
      ]

  -- `sertos_task_create`, with the size of a control block.
  unfoldable pub create : ℕ → Kernel → Option TaskConfig → Bool → Kernel × Option ℕ × Status
  unfolding create_checked
  create size k c false = (k, none, null_ptr)
  create size k c true = create_checked size k c (validate_task_config c)
