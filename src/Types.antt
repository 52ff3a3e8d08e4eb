-- ===== src/Types.antt =====
-- inc/sertos_types.h, inc/sertos_config.h and the constants of inc/sertos_task.h: status codes, the
-- states of a task, the default configuration and the widths of the machine integers.
use sertos.Base.{ℕ, ◌%◌, ◌^◌, Bool, true, false}

-- `SertosStatus`.
pub data Status : Type 0 where
  ok null_ptr invalid_param no_memory timeout resource_busy not_initialized isr_context
        stack_overflow :
      Status

abbrev pub is_ok : Status → Bool
is_ok ok = true
is_ok _ = false

-- `SertosTaskState`.
pub data TaskState : Type 0 where
  ready running blocked suspended terminated : TaskState

abbrev pub is_ready : TaskState → Bool
is_ready ready = true
is_ready _ = false

abbrev pub is_running_state : TaskState → Bool
is_running_state running = true
is_running_state _ = false

-- SERTOS_NO_WAIT and SERTOS_WAIT_FOREVER.
abbrev pub no_wait : ℕ
no_wait = 0

abbrev pub wait_forever : ℕ
wait_forever = 0xFFFFFFFF

-- The defaults of sertos_config.h.
abbrev pub max_priorities : ℕ
max_priorities = 32

abbrev pub tick_rate_default : ℕ
tick_rate_default = 1000

abbrev pub stack_alignment_bytes : ℕ
stack_alignment_bytes = 8

abbrev pub minimal_stack_size : ℕ
minimal_stack_size = 256

abbrev pub idle_task_stack_size : ℕ
idle_task_stack_size = 512

abbrev pub time_slicing_default : ℕ
time_slicing_default = 1

-- SERTOS_TASK_MAGIC_WORD and SERTOS_TASK_STACK_FILL_BYTE.
abbrev pub task_magic_word : ℕ
task_magic_word = 0x54434221

abbrev pub stack_fill_byte : ℕ
stack_fill_byte = 0xA5

-- Unsigned arithmetic of 32 and 64 bits wraps; `size_t` has 64 bits on the host.
abbrev pub u32 : ℕ → ℕ
u32 n = n % 2 ^ 32

abbrev pub u64 : ℕ → ℕ
u64 n = n % 2 ^ 64
