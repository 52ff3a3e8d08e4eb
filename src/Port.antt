-- ===== src/Port.antt =====
-- What the kernel calls outside src/src: the port layer (port/sertos_port.h) and the callbacks of
-- the application. Each is a parameter.
use sertos.Base.{ℕ}
use sertos.Types.{Status}
use sertos.Kernel.{Kernel}

pub record Port : Type 0 where
  -- The kernel's state when the context that called `sertos_port_yield` runs again: other tasks
  -- and the tick interrupt may have run meanwhile.
  pub port_yield : Kernel → Kernel
  -- From the memory, the top, the limit, the entry point and its argument: the memory with the
  -- initial frame, and the stack pointer.
  pub port_stack_init : (ℕ → ℕ) → ℕ → ℕ → ℕ → ℕ → (ℕ → ℕ) × ℕ
  pub port_tick_init : ℕ → Status
  pub port_runtime_counter_init : Kernel → Kernel
  pub port_start_first_task : Kernel → Kernel
  pub port_stop_scheduler : Kernel → Kernel
  pub port_task_create_hook : Kernel → ℕ → Kernel
  pub port_task_delete_hook : Kernel → ℕ → Kernel
  -- A call of the function at an address; a timer's callback has the handle and the argument.
  pub call_hook : ℕ → Kernel → Kernel
  pub call_timer : ℕ → ℕ → ℕ → Kernel → Kernel
