-- ===== src/Examples/States.antt =====
-- Concrete states of the kernel, a port and callbacks, on which the theorems are applied.
use sertos.Base.{ℕ, ◌%◌, refl, true, false, none, some, [], arith}
use sertos.Types.{ok, suspended, task_magic_word}
use sertos.Modules.{RingBuffer}
use sertos.Modules.Plain.{plain}
use sertos.Kernel.{Kernel, Tcb}
use sertos.Port.{Port}
use sertos.Sem.{sem_magic_word}
use sertos.Mutex.{mutex_magic_word}
use sertos.Timer.Control.{timer_magic_word}
use sertos.Scheduler.Invariant.{Inv}

-- A port whose calls come back at once, and callbacks that do nothing.
instance abbrev pub host : Port
host = record {
  port_yield = λ k. k;
  port_stack_init = λ memory top limit entry param. (memory, top);
  port_tick_init = λ rate. ok;
  port_runtime_counter_init = λ k. k;
  port_start_first_task = λ k. k;
  port_stop_scheduler = λ k. k;
  port_task_create_hook = λ k t. k;
  port_task_delete_hook = λ k t. k;
  call_hook = λ f k. k;
  call_timer = λ f t param k. k;
}

-- Task `t` has priority `t`, below 32.
abbrev pub task : ℕ → Tcb
task t = record {
  stack_ptr = 4096;
  stack_base = 4096;
  stack_size = 4;
  stack_limit = 4096;
  state = suspended;
  priority = t % 32;
  base_priority = t % 32;
  delay_ticks = 0;
  entry_func = 1;
  param = 0;
  name = "Task";
  state_linked = false;
  event_linked = false;
  wait_list = none;
  is_statically_allocated = true;
  magic = task_magic_word;
  port_context = none;
  run_time_total = 0;
  run_time_last_entry = 0;
  switch_in_count = 0;
  registry_linked = false;
}

abbrev ring : RingBuffer
ring = record { buffer = []; mask = 7; head = 0; tail = 0 }

-- No task is in a list, the semaphores have one token of two, task 5 holds the mutexes, and the
-- timers have a period of three ticks.
abbrev pub empty : Kernel
empty = record {
  ready_bitmap = λ p. false;
  ready_queues = λ p. [];
  delay_list = [];
  suspended_list = [];
  task_registry = [];
  current_tcb = some 5;
  is_running = true;
  lock_nesting = 0;
  reschedule_pending = false;
  system_ticks = 0;
  tick_rate_hz = 1000;
  time_slicing_enabled = true;
  tick_hook = none;
  idle_hook = none;
  idle_tcb = 0;
  stats_enabled = true;
  total_switches = 0;
  active_timers = [];
  timer_subsystem_initialized = true;
  tcbs = task;
  semaphores = λ h. record {
    count = 1;
    max_count = 2;
    is_statically_allocated = true;
    magic = sem_magic_word;
  };
  mutexes = λ h. record {
    owner = some 5;
    lock_count = 1;
    original_owner_priority = 5;
    is_statically_allocated = true;
    magic = mutex_magic_word;
  };
  queues = λ h. record {
    ring_buf = ring;
    item_size = 1;
    max_items = 4;
    storage_buffer = 0;
    is_statically_allocated = true;
    magic = 0;
  };
  stream_buffers = λ h. record {
    ring_buf = ring;
    trigger_level_bytes = 1;
    storage_buffer = 0;
    is_statically_allocated = true;
    magic = 0;
  };
  timers = λ h. record {
    name = "Timer";
    period_ticks = 3;
    remaining_ticks = 3;
    is_periodic = false;
    is_active = false;
    callback = some 1;
    param = 0;
    node_linked = false;
    is_statically_allocated = true;
    magic = timer_magic_word;
  };
  wait_lists = λ w. [];
  pool = [];
  memory = λ a. 165;
  runtime_counter = 10;
}

pub empty-Inv : Inv empty
empty-Inv = record {
  at_ready = record {
    queued_priority = λ p t h. ground arith;
    queued_state = λ p t h. ground arith;
    queued_linked = λ p t h. ground arith;
    queued_distinct = λ p. refl;
    marked = λ p l. refl;
  };
  at_delay = record {
    delayed_state = λ t h. ground arith;
    delayed_ticks = λ t h. ground arith;
    delayed_priority = λ t h. ground arith;
    delayed_distinct = refl;
    counting_delayed = λ t h. ground arith;
  };
  at_wait = record {
    waiting_state = λ w t h. ground arith;
    waiting_list = λ w t h. ground arith;
    waiting_linked = λ w t h. ground arith;
    waiting_priority = λ w t h. ground arith;
    waiting_distinct = λ w. refl;
    linked_waiting = λ w t h. ground arith;
    waiting_order = λ w. refl;
  };
}
