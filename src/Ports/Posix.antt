-- ===== src/Ports/Posix.antt =====
-- port/posix/port_posix.c: the simulator, which runs each task on a thread of the host. A thread
-- waits until the context of its task is signaled. Each function here is what one holder of
-- `s_yield_mutex` does; waiting on a condition and the creation of a thread are the host's.
use sertos.Base.{
  ℕ, zero, suc, ◌+◌, Bool, true, false, not, ◌&&◌, Option, none, some, is_handle, is_none, ltb,
  if◌then◌else◌, update,
}
use sertos.Types.{Status, ok, invalid_param, running}
use sertos.Kernel.{Kernel, set_tcb}

abbrev pub max_tasks : ℕ
max_tasks = 32

-- `PortPosixContext`, less the thread and the condition.
pub record Context : Type 0 where
  pub signaled : Bool
  pub tcb : Option ℕ
  pub in_use : Bool

-- The variables of the file. The contexts are the places of `s_task_contexts`.
pub record Host : Type 0 where
  pub task_contexts : ℕ → Context
  pub running_ctx : Option ℕ
  pub scheduler_running : Bool
  pub tick_thread_created : Bool
  pub exit_signaled : Bool

abbrev pub set_signaled : Host → ℕ → Bool → Host
set_signaled h i b = record h {
  task_contexts = update h.task_contexts i (record (h.task_contexts i) { signaled = b });
}

abbrev pub signal : Host → Option ℕ → Host
signal h none = h
signal h (some i) = set_signaled h i true

abbrev pub unsignal : Host → Option ℕ → Host
unsignal h none = h
unsignal h (some i) = set_signaled h i false

abbrev pub same_context : Option ℕ → Option ℕ → Bool
same_context none c = is_none c
same_context (some i) c = is_handle c i

-- The context of the current task.
abbrev pub context_of : Kernel → ℕ → Option ℕ
context_of k t = (k.tcbs t).port_context

-- `sertos_port_yield` on the thread of the tick: the context that ran is no longer signaled, but its
-- thread is not stopped.
unfoldable pub yield_from_tick : Host → Option ℕ → Host
yield_from_tick h next =
    if not (is_none next) && not (same_context next h.running_ctx)
    then signal (unsignal (record h { running_ctx = next }) h.running_ctx) next
    else h

-- On the thread of a task with the context `my`, if it has one; and whether it then waits to be
-- signaled.
unfoldable pub yield_from_task : Host → Option ℕ → Option ℕ → Host × Bool
yield_from_task h my next =
    if not (is_none my) && same_context next my
    then (h, false)
    else (unsignal (signal (record h { running_ctx = next }) next) my, not (is_none my))

-- Who yields: the thread of the tick, if there is one, or another, with its context.
pub data Caller : Type 0 where
  tick_thread : Caller
  task_thread : Option ℕ → Caller

unfoldable pub yield_as : Host → Caller → Option ℕ → Host × Bool
unfolding yield_from_tick yield_from_task
yield_as h tick_thread next = (yield_from_tick h next, false)
yield_as h (task_thread my) next = yield_from_task h my next

unfoldable pub yield : Host → Kernel → Caller → Host × Bool
unfolding yield_as
yield h k caller =
    if not h.scheduler_running
    then (h, false)
    else elim k.current_tcb [ none ↦ (h, false) | some t ↦ yield_as h caller (context_of k t) ]

-- The first context that is free, of `left` from the place `i` on.
unfoldable pub free_context : ℕ → ℕ → (ℕ → Context) → Option ℕ
free_context zero i contexts = none
free_context (suc left) i contexts =
    let rest = free_context left (i + 1) contexts in
    if not (contexts i).in_use then some i else rest

-- `sertos_port_task_create_hook`: `created` is whether the host makes the thread. Nothing happens
-- when no context is free.
unfoldable pub bind_context : Bool → Host → Kernel → ℕ → Option ℕ → Host × Kernel
bind_context created h k t none = (h, k)
bind_context created h k t (some i) =
    let bound = record h {
      task_contexts =
          update h.task_contexts i (record { signaled = false; tcb = some t; in_use = created });
    } in
    (bound, set_tcb k t (record (k.tcbs t) { port_context = if created then some i else none }))

unfoldable pub task_create_hook : Bool → Host → Kernel → Option ℕ → Host × Kernel
unfolding free_context bind_context
task_create_hook created h k none = (h, k)
task_create_hook created h k (some t) =
    bind_context created h k t (free_context max_tasks 0 h.task_contexts)

-- `sertos_port_task_delete_hook`, which ends the thread.
unfoldable pub release_context : Host → Kernel → ℕ → Option ℕ → Host × Kernel
release_context h k t none = (h, k)
release_context h k t (some i) =
    let released = record h {
      task_contexts =
          update h.task_contexts i (record (h.task_contexts i) { in_use = false; tcb = none });
    } in
    (released, set_tcb k t (record (k.tcbs t) { port_context = none }))

unfoldable pub task_delete_hook : Host → Kernel → Option ℕ → Host × Kernel
unfolding release_context
task_delete_hook h k none = (h, k)
task_delete_hook h k (some t) = release_context h k t (context_of k t)

-- `sertos_port_start_first_task` up to its wait for the end, and behind it; `created` is whether the
-- host makes the thread of the tick.
unfoldable pub signal_first : Host → Kernel → Option ℕ → Host × Kernel
signal_first h k none = (h, k)
signal_first h k (some t) =
    let next = context_of k t in
    (
      signal (record h { running_ctx = next }) next,
      set_tcb k t (record (k.tcbs t) { state = running }),
    )

unfoldable pub start_first_task : Bool → Host → Kernel → Host × Kernel
unfolding signal_first
start_first_task created h k =
    signal_first
      (record h {
        exit_signaled = false;
        scheduler_running = true;
        tick_thread_created = if created then true else h.tick_thread_created;
      })
      k k.current_tcb

unfoldable pub finish_first_task : Host → Host
finish_first_task h = record h { scheduler_running = false; tick_thread_created = false }

-- `sertos_port_stop_scheduler` signals every context in use.
unfoldable pub stop_scheduler : Host → Host
stop_scheduler h = record h {
  scheduler_running = false;
  task_contexts = λ i.
      let c = h.task_contexts i in
      if ltb i max_tasks && c.in_use then record c { signaled = true } else c;
  exit_signaled = true;
}

unfoldable pub tick_init : ℕ → Status
tick_init tick_rate_hz = if ltb 0 tick_rate_hz then ok else invalid_param
