-- ===== src/Kernel.antt =====
-- The objects of the kernel (the structs of inc/) and its state: the file-level variables of
-- src/sertos_scheduler.c, src/sertos_stats.c and src/sertos_timer.c, and the stores of the objects.
-- A handle is a number, and a pointer that may be NULL an `Option`. Interrupts stay masked through
-- a critical section, so its code is one step of the model.
use sertos.Base.{ℕ, ◌≡◌, Bool, true, ◌&&◌, Option, List, String, ◌==◌, if◌then◌else◌, arith, update}
use sertos.Types.{TaskState}
use sertos.Modules.{RingBuffer}

-- The address of a wait list that is embedded in an object, by the object's handle.
pub data WaitList : Type 0 where
  sem_wait mutex_wait queue_wait_send queue_wait_recv stream_wait_send stream_wait_recv :
      ℕ → WaitList

abbrev field_of : WaitList → ℕ
field_of (sem_wait n) = 0
field_of (mutex_wait n) = 1
field_of (queue_wait_send n) = 2
field_of (queue_wait_recv n) = 3
field_of (stream_wait_send n) = 4
field_of (stream_wait_recv n) = 5

abbrev owner_of : WaitList → ℕ
owner_of (sem_wait n) = n
owner_of (mutex_wait n) = n
owner_of (queue_wait_send n) = n
owner_of (queue_wait_recv n) = n
owner_of (stream_wait_send n) = n
owner_of (stream_wait_recv n) = n

-- Two addresses are one.
unfoldable pub same_list : WaitList → WaitList → Bool
same_list a b = field_of a == field_of b && owner_of a == owner_of b

pub same_list→eq : (a b : WaitList) → same_list a b ≡ true → a ≡ b
unfolding same_list
same_list→eq (sem_wait n) b h = ground arith
same_list→eq _ b h = ground arith

pub same_list_self : (a : WaitList) → same_list a a ≡ true
unfolding same_list
same_list_self a = ground arith

abbrev pub update_list : (WaitList → List ℕ) → WaitList → List ℕ → WaitList → List ℕ
update_list f w v u = if same_list w u then v else f u

-- `SertosTaskControlBlock`. Of an intrusive node the kernel tests only whether its pointers are
-- null: `state_linked`, `event_linked` and `registry_linked` say that they are not.
pub record Tcb : Type 0 where
  pub stack_ptr : ℕ
  pub stack_base : ℕ
  pub stack_size : ℕ
  pub stack_limit : ℕ
  pub state : TaskState
  pub priority : ℕ
  pub base_priority : ℕ
  pub delay_ticks : ℕ
  pub entry_func : ℕ
  pub param : ℕ
  pub name : String
  pub state_linked : Bool
  pub event_linked : Bool
  pub wait_list : Option WaitList
  pub is_statically_allocated : Bool
  pub magic : ℕ
  pub port_context : Option ℕ
  pub run_time_total : ℕ
  pub run_time_last_entry : ℕ
  pub switch_in_count : ℕ
  pub registry_linked : Bool

-- `SertosSemaphore`; its list is `wait_lists (sem_wait handle)`.
pub record Semaphore : Type 0 where
  pub count : ℕ
  pub max_count : ℕ
  pub is_statically_allocated : Bool
  pub magic : ℕ

-- `SertosMutex`; its list is `wait_lists (mutex_wait handle)`.
pub record Mutex : Type 0 where
  pub owner : Option ℕ
  pub lock_count : ℕ
  pub original_owner_priority : ℕ
  pub is_statically_allocated : Bool
  pub magic : ℕ

-- `SertosQueue`; its lists are `queue_wait_send` and `queue_wait_recv`.
pub record Queue : Type 0 where
  pub ring_buf : RingBuffer
  pub item_size : ℕ
  pub max_items : ℕ
  pub storage_buffer : ℕ
  pub is_statically_allocated : Bool
  pub magic : ℕ

-- `SertosStreamBuffer`; its lists are `stream_wait_send` and `stream_wait_recv`.
pub record StreamBuffer : Type 0 where
  pub ring_buf : RingBuffer
  pub trigger_level_bytes : ℕ
  pub storage_buffer : ℕ
  pub is_statically_allocated : Bool
  pub magic : ℕ

-- `SertosTimer`. A callback is a function pointer, and so a number; `node_linked` says that the
-- pointers of `node` are not null.
pub record Timer : Type 0 where
  pub name : String
  pub period_ticks : ℕ
  pub remaining_ticks : ℕ
  pub is_periodic : Bool
  pub is_active : Bool
  pub callback : Option ℕ
  pub param : ℕ
  pub node_linked : Bool
  pub is_statically_allocated : Bool
  pub magic : ℕ

pub record Kernel : Type 0 where
  -- src/sertos_scheduler.c
  pub ready_bitmap : ℕ → Bool
  pub ready_queues : ℕ → List ℕ
  pub delay_list : List ℕ
  pub suspended_list : List ℕ
  pub task_registry : List ℕ
  pub current_tcb : Option ℕ
  pub is_running : Bool
  pub lock_nesting : ℕ
  pub reschedule_pending : Bool
  pub system_ticks : ℕ
  pub tick_rate_hz : ℕ
  pub time_slicing_enabled : Bool
  pub tick_hook : Option ℕ
  pub idle_hook : Option ℕ
  pub idle_tcb : ℕ
  -- src/sertos_stats.c
  pub stats_enabled : Bool
  pub total_switches : ℕ
  -- src/sertos_timer.c
  pub active_timers : List ℕ
  pub timer_subsystem_initialized : Bool
  -- The objects, by handle, and the wait lists embedded in them, by address.
  pub tcbs : ℕ → Tcb
  pub semaphores : ℕ → Semaphore
  pub mutexes : ℕ → Mutex
  pub queues : ℕ → Queue
  pub stream_buffers : ℕ → StreamBuffer
  pub timers : ℕ → Timer
  pub wait_lists : WaitList → List ℕ
  -- The blocks of the memory pool in use, the bytes of memory, and what the port's run-time
  -- counter reads at this moment.
  pub pool : List ℕ
  pub memory : ℕ → ℕ
  pub runtime_counter : ℕ

-- Write to one object.
abbrev pub set_tcb : Kernel → ℕ → Tcb → Kernel
set_tcb k t b = record k { tcbs = update k.tcbs t b }
