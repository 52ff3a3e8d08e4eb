-- ===== src/Lib.antt =====
-- SertOS, a preemptive real-time kernel in C (README.md): a model of the kernel proper, src/ and
-- inc/, and of its ports to processors, with the theorems that it rests on.
--
-- The program. A fixed-priority scheduler (src/sertos_scheduler.c) keeps a ready queue for each
-- priority with a bitmap of those that are not empty, a delay list and a tick counter. Tasks
-- (src/sertos_task.c) are control blocks with a life cycle. Semaphores, mutexes, message queues
-- and stream buffers (src/sertos_sem.c, src/sertos_mutex.c, src/sertos_queue.c,
-- src/sertos_stream_buffer.c) block and wake tasks through wait lists that the scheduler orders by
-- priority. Software timers (src/sertos_timer.c) run in the tick interrupt, and src/sertos_stats.c
-- accounts for the run time at each context switch. A port (port/) makes the first frame of a
-- task's stack, masks interrupts in critical sections, and drives the tick.
--
-- The model. Kernel.antt has the objects as records, with the C names of their fields, and one
-- record for the file-level variables of all the sources. An operation is a function from the
-- state to the state and what it returns; an argument that may be NULL is an Option, and an out
-- parameter is a component of the result. A handle is a number. A critical section is one step,
-- since interrupts are masked in it. A definition stands for the function of the same name without
-- its prefix (`add_ready` for `sertos_scheduler_add_ready`), and is built from helpers that stand
-- for parts.
--   Types.antt                 inc/sertos_types.h, inc/sertos_config.h: statuses, states, defaults
--   Modules.antt               the submodules linked_list, bitmap, ring_buffer, memory_pool and crc,
--                              which the repository does not hold: parameters, and their laws
--   Port.antt                  port/sertos_port.h and the callbacks of the application: parameters
--   Scheduler/Ready.antt       ready queues and the choice of a task
--   Scheduler/Switch.antt      context switch, start, stop, scheduler lock
--   Scheduler/Wait.antt        wait lists: block with a timeout, wake the highest
--   Scheduler/WakeAll.antt     the loop with which the IPC objects empty a wait list
--   Scheduler/Delay.antt       delays, the delay list, round robin, conversions of time
--   Scheduler/Tick.antt        the tick interrupt
--   Scheduler/Registry.antt    the registry of the tasks; Scheduler/Init.antt the set-up
--   Scheduler/Invariant.antt   what holds between the operations: lists and control blocks agree
--   Task/ Timer/ Stats/        tasks, software timers, statistics
--   Sem.antt Mutex.antt Queue.antt Stream.antt   the IPC objects; their theorems, and the transfers
--                              of queues and stream buffers, in the folders
--   System/                    the whole as a transition system: its steps are the critical sections
--   Ports/                     port/arm/cortex-*/port_cpu.c, a file each (M0, M0plus, M23, M3, M4, M7,
--                              M33, M55) over CortexM.antt, which has what these files share, and
--                              port/riscv/port_cpu.c in RiscV.antt, and of port/posix/port_posix.c
--                              the contexts of the tasks in Posix.antt; Words.antt has the frames in
--                              memory, Core.antt the choice of a core, the others the theorems
--   Examples/                  concrete states at which the theorems are applied
--
-- Intrusive lists are sequences of handles, head first. Of a node the code tests only whether its
-- pointers are null, which a flag of the control block says; whether the removal of a node clears
-- its pointers is left open (`remove_clears_node`). The laws of the lists demand what the code
-- relies on: a node is inserted when it is in no list, and removed from the list that holds it.
-- The host build is modelled, in which the kernel switches before it yields. `port_yield` gives
-- the state in which the calling task runs again, whatever ran between.
--
-- Bounds and fuel. Counters wrap at 32 or 64 bits as their C types do; size_t has 64 bits. The
-- walk over the timers has fuel, since a callback may restart timers without end; the number of
-- active timers is enough when callbacks leave the timers alone. The loop that rounds a capacity
-- up has fuel, of which 63 rounds are enough up to 2 ^ 63, and above that no fuel is. The loops of
-- the queues and stream buffers that wait again after a wake-up have fuel. The loop that wakes a
-- list has one round more than tasks wait.
--
-- The ports are modelled as they are built for their targets, with 32-bit addresses. A function of
-- a port works on a record of the core's registers and the variables of its file; a volatile
-- register is a word that holds what was stored last, and what the hardware does to the cycle
-- counter and to the time between two accesses is an argument. The loop that reads the 64-bit time
-- by halves has fuel: two rounds are enough when the time advances by less than 2 ^ 32 in six
-- accesses.
--
-- In the simulator on POSIX a function is what one holder of `s_yield_mutex` does; the threads and
-- conditions are the host's.
--
-- Not modelled: the assembler of the ports (port/arm/*/port_context.s, port/riscv/port_context.S);
-- of port/posix the frame, the recursive mutex of the critical sections, and the bodies of the
-- threads; port/windows; and the build.
pub mod Base
pub mod Types
pub mod Modules
pub mod Kernel
pub mod Port
pub mod Ports
pub mod Scheduler
pub mod Stats
pub mod Timer
pub mod Task
pub mod Sem
pub mod Mutex
pub mod Queue
pub mod Stream
pub mod System
pub mod Examples
