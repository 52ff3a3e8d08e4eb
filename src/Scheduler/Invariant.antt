-- ===== src/Scheduler/Invariant.antt =====
-- What holds between two operations of src/sertos_scheduler.c: each list holds only tasks whose
-- control block says so, no task twice, and the bitmap marks the queues that are not empty.
pub mod Queues
pub mod Delays
pub mod Orders
pub mod Waits
pub mod Detach
pub mod Same
use sertos.Base.{
  ◌≢◌, ℕ, ◌≤◌, ◌<◌, ◌≡◌, Bool, true, false, not, ◌||◌, Option, none, some, List, [], ◌∷◌, mem,
  distinct, null, leb, ◌&&◌,
}
use sertos.Types.{TaskState, ready, running, blocked, max_priorities}
use sertos.Kernel.{Kernel, Tcb, WaitList}
use sertos.Scheduler.Wait.Order.{by_priority}

-- A ready or a running task: the running one stays in its ready queue.
abbrev pub is_runnable : TaskState → Bool
is_runnable ready = true
is_runnable running = true
is_runnable _ = false

-- Two stores of control blocks agree outside one handle.
abbrev pub SameBut : ℕ → (ℕ → Tcb) → (ℕ → Tcb) → Type 0
SameBut t b c = (u : ℕ) → t ≢ u → c u ≡ b u

-- The ready queues and their bitmap, over the control blocks.
pub record ReadyInv (q : ℕ → List ℕ) (bitmap : ℕ → Bool) (b : ℕ → Tcb) : Type 0 where
  pub queued_priority : (p t : ℕ) → mem t (q p) ≡ true → (b t).priority ≡ p
  pub queued_state : (p t : ℕ) → mem t (q p) ≡ true → is_runnable (b t).state ≡ true
  pub queued_linked : (p t : ℕ) → mem t (q p) ≡ true → (b t).state_linked ≡ true
  pub queued_distinct : (p : ℕ) → distinct (q p) ≡ true
  pub marked : (p : ℕ) → p < max_priorities → bitmap p ≡ not (null (q p))

-- The delay list.
pub record DelayInv (l : List ℕ) (b : ℕ → Tcb) : Type 0 where
  pub delayed_state : (t : ℕ) → mem t l ≡ true → (b t).state ≡ blocked
  pub delayed_ticks : (t : ℕ) → mem t l ≡ true → 0 < (b t).delay_ticks
  pub delayed_priority : (t : ℕ) → mem t l ≡ true → (b t).priority < max_priorities
  pub delayed_distinct : distinct l ≡ true
  pub counting_delayed : (t : ℕ) → 0 < (b t).delay_ticks → mem t l ≡ true

-- The wait lists of the IPC objects.
pub record WaitInv (l : WaitList → List ℕ) (b : ℕ → Tcb) : Type 0 where
  pub waiting_state : (w : WaitList) (t : ℕ) → mem t (l w) ≡ true → (b t).state ≡ blocked
  pub waiting_list : (w : WaitList) (t : ℕ) → mem t (l w) ≡ true → (b t).wait_list ≡ some w
  pub waiting_linked : (w : WaitList) (t : ℕ) → mem t (l w) ≡ true → (b t).event_linked ≡ true
  pub waiting_priority :
      (w : WaitList) (t : ℕ) → mem t (l w) ≡ true → (b t).priority < max_priorities
  pub waiting_distinct : (w : WaitList) → distinct (l w) ≡ true
  pub linked_waiting : (w : WaitList) (t : ℕ) → (b t).wait_list ≡ some w → mem t (l w) ≡ true
  pub waiting_order : (w : WaitList) → by_priority b (l w) ≡ true

pub record Inv (k : Kernel) : Type 0 where
  pub at_ready : ReadyInv k.ready_queues k.ready_bitmap k.tcbs
  pub at_delay : DelayInv k.delay_list k.tcbs
  pub at_wait : WaitInv k.wait_lists k.tcbs
