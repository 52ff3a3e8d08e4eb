-- ===== src/System/Calls.antt =====
-- The calls that a task makes, as runs of the system: each is some of its steps, one after another.
use sertos.Base.{ℕ, Bool, Option, List}
use sertos.Modules.{Modules}
use sertos.System.Safe.{Safe}
use sertos.Kernel.{Kernel}
use sertos.Port.{Port}
use sertos.Scheduler.Switch.{lock, unlock}
use sertos.Scheduler.Delay.{yield, delay, delay_until}
use sertos.Sem.{take, give, give_from_isr}
use sertos.Queue.Transfer.{send_from_isr, receive_from_isr}
use sertos.System.{Runs}

-- The calls of tasks that neither suspend, delete or reprioritise a task nor lock a mutex, and that
-- block once at most.
pub data Call : Type 0 where
  yield_processor lock_scheduler unlock_scheduler : Call
  delay_by : ℕ → Call
  delay_to : Option ℕ → ℕ → Call
  take_token : Option ℕ → ℕ → Call
  give_token give_token_isr : Option ℕ → Call
  send_isr : Option ℕ → Option (List ℕ) → Call
  receive_isr : Option ℕ → Bool → Call

module _ ⦃m : Modules⦄ ⦃e : Port⦄ where
  -- The state after a call.
  abbrev pub perform : Call → Kernel → Kernel
  perform yield_processor k = yield k
  perform lock_scheduler k = lock k
  perform unlock_scheduler k = unlock k
  perform (delay_by ticks) k = (delay k ticks).0
  perform (delay_to last period) k = (delay_until k last period).0
  perform (take_token h ticks) k = (take k h ticks).0
  perform (give_token h) k = (give k h).0
  perform (give_token_isr h) k = (give_from_isr k h).0
  perform (send_isr h item) k = (send_from_isr k h item).0
  perform (receive_isr h item) k = (receive_from_isr k h item).0
