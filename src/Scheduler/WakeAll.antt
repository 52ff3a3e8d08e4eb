-- ===== src/Scheduler/WakeAll.antt =====
-- The loop with which src/sertos_sem.c, src/sertos_mutex.c, src/sertos_queue.c and
-- src/sertos_stream_buffer.c wake every task of a wait list.
pub mod Emptied
use sertos.Base.{ℕ, zero, suc, Option, none, some, length}
use sertos.Modules.{Modules}
use sertos.Kernel.{Kernel, WaitList}
use sertos.Scheduler.Wait.{wait_list_unblock_highest}

module _ ⦃m : Modules⦄ where
  -- `do unblocked = …; while (unblocked != NULL);`, with fuel for the rounds: none when it runs out.
  unfoldable pub wake_rounds : ℕ → Kernel → WaitList → Option Kernel
  wake_rounds zero k w = none
  wake_rounds (suc fuel) k w =
      let (k', unblocked) = wait_list_unblock_highest k (some w) in
      elim unblocked [ none ↦ some k' | some t ↦ wake_rounds fuel k' w ]

  abbrev pub woken_or : Kernel → Option Kernel → Kernel
  woken_or k none = k
  woken_or k (some k') = k'

  -- A round for each waiting task, and one that finds none; if the rounds ran out, the state would
  -- stand for the loop that goes on.
  unfoldable pub wake_all : Kernel → WaitList → Kernel
  unfolding wake_rounds
  wake_all k w = woken_or k (wake_rounds (suc (length (k.wait_lists w))) k w)
