-- ===== src/Scheduler/Wait/Timeouts.antt =====
-- The status that `sertos_scheduler_wait_list_block` of src/sertos_scheduler.c returns.
use sertos.Base.{ℕ, ◌≡◌, some, head?, ◌==◌, if◌then◌else◌, arith, mem-head?}
use sertos.Types.{ok, timeout, wait_forever}
use sertos.Modules.{Modules, ListLaws, BitmapLaws}
use sertos.Kernel.{Kernel, WaitList}
use sertos.Scheduler.Wait.{wait_list_unblock_highest, wait_status}
use sertos.Scheduler.Wait.Waking.{wait_list_unblock_highest-Inv}
use sertos.Scheduler.Invariant.{Inv}

module _ ⦃m : Modules⦄ (lists : ListLaws m) (bits : BitmapLaws m) (k : Kernel) (w : WaitList)
    (t ticks : ℕ) (inv : Inv k) where
  -- The status computed for a task that was just woken from a wait list is a timeout, if its wait
  -- was limited, although no time has passed, and ok if it was unlimited.
  pub wait_status-woken :
      head? (k.wait_lists w) ≡ some t
      → wait_status ((wait_list_unblock_highest k (some w)).0.tcbs t) ticks
        ≡ (if ticks == wait_forever then ok else timeout)
  unfolding wait_status
  wait_status-woken e =
      let (_, _, _, _, _, n, z, _) =
        wait_list_unblock_highest-Inv lists bits k w t t inv e (mem-head? t (k.wait_lists w) e) in
      rw (wait_status, n, z) (ground arith)
