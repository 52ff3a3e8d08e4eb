-- ===== src/Task/Suspension.antt =====
-- `sertos_task_suspend` of src/sertos_task.c.
use sertos.Base.{ℕ, ◌≡◌, true, some, mem, arith}
use sertos.Types.{ready, running, suspended}
use sertos.Modules.{Modules, ListLaws, BitmapLaws}
use sertos.Kernel.{Kernel}
use sertos.Scheduler.Ready.{remove_ready}
use sertos.Scheduler.Ready.Membership.{IsQueued, IsDetached, remove_ready-Inv, set_tcb-Inv}
use sertos.Scheduler.Invariant.{Inv}
use sertos.Task.Lifecycle.{park, withdraw}

module _ ⦃m : Modules⦄ (lists : ListLaws m) (bits : BitmapLaws m) (k : Kernel) (t : ℕ)
    (inv : Inv k) where
  -- A ready task that is suspended leaves its ready queue and is in no list, and the scheduler stays
  -- well formed.
  pub park-Inv :
      (k.tcbs t).state ≡ ready
      → IsQueued k t
      → let k' = park k t in Inv k' × IsDetached k' t × ((k'.tcbs t).state ≡ suspended)
  unfolding park withdraw
  park-Inv s q =
      let k1 = (remove_ready k (some t)).0 in
      let (_, inv1, d1) = remove_ready-Inv lists bits k t inv q in
      let b = record (k1.tcbs t) { state = suspended } in
      let (inv2, d2) = set_tcb-Inv k1 t b inv1 d1 d1.no_delay d1.no_wait_list in
      rw s (inv2, d2, ground arith)

  -- The running task that suspends itself is suspended but still in its ready queue, and so the
  -- scheduler is ill formed.
  pub park-running :
      (k.tcbs t).state ≡ running
      → IsQueued k t
      → let k' = park k t in
        ((k'.tcbs t).state ≡ suspended)
        × (mem t (k'.ready_queues (k.tcbs t).priority) ≡ true)
        × ¬ Inv k'
  unfolding park withdraw
  park-running s q = rw s (
    ground arith,
    q.1,
    λ broken. ground (arith, broken.at_ready.queued_state (k.tcbs t).priority t q.1),
  )
