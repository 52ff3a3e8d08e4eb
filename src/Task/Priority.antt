-- ===== src/Task/Priority.antt =====
-- `sertos_task_set_priority` of src/sertos_task.c.
use sertos.Base.{refl, mem, true, ℕ, ◌<◌, ◌≡◌, ◌≢◌, sym, ◌∙◌, arith}
use sertos.Types.{ready, running, max_priorities}
use sertos.Modules.{Modules, ListLaws, BitmapLaws}
use sertos.Kernel.{Kernel}
use sertos.Scheduler.Ready.Membership.{IsQueued}
use sertos.Scheduler.Ready.Requeue.{requeue-Inv}
use sertos.Scheduler.Invariant.{Inv}
use sertos.Task.Lifecycle.{change_priority, withdraw}

module _ ⦃m : Modules⦄ (lists : ListLaws m) (bits : BitmapLaws m) (k : Kernel) (t p : ℕ)
    (inv : Inv k) where
  -- A ready task whose priority is changed to a valid one moves to the queue of that priority,
  -- still ready; the scheduler stays well formed.
  pub change_priority-Inv :
      (k.tcbs t).state ≡ ready
      → IsQueued k t
      → p < max_priorities
      → let k' = change_priority k t p in
        Inv k'
        × IsQueued k' t
        × ((k'.tcbs t).priority ≡ p)
        × ((k'.tcbs t).base_priority ≡ p)
        × ((k'.tcbs t).state ≡ ready)
  unfolding change_priority withdraw
  change_priority-Inv s q low = rw s (requeue-Inv lists bits k t p p inv q low)

  -- The change of the priority of the running task writes the new priority and leaves every ready
  -- queue and the bitmap alone: the task stays in the queue of its old priority, and the scheduler
  -- is ill formed, unless the priority is the same.
  pub change_priority-running :
      (k.tcbs t).state ≡ running
      → IsQueued k t
      → p ≢ (k.tcbs t).priority
      → let k' = change_priority k t p in
        ((k'.tcbs t).priority ≡ p)
        × (k'.ready_queues ≡ k.ready_queues)
        × (k'.ready_bitmap ≡ k.ready_bitmap)
        × (mem t (k'.ready_queues (k.tcbs t).priority) ≡ true)
        × ¬ Inv k'
  unfolding change_priority withdraw
  change_priority-running s q n =
      let new : ((change_priority k t p).tcbs t).priority ≡ p = rw s (ground arith) in
      (
        new,
        rw s refl,
        rw s refl,
        rw s (q.1),
        λ broken. n (sym new ∙ broken.at_ready.queued_priority (k.tcbs t).priority t (rw s (q.1))),
      )
