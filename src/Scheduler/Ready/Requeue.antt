-- ===== src/Scheduler/Ready/Requeue.antt =====
-- A ready task whose priority changes: it leaves the queue of the old priority and joins that of the
-- new one, as in src/sertos_task.c and src/sertos_mutex.c.
use sertos.Base.{ℕ, ◌<◌, ◌≡◌, ◌∙◌, some, arith}
use sertos.Types.{ready, max_priorities}
use sertos.Modules.{Modules, ListLaws, BitmapLaws}
use sertos.Kernel.{Kernel, Tcb, set_tcb}
use sertos.Scheduler.Ready.{add_ready, remove_ready, enqueue_ready}
use sertos.Scheduler.Invariant.{Inv}
use sertos.Scheduler.Ready.Membership.{
  IsQueued, set_tcb-Inv, remove_ready-Inv, add_ready-eq, enqueue_ready-Inv, enqueue_ready-IsQueued,
}

-- The control block with other priorities.
abbrev pub with_priority : Tcb → ℕ → ℕ → Tcb
with_priority x p b = record x { priority = p; base_priority = b }

enqueue_ready_priority :
    ⦃m : Modules⦄ (k : Kernel) (t : ℕ)
    → let b = (enqueue_ready k t).tcbs t in
      (b.priority ≡ (k.tcbs t).priority)
      × (b.base_priority ≡ (k.tcbs t).base_priority)
      × (b.state ≡ ready)
unfolding enqueue_ready
enqueue_ready_priority k t = (ground arith, ground arith, ground arith)

module _ ⦃m : Modules⦄ (lists : ListLaws m) (bits : BitmapLaws m) (k : Kernel) (t p b : ℕ)
    (inv : Inv k) where
  -- The scheduler stays well formed, and the task is queued at its new priority.
  pub requeue-Inv :
      IsQueued k t
      → p < max_priorities
      → let k1 = (remove_ready k (some t)).0 in
        let k' = (add_ready (set_tcb k1 t (with_priority (k1.tcbs t) p b)) (some t)).0 in
        Inv k'
        × IsQueued k' t
        × ((k'.tcbs t).priority ≡ p)
        × ((k'.tcbs t).base_priority ≡ b)
        × ((k'.tcbs t).state ≡ ready)
  requeue-Inv q low =
      let k1 = (remove_ready k (some t)).0 in
      let k2 = set_tcb k1 t (with_priority (k1.tcbs t) p b) in
      let (_, inv1, d1) = remove_ready-Inv lists bits k t inv q in
      let (inv2, d2) =
        set_tcb-Inv k1 t (with_priority (k1.tcbs t) p b) inv1 d1 d1.no_delay d1.no_wait_list in
      let new : (k2.tcbs t).priority ≡ p = ground arith in
      let base : (k2.tcbs t).base_priority ≡ b = ground arith in
      let low2 : (k2.tcbs t).priority < max_priorities = rw new low in
      let f = enqueue_ready_priority k2 t in
      rw (add_ready-eq k2 t low2) (
        enqueue_ready-Inv lists bits k2 t inv2 d2 low2,
        enqueue_ready-IsQueued lists bits k2 t inv2 d2 low2,
        f.0 ∙ new,
        f.1 ∙ base,
        f.2,
      )
