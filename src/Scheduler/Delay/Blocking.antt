-- ===== src/Scheduler/Delay/Blocking.antt =====
-- A task that calls `sertos_scheduler_delay` goes from its ready queue to the delay list.
use sertos.Base.{true, false, ◌∷◌, [], ◌++◌, ℕ, ◌<◌, ◌≡◌, refl, mem, arith, update}
use sertos.Types.{blocked}
use sertos.Modules.{Modules, ListLaws, BitmapLaws}
use sertos.Kernel.{Kernel}
use sertos.Scheduler.Ready.{dequeue_ready}
use sertos.Scheduler.Delay.{enter_delay}
use sertos.Scheduler.Invariant.{Inv}
use sertos.Scheduler.Invariant.Queues.{ReadyInv-other}
use sertos.Scheduler.Invariant.Delays.{DelayInv-insert}
use sertos.Scheduler.Invariant.Waits.{WaitInv-other}
use sertos.Scheduler.Ready.Membership.{
  IsQueued, not-mem-delay_list, not-mem-wait_lists, remove_ready-eq, dequeue_ready-Inv,
  dequeue_ready-IsDetached,
}

module _ ⦃m : Modules⦄ (lists : ListLaws m) (bits : BitmapLaws m) (k : Kernel) (t ticks : ℕ)
    (inv : Inv k) where
  pub enter_delay-eq :
      IsQueued k t
      → let k' = dequeue_ready k t in
        enter_delay k t ticks ≡ record k' {
          delay_list = m.linked_list_insert_tail_direct k'.delay_list t;
          tcbs =
              update k'.tcbs t
                (record (k'.tcbs t) { state = blocked; delay_ticks = ticks; state_linked = true });
        }
  unfolding enter_delay
  enter_delay-eq q =
      rw (remove_ready-eq k t q.0 (inv.at_ready.queued_linked (k.tcbs t).priority t q.1)) refl

  -- A queued task that is delayed leaves its ready queue and stands at the end of the delay list,
  -- blocked, with its ticks to wait; the scheduler stays well formed.
  pub enter_delay-Inv :
      IsQueued k t
      → 0 < ticks
      → let k' = enter_delay k t ticks in
        Inv k'
        × (k'.delay_list ≡ k.delay_list ++ t ∷ [])
        × ((k'.tcbs t).state ≡ blocked)
        × ((k'.tcbs t).delay_ticks ≡ ticks)
        × (mem t (k'.ready_queues (k.tcbs t).priority) ≡ false)
  unfolding dequeue_ready
  enter_delay-Inv q pos =
      let inv' = dequeue_ready-Inv lists bits k t inv q in
      let d = dequeue_ready-IsDetached lists bits k t inv q in
      let out = not-mem-delay_list (dequeue_ready k t) t inv' d.no_delay in
      rw (enter_delay-eq q) (
        record {
          at_ready = ReadyInv-other t inv'.at_ready (λ u n. ground arith) d.unqueued;
          at_delay =
              DelayInv-insert lists t inv'.at_delay (λ u n. ground arith) out (ground arith)
                (ground arith) (ground (arith, q.0));
          at_wait =
              WaitInv-other t inv'.at_wait (λ u n. ground arith)
                (not-mem-wait_lists (dequeue_ready k t) t inv' d.no_wait_list)
                (ground (arith, d.no_wait_list));
        },
        lists.insert_tail_lem k.delay_list t out,
        ground arith,
        ground arith,
        d.unqueued (k.tcbs t).priority,
      )
