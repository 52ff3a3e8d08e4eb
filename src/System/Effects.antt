-- ===== src/System/Effects.antt =====
-- What the operations of src/sertos_scheduler.c on one task do to the others: nothing.
use sertos.Base.{ℕ, ◌==◌, arith, Bool-cases, inl, inr, mem-erase}
use sertos.Types.{wait_forever}
use sertos.Modules.{Modules, ListLaws, BitmapLaws}
use sertos.Kernel.{Kernel, Tcb, WaitList, set_tcb}
use sertos.Scheduler.Ready.{enqueue_ready, dequeue_ready}
use sertos.Scheduler.Wait.{mark_blocked, arm_timeout, insert_wait_list_priority}
use sertos.Scheduler.Ready.Membership.{IsQueued, IsDetached}
use sertos.Scheduler.Invariant.{Inv}
use sertos.Scheduler.Invariant.Detach.{Frame}
use sertos.Scheduler.Delay.Ticking.{enqueue_ready-Untouched}
use sertos.System.Safe.{Apart}

pub Frame-Apart : (t : ℕ) (k k' : Kernel) → Frame t k k' → Apart t k k'
Frame-Apart t k k' f = record { others = f.same_tcbs; still_queued = λ u p n h. rw f.same_queues h }

pub set_tcb-Apart : (t : ℕ) (k : Kernel) (b : Tcb) → Apart t k (set_tcb k t b)
set_tcb-Apart t k b = record { others = λ u n. ground arith; still_queued = λ u p n h. h }

module _ ⦃m : Modules⦄ (lists : ListLaws m) (bits : BitmapLaws m) (k : Kernel) (t : ℕ)
    (inv : Inv k) where
  pub enqueue_ready-Apart : IsDetached k t → Apart t k (enqueue_ready k t)
  enqueue_ready-Apart d = record {
    others = λ u n. (enqueue_ready-Untouched lists bits k t inv d u n).same_tcb;
    still_queued = λ u p n. (enqueue_ready-Untouched lists bits k t inv d u n).still_queued p;
  }

  pub dequeue_ready-Apart : IsQueued k t → Apart t k (dequeue_ready k t)
  unfolding dequeue_ready
  dequeue_ready-Apart q =
      let p : ℕ = (k.tcbs t).priority in
      record {
        others = λ u n. ground arith;
        still_queued = λ u r n h. elim (Bool-cases (p == r)) [
          | inl e ↦ ground (
            arith,
            lists.remove_lem (k.ready_queues p) t q.1 (inv.at_ready.queued_distinct p),
            mem-erase u t (k.ready_queues p) (inv.at_ready.queued_distinct p),
          )
          | inr e ↦ rw e h
        ];
      }

module _ ⦃m : Modules⦄ (k : Kernel) (w : WaitList) (t ticks : ℕ) where
  pub mark_blocked-Apart : Apart t k (mark_blocked k w t)
  unfolding mark_blocked insert_wait_list_priority
  mark_blocked-Apart = record { others = λ u n. ground arith; still_queued = λ u p n h. h }

  pub arm_timeout-Apart : Apart t k (arm_timeout k t ticks)
  unfolding arm_timeout
  arm_timeout-Apart = elim (Bool-cases (ticks == wait_forever)) [
    | inl e ↦ rw e (record { others = λ u n. ground arith; still_queued = λ u p n h. h })
    | inr e ↦ rw e (record { others = λ u n. ground arith; still_queued = λ u p n h. h })
  ]
