-- ===== src/Scheduler/Wait/Blocking.antt =====
-- A task that blocks on an IPC object goes from its ready queue to the object's wait list.
use sertos.Base.{
  ℕ, ◌<◌, ◌≡◌, refl, ◌∙◌, false, some, mem, ◌==◌, arith, update, Bool-cases, inl, inr,
  if◌then◌else◌,
}
use sertos.Types.{blocked, max_priorities, wait_forever}
use sertos.Modules.{Modules, ListLaws, BitmapLaws}
use sertos.Kernel.{Kernel, WaitList}
use sertos.Scheduler.Ready.{dequeue_ready}
use sertos.Scheduler.Wait.{enter_wait, mark_blocked, arm_timeout, insert_wait_list_priority}
use sertos.Scheduler.Invariant.{Inv}
use sertos.Scheduler.Invariant.Queues.{ReadyInv-other}
use sertos.Scheduler.Invariant.Delays.{DelayInv-insert, DelayInv-other}
use sertos.Scheduler.Invariant.Waits.{WaitInv-insert, WaitInv-keep}
use sertos.Scheduler.Ready.Membership.{
  IsQueued, IsDetached, not-mem-delay_list, not-mem-wait_lists, remove_ready-eq, dequeue_ready-Inv,
  dequeue_ready-IsDetached,
}

module _ ⦃m : Modules⦄ (lists : ListLaws m) (k : Kernel) (w : WaitList) (t : ℕ) (inv : Inv k) where
  mark_blocked-Inv :
      IsDetached k t → (k.tcbs t).priority < max_priorities → Inv (mark_blocked k w t)
  unfolding mark_blocked insert_wait_list_priority
  mark_blocked-Inv d low = record {
    at_ready = ReadyInv-other t inv.at_ready (λ u n. ground arith) d.unqueued;
    at_delay =
        DelayInv-other t inv.at_delay (λ u n. ground arith) (not-mem-delay_list k t inv d.no_delay)
          (ground (arith, d.no_delay));
    at_wait =
        WaitInv-insert lists w t inv.at_wait (λ u n. ground arith)
          (update k.tcbs t (record (k.tcbs t) { state = blocked; wait_list = some w }))
          (λ u n. ground arith) (ground arith) (not-mem-wait_lists k t inv d.no_wait_list)
          (ground arith) (ground arith) (ground arith) (ground arith);
  }

  arm_timeout-Inv :
      (ticks : ℕ)
      → 0 < ticks
      → ((p : ℕ) → mem t (k.ready_queues p) ≡ false)
      → (k.tcbs t).state ≡ blocked
      → (k.tcbs t).delay_ticks ≡ 0
      → (k.tcbs t).priority < max_priorities
      → Inv (arm_timeout k t ticks)
  unfolding arm_timeout
  arm_timeout-Inv ticks pos out s z low = elim (Bool-cases (ticks == wait_forever)) [
    | inl e ↦ rw e (record {
      at_ready = ReadyInv-other t inv.at_ready (λ u n. ground arith) out;
      at_delay =
          DelayInv-other t inv.at_delay (λ u n. ground arith) (not-mem-delay_list k t inv z)
            (ground arith);
      at_wait =
          WaitInv-keep t inv.at_wait (λ u n. ground arith) (ground arith) (ground arith)
            (ground arith) (λ b. ground arith);
    })
    | inr e ↦ rw e (record {
      at_ready = ReadyInv-other t inv.at_ready (λ u n. ground arith) out;
      at_delay =
          DelayInv-insert lists t inv.at_delay (λ u n. ground arith) (not-mem-delay_list k t inv z)
            (ground arith) (ground arith) (ground arith);
      at_wait =
          WaitInv-keep t inv.at_wait (λ u n. ground arith) (ground arith) (ground arith)
            (ground arith) (λ b. ground arith);
    })
  ]

module _ ⦃m : Modules⦄ (k : Kernel) (w : WaitList) (t : ℕ) where
  dequeue_ready_fields :
      let b = (dequeue_ready k t).tcbs t in
      (b.priority ≡ (k.tcbs t).priority) × (b.state ≡ (k.tcbs t).state)
  unfolding dequeue_ready
  dequeue_ready_fields = ground arith

  mark_blocked_fields :
      let k' = mark_blocked k w t in
      ((k'.tcbs t).state ≡ blocked)
      × ((k'.tcbs t).wait_list ≡ some w)
      × ((k'.tcbs t).delay_ticks ≡ (k.tcbs t).delay_ticks)
      × ((k'.tcbs t).priority ≡ (k.tcbs t).priority)
      × (k'.ready_queues ≡ k.ready_queues)
  unfolding mark_blocked insert_wait_list_priority
  mark_blocked_fields = (ground arith, ground arith, ground arith, ground arith, refl)

  arm_timeout_fields :
      (ticks : ℕ)
      → let k' = arm_timeout k t ticks in
        ((k'.tcbs t).state ≡ (k.tcbs t).state)
        × ((k'.tcbs t).wait_list ≡ (k.tcbs t).wait_list)
        × ((k'.tcbs t).delay_ticks ≡ (if ticks == wait_forever then 0 else ticks))
        × (k'.ready_queues ≡ k.ready_queues)
  unfolding arm_timeout
  arm_timeout_fields ticks = elim (Bool-cases (ticks == wait_forever)) [
    | inl e ↦ rw e (ground arith, ground arith, ground arith, refl)
    | inr e ↦ rw e (ground arith, ground arith, ground arith, refl)
  ]

module _ ⦃m : Modules⦄ (lists : ListLaws m) (bits : BitmapLaws m) (k : Kernel) (w : WaitList)
    (t ticks : ℕ) (inv : Inv k) where
  pub enter_wait-eq :
      IsQueued k t
      → enter_wait k w t ticks ≡ arm_timeout (mark_blocked (dequeue_ready k t) w t) t ticks
  unfolding enter_wait
  enter_wait-eq q =
      rw (remove_ready-eq k t q.0 (inv.at_ready.queued_linked (k.tcbs t).priority t q.1)) refl

  -- A queued task that blocks leaves its ready queue and takes its place, by priority, in the wait
  -- list, blocked and with the timeout to count down, which is 0 for an unlimited wait; the
  -- scheduler stays well formed.
  pub enter_wait-Inv :
      IsQueued k t
      → 0 < ticks
      → let k' = enter_wait k w t ticks in
        Inv k'
        × ((k'.tcbs t).state ≡ blocked)
        × ((k'.tcbs t).wait_list ≡ some w)
        × ((k'.tcbs t).delay_ticks ≡ (if ticks == wait_forever then 0 else ticks))
        × (mem t (k'.ready_queues (k.tcbs t).priority) ≡ false)
  enter_wait-Inv q pos =
      let inv' = dequeue_ready-Inv lists bits k t inv q in
      let d = dequeue_ready-IsDetached lists bits k t inv q in
      let kd = dequeue_ready k t in
      let km = mark_blocked kd w t in
      let fd = dequeue_ready_fields k w t in
      let fm = mark_blocked_fields kd w t in
      let fa = arm_timeout_fields km w t ticks in
      let low : (kd.tcbs t).priority < max_priorities = rw fd.0 q.0 in
      rw (enter_wait-eq q) (
        arm_timeout-Inv lists km w t (mark_blocked-Inv lists kd w t inv' d low) ticks pos
            (λ p. rw fm.4 (d.unqueued p)) fm.0 (fm.2 ∙ d.no_delay) (rw fm.3 low),
        fa.0 ∙ fm.0,
        fa.1 ∙ fm.1,
        fa.2,
        rw (fa.3, fm.4) (d.unqueued (k.tcbs t).priority),
      )
