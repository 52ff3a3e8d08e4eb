-- ===== src/System/Blocking.antt =====
-- The running task blocks, on an object or for a time: no task is lost.
use sertos.Base.{ℕ, ◌<◌, ◌≡◌, refl, ◌∙◌, inl, inr, arith, ◌==◌, Bool-cases}
use sertos.Types.{wait_forever}
use sertos.Modules.{Modules, ListLaws, BitmapLaws}
use sertos.Kernel.{Kernel, WaitList}
use sertos.Scheduler.Ready.{dequeue_ready}
use sertos.Scheduler.Ready.Membership.{IsQueued}
use sertos.Scheduler.Wait.{enter_wait, mark_blocked, arm_timeout, insert_wait_list_priority}
use sertos.Scheduler.Wait.Blocking.{enter_wait-Inv, enter_wait-eq}
use sertos.Scheduler.Delay.{enter_delay}
use sertos.Scheduler.Delay.Blocking.{enter_delay-Inv, enter_delay-eq}
use sertos.System.{Runs}
use sertos.System.Safe.{Safe, Safe-step, Apart-trans}
use sertos.System.Effects.{dequeue_ready-Apart, mark_blocked-Apart, arm_timeout-Apart}

-- The running task is in its ready queue.
pub Runs-IsQueued : (k : Kernel) (t : ℕ) → Safe k → Runs k t → IsQueued k t
Runs-IsQueued k t s (_, is_running, live) = (s.placed t live).is_queued (rw is_running refl)

dequeue_ready_current :
    ⦃m : Modules⦄ (k : Kernel) (t : ℕ) → (dequeue_ready k t).current_tcb ≡ k.current_tcb
unfolding dequeue_ready
dequeue_ready_current k t = refl

module _ ⦃m : Modules⦄ (k : Kernel) (w : WaitList) (t ticks : ℕ) where
  mark_blocked_current : (mark_blocked k w t).current_tcb ≡ k.current_tcb
  unfolding mark_blocked insert_wait_list_priority
  mark_blocked_current = refl

  arm_timeout_current : (arm_timeout k t ticks).current_tcb ≡ k.current_tcb
  unfolding arm_timeout
  arm_timeout_current = elim (Bool-cases (ticks == wait_forever)) [
    | inl e ↦ rw e refl
    | inr e ↦ rw e refl
  ]

module _ ⦃m : Modules⦄ (lists : ListLaws m) (bits : BitmapLaws m) (k : Kernel) (t ticks : ℕ)
    (s : Safe k) (runs : Runs k t) (pos : 0 < ticks) where
  pub block-Safe : (w : WaitList) → Safe (enter_wait k w t ticks)
  block-Safe w =
      let inv = s.well_formed in
      let q = Runs-IsQueued k t s runs in
      let k1 = dequeue_ready k t in
      let k2 = mark_blocked k1 w t in
      let (inv', is_blocked, waits, _, _) = enter_wait-Inv lists bits k w t ticks inv q pos in
      let e = enter_wait-eq lists bits k w t ticks inv q in
      Safe-step t k (enter_wait k w t ticks) s
        (rw e (
          Apart-trans t k k1 (arm_timeout k2 t ticks) (dequeue_ready-Apart lists bits k t inv q) (
            Apart-trans t k1 k2 (arm_timeout k2 t ticks) (mark_blocked-Apart k1 w t ticks)
              (arm_timeout-Apart k2 w t ticks))))
        inv'
        (rw e (
          arm_timeout_current k2 w t ticks
          ∙ mark_blocked_current k1 w t ticks
          ∙ dequeue_ready_current k t))
        (λ r. ground (arith, is_blocked, r))
        (record {
          in_range = inv'.at_wait.waiting_priority w t (inv'.at_wait.linked_waiting w t waits);
          is_queued = λ r. ground (arith, is_blocked, r);
          wakes = λ b. inr (w, waits);
        })

  pub sleep-Safe : Safe (enter_delay k t ticks)
  sleep-Safe =
      let inv = s.well_formed in
      let q = Runs-IsQueued k t s runs in
      let (inv', _, is_blocked, left, _) = enter_delay-Inv lists bits k t ticks inv q pos in
      let k1 = dequeue_ready k t in
      let e = enter_delay-eq lists bits k t ticks inv q in
      Safe-step t k (enter_delay k t ticks) s
        (rw e (
          Apart-trans t k k1 _ (dequeue_ready-Apart lists bits k t inv q)
            (record { others = λ u n. ground arith; still_queued = λ u p n h. h })))
        inv' (rw e (dequeue_ready_current k t)) (λ r. ground (arith, is_blocked, r))
        (record {
          in_range =
              inv'.at_delay.delayed_priority t (inv'.at_delay.counting_delayed t (rw left pos));
          is_queued = λ r. ground (arith, is_blocked, r);
          wakes = λ b. inl (rw left pos);
        })
