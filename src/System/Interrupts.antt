-- ===== src/System/Interrupts.antt =====
-- The calls that interrupts make, as runs of the system.
use sertos.Base.{ℕ, Bool, true, false, not, Option, none, some, List, inl, inr, Bool-cases}
use sertos.Types.{Status, ok}
use sertos.Modules.{Modules}
use sertos.Kernel.{Kernel, sem_wait, queue_wait_send, queue_wait_recv}
use sertos.Port.{Port}
use sertos.Scheduler.Wait.{wait_list_unblock_highest}
use sertos.Sem.{give_from_isr, is_sem, keep_token, higher_prio_woken}
use sertos.Queue.{is_queue}
use sertos.Queue.Transfer.{send_from_isr, receive_from_isr, put, fetch, has_room, has_item}
use sertos.System.{wake, Reach, here, next}
use sertos.System.Runs.{Reach-trans, queue_write, keep_token-Reach}

-- The calls that interrupts make.
module _ ⦃m : Modules⦄ ⦃e : Port⦄ (k : Kernel) where
  pub give_from_isr-Reach : (h : Option ℕ) → Reach k (give_from_isr k h).0
  unfolding give_from_isr
  give_from_isr-Reach none = here
  give_from_isr-Reach (some h) = elim (Bool-cases (not (is_sem k h))) [
    | inl f ↦ rw f here
    | inr f ↦
        rw f
          (woken (wait_list_unblock_highest k (some (sem_wait h))) (next here (wake (sem_wait h))))
  ]
    where
      woken :
          (x : Kernel × Option ℕ)
          → Reach k x.0
          → Reach k
              (elim x.1 as (λ o. Kernel × Bool × Status) [
                | none ↦ (let (k'', s) = keep_token x.0 h in (k'', false, s))
                | some t ↦ (x.0, higher_prio_woken x.0 t x.0.current_tcb, ok)
              ]).0
      woken (j, none) r = Reach-trans r (keep_token-Reach j h)
      woken (j, some t) r = r

  pub put-Reach : (h : ℕ) (item : List ℕ) → Reach k (put k h item).0
  unfolding put
  put-Reach h item = next (next here (queue_write k _)) (wake (queue_wait_recv h))

  pub fetch-Reach : (h : ℕ) → Reach k (fetch k h).0
  unfolding fetch
  fetch-Reach h = next (next here (queue_write k _)) (wake (queue_wait_send h))

  pub send_from_isr-Reach :
      (h : Option ℕ) (item : Option (List ℕ)) → Reach k (send_from_isr k h item).0
  unfolding send_from_isr
  send_from_isr-Reach none item = here
  send_from_isr-Reach (some h) none = here
  send_from_isr-Reach (some h) (some item) = elim (Bool-cases (not (is_queue k h))) [
    | inl v ↦ rw v here
    | inr v ↦ rw v (elim (Bool-cases (not (has_room (k.queues h)))) [
      | inl l ↦ rw l here
      | inr l ↦ rw l (put-Reach h item)
    ])
  ]

  pub receive_from_isr-Reach : (h : Option ℕ) (item : Bool) → Reach k (receive_from_isr k h item).0
  unfolding receive_from_isr
  receive_from_isr-Reach none item = here
  receive_from_isr-Reach (some h) false = here
  receive_from_isr-Reach (some h) true = elim (Bool-cases (not (is_queue k h))) [
    | inl v ↦ rw v here
    | inr v ↦ rw v (elim (Bool-cases (not (has_item (k.queues h)))) [
      | inl l ↦ rw l here
      | inr l ↦ rw l (fetch-Reach h)
    ])
  ]
