-- ===== src/System/Runs.antt =====
-- Runs of the system: their composition, and what a change of context and a token come to.
use sertos.Base.{
  ℕ, ◌-◌, refl, Bool, true, false, not, ◌&&◌, Option, none, some, inl, inr, ltb, ◌==◌,
  if◌then◌else◌, is_handle, Bool-cases, Option-cases,
}
use sertos.Types.{Status, ok}
use sertos.Modules.{Modules}
use sertos.Kernel.{Kernel, Semaphore, Queue, sem_wait}
use sertos.Port.{Port}
use sertos.Scheduler.Ready.{select_next_task}
use sertos.Scheduler.Switch.{perform_switch, switch_context, reschedule, outranks, unlock}
use sertos.Scheduler.Wait.{wait_list_unblock_highest}
use sertos.Task.Create.{reschedule_if_running}
use sertos.Sem.{give, is_sem, keep_token}
use sertos.System.{Step, switch, wake, write, Reach, here, next}

pub Reach-trans : ⦃m : Modules⦄ ⦃e : Port⦄ {i j k : Kernel} → Reach i j → Reach j k → Reach i k
Reach-trans r here = r
Reach-trans r (next q s) = next (Reach-trans r q) s

-- A write to the semaphores, the queues or the lock is a step.
module _ ⦃m : Modules⦄ ⦃e : Port⦄ (k : Kernel) where
  pub lock_write :
      (n : ℕ) (b : Bool) → Step k (record k { lock_nesting = n; reschedule_pending = b })
  lock_write n b = write _ (record {
    same_bitmap = refl;
    same_queues = refl;
    same_delay_list = refl;
    same_wait_lists = refl;
    same_tcbs = refl;
    same_current = refl;
  })

  pub semaphore_write : (f : ℕ → Semaphore) → Step k (record k { semaphores = f })
  semaphore_write f = write _ (record {
    same_bitmap = refl;
    same_queues = refl;
    same_delay_list = refl;
    same_wait_lists = refl;
    same_tcbs = refl;
    same_current = refl;
  })

  pub queue_write : (f : ℕ → Queue) → Step k (record k { queues = f })
  queue_write f = write _ (record {
    same_bitmap = refl;
    same_queues = refl;
    same_delay_list = refl;
    same_wait_lists = refl;
    same_tcbs = refl;
    same_current = refl;
  })

module _ ⦃m : Modules⦄ ⦃e : Port⦄ (k : Kernel) where
  pub Reach-if : (b : Bool) (x y : Kernel) → Reach k x → Reach k y → Reach k (if b then x else y)
  Reach-if true x y f g = f
  Reach-if false x y f g = g

  pub if_first {ℓ} :
      {A : Type ℓ} (b : Bool) (x y : Kernel × A)
      → Reach k x.0
      → Reach k y.0
      → Reach k (if b then x else y).0
  if_first true x y f g = f
  if_first false x y f g = g

pub keep_token-Reach : ⦃m : Modules⦄ ⦃e : Port⦄ (k : Kernel) (h : ℕ) → Reach k (keep_token k h).0
unfolding keep_token
keep_token-Reach k h =
    if_first k (ltb (k.semaphores h).count (k.semaphores h).max_count) _ _
      (next here (semaphore_write k _)) here

-- While the caller has yielded, the others make steps.
module _ ⦃m : Modules⦄ ⦃e : Port⦄ (yields : (k : Kernel) → Reach k (e.port_yield k)) where
  pub switch_context-Reach : (k : Kernel) → Reach k (switch_context k)
  unfolding switch_context
  switch_context-Reach k = elim (Bool-cases (ltb 0 k.lock_nesting)) [
    | inl l ↦ rw l (next here (lock_write k k.lock_nesting true))
    | inr l ↦ rw l (elim (Option-cases (select_next_task k)) [
      | inl c ↦ rw c here
      | inr (t, c) ↦ rw c (
          Reach-if k (is_handle k.current_tcb t) k _ here
            (Reach-trans (next here (switch t c)) (yields (perform_switch k))))
    ])
  ]

  pub reschedule-Reach : (k : Kernel) → Reach k (reschedule k)
  unfolding reschedule
  reschedule-Reach k = elim (Bool-cases (not k.is_running)) [
    | inl l ↦ rw l here
    | inr l ↦ rw l (elim (Option-cases (select_next_task k)) [
      | inl c ↦ rw c here
      | inr (t, c) ↦
          rw c (Reach-if k (outranks k t k.current_tcb) _ k (switch_context-Reach k) here)
    ])
  ]

  pub reschedule_if_running-Reach : (k : Kernel) → Reach k (reschedule_if_running k)
  unfolding reschedule_if_running
  reschedule_if_running-Reach k = Reach-if k k.is_running _ k (reschedule-Reach k) here

  pub unlock-Reach : (k : Kernel) → Reach k (unlock k)
  unfolding unlock
  unlock-Reach k =
      let n : ℕ = k.lock_nesting - 1 in
      Reach-if k (ltb 0 k.lock_nesting) _ k
        (Reach-if k (n == 0 && k.reschedule_pending) _ _
          (Reach-trans (next here (lock_write k n false))
            (switch_context-Reach (record k { lock_nesting = n; reschedule_pending = false })))
          (next here (lock_write k n k.reschedule_pending)))
        here

  pub give-Reach : (k : Kernel) (h : Option ℕ) → Reach k (give k h).0
  unfolding give
  give-Reach k none = here
  give-Reach k (some h) = elim (Bool-cases (not (is_sem k h))) [
    | inl e ↦ rw e here
    | inr e ↦
        rw e
          (woken (wait_list_unblock_highest k (some (sem_wait h))) (next here (wake (sem_wait h))))
  ]
    where
      woken :
          (x : Kernel × Option ℕ)
          → Reach k x.0
          → Reach k
              (elim x.1 as (λ o. Kernel × Status) [
                | none ↦ keep_token x.0 h
                | some t ↦ (reschedule_if_running x.0, ok)
              ]).0
      woken (j, none) r = Reach-trans r (keep_token-Reach j h)
      woken (j, some t) r = Reach-trans r (reschedule_if_running-Reach j)
