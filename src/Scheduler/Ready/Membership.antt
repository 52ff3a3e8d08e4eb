-- ===== src/Scheduler/Ready/Membership.antt =====
-- A task joins and leaves the ready queues of src/sertos_scheduler.c.
use sertos.Base.{
  ℕ, ◌<◌, ◌≡◌, refl, true, false, inl, inr, none, some, mem, arith, Option-cases, mem-snoc,
}
use sertos.Types.{ok, blocked, max_priorities}
use sertos.Modules.{Modules, ListLaws, BitmapLaws}
use sertos.Kernel.{Kernel, Tcb, WaitList, set_tcb}
use sertos.Scheduler.Ready.{add_ready, remove_ready, enqueue_ready, dequeue_ready}
use sertos.Scheduler.Invariant.{Inv}
use sertos.Scheduler.Invariant.Queues.{
  ReadyInv-other, ReadyInv-enqueue, ReadyInv-dequeue, not-mem-dequeue,
}
use sertos.Scheduler.Invariant.Delays.{DelayInv-other}
use sertos.Scheduler.Invariant.Waits.{WaitInv-other}

-- A task that is in no list of the scheduler, and says so.
pub record IsDetached (k : Kernel) (t : ℕ) : Type 0 where
  pub unqueued : (p : ℕ) → mem t (k.ready_queues p) ≡ false
  pub no_delay : (k.tcbs t).delay_ticks ≡ 0
  pub no_wait_list : (k.tcbs t).wait_list ≡ none

-- A task that is in the ready queue of its priority.
abbrev pub IsQueued : Kernel → ℕ → Type 0
IsQueued k t =
    ((k.tcbs t).priority < max_priorities) × (mem t (k.ready_queues (k.tcbs t).priority) ≡ true)

module _ (k : Kernel) (t : ℕ) (inv : Inv k) where
  -- Without a delay a task is not in the delay list.
  pub not-mem-delay_list : (k.tcbs t).delay_ticks ≡ 0 → mem t k.delay_list ≡ false
  not-mem-delay_list z = ground (arith, inv.at_delay.delayed_ticks t)

  -- Without a wait list it is in none.
  pub not-mem-wait_lists :
      (k.tcbs t).wait_list ≡ none → (w : WaitList) → mem t (k.wait_lists w) ≡ false
  not-mem-wait_lists z w = ground (arith, inv.at_wait.waiting_list w t)

  -- A queued task has no delay and no wait list.
  pub queued-no_delay : (p : ℕ) → mem t (k.ready_queues p) ≡ true → (k.tcbs t).delay_ticks ≡ 0
  queued-no_delay p h = ground (
    arith,
    inv.at_ready.queued_state p t h,
    inv.at_delay.counting_delayed t,
    inv.at_delay.delayed_state t,
  )

  pub queued-no_wait_list : (p : ℕ) → mem t (k.ready_queues p) ≡ true → (k.tcbs t).wait_list ≡ none
  queued-no_wait_list p h = elim (Option-cases (k.tcbs t).wait_list) [
    | inl e ↦ e
    | inr (w, e) ↦ absurd (
        ground (
          arith,
          inv.at_ready.queued_state p t h,
          inv.at_wait.linked_waiting w t e,
          inv.at_wait.waiting_state w t,
        ))
  ]

  pub not-mem_of_blocked : (k.tcbs t).state ≡ blocked → (p : ℕ) → mem t (k.ready_queues p) ≡ false
  not-mem_of_blocked s p = ground (arith, inv.at_ready.queued_state p t)

-- A detached task's control block may be written, if it is still detached then.
pub set_tcb-Inv :
    (k : Kernel) (t : ℕ) (b : Tcb)
    → Inv k
    → IsDetached k t
    → b.delay_ticks ≡ 0
    → b.wait_list ≡ none
    → Inv (set_tcb k t b) × IsDetached (set_tcb k t b) t
set_tcb-Inv k t b inv d z n = (
  record {
    at_ready = ReadyInv-other t inv.at_ready (λ u g. ground arith) d.unqueued;
    at_delay =
        DelayInv-other t inv.at_delay (λ u g. ground arith) (not-mem-delay_list k t inv d.no_delay)
          (ground (arith, z));
    at_wait =
        WaitInv-other t inv.at_wait (λ u g. ground arith)
          (not-mem-wait_lists k t inv d.no_wait_list) (ground (arith, n));
  },
  record { unqueued = d.unqueued; no_delay = ground (arith, z); no_wait_list = ground (arith, n) },
)

module _ ⦃m : Modules⦄ (k : Kernel) (t : ℕ) where
  -- With a valid priority the call comes to the write.
  pub add_ready-eq :
      (k.tcbs t).priority < max_priorities → add_ready k (some t) ≡ (enqueue_ready k t, ok)
  unfolding add_ready
  add_ready-eq low = ground arith

  pub remove_ready-eq :
      (k.tcbs t).priority < max_priorities
      → (k.tcbs t).state_linked ≡ true
      → remove_ready k (some t) ≡ (dequeue_ready k t, ok)
  unfolding remove_ready
  remove_ready-eq low linked = ground arith

module _ ⦃m : Modules⦄ (lists : ListLaws m) (bits : BitmapLaws m) (k : Kernel) (t : ℕ)
    (inv : Inv k) where
  pub enqueue_ready-Inv :
      IsDetached k t → (k.tcbs t).priority < max_priorities → Inv (enqueue_ready k t)
  unfolding enqueue_ready
  enqueue_ready-Inv d low = record {
    at_ready =
        ReadyInv-enqueue lists bits t (k.tcbs t).priority inv.at_ready (λ u n. ground arith) low
          d.unqueued (ground arith) (ground arith) (ground arith);
    at_delay =
        DelayInv-other t inv.at_delay (λ u n. ground arith) (not-mem-delay_list k t inv d.no_delay)
          (ground arith);
    at_wait =
        WaitInv-other t inv.at_wait (λ u n. ground arith)
          (not-mem-wait_lists k t inv d.no_wait_list) (ground arith);
  }

  pub enqueue_ready-IsQueued :
      IsDetached k t → (k.tcbs t).priority < max_priorities → IsQueued (enqueue_ready k t) t
  unfolding enqueue_ready
  enqueue_ready-IsQueued d low = ground (
    arith,
    lists.insert_tail_lem (k.ready_queues (k.tcbs t).priority) t (d.unqueued (k.tcbs t).priority),
    mem-snoc t t (k.ready_queues (k.tcbs t).priority),
  )

  pub dequeue_ready-Inv : IsQueued k t → Inv (dequeue_ready k t)
  unfolding dequeue_ready
  dequeue_ready-Inv (low, h) = record {
    at_ready =
        ReadyInv-dequeue lists bits t (k.tcbs t).priority inv.at_ready (λ u n. ground arith) low h;
    at_delay =
        DelayInv-other t inv.at_delay (λ u n. ground arith)
          (not-mem-delay_list k t inv (queued-no_delay k t inv (k.tcbs t).priority h))
          (ground (arith, queued-no_delay k t inv (k.tcbs t).priority h));
    at_wait =
        WaitInv-other t inv.at_wait (λ u n. ground arith)
          (not-mem-wait_lists k t inv (queued-no_wait_list k t inv (k.tcbs t).priority h))
          (ground (arith, queued-no_wait_list k t inv (k.tcbs t).priority h));
  }

  pub dequeue_ready-IsDetached : IsQueued k t → IsDetached (dequeue_ready k t) t
  unfolding dequeue_ready
  dequeue_ready-IsDetached (low, h) = record {
    unqueued =
        not-mem-dequeue lists bits {c = k.tcbs} t (k.tcbs t).priority inv.at_ready (λ u n. refl) low
          h;
    no_delay = ground (arith, queued-no_delay k t inv (k.tcbs t).priority h);
    no_wait_list = ground (arith, queued-no_wait_list k t inv (k.tcbs t).priority h);
  }

  -- A detached task of a valid priority joins the ready queue of its priority; the scheduler stays
  -- well formed.
  pub add_ready-Inv :
      IsDetached k t
      → (k.tcbs t).priority < max_priorities
      → let (k', status) = add_ready k (some t) in (status ≡ ok) × Inv k' × IsQueued k' t
  add_ready-Inv d low =
      rw (add_ready-eq k t low) (refl, enqueue_ready-Inv d low, enqueue_ready-IsQueued d low)

  -- A queued task leaves its queue: it is detached, and the scheduler stays well formed.
  pub remove_ready-Inv :
      IsQueued k t
      → let (k', status) = remove_ready k (some t) in (status ≡ ok) × Inv k' × IsDetached k' t
  remove_ready-Inv q =
      rw (remove_ready-eq k t q.0 (inv.at_ready.queued_linked (k.tcbs t).priority t q.1))
        (refl, dequeue_ready-Inv q, dequeue_ready-IsDetached q)
