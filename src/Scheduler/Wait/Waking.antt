-- ===== src/Scheduler/Wait/Waking.antt =====
-- `sertos_scheduler_wait_list_unblock_highest`: the head of a wait list becomes ready.
use sertos.Base.{
  ap, ℕ, ◌<◌, ◌≤◌, ◌≡◌, refl, ◌∙◌, true, none, some, mem, head?, erase, ltb, arith, Bool-cases, inl,
  inr, mem-head?,
}
use sertos.Types.{ready, max_priorities}
use sertos.Modules.{Modules, ListLaws, BitmapLaws}
use sertos.Kernel.{Kernel, WaitList, update_list, same_list_self}
use sertos.Scheduler.Ready.{enqueue_ready}
use sertos.Scheduler.Wait.{
  wait_list_remove, cancel_delay, forget_wait_list, unblock, wait_list_unblock_highest,
}
use sertos.Scheduler.Wait.Order.{head-highest}
use sertos.Scheduler.Invariant.{SameBut, Inv}
use sertos.Scheduler.Invariant.Detach.{Frame, Frame-trans, delay_list_without, IsDetached-Inv}
use sertos.Scheduler.Ready.Membership.{
  IsDetached, IsQueued, add_ready-eq, enqueue_ready-Inv, enqueue_ready-IsQueued,
}

module _ ⦃m : Modules⦄ (k : Kernel) (w : WaitList) (t : ℕ) where
  pub wait_list_remove_fields :
      (k.tcbs t).event_linked ≡ true
      → let k' = wait_list_remove k (some w) (some t) in
        Frame t k k'
        × (k'.wait_lists
            ≡ update_list k.wait_lists w (m.linked_list_remove_direct (k.wait_lists w) t))
        × (k'.delay_list ≡ k.delay_list)
        × ((k'.tcbs t).delay_ticks ≡ (k.tcbs t).delay_ticks)
  unfolding wait_list_remove
  wait_list_remove_fields e = rw e (
    record {
      same_queues = refl;
      same_bitmap = refl;
      same_tcbs = λ u n. ground arith;
      same_priority = ground arith;
      same_state = ground arith;
    },
    refl,
    refl,
    ground arith,
  )

  cancel_delay_fields :
      let k' = cancel_delay k t in
      Frame t k k'
      × (k'.wait_lists ≡ k.wait_lists)
      × (k'.delay_list ≡ delay_list_without k t)
      × ((k'.tcbs t).delay_ticks ≡ 0)
  unfolding cancel_delay
  cancel_delay_fields = elim (Bool-cases (ltb 0 (k.tcbs t).delay_ticks)) [
    | inl e ↦ rw e (
      record {
        same_queues = refl;
        same_bitmap = refl;
        same_tcbs = λ u n. ground arith;
        same_priority = ground arith;
        same_state = ground arith;
      },
      refl,
      refl,
      ground arith,
    )
    | inr e ↦ rw e (
      record {
        same_queues = refl;
        same_bitmap = refl;
        same_tcbs = λ u n. refl;
        same_priority = refl;
        same_state = refl;
      },
      refl,
      refl,
      ground arith,
    )
  ]

  pub forget_wait_list_fields :
      let k' = forget_wait_list k t in
      Frame t k k'
      × (k'.wait_lists ≡ k.wait_lists)
      × (k'.delay_list ≡ k.delay_list)
      × ((k'.tcbs t).delay_ticks ≡ (k.tcbs t).delay_ticks)
      × ((k'.tcbs t).wait_list ≡ none)
  unfolding forget_wait_list
  forget_wait_list_fields = (
    record {
      same_queues = refl;
      same_bitmap = refl;
      same_tcbs = λ u n. ground arith;
      same_priority = ground arith;
      same_state = ground arith;
    },
    refl,
    refl,
    ground arith,
    ground arith,
  )

module _ ⦃m : Modules⦄ (lists : ListLaws m) (k : Kernel) (w : WaitList) (t : ℕ) (inv : Inv k)
    (h : mem t (k.wait_lists w) ≡ true) where
  -- The state just before the task becomes ready.
  abbrev pub released : Kernel
  released = forget_wait_list (cancel_delay (wait_list_remove k (some w) (some t)) t) t

  pub released_lem : Frame t k released × Inv released × IsDetached released t
  released_lem =
      let a = wait_list_remove k (some w) (some t) in
      let b = cancel_delay a t in
      let fa = wait_list_remove_fields k w t (inv.at_wait.waiting_linked w t h) in
      let fb = cancel_delay_fields a w t in
      let fc = forget_wait_list_fields b w t in
      let frame = Frame-trans t k b released (Frame-trans t k a b fa.0 fb.0) fc.0 in
      let done =
        IsDetached-Inv lists k released t inv frame (inv.at_wait.waiting_state w t h) (fc.3 ∙ fb.3)
          fc.4 (fc.2 ∙ (fb.2 ∙ rw (fa.2, fa.3) refl))
          (rw (inv.at_wait.waiting_list w t h) (fc.1 ∙ (fb.1 ∙ fa.1))) in
      (frame, done.0, done.1)

  pub released_wait_lists :
      released.wait_lists
      ≡ update_list k.wait_lists w (m.linked_list_remove_direct (k.wait_lists w) t)
  released_wait_lists =
      let a = wait_list_remove k (some w) (some t) in
      (forget_wait_list_fields (cancel_delay a t) w t).1
      ∙ ((cancel_delay_fields a w t).1
          ∙ (wait_list_remove_fields k w t (inv.at_wait.waiting_linked w t h)).1)

  pub low : (released.tcbs t).priority < max_priorities
  low = rw (released_lem.0.same_priority) (inv.at_wait.waiting_priority w t h)

  pub unblock-eq : unblock k w t ≡ enqueue_ready released t
  unfolding unblock
  unblock-eq = ap (λ r. r.0) (add_ready-eq released t low)

pub enqueue_ready_fields :
    ⦃m : Modules⦄ (k : Kernel) (t : ℕ)
    → let k' = enqueue_ready k t in
      ((k'.tcbs t).state ≡ ready)
      × ((k'.tcbs t).wait_list ≡ (k.tcbs t).wait_list)
      × ((k'.tcbs t).delay_ticks ≡ (k.tcbs t).delay_ticks)
      × (k'.wait_lists ≡ k.wait_lists)
unfolding enqueue_ready
enqueue_ready_fields k t = (ground arith, ground arith, ground arith, refl)

module _ ⦃m : Modules⦄ (lists : ListLaws m) (bits : BitmapLaws m) (k : Kernel) (w : WaitList)
    (t u : ℕ) (inv : Inv k) where
  pub wait_list_unblock_highest-eq :
      head? (k.wait_lists w) ≡ some t
      → (h : mem t (k.wait_lists w) ≡ true)
      → wait_list_unblock_highest k (some w)
        ≡ (enqueue_ready (released lists k w t inv h) t, some t)
  unfolding wait_list_unblock_highest
  wait_list_unblock_highest-eq e h =
      rw (lists.peek_head_lem (k.wait_lists w) ∙ e, wait_list_unblock_highest)
        (ap (λ x. (x, some t)) (unblock-eq lists k w t inv h))

  -- Other control blocks and other wait lists stay.
  pub wait_list_unblock_highest_others :
      head? (k.wait_lists w) ≡ some t
      → SameBut t k.tcbs (wait_list_unblock_highest k (some w)).0.tcbs
  unfolding enqueue_ready
  wait_list_unblock_highest_others e v n =
      let h = mem-head? t (k.wait_lists w) e in
      let r = released lists k w t inv h in
      rw (wait_list_unblock_highest-eq e h)
        (ground (arith, (released_lem lists k w t inv h).0.same_tcbs v n))

  -- The call wakes the first task of a wait list that is not empty: no other task of the list has
  -- a higher priority. It is then in its ready queue, in no wait list and without a delay, and the
  -- rest of the list stays in order; the scheduler stays well formed.
  pub wait_list_unblock_highest-Inv :
      head? (k.wait_lists w) ≡ some t
      → mem u (k.wait_lists w) ≡ true
      → let (k', woken) = wait_list_unblock_highest k (some w) in
        (woken ≡ some t)
        × ((k.tcbs u).priority ≤ (k.tcbs t).priority)
        × Inv k'
        × IsQueued k' t
        × ((k'.tcbs t).state ≡ ready)
        × ((k'.tcbs t).wait_list ≡ none)
        × ((k'.tcbs t).delay_ticks ≡ 0)
        × (k'.wait_lists w ≡ erase t (k.wait_lists w))
  wait_list_unblock_highest-Inv e g =
      let h = mem-head? t (k.wait_lists w) e in
      let r = released lists k w t inv h in
      let (frame, safe, detached) = released_lem lists k w t inv h in
      let fields = enqueue_ready_fields r t in
      rw (wait_list_unblock_highest-eq e h) (
        refl,
        head-highest k.tcbs (k.wait_lists w) t u (inv.at_wait.waiting_order w) e g,
        enqueue_ready-Inv lists bits r t safe detached (low lists k w t inv h),
        enqueue_ready-IsQueued lists bits r t safe detached (low lists k w t inv h),
        fields.0,
        fields.1 ∙ detached.no_wait_list,
        fields.2 ∙ detached.no_delay,
        rw (fields.3, released_wait_lists lists k w t inv h, same_list_self w)
            (lists.remove_lem (k.wait_lists w) t h (inv.at_wait.waiting_distinct w)),
      )

-- Nobody is woken from an empty list.
pub wait_list_unblock_highest-empty :
    ⦃m : Modules⦄ (lists : ListLaws m) (k : Kernel) (w : WaitList)
    → head? (k.wait_lists w) ≡ none
    → wait_list_unblock_highest k (some w) ≡ (k, none)
unfolding wait_list_unblock_highest
wait_list_unblock_highest-empty lists k w e =
    rw (lists.peek_head_lem (k.wait_lists w) ∙ e, wait_list_unblock_highest) refl
