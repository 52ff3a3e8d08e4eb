-- ===== src/Scheduler/Delay/Expiry.antt =====
-- `process_delayed_tasks` of src/sertos_scheduler.c: a tick of the delay list.
use sertos.Base.{
  ap, ℕ, ◌-◌, ◌<◌, ◌≡◌, refl, sym, ◌∙◌, true, none, some, mem, ltb, arith, Bool-cases, Option-cases,
  inl, inr,
}
use sertos.Types.{max_priorities}
use sertos.Modules.{Modules, ListLaws, BitmapLaws}
use sertos.Kernel.{Kernel, WaitList}
use sertos.Scheduler.Ready.{enqueue_ready}
use sertos.Scheduler.Wait.{wait_list_remove, forget_wait_list}
use sertos.Scheduler.Wait.Waking.{wait_list_remove_fields, forget_wait_list_fields}
use sertos.Scheduler.Delay.{count_down, leave_delay_list, leave_wait_list, expire}
use sertos.Scheduler.Invariant.{Inv}
use sertos.Scheduler.Invariant.Queues.{ReadyInv-other}
use sertos.Scheduler.Invariant.Delays.{DelayInv-keep}
use sertos.Scheduler.Invariant.Waits.{WaitInv-keep}
use sertos.Scheduler.Invariant.Detach.{Frame, Frame-trans, lists_without, IsDetached-Inv}
use sertos.Scheduler.Ready.Membership.{IsDetached, not-mem_of_blocked, add_ready-eq}

module _ ⦃m : Modules⦄ (k : Kernel) (t : ℕ) where
  pub count_down_fields :
      let k' = count_down k t in
      Frame t k k'
      × (k'.wait_lists ≡ k.wait_lists)
      × (k'.delay_list ≡ k.delay_list)
      × ((k'.tcbs t).delay_ticks ≡ (k.tcbs t).delay_ticks - 1)
      × ((k'.tcbs t).wait_list ≡ (k.tcbs t).wait_list)
      × ((k'.tcbs t).event_linked ≡ (k.tcbs t).event_linked)
  unfolding count_down
  count_down_fields = elim (Bool-cases (ltb 0 (k.tcbs t).delay_ticks)) [
    | inl e ↦ rw e (
      record {
        same_queues = refl;
        same_bitmap = refl;
        same_tcbs = λ u n. ground arith;
        same_priority = ground arith;
        same_state = ground arith;
      },
      refl,
      refl,
      ground arith,
      ground arith,
      ground arith,
    )
    | inr e ↦ rw e (
      record {
        same_queues = refl;
        same_bitmap = refl;
        same_tcbs = λ u n. refl;
        same_priority = refl;
        same_state = refl;
      },
      refl,
      refl,
      ground arith,
      refl,
      refl,
    )
  ]

  leave_delay_list_fields :
      let k' = leave_delay_list k t in
      Frame t k k'
      × (k'.wait_lists ≡ k.wait_lists)
      × (k'.delay_list ≡ m.linked_list_remove_direct k.delay_list t)
      × ((k'.tcbs t).delay_ticks ≡ (k.tcbs t).delay_ticks)
      × ((k'.tcbs t).wait_list ≡ (k.tcbs t).wait_list)
      × ((k'.tcbs t).event_linked ≡ (k.tcbs t).event_linked)
  unfolding leave_delay_list
  leave_delay_list_fields = (
    record {
      same_queues = refl;
      same_bitmap = refl;
      same_tcbs = λ u n. ground arith;
      same_priority = ground arith;
      same_state = ground arith;
    },
    refl,
    refl,
    ground arith,
    ground arith,
    ground arith,
  )

  leave_wait_list_fields :
      ((w : WaitList) → (k.tcbs t).wait_list ≡ some w → (k.tcbs t).event_linked ≡ true)
      → let k' = leave_wait_list k t in
        Frame t k k'
        × (k'.wait_lists ≡ lists_without k.wait_lists (k.tcbs t).wait_list t)
        × (k'.delay_list ≡ k.delay_list)
        × ((k'.tcbs t).delay_ticks ≡ (k.tcbs t).delay_ticks)
        × ((k'.tcbs t).wait_list ≡ none)
  unfolding leave_wait_list
  leave_wait_list_fields linked = elim (Option-cases (k.tcbs t).wait_list) [
    | inl e ↦
        rw (e, leave_wait_list)
          (
            record {
              same_queues = refl;
              same_bitmap = refl;
              same_tcbs = λ u n. refl;
              same_priority = refl;
              same_state = refl;
            },
            refl,
            refl,
            refl,
            e,
          )
    | inr (w, e) ↦
        let a = wait_list_remove k (some w) (some t) in
        let fa = wait_list_remove_fields k w t (linked w e) in
        let fb = forget_wait_list_fields a w t in
        rw (e, leave_wait_list)
          (
            Frame-trans t k a (forget_wait_list a t) fa.0 fb.0,
            fb.1 ∙ fa.1,
            fb.2 ∙ fa.2,
            fb.3 ∙ fa.3,
            fb.4,
          )
  ]

module _ ⦃m : Modules⦄ (lists : ListLaws m) (bits : BitmapLaws m) (k : Kernel) (t : ℕ) (inv : Inv k)
    (h : mem t k.delay_list ≡ true) where
  -- The last tick of a delay: the state just before the task becomes ready.
  abbrev pub timed_out : Kernel
  timed_out = leave_wait_list (leave_delay_list (count_down k t) t) t

  pub timed_out_lem :
      (k.tcbs t).delay_ticks ≡ 1
      → Frame t k timed_out
        × Inv timed_out
        × IsDetached timed_out t
        × (timed_out.delay_list ≡ m.linked_list_remove_direct k.delay_list t)
  timed_out_lem one =
      let a = count_down k t in
      let b = leave_delay_list a t in
      let fa = count_down_fields k t in
      let fb = leave_delay_list_fields a t in
      let e = fb.4 ∙ fa.4 in
      let fc = leave_wait_list_fields b t (λ w g.
        fb.5
        ∙ (fa.5 ∙ inv.at_wait.waiting_linked w t (inv.at_wait.linked_waiting w t (sym e ∙ g)))) in
      let frame = Frame-trans t k b timed_out (Frame-trans t k a b fa.0 fb.0) fc.0 in
      let done =
        IsDetached-Inv lists k timed_out t inv frame (inv.at_delay.delayed_state t h)
          (fc.3 ∙ (fb.3 ∙ (fa.3 ∙ rw one))) fc.4 (fc.2 ∙ (fb.2 ∙ rw (fa.2, one) refl))
          (fc.1 ∙ rw (e, fb.1, fa.1) refl) in
      (frame, done.0, done.1, fc.2 ∙ (fb.2 ∙ rw fa.2 refl))

  pub low : (one : (k.tcbs t).delay_ticks ≡ 1) → (timed_out.tcbs t).priority < max_priorities
  low one = rw (timed_out_lem one).0.same_priority (inv.at_delay.delayed_priority t h)

  pub expire-eq : (k.tcbs t).delay_ticks ≡ 1 → expire (count_down k t) t ≡ enqueue_ready timed_out t
  unfolding expire
  expire-eq one = ap (λ r. r.0) (add_ready-eq timed_out t (low one))

  -- With more than one tick left the task stays delayed.
  pub count_down-Inv : 1 < (k.tcbs t).delay_ticks → Inv (count_down k t)
  count_down-Inv more =
      let f = count_down_fields k t in
      record {
        at_ready =
            rw (f.0.same_queues, f.0.same_bitmap)
              (ReadyInv-other t inv.at_ready f.0.same_tcbs
                (not-mem_of_blocked k t inv (inv.at_delay.delayed_state t h)));
        at_delay = rw f.2 (
            DelayInv-keep t inv.at_delay f.0.same_tcbs h
              (f.0.same_state ∙ inv.at_delay.delayed_state t h) (omega (arith, f.3))
              (rw f.0.same_priority (inv.at_delay.delayed_priority t h)));
        at_wait = rw f.1 (
            WaitInv-keep t inv.at_wait f.0.same_tcbs f.0.same_priority f.4 f.5
              (λ s. f.0.same_state ∙ s));
      }
