-- ===== src/System/Waking.antt =====
-- A wait list gives a task back, and a tick ends delays: no task is lost.
use sertos.Base.{
  ℕ, refl, ◌≢◌, ◌∙◌, Bool, false, some, List, [], ◌∷◌, head?, inl, inr, arith, ◌==◌, ltb,
  Bool-cases, Option-cases, mem-head?,
}
use sertos.Types.{running}
use sertos.Modules.{Modules, ListLaws, BitmapLaws}
use sertos.Scheduler.Invariant.{Inv}
use sertos.Kernel.{Kernel, WaitList}
use sertos.Scheduler.Ready.{enqueue_ready}
use sertos.Scheduler.Objects.{
  SameObjects, SameObjects-refl, SameObjects-trans, SameObjects-if, set_tcb-SameObjects,
  add_ready-SameObjects, wait_list_remove-SameObjects, unblock_highest-SameObjects,
}
use sertos.Scheduler.Wait.{wait_list_unblock_highest, wait_list_remove, forget_wait_list}
use sertos.Scheduler.Wait.Waking.{
  released, released_lem, wait_list_unblock_highest-eq, wait_list_unblock_highest-Inv,
  wait_list_unblock_highest-empty,
}
use sertos.Scheduler.Delay.{
  count_down, leave_delay_list, leave_wait_list, expire, visit_delayed, visit_all_delayed,
  process_delayed_tasks,
}
use sertos.Scheduler.Delay.Ticking.{Ticked}
use sertos.Scheduler.Delay.Wakeup.{process_delayed_tasks-Inv}
use sertos.System.Safe.{Safe, Safe-step, Apart-trans, Placed, Placed-apart}
use sertos.System.Effects.{Frame-Apart, enqueue_ready-Apart}

module _ ⦃m : Modules⦄ (lists : ListLaws m) (bits : BitmapLaws m) (k : Kernel) (s : Safe k) where
  pub wake-Safe : (w : WaitList) → Safe (wait_list_unblock_highest k (some w)).0
  wake-Safe w = elim (Option-cases (head? (k.wait_lists w))) [
    | inl e ↦ rw (wait_list_unblock_highest-empty lists k w e) s
    | inr (t, e) ↦
        let inv = s.well_formed in
        let h = mem-head? t (k.wait_lists w) e in
        let r = released lists k w t inv h in
        let k' = (wait_list_unblock_highest k (some w)).0 in
        let (_, _, inv', queued, is_ready, _, _, _) =
          wait_list_unblock_highest-Inv lists bits k w t t inv e h in
        let (frame, safe, detached) = released_lem lists k w t inv h in
        let eq = wait_list_unblock_highest-eq lists bits k w t t inv e h in
        Safe-step t k k' s
          (rw eq (
            Apart-trans t k r (enqueue_ready r t) (Frame-Apart t k r frame)
              (enqueue_ready-Apart lists bits r t safe detached)))
          inv' (unblock_highest-SameObjects k w).same_current (λ run. ground (arith, is_ready, run))
          (record {
            in_range = queued.0;
            is_queued = λ _. queued;
            wakes = λ b. ground (arith, is_ready, b);
          })
  ]

module _ ⦃m : Modules⦄ where
  count_down-SameObjects : (k : Kernel) (t : ℕ) → SameObjects k (count_down k t)
  unfolding count_down
  count_down-SameObjects k t =
      SameObjects-if (ltb 0 (k.tcbs t).delay_ticks) k _ k (set_tcb-SameObjects k t _)
        (SameObjects-refl k)

  leave_wait_list-SameObjects : (k : Kernel) (t : ℕ) → SameObjects k (leave_wait_list k t)
  unfolding leave_wait_list forget_wait_list
  leave_wait_list-SameObjects k t = elim (Option-cases (k.tcbs t).wait_list) [
    | inl e ↦ rw (leave_wait_list, e) (SameObjects-refl k)
    | inr (w, e) ↦
        rw (leave_wait_list, e)
          (SameObjects-trans k (wait_list_remove k (some w) (some t)) _
            (wait_list_remove-SameObjects k w t) (set_tcb-SameObjects _ t _))
  ]

  leave_delay_list-SameObjects : (k : Kernel) (t : ℕ) → SameObjects k (leave_delay_list k t)
  unfolding leave_delay_list
  leave_delay_list-SameObjects k t = record {
    same_semaphores = refl;
    same_mutexes = refl;
    same_timers = refl;
    same_current = refl;
    same_running = refl;
    same_pool = refl;
    same_queues = refl;
    same_stream_buffers = refl;
  }

  expire-SameObjects : (k : Kernel) (t : ℕ) → SameObjects k (expire k t)
  unfolding expire
  expire-SameObjects k t =
      let a = leave_delay_list k t in
      let b = leave_wait_list a t in
      SameObjects-trans k a _ (leave_delay_list-SameObjects k t) (
        SameObjects-trans a b _ (leave_wait_list-SameObjects a t)
          (add_ready-SameObjects b (some t)))

  visit_delayed-SameObjects :
      (k : Kernel) (flag : Bool) (t : ℕ) → SameObjects k (visit_delayed (k, flag) t).0
  unfolding visit_delayed
  visit_delayed-SameObjects k flag t =
      let a = count_down k t in
      elim (Bool-cases ((a.tcbs t).delay_ticks == 0)) [
        | inl e ↦
            rw e (SameObjects-trans k a _ (count_down-SameObjects k t) (expire-SameObjects a t))
        | inr e ↦ rw e (count_down-SameObjects k t)
      ]

  visit_all-SameObjects :
      (l : List ℕ) (k : Kernel) (flag : Bool) → SameObjects k (visit_all_delayed l (k, flag)).0
  unfolding visit_all_delayed
  visit_all-SameObjects [] k flag = SameObjects-refl k
  visit_all-SameObjects (t ∷ ts) k flag =
      let (k', flag') = visit_delayed (k, flag) t in
      SameObjects-trans k k' _ (visit_delayed-SameObjects k flag t)
        (visit_all-SameObjects ts k' flag')

  -- A tick leaves the objects and the current task.
  pub process_delayed_tasks-SameObjects : (k : Kernel) → SameObjects k (process_delayed_tasks k).0
  unfolding process_delayed_tasks
  process_delayed_tasks-SameObjects k = visit_all-SameObjects k.delay_list k false

-- A task after a tick: one whose delay ran out, one that counts on, or another.
module _ (k k' : Kernel) (t : ℕ) (inv : Inv k') where
  Ticked-Placed : Ticked k k' t → Placed k' t
  Ticked-Placed (inl (_, queued, is_ready, _)) = record {
    in_range = queued.0;
    is_queued = λ _. queued;
    wakes = λ b. ground (arith, is_ready, b);
  }
  Ticked-Placed (inr (more, left, is_blocked, h)) = record {
    in_range = inv.at_delay.delayed_priority t h;
    is_queued = λ r. ground (arith, is_blocked, r);
    wakes = λ _. inl (omega (arith, more, left));
  }

  Ticked-stopped : Ticked k k' t → (k'.tcbs t).state ≢ running
  Ticked-stopped (inl (_, _, is_ready, _)) r = ground (arith, is_ready, r)
  Ticked-stopped (inr (_, _, is_blocked, _)) r = ground (arith, is_blocked, r)

module _ ⦃m : Modules⦄ (lists : ListLaws m) (bits : BitmapLaws m) (k : Kernel) (s : Safe k) where
  pub count_ticks-Safe : Safe (process_delayed_tasks k).0
  count_ticks-Safe =
      let k' = (process_delayed_tasks k).0 in
      let each = process_delayed_tasks-Inv lists bits k s.well_formed in
      record {
        well_formed = (each 0).0;
        only = λ u r. elim (each u).2 [
          | inl (_, t) ↦ absurd (Ticked-stopped k k' u (each 0).0 t r)
          | inr (_, t) ↦
              (process_delayed_tasks-SameObjects k).same_current ∙ s.only u (rw t.same_tcb at r)
        ];
        placed = λ u live. elim (each u).2 [
          | inl (_, t) ↦ Ticked-Placed k k' u (each 0).0 t
          | inr (_, t) ↦
              Placed-apart k k' u t.same_tcb t.still_queued (s.placed u (rw t.same_tcb at live))
        ];
      }
