-- ===== src/System/Tasks.antt =====
-- Context switches, round robin, and the requests that concern a ready task: no task is lost.
use sertos.Base.{
  ℕ, ◌≡◌, refl, ◌∙◌, sym, some, none, mem, inl, inr, not, Bool-cases, subst, if◌then◌else◌, ap,
}
use sertos.Modules.{Modules, ListLaws, BitmapLaws}
use sertos.Kernel.{Kernel}
use sertos.Scheduler.Ready.{select_next_task}
use sertos.Scheduler.Ready.Choice.{select_next_task-mem}
use sertos.Scheduler.Switch.{perform_switch}
use sertos.Scheduler.Switch.Kept.{SameLists}
use sertos.Scheduler.Delay.{process_time_slicing, rotate}
use sertos.Scheduler.Delay.RoundRobin.{rotate-Inv, rotate_kept}
use sertos.System.Blocking.{Runs-IsQueued}
use sertos.Scheduler.Invariant.Same.{SameScheduling, SameScheduling-refl, Inv-same}
use sertos.Scheduler.Switch.Perform.{perform_switch-Inv, perform_switch-SameQueueing}
use sertos.System.{Runs, SameTasks}
use sertos.System.Safe.{Safe, Placed}

-- A task of which the queueing stays keeps its place.
Placed-same :
    (k k' : Kernel) (u : ℕ)
    → SameScheduling (k.tcbs u) (k'.tcbs u)
    → ((p : ℕ) → mem u (k'.ready_queues p) ≡ mem u (k.ready_queues p))
    → Placed k u
    → Placed k' u
Placed-same k k' u f queues p = record {
  in_range = rw f.same_priority p.in_range;
  is_queued = λ r.
      let (low, h) = p.is_queued (f.was_runnable r) in
      rw (f.same_priority, queues (k.tcbs u).priority) (low, h);
  wakes = λ b. rw (f.same_delay_ticks, f.same_wait_list) (p.wakes (f.was_blocked b));
}

module _ ⦃m : Modules⦄ (lists : ListLaws m) (bits : BitmapLaws m) (k : Kernel) (s : Safe k) where
  pub switch-Safe : (t : ℕ) → select_next_task k ≡ some t → Safe (perform_switch k)
  switch-Safe t e =
      let inv = s.well_formed in
      let (inv', only, _, _) = perform_switch-Inv lists bits k t inv s.only e in
      let h = (select_next_task-mem lists bits k inv.at_ready t e).0 in
      let same =
        perform_switch-SameQueueing k t e (inv.at_ready.queued_state (k.tcbs t).priority t h) in
      record {
        well_formed = inv';
        only = only;
        placed = λ u live.
            Placed-same k (perform_switch k) u (same.1 u) (λ p. rw same.0 refl)
              (s.placed u (sym ((same.1 u).same_magic) ∙ live));
      }

  rotate-Safe : (t : ℕ) → Runs k t → Safe (rotate k t)
  rotate-Safe t runs =
      let inv = s.well_formed in
      let h = (Runs-IsQueued k t s runs).1 in
      let kept = rotate_kept lists k t inv h in
      record {
        well_formed = (rotate-Inv lists k t inv h).0;
        only = λ u r. (kept u).3 ∙ s.only u (sym ((kept u).1) ∙ r);
        placed = λ u live.
            Placed-same k (rotate k t) u ((kept u).0) ((kept u).2)
              (s.placed u (sym ((kept u).0.same_magic) ∙ live));
      }

  pub slice-Safe : (t : ℕ) → Runs k t → Safe (process_time_slicing k)
  unfolding process_time_slicing
  slice-Safe t runs = elim (Bool-cases k.time_slicing_enabled) [
    | inl e ↦
        subst Safe
          (sym (
            ap (λ b. if not b then k else elim k.current_tcb [ none ↦ k | some u ↦ rotate k u ]) e
            ∙ ap (λ c. elim c as (λ x. Kernel) [ none ↦ k | some u ↦ rotate k u ]) (runs.0)))
          (rotate-Safe t runs)
    | inr e ↦
        subst Safe
          (sym (
            ap (λ b. if not b then k else elim k.current_tcb [ none ↦ k | some u ↦ rotate k u ]) e))
          s
  ]

-- Writes to the control blocks that the scheduling does not depend on.
pub Safe-same :
    (k k' : Kernel)
    → Safe k
    → SameLists k k'
    → ((u : ℕ) → SameScheduling (k.tcbs u) (k'.tcbs u))
    → ((u : ℕ) → (k'.tcbs u).state ≡ (k.tcbs u).state)
    → k'.current_tcb ≡ k.current_tcb
    → Safe k'
Safe-same k k' s lists same states current = record {
  well_formed =
      Inv-same k k' s.well_formed same lists.same_ready_queues lists.same_ready_bitmap
        lists.same_delay_list lists.same_wait_lists;
  only = λ u r. current ∙ s.only u (sym (states u) ∙ r);
  placed = λ u live.
      Placed-same k k' u (same u) (λ p. rw lists.same_ready_queues refl)
        (s.placed u (sym ((same u).same_magic) ∙ live));
}

-- Writes that concern no task.
pub write-Safe : (k k' : Kernel) → Safe k → SameTasks k k' → Safe k'
write-Safe k k' s same =
    Safe-same k k' s
      (record {
        same_ready_queues = same.same_queues;
        same_ready_bitmap = same.same_bitmap;
        same_delay_list = same.same_delay_list;
        same_wait_lists = same.same_wait_lists;
      })
      (λ u. rw same.same_tcbs (SameScheduling-refl (k.tcbs u))) (λ u. rw same.same_tcbs refl)
      same.same_current
