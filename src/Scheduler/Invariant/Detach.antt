-- ===== src/Scheduler/Invariant/Detach.antt =====
-- A blocked task leaves the delay list and the wait list of src/sertos_scheduler.c, before it
-- becomes ready.
use sertos.Base.{
  ℕ, ◌≡◌, ◌∙◌, false, Option, none, some, List, mem, ltb, ltb→lt, if◌then◌else◌, arith, Bool-cases,
  Option-cases, inl, inr,
}
use sertos.Types.{blocked}
use sertos.Modules.{Modules, ListLaws}
use sertos.Kernel.{Kernel, WaitList, update_list}
use sertos.Scheduler.Invariant.{SameBut, DelayInv, WaitInv, Inv}
use sertos.Scheduler.Invariant.Queues.{ReadyInv-other}
use sertos.Scheduler.Invariant.Delays.{DelayInv-other, DelayInv-remove}
use sertos.Scheduler.Invariant.Waits.{WaitInv-other, WaitInv-remove}
use sertos.Scheduler.Ready.Membership.{
  IsDetached, not-mem-delay_list, not-mem-wait_lists, not-mem_of_blocked,
}

-- Two states that agree but for the delay list, the wait lists and one control block, of which
-- the state and the priority stay.
pub record Frame (t : ℕ) (k k' : Kernel) : Type 0 where
  pub same_queues : k'.ready_queues ≡ k.ready_queues
  pub same_bitmap : k'.ready_bitmap ≡ k.ready_bitmap
  pub same_tcbs : SameBut t k.tcbs k'.tcbs
  pub same_priority : (k'.tcbs t).priority ≡ (k.tcbs t).priority
  pub same_state : (k'.tcbs t).state ≡ (k.tcbs t).state

pub Frame-trans : (t : ℕ) (i j k : Kernel) → Frame t i j → Frame t j k → Frame t i k
Frame-trans t i j k f g = record {
  same_queues = g.same_queues ∙ f.same_queues;
  same_bitmap = g.same_bitmap ∙ f.same_bitmap;
  same_tcbs = λ u n. g.same_tcbs u n ∙ f.same_tcbs u n;
  same_priority = g.same_priority ∙ f.same_priority;
  same_state = g.same_state ∙ f.same_state;
}

module _ ⦃m : Modules⦄ where
  -- The lists without a task that is in them as its control block says.
  abbrev pub delay_list_without : Kernel → ℕ → List ℕ
  delay_list_without k t =
      if ltb 0 (k.tcbs t).delay_ticks
      then m.linked_list_remove_direct k.delay_list t
      else k.delay_list

  abbrev pub lists_without : (WaitList → List ℕ) → Option WaitList → ℕ → WaitList → List ℕ
  lists_without l none t = l
  lists_without l (some w) t = update_list l w (m.linked_list_remove_direct (l w) t)

module _ ⦃m : Modules⦄ (lists : ListLaws m) (k k' : Kernel) (t : ℕ) (inv : Inv k)
    (frame : Frame t k k') (is_blocked : (k.tcbs t).state ≡ blocked)
    (z : (k'.tcbs t).delay_ticks ≡ 0) (n : (k'.tcbs t).wait_list ≡ none)
    (d : k'.delay_list ≡ delay_list_without k t)
    (v : k'.wait_lists ≡ lists_without k.wait_lists (k.tcbs t).wait_list t) where
  detached-delay : DelayInv k'.delay_list k'.tcbs
  detached-delay = rw d (elim (Bool-cases (ltb 0 (k.tcbs t).delay_ticks)) [
    | inl e ↦ rw e (
        DelayInv-remove lists t inv.at_delay frame.same_tcbs
          (inv.at_delay.counting_delayed t (ltb→lt 0 _ e)) z)
    | inr e ↦ rw e (
        DelayInv-other t inv.at_delay frame.same_tcbs (not-mem-delay_list k t inv (ground arith)) z)
  ])

  detached-wait : WaitInv k'.wait_lists k'.tcbs
  detached-wait = rw v (elim (Option-cases (k.tcbs t).wait_list) [
    | inl e ↦ rw e (WaitInv-other t inv.at_wait frame.same_tcbs (not-mem-wait_lists k t inv e) n)
    | inr (w, e) ↦
        rw e (
          WaitInv-remove lists w t inv.at_wait frame.same_tcbs (inv.at_wait.linked_waiting w t e) n)
  ])

  unqueued' : (p : ℕ) → mem t (k'.ready_queues p) ≡ false
  unqueued' p = rw frame.same_queues (not-mem_of_blocked k t inv is_blocked p)

  -- What is left is well formed, and the task is in no list.
  pub IsDetached-Inv : Inv k' × IsDetached k' t
  IsDetached-Inv = (
    record {
      at_ready =
          rw (frame.same_queues, frame.same_bitmap)
            (ReadyInv-other t inv.at_ready frame.same_tcbs (not-mem_of_blocked k t inv is_blocked));
      at_delay = detached-delay;
      at_wait = detached-wait;
    },
    record { unqueued = unqueued'; no_delay = z; no_wait_list = n },
  )
