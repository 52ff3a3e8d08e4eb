-- ===== src/Scheduler/Delay/Gap.antt =====
-- The gap in `sertos_scheduler_delay` of src/sertos_scheduler.c between its critical section and the
-- switch: a tick that comes there, or while the scheduler is locked, finds a blocked current task.
use sertos.Base.{
  ℕ, ◌<◌, ◌≡◌, refl, sym, ◌∙◌, subst, ap, true, false, not, none, some, List, mem, erase, length,
  ltb, ==-self, if◌then◌else◌, arith, mem-snoc, length-erase,
}
use sertos.Types.{blocked}
use sertos.Modules.{Modules, ListLaws, BitmapLaws}
use sertos.Kernel.{Kernel}
use sertos.Scheduler.Ready.{dequeue_ready}
use sertos.Scheduler.Ready.Membership.{IsQueued}
use sertos.Scheduler.Delay.{process_time_slicing, rotate, enter_delay}
use sertos.Scheduler.Delay.Blocking.{enter_delay-eq, enter_delay-Inv}
use sertos.Scheduler.Invariant.{Inv}

-- A task that is blocked although it stands in the ready queue of its priority, which no well-formed
-- scheduler has.
abbrev pub BlockedYetQueued : ℕ → Kernel → Type 0
BlockedYetQueued t k =
    ((k.tcbs t).state ≡ blocked) × (mem t (k.ready_queues (k.tcbs t).priority) ≡ true) × ¬ Inv k

module _ ⦃m : Modules⦄ (lists : ListLaws m) (k : Kernel) (t : ℕ) where
  -- A blocked task is put into the ready queue.
  rotate-blocked :
      (k.tcbs t).state ≡ blocked
      → 1 < length (k.ready_queues (k.tcbs t).priority)
      → mem t (m.linked_list_remove_direct (k.ready_queues (k.tcbs t).priority) t) ≡ false
      → BlockedYetQueued t (rotate k t)
  unfolding rotate
  rotate-blocked s more out =
      let p : ℕ = (k.tcbs t).priority in
      let l = m.linked_list_remove_direct (k.ready_queues p) t in
      let e : ltb 1 (length (k.ready_queues p)) ≡ true = ground (arith, more) in
      rw e (
        ground (arith, s),
        ground (arith, lists.insert_tail_lem l t out, mem-snoc t t l),
        λ broken. ground (
          arith,
          broken.at_ready.queued_state p t,
          lists.insert_tail_lem l t out,
          mem-snoc t t l,
        ),
      )

module _ ⦃m : Modules⦄ (lists : ListLaws m) (bits : BitmapLaws m) (k : Kernel) (t ticks : ℕ)
    (inv : Inv k) where
  abbrev queue : List ℕ
  queue = k.ready_queues (k.tcbs t).priority

  delayed_fields :
      IsQueued k t
      → let k' = enter_delay k t ticks in
        (k'.current_tcb ≡ k.current_tcb)
        × (k'.time_slicing_enabled ≡ k.time_slicing_enabled)
        × ((k'.tcbs t).priority ≡ (k.tcbs t).priority)
        × (k'.ready_queues (k.tcbs t).priority ≡ erase t queue)
  unfolding dequeue_ready
  delayed_fields q = rw (enter_delay-eq lists bits k t ticks inv q) (
    refl,
    refl,
    ground arith,
    rw (==-self (k.tcbs t).priority)
        (lists.remove_lem queue t q.1 (inv.at_ready.queued_distinct (k.tcbs t).priority)),
  )

  -- Round robin comes between the delay of the current task and the switch, when two other tasks are
  -- ready at its priority: the task is blocked and yet stands in the ready queue of its priority, and
  -- the scheduler is ill formed. Of the list of the submodule, whose documentation the repository
  -- does not hold, it is assumed that the removal of a task that it does not hold does not add it.
  pub process_time_slicing-enter_delay :
      ((l : List ℕ) → mem t l ≡ false → mem t (m.linked_list_remove_direct l t) ≡ false)
      → k.time_slicing_enabled ≡ true
      → k.current_tcb ≡ some t
      → IsQueued k t
      → 0 < ticks
      → 2 < length (k.ready_queues (k.tcbs t).priority)
      → BlockedYetQueued t (process_time_slicing (enter_delay k t ticks))
  unfolding process_time_slicing
  process_time_slicing-enter_delay absent on current q pos more =
      let k' = enter_delay k t ticks in
      let (inv', _, s, _, out) = enter_delay-Inv lists bits k t ticks inv q pos in
      let (same_current, same_slicing, same_priority, left) = delayed_fields q in
      subst (BlockedYetQueued t)
        (sym (
          ap (λ b. if not b then k' else elim k'.current_tcb [ none ↦ k' | some u ↦ rotate k' u ])
            (same_slicing ∙ on)
          ∙ ap (λ c. elim c as (λ x. Kernel) [ none ↦ k' | some u ↦ rotate k' u ])
              (same_current ∙ current)))
        (rotate-blocked lists k' t s
          (rw (same_priority, left) (omega (arith, more, length-erase t queue q.1)))
          (rw same_priority (absent (k'.ready_queues (k.tcbs t).priority) out)))
