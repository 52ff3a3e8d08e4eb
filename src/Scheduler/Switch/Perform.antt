-- ===== src/Scheduler/Switch/Perform.antt =====
-- `sertos_scheduler_perform_switch` of src/sertos_scheduler.c, with the accounting of
-- src/sertos_stats.c.
use sertos.Base.{
  ℕ, ◌≡◌, refl, sym, ◌∙◌, ◌≢◌, true, Option, none, some, mem, ==→eq, arith, Bool-cases, inl, inr,
}
use sertos.Types.{TaskState, is_running_state, ready, running}
use sertos.Modules.{Modules, ListLaws, BitmapLaws}
use sertos.Kernel.{Kernel, Tcb}
use sertos.Stats.Accounting.{on_switch}
use sertos.Scheduler.Ready.{select_next_task}
use sertos.Scheduler.Switch.{perform_switch, preempt, dispatch}
use sertos.Scheduler.Invariant.{Inv, is_runnable}
use sertos.Scheduler.Invariant.Same.{SameScheduling, SameScheduling-refl, Inv-same}
use sertos.Scheduler.Switch.Kept.{Kept, SameScheduling-trans, set_tcb-same, on_switch-Kept}
use sertos.Scheduler.Ready.Choice.{select_next_task-mem}

-- No task but the current one is running.
abbrev pub OnlyCurrentRuns : Kernel → Type 0
OnlyCurrentRuns k = (u : ℕ) → (k.tcbs u).state ≡ running → k.current_tcb ≡ some u

-- A running task that becomes ready, and a runnable one that becomes running.
restate :
    (b : Tcb) (s : TaskState)
    → is_runnable b.state ≡ true
    → is_runnable s ≡ true
    → SameScheduling b (record b { state = s })
restate b s r e = record {
  same_priority = refl;
  same_state_node = refl;
  same_event_node = refl;
  same_delay_ticks = refl;
  same_wait_list = refl;
  still_runnable = λ h. e;
  still_blocked = λ h. ground (arith, r, h);
  was_runnable = λ h. r;
  was_blocked = λ h. ground (arith, e, h);
  same_magic = refl;
}

module _ ⦃m : Modules⦄ (k : Kernel) (inv : Inv k) where
  preempt-Inv :
      (prev : Option ℕ)
      → ((u : ℕ) → (k.tcbs u).state ≡ running → prev ≡ some u)
      → let k' = preempt k prev in
        Inv k'
        × (k'.ready_queues ≡ k.ready_queues)
        × (k'.ready_bitmap ≡ k.ready_bitmap)
        × ((u : ℕ) → (k'.tcbs u).state ≢ running)
  unfolding preempt
  preempt-Inv none only = (inv, refl, refl, λ u h. ground (arith, only u h))
  preempt-Inv (some t) only = elim (Bool-cases (is_running_state (k.tcbs t).state)) [
    | inl e ↦ rw e (
      Inv-same k _ inv (set_tcb-same k t _ (restate (k.tcbs t) ready (ground (arith, e)) refl)) refl
          refl refl refl,
      refl,
      refl,
      λ u h. ground (arith, only u),
    )
    | inr e ↦ rw e (inv, refl, refl, λ u h. ground (arith, only u h))
  ]

  dispatch-Inv :
      (t : ℕ)
      → mem t (k.ready_queues (k.tcbs t).priority) ≡ true
      → ((u : ℕ) → (k.tcbs u).state ≢ running)
      → let k' = dispatch k t in
        Inv k' × OnlyCurrentRuns k' × (k'.current_tcb ≡ some t) × ((k'.tcbs t).state ≡ running)
  unfolding dispatch
  dispatch-Inv t h none_runs = (
    Inv-same k _ inv
        (set_tcb-same k t _
          (restate (k.tcbs t) running (inv.at_ready.queued_state (k.tcbs t).priority t h) refl))
        refl refl refl refl,
    λ u g. ground (arith, none_runs u, ==→eq t u),
    refl,
    ground arith,
  )

pub Kept-Inv : (k k' : Kernel) → Kept k k' → Inv k → OnlyCurrentRuns k → Inv k' × OnlyCurrentRuns k'
Kept-Inv k k' kept inv only = (
  Inv-same k k' inv kept.same_tcb kept.lists.same_ready_queues kept.lists.same_ready_bitmap
      kept.lists.same_delay_list kept.lists.same_wait_lists,
  λ u h. kept.same_current ∙ only u (sym (kept.same_state u) ∙ h),
)

module _ ⦃m : Modules⦄ (lists : ListLaws m) (bits : BitmapLaws m) (k : Kernel) (t : ℕ)
    (inv : Inv k) where
  -- When a task is chosen, the switch makes it the current one and running, and no other task is
  -- running then, if none but the current one was before; the scheduler stays well formed.
  pub perform_switch-Inv :
      OnlyCurrentRuns k
      → select_next_task k ≡ some t
      → let k' = perform_switch k in
        Inv k' × OnlyCurrentRuns k' × (k'.current_tcb ≡ some t) × ((k'.tcbs t).state ≡ running)
  unfolding perform_switch
  perform_switch-Inv only e =
      let k1 = preempt k k.current_tcb in
      let k2 = dispatch k1 t in
      let (inv1, queues, bitmap, none_runs) = preempt-Inv k inv k.current_tcb only in
      let p : ℕ = (k.tcbs t).priority in
      let h : mem t (k1.ready_queues p) ≡ true =
        rw queues ((select_next_task-mem lists bits k inv.at_ready t e).0) in
      let (inv2, only2, current, run) =
        dispatch-Inv k1 inv1 t (rw (inv1.at_ready.queued_priority p t h) h) none_runs in
      let kept = on_switch-Kept k2 k.current_tcb (some t) in
      let (inv3, only3) = Kept-Inv k2 _ kept inv2 only2 in
      rw (e, perform_switch) (inv3, only3, kept.same_current ∙ current, kept.same_state t ∙ run)

-- The states of two tasks may change in a switch, between ready and running; the queues stay.
abbrev pub SameQueueing : Kernel → Kernel → Type 0
SameQueueing k k' =
    (k'.ready_queues ≡ k.ready_queues) × ((u : ℕ) → SameScheduling (k.tcbs u) (k'.tcbs u))

SameQueueing-trans : (i j k : Kernel) → SameQueueing i j → SameQueueing j k → SameQueueing i k
SameQueueing-trans i j k (q, f) (r, g) =
    (r ∙ q, λ u. SameScheduling-trans (i.tcbs u) (j.tcbs u) (k.tcbs u) (f u) (g u))

preempt-SameQueueing : (k : Kernel) (prev : Option ℕ) → SameQueueing k (preempt k prev)
unfolding preempt
preempt-SameQueueing k none = (refl, λ u. SameScheduling-refl (k.tcbs u))
preempt-SameQueueing k (some t) = elim (Bool-cases (is_running_state (k.tcbs t).state)) [
  | inl e ↦ rw e (refl, set_tcb-same k t _ (restate (k.tcbs t) ready (ground (arith, e)) refl))
  | inr e ↦ rw e (refl, λ u. SameScheduling-refl (k.tcbs u))
]

dispatch-SameQueueing :
    (k : Kernel) (t : ℕ) → is_runnable (k.tcbs t).state ≡ true → SameQueueing k (dispatch k t)
unfolding dispatch
dispatch-SameQueueing k t r = (refl, set_tcb-same k t _ (restate (k.tcbs t) running r refl))

pub perform_switch-SameQueueing :
    ⦃m : Modules⦄ (k : Kernel) (t : ℕ)
    → select_next_task k ≡ some t
    → is_runnable (k.tcbs t).state ≡ true
    → SameQueueing k (perform_switch k)
unfolding perform_switch
perform_switch-SameQueueing k t e r =
    let k1 = preempt k k.current_tcb in
    let k2 = dispatch k1 t in
    let first = preempt-SameQueueing k k.current_tcb in
    let k3 = on_switch k2 k.current_tcb (some t) in
    let kept = on_switch-Kept k2 k.current_tcb (some t) in
    rw (e, perform_switch)
      (SameQueueing-trans k k1 k3 first (
        SameQueueing-trans k1 k2 k3 (dispatch-SameQueueing k1 t ((first.1 t).still_runnable r))
          (kept.lists.same_ready_queues, kept.same_tcb)))
