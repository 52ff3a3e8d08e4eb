-- ===== src/System/Requests.antt =====
-- Requests that concern one task: suspension, resumption and priorities.
use sertos.Base.{
  ℕ, ◌<◌, ◌≡◌, refl, ◌≢◌, ◌∙◌, false, some, inl, inr, arith, ltb, Bool-cases, Option-cases, sym,
}
use sertos.Types.{TaskState, ready, blocked, suspended, max_priorities}
use sertos.Modules.{Modules, ListLaws, BitmapLaws}
use sertos.Kernel.{Kernel, set_tcb}
use sertos.Scheduler.Ready.{remove_ready, add_ready, enqueue_ready, dequeue_ready}
use sertos.Scheduler.Ready.Membership.{
  IsQueued, IsDetached, remove_ready-Inv, remove_ready-eq, add_ready-Inv, add_ready-eq, set_tcb-Inv,
}
use sertos.Scheduler.Ready.Requeue.{with_priority}
use sertos.Scheduler.Invariant.{Inv, is_runnable}
use sertos.Scheduler.Objects.{add_ready-SameObjects, remove_ready-SameObjects}
use sertos.Task.Lifecycle.{park, change_priority, withdraw}
use sertos.Task.Priority.{change_priority-Inv}
use sertos.Mutex.{move_priority}
use sertos.Mutex.Inheritance.{move_priority-Inv}
use sertos.System.{IsLive}
use sertos.System.Safe.{Safe, Safe-step, Apart, Apart-trans, Placed}
use sertos.System.Effects.{enqueue_ready-Apart, dequeue_ready-Apart, set_tcb-Apart}

-- A task that is neither runnable nor blocked is in no list.
pub resting-IsDetached :
    (k : Kernel) (t : ℕ)
    → Inv k
    → is_runnable (k.tcbs t).state ≡ false
    → (k.tcbs t).state ≢ blocked
    → IsDetached k t
resting-IsDetached k t inv rests awake = record {
  unqueued = λ p. ground (arith, inv.at_ready.queued_state p t);
  no_delay = elim (Bool-cases (ltb 0 (k.tcbs t).delay_ticks)) [
    | inl e ↦
        absurd (
          awake
            (inv.at_delay.delayed_state t (inv.at_delay.counting_delayed t (ground (arith, e)))))
    | inr e ↦ ground (arith, e)
  ];
  no_wait_list = elim (Option-cases (k.tcbs t).wait_list) [
    | inl e ↦ e
    | inr (w, e) ↦ absurd (awake (inv.at_wait.waiting_state w t (inv.at_wait.linked_waiting w t e)))
  ];
}

-- A queued task that is not blocked is in its place.
pub queued-Placed : (k : Kernel) (t : ℕ) → IsQueued k t → (k.tcbs t).state ≡ ready → Placed k t
queued-Placed k t q r = record {
  in_range = q.0;
  is_queued = λ _. q;
  wakes = λ b. ground (arith, r, b);
}

-- So is one that rests.
pub resting-Placed :
    (k : Kernel) (t : ℕ)
    → (k.tcbs t).priority < max_priorities
    → is_runnable (k.tcbs t).state ≡ false
    → (k.tcbs t).state ≢ blocked
    → Placed k t
resting-Placed k t low rests awake = record {
  in_range = low;
  is_queued = λ r. ground (arith, rests, r);
  wakes = λ b. absurd (awake b);
}

module _ ⦃m : Modules⦄ (lists : ListLaws m) (bits : BitmapLaws m) (k : Kernel) (t : ℕ)
    (inv : Inv k) where
  remove_ready-Apart : IsQueued k t → Apart t k (remove_ready k (some t)).0
  remove_ready-Apart q =
      rw (remove_ready-eq k t q.0 (inv.at_ready.queued_linked (k.tcbs t).priority t q.1))
        (dequeue_ready-Apart lists bits k t inv q)

  remove_ready_priority :
      IsQueued k t → ((remove_ready k (some t)).0.tcbs t).priority ≡ (k.tcbs t).priority
  unfolding dequeue_ready
  remove_ready_priority q =
      rw (remove_ready-eq k t q.0 (inv.at_ready.queued_linked (k.tcbs t).priority t q.1))
        (ground arith)

  pub add_ready-Apart :
      IsDetached k t → (k.tcbs t).priority < max_priorities → Apart t k (add_ready k (some t)).0
  add_ready-Apart d low = rw (add_ready-eq k t low) (enqueue_ready-Apart lists bits k t inv d)

  pub add_ready_state :
      (k.tcbs t).priority < max_priorities → ((add_ready k (some t)).0.tcbs t).state ≡ ready
  unfolding enqueue_ready
  add_ready_state low = rw (add_ready-eq k t low) (ground arith)

  requeue-Apart :
      (p b : ℕ)
      → IsQueued k t
      → p < max_priorities
      → let k1 = (remove_ready k (some t)).0 in
        Apart t k (add_ready (set_tcb k1 t (with_priority (k1.tcbs t) p b)) (some t)).0
  requeue-Apart p b q low =
      let k1 = (remove_ready k (some t)).0 in
      let c = with_priority (k1.tcbs t) p b in
      let k2 = set_tcb k1 t c in
      let (_, inv1, d1) = remove_ready-Inv lists bits k t inv q in
      let (inv2, d2) = set_tcb-Inv k1 t c inv1 d1 d1.no_delay d1.no_wait_list in
      let low2 : (k2.tcbs t).priority < max_priorities = ground (arith, low) in
      rw (add_ready-eq k2 t low2) (
        Apart-trans t k k1 (enqueue_ready k2 t) (remove_ready-Apart q) (
          Apart-trans t k1 k2 (enqueue_ready k2 t) (set_tcb-Apart t k1 c)
            (enqueue_ready-Apart lists bits k2 t inv2 d2)))

module _ ⦃m : Modules⦄ (lists : ListLaws m) (bits : BitmapLaws m) (k : Kernel) (t : ℕ)
    (s : Safe k) where
  pub ready-IsQueued : IsLive k t → (k.tcbs t).state ≡ ready → IsQueued k t
  ready-IsQueued live r = (s.placed t live).is_queued (rw r refl)

  -- A ready task leaves its queue for good, or until it is resumed.
  pub leave-Safe :
      (st : TaskState)
      → is_runnable st ≡ false
      → st ≢ blocked
      → IsLive k t
      → (k.tcbs t).state ≡ ready
      → let k1 = (remove_ready k (some t)).0 in
        Safe (set_tcb k1 t (record (k1.tcbs t) { state = st }))
  leave-Safe st rests awake live r =
      let inv = s.well_formed in
      let q = ready-IsQueued live r in
      let k1 = (remove_ready k (some t)).0 in
      let b = record (k1.tcbs t) { state = st } in
      let k2 = set_tcb k1 t b in
      let (_, inv1, d1) = remove_ready-Inv lists bits k t inv q in
      let (inv2, _) = set_tcb-Inv k1 t b inv1 d1 d1.no_delay d1.no_wait_list in
      let off : (k2.tcbs t).state ≡ st = ground arith in
      Safe-step t k k2 s
        (Apart-trans t k k1 k2 (remove_ready-Apart lists bits k t inv q) (set_tcb-Apart t k1 b))
        inv2 (remove_ready-SameObjects k (some t)).same_current
        (λ run. ground (arith, off, run, rests))
        (resting-Placed k2 t (ground (arith, remove_ready_priority lists bits k t inv q, q.0))
          (rw off rests) (λ e. awake (sym off ∙ e)))

  pub suspend-Safe : IsLive k t → (k.tcbs t).state ≡ ready → Safe (park k t)
  unfolding park withdraw
  suspend-Safe live r = rw r (leave-Safe suspended refl (λ e. ground (arith, e)) live r)

  pub resume-Safe : IsLive k t → (k.tcbs t).state ≡ suspended → Safe (add_ready k (some t)).0
  resume-Safe live off =
      let inv = s.well_formed in
      let low = (s.placed t live).in_range in
      let d = resting-IsDetached k t inv (rw off refl) (λ b. ground (arith, off, b)) in
      let (_, inv', q) = add_ready-Inv lists bits k t inv d low in
      let r = add_ready_state lists bits k t inv low in
      Safe-step t k (add_ready k (some t)).0 s (add_ready-Apart lists bits k t inv d low) inv'
        (add_ready-SameObjects k (some t)).same_current (λ run. ground (arith, r, run))
        (queued-Placed (add_ready k (some t)).0 t q r)

  pub reprioritise-Safe :
      (p : ℕ)
      → IsLive k t
      → (k.tcbs t).state ≡ ready
      → p < max_priorities
      → Safe (change_priority k t p)
  unfolding change_priority withdraw
  reprioritise-Safe p live r low =
      let inv = s.well_formed in
      let q = ready-IsQueued live r in
      let k1 = (remove_ready k (some t)).0 in
      let k2 = set_tcb k1 t (with_priority (k1.tcbs t) p p) in
      let (inv', q', _, _, r') = change_priority-Inv lists bits k t p inv r q low in
      Safe-step t k (change_priority k t p) s (rw r (requeue-Apart lists bits k t inv p p q low))
        inv'
        (rw r (
          (add_ready-SameObjects k2 (some t)).same_current
          ∙ (remove_ready-SameObjects k (some t)).same_current))
        (λ run. ground (arith, r', run)) (queued-Placed (change_priority k t p) t q' r')

  pub inherit-Safe :
      (p : ℕ)
      → IsLive k t
      → (k.tcbs t).state ≡ ready
      → p < max_priorities
      → Safe (move_priority k t p)
  unfolding move_priority
  inherit-Safe p live r low =
      let inv = s.well_formed in
      let q = ready-IsQueued live r in
      let k1 = (remove_ready k (some t)).0 in
      let b = (k1.tcbs t).base_priority in
      let k2 = set_tcb k1 t (with_priority (k1.tcbs t) p b) in
      let (inv', q', _, _, r') = move_priority-Inv lists bits k t inv p r q low in
      Safe-step t k (move_priority k t p) s (rw r (requeue-Apart lists bits k t inv p b q low)) inv'
        (rw r (
          (add_ready-SameObjects k2 (some t)).same_current
          ∙ (remove_ready-SameObjects k (some t)).same_current))
        (λ run. ground (arith, r', run)) (queued-Placed (move_priority k t p) t q' r')
