-- ===== src/Mutex/Inheritance.antt =====
-- Priority inheritance of src/sertos_mutex.c.
use sertos.Base.{
  mem, true, ℕ, ◌<◌, ◌≡◌, refl, ◌≢◌, sym, ◌∙◌, false, some, arith, ==-false, ltb, if◌then◌else◌,
  Bool-cases, inl, inr,
}
use sertos.Types.{ready, running, is_ready, max_priorities}
use sertos.Modules.{Modules, ListLaws, BitmapLaws}
use sertos.Kernel.{Kernel, set_tcb}
use sertos.Scheduler.Ready.{remove_ready, dequeue_ready}
use sertos.Scheduler.Ready.Membership.{IsQueued}
use sertos.Scheduler.Ready.Requeue.{requeue-Inv}
use sertos.Scheduler.Invariant.{Inv}
use sertos.Mutex.{move_priority, apply_priority_inheritance, restore_owner_priority}

abbrev pub max : ℕ → ℕ → ℕ
max a b = if ltb a b then b else a

remove_ready_base :
    ⦃m : Modules⦄ (k : Kernel) (t : ℕ)
    → ((remove_ready k (some t)).0.tcbs t).base_priority ≡ (k.tcbs t).base_priority
unfolding remove_ready dequeue_ready
remove_ready_base k t = ground arith

-- Without the move between the queues the queue's priority is not the task's.
reprioritised_broken :
    (k : Kernel) (t p : ℕ)
    → IsQueued k t
    → (k.tcbs t).priority ≢ p
    → ¬ Inv (set_tcb k t (record (k.tcbs t) { priority = p }))
reprioritised_broken k t p q n broken =
    let new : ((set_tcb k t (record (k.tcbs t) { priority = p })).tcbs t).priority ≡ p =
      ground arith in
    n (sym (broken.at_ready.queued_priority (k.tcbs t).priority t q.1) ∙ new)

module _ ⦃m : Modules⦄ (k : Kernel) (t : ℕ) where
  move_priority-running :
      (p : ℕ)
      → (k.tcbs t).state ≡ running
      → move_priority k t p ≡ set_tcb k t (record (k.tcbs t) { priority = p })
  unfolding move_priority
  move_priority-running p s = let f : is_ready (k.tcbs t).state ≡ false = rw s refl in rw f refl

  restore_owner_priority-eq :
      (h : ℕ)
      → (k.tcbs t).state ≡ running
      → (k.tcbs t).priority ≢ (k.mutexes h).original_owner_priority
      → restore_owner_priority k h t
        ≡ set_tcb k t (record (k.tcbs t) { priority = (k.mutexes h).original_owner_priority })
  unfolding restore_owner_priority
  restore_owner_priority-eq h s n =
      rw (==-false (k.tcbs t).priority (k.mutexes h).original_owner_priority n)
        (move_priority-running (k.mutexes h).original_owner_priority s)

module _ ⦃m : Modules⦄ (lists : ListLaws m) (bits : BitmapLaws m) (k : Kernel) (t : ℕ)
    (inv : Inv k) where
  -- A ready task keeps its base priority and moves to the queue of the new priority.
  pub move_priority-Inv :
      (p : ℕ)
      → (k.tcbs t).state ≡ ready
      → IsQueued k t
      → p < max_priorities
      → let k' = move_priority k t p in
        Inv k'
        × IsQueued k' t
        × ((k'.tcbs t).priority ≡ p)
        × ((k'.tcbs t).base_priority ≡ (k.tcbs t).base_priority)
        × ((k'.tcbs t).state ≡ ready)
  unfolding move_priority
  move_priority-Inv p s q low =
      let k1 = (remove_ready k (some t)).0 in
      let kept = remove_ready_base k t in
      let (a, b, c, d, e) = requeue-Inv lists bits k t p (k1.tcbs t).base_priority inv q low in
      rw s (a, b, c, d ∙ kept, e)

  -- When a task locks a mutex whose owner is ready, the owner runs on at the higher of the two
  -- priorities, in the ready queue of that priority, and with the base priority it had; the
  -- scheduler stays well formed.
  pub apply_priority_inheritance-Inv :
      (current : ℕ)
      → (k.tcbs t).state ≡ ready
      → IsQueued k t
      → (k.tcbs current).priority < max_priorities
      → let k' = apply_priority_inheritance k t current in
        Inv k'
        × IsQueued k' t
        × ((k'.tcbs t).priority ≡ max (k.tcbs t).priority (k.tcbs current).priority)
        × ((k'.tcbs t).base_priority ≡ (k.tcbs t).base_priority)
  unfolding apply_priority_inheritance
  apply_priority_inheritance-Inv current s q low =
      elim (Bool-cases (ltb (k.tcbs t).priority (k.tcbs current).priority)) [
        | inl h ↦
            let (inv', q', p, b, _) = move_priority-Inv (k.tcbs current).priority s q low in
            rw (apply_priority_inheritance, h) (inv', q', p, b)
        | inr h ↦ rw (apply_priority_inheritance, h) (inv, q, refl, refl)
      ]

  -- When the boosted priority of an owner that is running is taken back, the priority alone is
  -- written: every ready queue and the bitmap stay as they were, the owner is still in the queue of
  -- the boosted priority, and so the scheduler is ill formed.
  pub restore_owner_priority-running :
      (h : ℕ)
      → (k.tcbs t).state ≡ running
      → IsQueued k t
      → (k.tcbs t).priority ≢ (k.mutexes h).original_owner_priority
      → let k' = restore_owner_priority k h t in
        ((k'.tcbs t).priority ≡ (k.mutexes h).original_owner_priority)
        × (k'.ready_queues ≡ k.ready_queues)
        × (k'.ready_bitmap ≡ k.ready_bitmap)
        × (mem t (k'.ready_queues (k.tcbs t).priority) ≡ true)
        × ¬ Inv k'
  restore_owner_priority-running h s q n = rw (restore_owner_priority-eq k t h s n) (
    ground arith,
    refl,
    refl,
    q.1,
    reprioritised_broken k t (k.mutexes h).original_owner_priority q n,
  )
