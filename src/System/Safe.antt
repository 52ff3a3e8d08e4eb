-- ===== src/System/Safe.antt =====
-- What holds in every state of the system: the scheduler is well formed, only the current task runs,
-- and no live task is lost.
use sertos.Base.{
  ℕ, ◌<◌, ◌≡◌, ◌≢◌, ◌⊎◌, inl, inr, sym, ◌∙◌, subst, true, some, mem, ◌==◌, ==→eq, arith, Bool-cases,
}
use sertos.Types.{max_priorities, running, blocked}
use sertos.Kernel.{Kernel, WaitList}
use sertos.Scheduler.Invariant.{Inv, SameBut, is_runnable}
use sertos.Scheduler.Ready.Membership.{IsQueued}
use sertos.Scheduler.Switch.Perform.{OnlyCurrentRuns}
use sertos.System.{IsLive}

-- A priority is in range. A ready or running task is in the ready queue of its priority; a blocked
-- one has a delay to count down or waits for an object.
pub record Placed (k : Kernel) (t : ℕ) : Type 0 where
  pub in_range : (k.tcbs t).priority < max_priorities
  pub is_queued : is_runnable (k.tcbs t).state ≡ true → IsQueued k t
  pub wakes :
      (k.tcbs t).state ≡ blocked
      → (0 < (k.tcbs t).delay_ticks) ⊎ ((w : WaitList) × ((k.tcbs t).wait_list ≡ some w))

pub record Safe (k : Kernel) : Type 0 where
  pub well_formed : Inv k
  pub only : OnlyCurrentRuns k
  pub placed : (t : ℕ) → IsLive k t → Placed k t

-- Of the other tasks nothing changes, and those that are queued stay so.
pub record Apart (t : ℕ) (k k' : Kernel) : Type 0 where
  pub others : SameBut t k.tcbs k'.tcbs
  pub still_queued :
      (u p : ℕ) → t ≢ u → mem u (k.ready_queues p) ≡ true → mem u (k'.ready_queues p) ≡ true

pub Apart-trans : (t : ℕ) (i j k : Kernel) → Apart t i j → Apart t j k → Apart t i k
Apart-trans t i j k f g = record {
  others = λ u n. g.others u n ∙ f.others u n;
  still_queued = λ u p n h. g.still_queued u p n (f.still_queued u p n h);
}

-- A task that nothing is done to keeps its place.
pub Placed-apart :
    (k k' : Kernel) (u : ℕ)
    → k'.tcbs u ≡ k.tcbs u
    → ((p : ℕ) → mem u (k.ready_queues p) ≡ true → mem u (k'.ready_queues p) ≡ true)
    → Placed k u
    → Placed k' u
Placed-apart k k' u same still p = record {
  in_range = rw same p.in_range;
  is_queued =
      λ r. let (low, h) = p.is_queued (rw same at r) in rw same (low, still (k.tcbs u).priority h);
  wakes = λ b. rw same (p.wakes (rw same at b));
}

-- A step that works on one task keeps the system safe, if it leaves that task in its place.
pub Safe-step :
    (t : ℕ) (k k' : Kernel)
    → Safe k
    → Apart t k k'
    → Inv k'
    → k'.current_tcb ≡ k.current_tcb
    → (k'.tcbs t).state ≢ running
    → Placed k' t
    → Safe k'
Safe-step t k k' s a inv current stopped here = record {
  well_formed = inv;
  only = λ u r. elim (Bool-cases (t == u)) [
    | inl e ↦ absurd (stopped (subst (λ i. (k'.tcbs i).state ≡ running) (sym (==→eq t u e)) r))
    | inr e ↦ current ∙ s.only u (rw (a.others u (ground (arith, e))) at r)
  ];
  placed = λ u live. elim (Bool-cases (t == u)) [
    | inl e ↦ subst (Placed k') (==→eq t u e) here
    | inr e ↦
        let n : t ≢ u = ground (arith, e) in
        Placed-apart k k' u (a.others u n) (λ p. a.still_queued u p n)
          (s.placed u (rw (a.others u n) at live))
  ];
}
