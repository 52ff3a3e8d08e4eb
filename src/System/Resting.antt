-- ===== src/System/Resting.antt =====
-- Requests that concern a suspended task, which is in no list.
use sertos.Base.{ℕ, ◌<◌, ◌≡◌, refl, ◌≢◌, false, inl, inr, arith, ◌∙◌}
use sertos.Types.{suspended, blocked, max_priorities}
use sertos.Modules.{Modules, ListLaws, BitmapLaws}
use sertos.Kernel.{Kernel, Tcb, set_tcb}
use sertos.Scheduler.Ready.Membership.{set_tcb-Inv}
use sertos.Scheduler.Invariant.{is_runnable}
use sertos.Task.Lifecycle.{change_priority, withdraw}
use sertos.Mutex.{move_priority}
use sertos.System.{IsLive, IsIdle}
use sertos.System.Safe.{Safe, Safe-step}
use sertos.System.Effects.{set_tcb-Apart}
use sertos.System.Requests.{resting-IsDetached, resting-Placed, reprioritise-Safe, inherit-Safe}

module _ (k : Kernel) (t : ℕ) (s : Safe k) where
  -- The control block of a suspended task may be written, if the task rests then too.
  pub rest-Safe :
      (b : Tcb)
      → IsLive k t
      → (k.tcbs t).state ≡ suspended
      → is_runnable b.state ≡ false
      → b.state ≢ blocked
      → b.delay_ticks ≡ (k.tcbs t).delay_ticks
      → b.wait_list ≡ (k.tcbs t).wait_list
      → b.priority < max_priorities
      → Safe (set_tcb k t b)
  rest-Safe b live off rests awake z n low =
      let inv = s.well_formed in
      let d = resting-IsDetached k t inv (rw off refl) (λ x. ground (arith, off, x)) in
      let k' = set_tcb k t b in
      let (inv', _) = set_tcb-Inv k t b inv d (z ∙ d.no_delay) (n ∙ d.no_wait_list) in
      let same : k'.tcbs t ≡ b = ground arith in
      Safe-step t k k' s (set_tcb-Apart t k b) inv' refl
        (rw same (λ run. ground (arith, run, rests)))
        (resting-Placed k' t (rw same low) (rw same rests) (rw same awake))

module _ ⦃m : Modules⦄ (lists : ListLaws m) (bits : BitmapLaws m) (k : Kernel) (t : ℕ) (s : Safe k)
    (p : ℕ) (live : IsLive k t) (low : p < max_priorities) where
  pub reprioritise_idle-Safe : IsIdle k t → Safe (change_priority k t p)
  unfolding change_priority withdraw
  reprioritise_idle-Safe (inl r) = reprioritise-Safe lists bits k t s p live r low
  reprioritise_idle-Safe (inr r) = rw r (
      rest-Safe k t s (record (k.tcbs t) { priority = p; base_priority = p }) live r (rw r refl)
        (λ x. ground (arith, r, x)) refl refl low)

  pub inherit_idle-Safe : IsIdle k t → Safe (move_priority k t p)
  unfolding move_priority
  inherit_idle-Safe (inl r) = inherit-Safe lists bits k t s p live r low
  inherit_idle-Safe (inr r) = rw r (
      rest-Safe k t s (record (k.tcbs t) { priority = p }) live r (rw r refl)
        (λ x. ground (arith, r, x)) refl refl low)
