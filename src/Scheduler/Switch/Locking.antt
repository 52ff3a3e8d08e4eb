-- ===== src/Scheduler/Switch/Locking.antt =====
-- `sertos_scheduler_lock` and `sertos_scheduler_unlock` of src/sertos_scheduler.c.
use sertos.Base.{
  ◌+◌, ◌^◌, ◌-◌, ◌<◌, ◌≡◌, refl, sym, ap, true, false, ◌==◌, ltb, if◌then◌else◌, arith, Bool-cases,
  inl, inr,
}
use sertos.Types.{u32}
use sertos.Modules.{Modules}
use sertos.Kernel.{Kernel}
use sertos.Port.{Port}
use sertos.Scheduler.Switch.{lock, unlock, switch_context}

module _ ⦃m : Modules⦄ ⦃e : Port⦄ (k : Kernel) where
  -- Under the lock a switch is only noted.
  locked_switch :
      k.lock_nesting + 1 < 2 ^ 32
      → switch_context (lock k)
        ≡ record k { lock_nesting = k.lock_nesting + 1; reschedule_pending = true }
  unfolding lock switch_context
  locked_switch small =
      let n : u32 (k.lock_nesting + 1) ≡ k.lock_nesting + 1 = omega (arith, small) in
      let l : ltb 0 (k.lock_nesting + 1) ≡ true = ground arith in rw (n, l, ltb) refl

  switch_context_locked :
      ltb 0 k.lock_nesting ≡ true → switch_context k ≡ record k { reschedule_pending = true }
  unfolding switch_context
  switch_context_locked l = rw (l, switch_context) refl

  -- The unlock behind it takes the nesting back.
  unlock_noted :
      unlock (record k { lock_nesting = k.lock_nesting + 1; reschedule_pending = true }) ≡ (
        if k.lock_nesting == 0
        then switch_context (record k { reschedule_pending = false })
        else record k { reschedule_pending = true })
  unfolding unlock
  unlock_noted =
      let l : ltb 0 (k.lock_nesting + 1) ≡ true = ground arith in
      let n : k.lock_nesting + 1 - 1 ≡ k.lock_nesting = omega arith in
      elim (Bool-cases (k.lock_nesting == 0)) [
        | inl z ↦ rw (l, n, z) refl
        | inr z ↦ rw (l, n, z) refl
      ]

  -- A switch that is requested under the lock, when none is pending and the nesting does not
  -- overflow, is made by the matching unlock: the state is the one after a switch without the lock,
  -- which under an outer lock only leaves the request pending.
  pub unlock-switch_context-lock :
      k.lock_nesting + 1 < 2 ^ 32
      → k.reschedule_pending ≡ false
      → unlock (switch_context (lock k)) ≡ switch_context k
  unlock-switch_context-lock small pending =
      let back : record k { reschedule_pending = false } ≡ k =
        ap (λ b. record k { reschedule_pending = b }) (sym pending) in
      elim (Bool-cases (k.lock_nesting == 0)) [
        | inl z ↦ rw (locked_switch small, unlock_noted, z, back) refl
        | inr z ↦
            rw (locked_switch small, unlock_noted, z)
              (sym (switch_context_locked (ground (arith, z))))
      ]
