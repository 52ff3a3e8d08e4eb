-- ===== src/Mutex/Recursion.antt =====
-- Recursive locking of src/sertos_mutex.c.
use sertos.Base.{
  ℕ, ◌+◌, ◌-◌, ◌^◌, ◌<◌, ◌≡◌, refl, ◌∙◌, ap, fun_ext, true, some, arith, ◌==◌, ==→eq, ==-self, ltb,
  Bool-cases, inl, inr, is_handle,
}
use sertos.Types.{ok, u32}
use sertos.Modules.{Modules}
use sertos.Kernel.{Kernel, Mutex}
use sertos.Port.{Port}
use sertos.Mutex.{lock, unlock, lock_as, lock_owned, lock_from, unlock_as, is_mutex, set_mutex}

-- Two writes to one mutex, of which the second writes the first value back.
set_mutex-back : (k : Kernel) (h : ℕ) (x : Mutex) → set_mutex (set_mutex k h x) h (k.mutexes h) ≡ k
set_mutex-back k h x =
    ap (λ f. record k { mutexes = f })
      (fun_ext (λ i. elim (Bool-cases (h == i)) [
        | inl e ↦ rw (e, ← ==→eq h i e) refl
        | inr e ↦ rw e refl
      ]))

module _ ⦃m : Modules⦄ ⦃e : Port⦄ (k : Kernel) (h t : ℕ) where
  lock-valid :
      (ticks : ℕ) → is_mutex k h ≡ true → lock k (some h) ticks ≡ lock_as k h k.current_tcb ticks
  unfolding lock
  lock-valid ticks valid = rw valid refl

  lock_as-owned :
      (o ticks : ℕ)
      → (k.mutexes h).owner ≡ some o
      → lock_as k h (some t) ticks ≡ lock_owned k h t o ticks
  unfolding lock_as lock_from
  lock_as-owned o ticks owner = ap (lock_from k h t ticks) owner

  lock_owned_self :
      (ticks : ℕ)
      → (k.mutexes h).lock_count + 1 < 2 ^ 32
      → lock_owned k h t t ticks
        ≡ (set_mutex k h (record (k.mutexes h) { lock_count = (k.mutexes h).lock_count + 1 }), ok)
  unfolding lock_owned
  lock_owned_self ticks small =
      let n : u32 ((k.mutexes h).lock_count + 1) ≡ (k.mutexes h).lock_count + 1 =
        omega (arith, small) in
      rw (==-self t, n) refl

  unlock-valid : is_mutex k h ≡ true → unlock k (some h) ≡ unlock_as k h k.current_tcb
  unfolding unlock
  unlock-valid valid = rw valid refl

  unlock_as-nested :
      is_handle (k.mutexes h).owner t ≡ true
      → 1 < (k.mutexes h).lock_count
      → (k.mutexes h).lock_count < 2 ^ 32
      → unlock_as k h (some t)
        ≡ (set_mutex k h (record (k.mutexes h) { lock_count = (k.mutexes h).lock_count - 1 }), ok)
  unfolding unlock_as
  unlock_as-nested mine nested small =
      let n : u32 ((k.mutexes h).lock_count + 2 ^ 32 - 1) ≡ (k.mutexes h).lock_count - 1 =
        omega (arith, nested, small) in
      let l : ltb 0 ((k.mutexes h).lock_count - 1) ≡ true = ground (arith, nested) in
      rw (mine, n, ==-self h, l) refl

  lock-again :
      (ticks : ℕ)
      → is_mutex k h ≡ true
      → k.current_tcb ≡ some t
      → (k.mutexes h).owner ≡ some t
      → (k.mutexes h).lock_count + 1 < 2 ^ 32
      → lock k (some h) ticks
        ≡ (set_mutex k h (record (k.mutexes h) { lock_count = (k.mutexes h).lock_count + 1 }), ok)
  lock-again ticks valid current owner small =
      lock-valid ticks valid
      ∙ ap (λ c. lock_as k h c ticks) current
      ∙ lock_as-owned t ticks owner
      ∙ lock_owned_self ticks small

  unlock-nested :
      is_mutex k h ≡ true
      → k.current_tcb ≡ some t
      → (k.mutexes h).owner ≡ some t
      → 1 < (k.mutexes h).lock_count
      → (k.mutexes h).lock_count < 2 ^ 32
      → unlock k (some h)
        ≡ (set_mutex k h (record (k.mutexes h) { lock_count = (k.mutexes h).lock_count - 1 }), ok)
  unlock-nested valid current owner nested small =
      unlock-valid valid
      ∙ ap (unlock_as k h) current
      ∙ unlock_as-nested (rw owner (==-self t)) nested small

module _ ⦃m : Modules⦄ ⦃e : Port⦄ (k : Kernel) (h t ticks : ℕ) where
  -- A task that holds a mutex, fewer times than the counter can count, locks it again at once; the
  -- matching unlock gives nothing away, and the state is then as before.
  pub unlock-lock :
      is_mutex k h ≡ true
      → k.current_tcb ≡ some t
      → (k.mutexes h).owner ≡ some t
      → 0 < (k.mutexes h).lock_count
      → (k.mutexes h).lock_count + 1 < 2 ^ 32
      → let (k', status) = lock k (some h) ticks in (status ≡ ok) × (unlock k' (some h) ≡ (k, ok))
  unlock-lock valid current owner held small =
      let x : Mutex = record (k.mutexes h) { lock_count = (k.mutexes h).lock_count + 1 } in
      let k' = set_mutex k h x in
      let n : (k.mutexes h).lock_count + 1 - 1 ≡ (k.mutexes h).lock_count = omega arith in
      rw (lock-again k h t ticks valid current owner small) (
        refl,
        unlock-nested k' h t (ground (arith, valid)) current (rw (==-self h) owner)
              (ground (arith, held)) (ground (arith, small))
            ∙ (rw (==-self h, n) (ap (λ y. (y, ok)) (set_mutex-back k h x))),
      )
