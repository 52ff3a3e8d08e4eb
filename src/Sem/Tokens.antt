-- ===== src/Sem/Tokens.antt =====
-- The tokens of a semaphore of src/sertos_sem.c.
use sertos.Base.{
  ℕ, ◌+◌, ◌-◌, ◌≤◌, ◌<◌, ◌≡◌, refl, ap, fun_ext, ◌∙◌, ◌⊎◌, inl, inr, true, false, none, some, head?,
  erase, ◌==◌, ==→eq, ==-self, ltb, ltb→lt, arith, Bool-cases, Option-cases, mem-head?,
}
use sertos.Types.{ok, resource_busy, ready}
use sertos.Modules.{Modules, ListLaws, BitmapLaws}
use sertos.Kernel.{Kernel, Semaphore, sem_wait}
use sertos.Port.{Port}
use sertos.Scheduler.Invariant.{Inv}
use sertos.Scheduler.Objects.{unblock_highest-SameObjects}
use sertos.Scheduler.Wait.{wait_list_unblock_highest}
use sertos.Scheduler.Wait.Waking.{wait_list_unblock_highest-Inv, wait_list_unblock_highest-empty}
use sertos.Sem.{give, give_from_isr, take, keep_token, is_sem, set_sem, higher_prio_woken}

module _ ⦃m : Modules⦄ (lists : ListLaws m) (k : Kernel) (h : ℕ) where
  -- Nobody waits: the token is kept or refused.
  pub give_from_isr-idle :
      is_sem k h ≡ true
      → head? (k.wait_lists (sem_wait h)) ≡ none
      → give_from_isr k (some h) ≡ (let (k', s) = keep_token k h in (k', false, s))
  unfolding give_from_isr
  give_from_isr-idle valid e =
      let empty = wait_list_unblock_highest-empty lists k (sem_wait h) e in
      rw (valid, ap (λ r. r.1) empty, ap (λ r. r.0) empty) refl

  pub give_from_isr-waking :
      (t : ℕ)
      → is_sem k h ≡ true
      → (wait_list_unblock_highest k (some (sem_wait h))).1 ≡ some t
      → let k' = (wait_list_unblock_highest k (some (sem_wait h))).0 in
        give_from_isr k (some h) ≡ (k', higher_prio_woken k' t k'.current_tcb, ok)
  unfolding give_from_isr
  give_from_isr-waking t valid e = rw (valid, e) refl

-- The semaphore's count does not exceed its maximum.
abbrev pub IsBounded : Kernel → ℕ → Type 0
IsBounded k h = (k.semaphores h).count ≤ (k.semaphores h).max_count

module _ (k : Kernel) (h : ℕ) where
  pub keep_token_kept :
      (k.semaphores h).count < (k.semaphores h).max_count
      → keep_token k h
        ≡ (set_sem k h (record (k.semaphores h) { count = (k.semaphores h).count + 1 }), ok)
  unfolding keep_token
  keep_token_kept l = ground arith

  pub keep_token_refused :
      (k.semaphores h).max_count ≤ (k.semaphores h).count → keep_token k h ≡ (k, resource_busy)
  unfolding keep_token
  keep_token_refused l = ground arith

module _ ⦃m : Modules⦄ (lists : ListLaws m) (bits : BitmapLaws m) (k : Kernel) (h : ℕ)
    (inv : Inv k) where
  -- A token that is given to a semaphore goes to the first task that waits, which is then ready,
  -- and the counts of all semaphores stay. If nobody waits, it is counted below the maximum, and
  -- refused at the maximum, with nothing changed.
  pub give_from_isr_cases :
      is_sem k h ≡ true
      → let (k', _, status) = give_from_isr k (some h) in
        ((t : ℕ) × (head? (k.wait_lists (sem_wait h)) ≡ some t)
          × (status ≡ ok)
          × ((k'.tcbs t).state ≡ ready)
          × (k'.wait_lists (sem_wait h) ≡ erase t (k.wait_lists (sem_wait h)))
          × (k'.semaphores ≡ k.semaphores))
        ⊎ ((head? (k.wait_lists (sem_wait h)) ≡ none)
            × ((k.semaphores h).count < (k.semaphores h).max_count)
            × (status ≡ ok)
            × ((k'.semaphores h).count ≡ (k.semaphores h).count + 1))
        ⊎ ((head? (k.wait_lists (sem_wait h)) ≡ none)
            × ((k.semaphores h).max_count ≤ (k.semaphores h).count)
            × (status ≡ resource_busy)
            × (k' ≡ k))
  give_from_isr_cases valid = elim (Option-cases (head? (k.wait_lists (sem_wait h)))) [
    | inl e ↦ elim (Bool-cases (ltb (k.semaphores h).count (k.semaphores h).max_count)) [
      | inl l ↦
          rw (give_from_isr-idle lists k h valid e, keep_token_kept k h (ltb→lt _ _ l))
            (inr (inl (e, ltb→lt _ _ l, refl, ground arith)))
      | inr l ↦
          rw (give_from_isr-idle lists k h valid e, keep_token_refused k h (ground (arith, l)))
            (inr (inr (e, ground (arith, l), refl, refl)))
    ]
    | inr (t, e) ↦
        let g = mem-head? t (k.wait_lists (sem_wait h)) e in
        let (woken, _, _, _, is_ready, _, _, left) =
          wait_list_unblock_highest-Inv lists bits k (sem_wait h) t t inv e g in
        rw (give_from_isr-waking lists k h t valid woken) (
          inl (
            t,
            e,
            refl,
            is_ready,
            left,
            (unblock_highest-SameObjects k (sem_wait h)).same_semaphores,
          ))
  ]

-- Two writes to one semaphore, of which the second writes the first value back.
set_sem-back : (k : Kernel) (h : ℕ) (s : Semaphore) → set_sem (set_sem k h s) h (k.semaphores h) ≡ k
set_sem-back k h s =
    ap (λ f. record k { semaphores = f })
      (fun_ext (λ i. elim (Bool-cases (h == i)) [
        | inl e ↦ rw (e, ← ==→eq h i e) refl
        | inr e ↦ rw e refl
      ]))

module _ ⦃m : Modules⦄ ⦃e : Port⦄ (lists : ListLaws m) (k : Kernel) (h ticks : ℕ) where
  give-idle :
      is_sem k h ≡ true
      → head? (k.wait_lists (sem_wait h)) ≡ none
      → give k (some h) ≡ keep_token k h
  unfolding give
  give-idle valid n =
      let empty = wait_list_unblock_highest-empty lists k (sem_wait h) n in
      rw (valid, ap (λ r. r.1) empty, ap (λ r. r.0) empty) refl

  take-counted :
      is_sem k h ≡ true
      → 0 < (k.semaphores h).count
      → take k (some h) ticks
        ≡ (set_sem k h (record (k.semaphores h) { count = (k.semaphores h).count - 1 }), ok)
  unfolding take
  take-counted valid l =
      let b : ltb 0 (k.semaphores h).count ≡ true = ground arith in rw (valid, b) refl

module _ ⦃m : Modules⦄ ⦃e : Port⦄ (lists : ListLaws m) (k : Kernel) (h ticks : ℕ) where
  taken_back :
      is_sem k h ≡ true
      → take
          (set_sem k h (record (k.semaphores h) { count = (k.semaphores h).count + 1 }))
          (some h)
          ticks
        ≡ (k, ok)
  taken_back valid =
      let s : Semaphore = record (k.semaphores h) { count = (k.semaphores h).count + 1 } in
      let k' = set_sem k h s in
      let mine : k'.semaphores h ≡ s = ground arith in
      let n : (k.semaphores h).count + 1 - 1 ≡ (k.semaphores h).count = omega arith in
      take-counted lists k' h ticks (ground (arith, valid)) (ground arith)
      ∙ (rw (==-self h, n) (ap (λ x. (x, ok)) (set_sem-back k h s)))

  -- A token that is given to a semaphore for which nobody waits, below its maximum, can be taken
  -- again, whatever the timeout, and the state is then as before.
  pub take-give :
      is_sem k h ≡ true
      → head? (k.wait_lists (sem_wait h)) ≡ none
      → (k.semaphores h).count < (k.semaphores h).max_count
      → let (k', status) = give k (some h) in (status ≡ ok) × (take k' (some h) ticks ≡ (k, ok))
  take-give valid n l =
      rw (give-idle lists k h ticks valid n, keep_token_kept k h l) (refl, taken_back valid)
