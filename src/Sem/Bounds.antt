-- ===== src/Sem/Bounds.antt =====
-- The bound on the count of a semaphore of src/sertos_sem.c.
use sertos.Base.{
  ℕ, ◌≤◌, ◌≡◌, refl, sym, subst, false, some, head?, ltb, ltb→lt, ◌==◌, arith, Bool-cases,
  Option-cases, inl, inr, mem-head?,
}
use sertos.Modules.{Modules, ListLaws, BitmapLaws}
use sertos.Kernel.{Kernel, sem_wait}
use sertos.Scheduler.Invariant.{Inv}
use sertos.Scheduler.Objects.{unblock_highest-SameObjects}
use sertos.Scheduler.Wait.Waking.{wait_list_unblock_highest-Inv}
use sertos.Sem.{give_from_isr, keep_token, is_sem}
use sertos.Sem.Tokens.{
  IsBounded, give_from_isr-idle, give_from_isr-waking, keep_token_kept, keep_token_refused,
}

keep_token-IsBounded : (k : Kernel) (h g : ℕ) → IsBounded k g → IsBounded (keep_token k h).0 g
keep_token-IsBounded k h g b =
    elim (Bool-cases (ltb (k.semaphores h).count (k.semaphores h).max_count)) [
      | inl l ↦ rw (keep_token_kept k h (ltb→lt _ _ l)) (elim (Bool-cases (h == g)) [
        | inl e ↦ ground (arith, ltb→lt _ _ l, e)
        | inr e ↦ ground (arith, b, e)
      ])
      | inr l ↦ rw (keep_token_refused k h (ground (arith, l))) b
    ]

module _ ⦃m : Modules⦄ (lists : ListLaws m) (bits : BitmapLaws m) (k : Kernel) (h g : ℕ)
    (inv : Inv k) where
  give_from_isr-invalid : is_sem k h ≡ false → (give_from_isr k (some h)).0 ≡ k
  unfolding give_from_isr
  give_from_isr-invalid e = rw e refl

  -- A token that is given, to a live semaphore or to another handle, takes no semaphore's count past
  -- its maximum.
  pub give_from_isr-IsBounded : IsBounded k g → IsBounded (give_from_isr k (some h)).0 g
  give_from_isr-IsBounded b = elim (Bool-cases (is_sem k h)) [
    | inr e ↦ subst (λ x. IsBounded x g) (sym (give_from_isr-invalid e)) b
    | inl valid ↦ elim (Option-cases (head? (k.wait_lists (sem_wait h)))) [
      | inl e ↦ rw (give_from_isr-idle lists k h valid e) (keep_token-IsBounded k h g b)
      | inr (t, e) ↦
          let (woken, _, _, _, _, _, _, _) =
            wait_list_unblock_highest-Inv lists bits k (sem_wait h) t t inv e
              (mem-head? t (k.wait_lists (sem_wait h)) e) in
          rw (give_from_isr-waking lists k h t valid woken) (
            subst (λ s. (s g).count ≤ (s g).max_count)
              (sym (unblock_highest-SameObjects k (sem_wait h)).same_semaphores) b)
    ]
  ]
