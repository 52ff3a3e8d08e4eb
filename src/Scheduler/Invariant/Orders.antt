-- ===== src/Scheduler/Invariant/Orders.antt =====
-- How the order of a wait list of src/sertos_scheduler.c survives the writes to a control block.
use sertos.Base.{ℕ, ◌≡◌, refl, false, List, [], ◌∷◌, mem, ◌==◌, ==→eq, arith, inl, inr, Bool-cases}
use sertos.Kernel.{Tcb}
use sertos.Scheduler.Invariant.{SameBut}
use sertos.Scheduler.Wait.Order.{by_priority, all_at_most}

-- The order reads nothing of a task that is not in the list.
all_at_most-other :
    (b c : ℕ → Tcb) (t p : ℕ) (l : List ℕ)
    → SameBut t b c
    → mem t l ≡ false
    → all_at_most c p l ≡ all_at_most b p l
all_at_most-other b c t p [] same out = refl
all_at_most-other b c t p (x ∷ xs) same out =
    ground (arith, same x, all_at_most-other b c t p xs same)

pub by_priority-other :
    (b c : ℕ → Tcb) (t : ℕ) (l : List ℕ)
    → SameBut t b c
    → mem t l ≡ false
    → by_priority c l ≡ by_priority b l
by_priority-other b c t [] same out = refl
by_priority-other b c t (x ∷ xs) same out =
    ground (
      arith,
      same x,
      all_at_most-other b c t (b x).priority xs same,
      by_priority-other b c t xs same,
    )

-- Nor anything but the priority.
all_at_most-keep :
    (b c : ℕ → Tcb) (t p : ℕ) (l : List ℕ)
    → SameBut t b c
    → (c t).priority ≡ (b t).priority
    → all_at_most c p l ≡ all_at_most b p l
all_at_most-keep b c t p [] same e = refl
all_at_most-keep b c t p (x ∷ xs) same e = elim (Bool-cases (t == x)) [
  | inl h ↦ rw (← ==→eq t x h) (ground (arith, all_at_most-keep b c t p xs same e))
  | inr h ↦ ground (arith, same x, all_at_most-keep b c t p xs same e)
]

pub by_priority-keep :
    (b c : ℕ → Tcb) (t : ℕ) (l : List ℕ)
    → SameBut t b c
    → (c t).priority ≡ (b t).priority
    → by_priority c l ≡ by_priority b l
by_priority-keep b c t [] same e = refl
by_priority-keep b c t (x ∷ xs) same e = elim (Bool-cases (t == x)) [
  | inl h ↦ rw (← ==→eq t x h) (
      ground
        (arith, all_at_most-keep b c t (b t).priority xs same e, by_priority-keep b c t xs same e))
  | inr h ↦ ground (
    arith,
    same x,
    all_at_most-keep b c t (b x).priority xs same e,
    by_priority-keep b c t xs same e,
  )
]
