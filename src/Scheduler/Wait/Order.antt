-- ===== src/Scheduler/Wait/Order.antt =====
-- Where `insert_wait_list_priority` of src/sertos_scheduler.c puts a task.
use sertos.Base.{
  ℕ, ◌<◌, ◌≤◌, ◌≡◌, refl, Bool, true, false, ◌||◌, ◌&&◌, none, some, List, [], ◌∷◌, ◌++◌, mem,
  head?, ==→eq, distinct, erase, ltb, leb, ◌==◌, if◌then◌else◌, arith, inl, inr, Option-cases,
  Bool-cases,
}
use sertos.Modules.{Modules, ListLaws}
use sertos.Kernel.{Tcb}
use sertos.Scheduler.Wait.{insert_before, insert_priority}

abbrev pub all_at_least : (ℕ → Tcb) → ℕ → List ℕ → Bool
all_at_least b p [] = true
all_at_least b p (t ∷ ts) = leb p (b t).priority && all_at_least b p ts

abbrev pub all_below : (ℕ → Tcb) → ℕ → List ℕ → Bool
all_below b p [] = true
all_below b p (t ∷ ts) = ltb (b t).priority p && all_below b p ts

abbrev pub all_at_most : (ℕ → Tcb) → ℕ → List ℕ → Bool
all_at_most b p [] = true
all_at_most b p (t ∷ ts) = leb (b t).priority p && all_at_most b p ts

-- Descending priorities.
abbrev pub by_priority : (ℕ → Tcb) → List ℕ → Bool
by_priority b [] = true
by_priority b (t ∷ ts) = all_at_most b (b t).priority ts && by_priority b ts

-- The insertion as one recursion.
pub insert_sorted : (ℕ → Tcb) → ℕ → List ℕ → List ℕ
insert_sorted b t [] = t ∷ []
insert_sorted b t (c ∷ cs) =
    if ltb (b c).priority (b t).priority then t ∷ c ∷ cs else c ∷ insert_sorted b t cs

insert_before-none :
    (b : ℕ → Tcb) (t : ℕ) (l : List ℕ)
    → insert_before b t l ≡ none
    → insert_sorted b t l ≡ l ++ t ∷ []
unfolding insert_before insert_sorted
insert_before-none b t [] h = refl
insert_before-none b t (c ∷ cs) h = ground (arith, insert_before-none b t cs)

insert_before-some :
    (b : ℕ → Tcb) (t : ℕ) (l l' : List ℕ) → insert_before b t l ≡ some l' → insert_sorted b t l ≡ l'
unfolding insert_before insert_sorted
insert_before-some b t [] l' h = ground arith
insert_before-some b t (c ∷ cs) l' h = elim (Option-cases (insert_before b t cs)) [
  | inl e ↦ ground (arith, e)
  | inr (r, e) ↦ ground (arith, e, insert_before-some b t cs r e)
]

pub insert_priority-eq :
    ⦃m : Modules⦄ (lists : ListLaws m) (b : ℕ → Tcb) (t : ℕ) (l : List ℕ)
    → mem t l ≡ false
    → insert_priority b t l ≡ insert_sorted b t l
unfolding insert_priority
insert_priority-eq lists b t l out = elim (Option-cases (insert_before b t l)) [
  | inl e ↦ ground (arith, e, insert_before-none b t l e, lists.insert_tail_lem l t out)
  | inr (r, e) ↦ ground (arith, e, insert_before-some b t l r e)
]

module _ (b : ℕ → Tcb) (t : ℕ) where
  pub mem-insert_sorted : (u : ℕ) (l : List ℕ) → mem u (insert_sorted b t l) ≡ (t == u || mem u l)
  unfolding insert_sorted
  mem-insert_sorted u [] = refl
  mem-insert_sorted u (c ∷ cs) = ground (arith, mem-insert_sorted u cs)

  pub distinct-insert_sorted :
      (l : List ℕ) → mem t l ≡ false → distinct l ≡ true → distinct (insert_sorted b t l) ≡ true
  unfolding insert_sorted
  distinct-insert_sorted [] out d = refl
  distinct-insert_sorted (c ∷ cs) out d =
      ground (arith, distinct-insert_sorted cs, mem-insert_sorted c cs)

  all_at_most_mono :
      (p q : ℕ) (l : List ℕ) → p ≤ q → all_at_most b p l ≡ true → all_at_most b q l ≡ true
  all_at_most_mono p q [] h a = refl
  all_at_most_mono p q (x ∷ xs) h a = ground (arith, all_at_most_mono p q xs h)

  all_at_most-insert_sorted :
      (p : ℕ) (l : List ℕ)
      → (b t).priority ≤ p
      → all_at_most b p l ≡ true
      → all_at_most b p (insert_sorted b t l) ≡ true
  unfolding insert_sorted
  all_at_most-insert_sorted p [] h a = ground arith
  all_at_most-insert_sorted p (x ∷ xs) h a = ground (arith, all_at_most-insert_sorted p xs h)

  pub by_priority-insert_sorted :
      (l : List ℕ) → by_priority b l ≡ true → by_priority b (insert_sorted b t l) ≡ true
  unfolding insert_sorted
  by_priority-insert_sorted [] o = refl
  by_priority-insert_sorted (x ∷ xs) o = ground (
    arith,
    by_priority-insert_sorted xs,
    all_at_most_mono (b x).priority (b t).priority xs,
    all_at_most-insert_sorted (b x).priority xs,
  )

  all_below_of_at_most :
      (p q : ℕ) (l : List ℕ) → p < q → all_at_most b p l ≡ true → all_below b q l ≡ true
  all_below_of_at_most p q [] h a = refl
  all_below_of_at_most p q (x ∷ xs) h a = ground (arith, all_below_of_at_most p q xs h)

  insert_sorted-split :
      (l : List ℕ)
      → by_priority b l ≡ true
      → (before after : List ℕ) × (l ≡ before ++ after)
        × (insert_sorted b t l ≡ before ++ t ∷ after)
        × (all_at_least b (b t).priority before ≡ true)
        × (all_below b (b t).priority after ≡ true)
  unfolding insert_sorted
  insert_sorted-split [] o = ([], [], refl, refl, refl, refl)
  insert_sorted-split (x ∷ xs) o = elim (Bool-cases (ltb (b x).priority (b t).priority)) [
    | inl h ↦ (
      [],
      x ∷ xs,
      refl,
      ground arith,
      refl,
      ground (arith, all_below_of_at_most (b x).priority (b t).priority xs),
    )
    | inr h ↦
        let (before, after, e, f, p, q) = insert_sorted-split xs (ground arith) in
        (x ∷ before, after, ground (arith, e), ground (arith, f), ground (arith, p), q)
  ]

module _ ⦃m : Modules⦄ (lists : ListLaws m) (b : ℕ → Tcb) (t : ℕ) (l : List ℕ) where
  -- A task that joins a wait list in descending order of priority stands behind all tasks of at
  -- least its priority and in front of all tasks of a lower one; the others keep their places.
  pub insert_priority-split :
      mem t l ≡ false
      → by_priority b l ≡ true
      → (before after : List ℕ) × (l ≡ before ++ after)
        × (insert_priority b t l ≡ before ++ t ∷ after)
        × (all_at_least b (b t).priority before ≡ true)
        × (all_below b (b t).priority after ≡ true)
  insert_priority-split out o =
      rw (insert_priority-eq lists b t l out) (insert_sorted-split b t l o)

-- The order survives the removal of a task.
all_at_most-erase :
    (b : ℕ → Tcb) (p t : ℕ) (l : List ℕ)
    → all_at_most b p l ≡ true
    → all_at_most b p (erase t l) ≡ true
all_at_most-erase b p t [] a = refl
all_at_most-erase b p t (x ∷ xs) a = ground (arith, all_at_most-erase b p t xs)

pub by_priority-erase :
    (b : ℕ → Tcb) (t : ℕ) (l : List ℕ) → by_priority b l ≡ true → by_priority b (erase t l) ≡ true
by_priority-erase b t [] o = refl
by_priority-erase b t (x ∷ xs) o =
    ground (arith, by_priority-erase b t xs, all_at_most-erase b (b x).priority t xs)

all_at_most-mem :
    (b : ℕ → Tcb) (p u : ℕ) (l : List ℕ)
    → all_at_most b p l ≡ true
    → mem u l ≡ true
    → (b u).priority ≤ p
all_at_most-mem b p u [] a h = ground arith
all_at_most-mem b p u (x ∷ xs) a h = elim (Bool-cases (x == u)) [
  | inl e ↦ rw (← ==→eq x u e) (ground arith)
  | inr e ↦ all_at_most-mem b p u xs (ground arith) (ground arith)
]

-- The first of a list in descending order has the highest priority.
pub head-highest :
    (b : ℕ → Tcb) (l : List ℕ) (t u : ℕ)
    → by_priority b l ≡ true
    → head? l ≡ some t
    → mem u l ≡ true
    → (b u).priority ≤ (b t).priority
head-highest b [] t u o e h = ground arith
head-highest b (x ∷ xs) t u o e h = elim (Bool-cases (x == u)) [
  | inl d ↦ rw (← ==→eq x u d) (ground arith)
  | inr d ↦ ground (arith, all_at_most-mem b (b x).priority u xs)
]
