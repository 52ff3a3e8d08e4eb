-- ===== src/Scheduler/WakeAll/Emptied.antt =====
-- A wait list of which every task is woken, with the loop that src/sertos_sem.c and the other IPC
-- objects share.
use sertos.Base.{
  ℕ, zero, suc, ◌<◌, ◌≡◌, refl, ◌∙◌, true, false, ◌&&◌, ap, not, none, some, List, [], ◌∷◌, mem,
  length, head?, erase, distinct, ◌==◌, ==→eq, arith, Bool-cases, Option-cases, inl, inr, ◌⊎◌,
  mem-head?, length-erase, mem-erase, null_of_head?, mem_of_null,
}
use sertos.Types.{ready}
use sertos.Modules.{Modules, ListLaws, BitmapLaws}
use sertos.Kernel.{Kernel, WaitList}
use sertos.Scheduler.Wait.{wait_list_unblock_highest}
use sertos.Scheduler.Wait.Waking.{
  wait_list_unblock_highest-Inv, wait_list_unblock_highest_others, wait_list_unblock_highest-empty,
}
use sertos.Scheduler.Invariant.{SameBut, Inv}
use sertos.Scheduler.WakeAll.{wake_rounds, wake_all}

nil_of_head? : (xs : List ℕ) → head? xs ≡ none → xs ≡ []
nil_of_head? [] h = refl
nil_of_head? (x ∷ xs) h = ground arith

module _ ⦃m : Modules⦄ (lists : ListLaws m) (bits : BitmapLaws m) (w : WaitList) where
  round_none :
      (n : ℕ) (k : Kernel) → head? (k.wait_lists w) ≡ none → wake_rounds (suc n) k w ≡ some k
  unfolding wake_rounds
  round_none n k e =
      rw (wake_rounds, ap (λ r. r.1) (wait_list_unblock_highest-empty lists k w e))
        (ap (λ r. some r.0) (wait_list_unblock_highest-empty lists k w e))

  round_some :
      (n t : ℕ) (k : Kernel)
      → (wait_list_unblock_highest k (some w)).1 ≡ some t
      → wake_rounds (suc n) k w ≡ wake_rounds n (wait_list_unblock_highest k (some w)).0 w
  unfolding wake_rounds
  round_some n t k e = rw (wake_rounds, e) refl

  abbrev Woken : Kernel → Kernel → Type 0
  Woken k k' =
      Inv k'
      × (k'.wait_lists w ≡ [])
      × ((u : ℕ) → mem u (k.wait_lists w) ≡ true → (k'.tcbs u).state ≡ ready)
      × ((u : ℕ) → mem u (k.wait_lists w) ≡ false → k'.tcbs u ≡ k.tcbs u)

  none_waiting : (k : Kernel) → Inv k → head? (k.wait_lists w) ≡ none → Woken k k
  none_waiting k inv e = (
    inv,
    nil_of_head? (k.wait_lists w) e,
    λ u h. ground (arith, null_of_head? (k.wait_lists w) e, mem_of_null u (k.wait_lists w)),
    λ u h. refl,
  )

  -- What one round and the rounds behind it do, together.
  Woken-first :
      (k k1 k' : Kernel) (t : ℕ)
      → distinct (k.wait_lists w) ≡ true
      → mem t (k.wait_lists w) ≡ true
      → SameBut t k.tcbs k1.tcbs
      → (k1.tcbs t).state ≡ ready
      → k1.wait_lists w ≡ erase t (k.wait_lists w)
      → Woken k1 k'
      → Woken k k'
  Woken-first k k1 k' t d h others is_ready left (inv, empty, all, rest) =
      let still : (u : ℕ) → mem u (k1.wait_lists w) ≡ (not (t == u) && mem u (k.wait_lists w)) =
        λ u. rw left (mem-erase u t (k.wait_lists w) d) in
      (
        inv,
        empty,
        λ u g. elim (Bool-cases (t == u)) [
          | inl e ↦
              rw (← ==→eq t u e) (ap (λ b. b.state) (rest t (ground (arith, still t))) ∙ is_ready)
          | inr e ↦ all u (ground (arith, still u, e))
        ],
        λ u g. rest u (ground (arith, still u)) ∙ others u (λ e. ground (arith, e)),
      )

  -- The loop ends with this state on any number of rounds above that of the tasks that wait.
  abbrev EndsWith : Kernel → Kernel → Type 0
  EndsWith k k' = (r : ℕ) → length (k.wait_lists w) < r → wake_rounds r k w ≡ some k'

  ends_none : (k : Kernel) → head? (k.wait_lists w) ≡ none → EndsWith k k
  ends_none k e zero l = elim l [ ]
  ends_none k e (suc n) l = round_none n k e

  ends_some :
      (k k' : Kernel) (t : ℕ)
      → let s = wait_list_unblock_highest k (some w) in
        s.1 ≡ some t
        → suc (length (s.0.wait_lists w)) ≡ length (k.wait_lists w)
        → EndsWith s.0 k'
        → EndsWith k k'
  ends_some k k' t woken fewer rest zero l = elim l [ ]
  ends_some k k' t woken fewer rest (suc n) l =
      round_some n t k woken ∙ rest n (omega (arith, fewer, l))

  rounds_lem :
      (n : ℕ) (k : Kernel)
      → Inv k
      → length (k.wait_lists w) < n
      → (k' : Kernel) × EndsWith k k' × Woken k k'
  rounds_lem zero k inv e = elim e [ ]
  rounds_lem (suc n) k inv e = elim (Option-cases (head? (k.wait_lists w))) [
    | inl f ↦ (k, ends_none k f, none_waiting k inv f)
    | inr (t, f) ↦
        let s = wait_list_unblock_highest k (some w) in
        let h = mem-head? t (k.wait_lists w) f in
        let d = inv.at_wait.waiting_distinct w in
        let (woken, _, inv', _, is_ready, _, _, left) =
          wait_list_unblock_highest-Inv lists bits k w t t inv f h in
        let others = wait_list_unblock_highest_others lists bits k w t t inv f in
        let fewer : suc (length (s.0.wait_lists w)) ≡ length (k.wait_lists w) =
          rw left (length-erase t (k.wait_lists w) h) in
        let (k', ends, rest) = rounds_lem n s.0 inv' (omega (arith, fewer, e)) in
        (
          k',
          ends_some k k' t woken fewer ends,
          Woken-first k s.0 k' t d h others is_ready left rest,
        )
  ]

  -- In a well-formed scheduler the loop ends, on any number of rounds above that of the tasks that
  -- wait, with the state that `wake_all` gives. The wait list is then empty: a task that was waiting
  -- is ready, the control block of any other task is as before, and the scheduler stays well formed.
  pub wake_all-Inv :
      (k : Kernel) (rounds u : ℕ)
      → Inv k
      → length (k.wait_lists w) < rounds
      → let k' = wake_all k w in
        (wake_rounds rounds k w ≡ some k')
        × Inv k'
        × (k'.wait_lists w ≡ [])
        × (((mem u (k.wait_lists w) ≡ true) × ((k'.tcbs u).state ≡ ready))
            ⊎ ((mem u (k.wait_lists w) ≡ false) × (k'.tcbs u ≡ k.tcbs u)))
  unfolding wake_all
  wake_all-Inv k rounds u inv enough =
      let (k', ends, woken) = rounds_lem (suc (length (k.wait_lists w))) k inv (omega arith) in
      rw (ends (suc (length (k.wait_lists w))) (omega arith)) (
        ends rounds enough,
        woken.0,
        woken.1,
        elim (Bool-cases (mem u (k.wait_lists w))) [
          | inl h ↦ inl (h, woken.2 u h)
          | inr h ↦ inr (h, woken.3 u h)
        ],
      )
