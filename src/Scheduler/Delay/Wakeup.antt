-- ===== src/Scheduler/Delay/Wakeup.antt =====
-- The walk of `process_delayed_tasks` of src/sertos_scheduler.c, and the ticks that end a delay.
use sertos.Base.{
  ℕ, zero, suc, ◌-◌, ◌<◌, ◌≡◌, refl, ◌∙◌, ◌≢◌, ◌⊎◌, Bool, true, false, ◌||◌, List, [], ◌∷◌, mem,
  distinct, ◌==◌, ==→eq, arith, Bool-cases, inl, inr,
}
use sertos.Types.{ready, blocked}
use sertos.Modules.{Modules, ListLaws, BitmapLaws}
use sertos.Kernel.{Kernel, Tcb}
use sertos.Scheduler.Delay.{visit_delayed, visit_all_delayed, process_delayed_tasks}
use sertos.Scheduler.Invariant.{Inv}
use sertos.Scheduler.Ready.Membership.{IsQueued}
use sertos.Scheduler.Delay.Ticking.{
  Ticked, Untouched, Untouched-trans, Ticked-Untouched, Untouched-Ticked, visit_lem,
  visit-Untouched,
}

-- Whether one of the tasks has a single tick left.
abbrev pub any_expires : (ℕ → Tcb) → List ℕ → Bool
any_expires b [] = false
any_expires b (t ∷ ts) = (b t).delay_ticks == 1 || any_expires b ts

any_expires-same :
    (b c : ℕ → Tcb) (l : List ℕ)
    → ((u : ℕ) → mem u l ≡ true → c u ≡ b u)
    → any_expires c l ≡ any_expires b l
any_expires-same b c [] same = refl
any_expires-same b c (t ∷ ts) same =
    rw (any_expires-same b c ts (λ u h. same u (ground arith)), same t (ground arith)) refl

module _ ⦃m : Modules⦄ (lists : ListLaws m) (bits : BitmapLaws m) where
  abbrev Walked : List ℕ → Kernel → Bool → Kernel × Bool → Type 0
  Walked l k flag (k', flag') =
      Inv k'
      × ((u : ℕ) → mem u l ≡ true → Ticked k k' u)
      × ((u : ℕ) → mem u l ≡ false → Untouched u k k')
      × (flag' ≡ (flag || any_expires k.tcbs l))

  walk_lem :
      (l : List ℕ) (k : Kernel) (flag : Bool)
      → Inv k
      → distinct l ≡ true
      → ((u : ℕ) → mem u l ≡ true → mem u k.delay_list ≡ true)
      → Walked l k flag (visit_all_delayed l (k, flag))
  unfolding visit_all_delayed
  walk_lem [] k flag inv d sub = (
    inv,
    λ u h. cc,
    λ u h. record { same_tcb = refl; same_delay = refl; still_queued = λ p g. g },
    ground arith,
  )
  walk_lem (t ∷ ts) k flag inv d sub =
      let h = sub t (ground arith) in
      let s = visit_delayed (k, flag) t in
      let one = visit_lem lists bits k t inv h flag in
      let alone = visit-Untouched lists bits k t inv h flag in
      let n : (u : ℕ) → mem u ts ≡ true → t ≢ u = λ u g e. ground (arith, e) in
      let rest =
        walk_lem ts s.0 s.1 one.0 (ground arith)
          (λ u g. (alone u (n u g)).same_delay ∙ sub u (ground arith)) in
      let last = (visit_all_delayed ts s).0 in
      (
        rest.0,
        λ u g. elim (Bool-cases (t == u)) [
          | inl e ↦
              rw (← ==→eq t u e) (Ticked-Untouched t k s.0 last one.1 (rest.2 t (ground arith)))
          | inr e ↦
              Untouched-Ticked u k s.0 last (alone u (λ f. ground (arith, f)))
                (rest.1 u (ground arith))
        ],
        λ u g.
            Untouched-trans u k s.0 last (alone u (λ f. ground (arith, f)))
              (rest.2 u (ground arith)),
        ground (
          arith,
          rest.3,
          one.2,
          any_expires-same k.tcbs s.0.tcbs ts (λ u g. (alone u (n u g)).same_tcb),
        ),
      )

module _ ⦃m : Modules⦄ (lists : ListLaws m) (bits : BitmapLaws m) (k : Kernel) (inv : Inv k) where
  -- A tick of the delay list keeps the scheduler well formed. It makes ready each delayed task
  -- that had one tick left, counts down each other delayed task, and leaves alone every task that
  -- was not delayed; it reports whether a task became ready.
  pub process_delayed_tasks-Inv :
      (u : ℕ)
      → let (k', unblocked) = process_delayed_tasks k in
        Inv k'
        × (unblocked ≡ any_expires k.tcbs k.delay_list)
        × (((mem u k.delay_list ≡ true) × Ticked k k' u)
            ⊎ ((mem u k.delay_list ≡ false) × Untouched u k k'))
  unfolding process_delayed_tasks
  process_delayed_tasks-Inv u =
      let all =
        walk_lem lists bits k.delay_list k false inv inv.at_delay.delayed_distinct (λ u h. h) in
      (
        all.0,
        all.3,
        elim (Bool-cases (mem u k.delay_list)) [
          | inl h ↦ inl (h, all.1 u h)
          | inr h ↦ inr (h, all.2 u h)
        ],
      )

-- The given number of ticks of the delay list.
unfoldable pub ticks_later : ⦃m : Modules⦄ → ℕ → Kernel → Kernel
ticks_later zero k = k
ticks_later (suc n) k = ticks_later n (process_delayed_tasks k).0

module _ ⦃m : Modules⦄ (lists : ListLaws m) (bits : BitmapLaws m) where
  -- A delayed task with some ticks left is ready, in the ready queue of its priority and out of
  -- the delay list, after as many ticks of the delay list.
  pub delay_ends :
      (n : ℕ) (k : Kernel) (u : ℕ)
      → Inv k
      → mem u k.delay_list ≡ true
      → (k.tcbs u).delay_ticks ≡ suc n
      → let k' = ticks_later (suc n) k in
        IsQueued k' u × ((k'.tcbs u).state ≡ ready) × (mem u k'.delay_list ≡ false)
  unfolding ticks_later
  delay_ends zero k u inv h e = elim (process_delayed_tasks-Inv lists bits k inv u).2 [
    | inl (_, inl (a, b, c, d)) ↦ (b, c, d)
    | inl (_, inr (a, b, c, d)) ↦ absurd (omega arith)
    | inr (g, _) ↦ cc
  ]
  delay_ends (suc n) k u inv h e = elim (process_delayed_tasks-Inv lists bits k inv u).2 [
    | inl (_, inl (a, b, c, d)) ↦ absurd (omega arith)
    | inl (_, inr (a, b, c, d)) ↦
        delay_ends n (process_delayed_tasks k).0 u (process_delayed_tasks-Inv lists bits k inv u).0
          d (omega arith)
    | inr (g, _) ↦ cc
  ]

  -- Until then it stays blocked on the delay list, with the ticks that are left.
  pub delay_lasts :
      (n j : ℕ) (k : Kernel) (u : ℕ)
      → Inv k
      → mem u k.delay_list ≡ true
      → (k.tcbs u).delay_ticks ≡ n
      → j < n
      → let k' = ticks_later j k in
        ((k'.tcbs u).state ≡ blocked)
        × (mem u k'.delay_list ≡ true)
        × ((k'.tcbs u).delay_ticks ≡ n - j)
  unfolding ticks_later
  delay_lasts n zero k u inv h e l = (inv.at_delay.delayed_state u h, h, omega arith)
  delay_lasts n (suc j) k u inv h e l = elim (process_delayed_tasks-Inv lists bits k inv u).2 [
    | inl (_, inl (a, b, c, d)) ↦ absurd (omega arith)
    | inl (_, inr (a, b, c, d)) ↦
        let rest =
          delay_lasts (n - 1) j (process_delayed_tasks k).0 u
            (process_delayed_tasks-Inv lists bits k inv u).0 d (omega arith) (omega arith) in
        (rest.0, rest.1, omega (arith, rest.2))
    | inr (g, _) ↦ cc
  ]
