-- ===== src/Scheduler/Delay/Ticking.antt =====
-- What `process_delayed_tasks` of src/sertos_scheduler.c does to every task.
use sertos.Base.{
  ap, ℕ, ◌-◌, ◌<◌, ◌≡◌, refl, ◌∙◌, ◌≢◌, ◌⊎◌, Bool, true, false, ◌||◌, mem, ◌==◌, ==→eq, arith,
  Bool-cases, inl, inr, mem-snoc, mem-erase,
}
use sertos.Types.{ready, blocked}
use sertos.Modules.{Modules, ListLaws, BitmapLaws}
use sertos.Kernel.{Kernel}
use sertos.Scheduler.Ready.{enqueue_ready}
use sertos.Scheduler.Wait.Waking.{enqueue_ready_fields}
use sertos.Scheduler.Delay.{count_down, visit_delayed}
use sertos.Scheduler.Invariant.{Inv}
use sertos.Scheduler.Ready.Membership.{
  IsDetached, IsQueued, enqueue_ready-Inv, enqueue_ready-IsQueued,
}
use sertos.Scheduler.Delay.Expiry.{
  count_down_fields, timed_out, timed_out_lem, low, expire-eq, count_down-Inv,
}

-- What a tick does to a delayed task: the last one makes it ready, any other counts down.
abbrev pub Ticked : Kernel → Kernel → ℕ → Type 0
Ticked k k' u =
    (((k.tcbs u).delay_ticks ≡ 1)
      × IsQueued k' u
      × ((k'.tcbs u).state ≡ ready)
      × (mem u k'.delay_list ≡ false))
    ⊎ ((1 < (k.tcbs u).delay_ticks)
        × ((k'.tcbs u).delay_ticks ≡ (k.tcbs u).delay_ticks - 1)
        × ((k'.tcbs u).state ≡ blocked)
        × (mem u k'.delay_list ≡ true))

-- A task that nothing is done to; it keeps its place in a ready queue.
pub record Untouched (u : ℕ) (k k' : Kernel) : Type 0 where
  pub same_tcb : k'.tcbs u ≡ k.tcbs u
  pub same_delay : mem u k'.delay_list ≡ mem u k.delay_list
  pub still_queued : (p : ℕ) → mem u (k.ready_queues p) ≡ true → mem u (k'.ready_queues p) ≡ true

pub Untouched-trans : (u : ℕ) (i j k : Kernel) → Untouched u i j → Untouched u j k → Untouched u i k
Untouched-trans u i j k f g = record {
  same_tcb = g.same_tcb ∙ f.same_tcb;
  same_delay = g.same_delay ∙ f.same_delay;
  still_queued = λ p h. g.still_queued p (f.still_queued p h);
}

pub Ticked-Untouched : (u : ℕ) (i j k : Kernel) → Ticked i j u → Untouched u j k → Ticked i k u
Ticked-Untouched u i j k (inl (a, (b, c), d, e)) g =
    inl
      (a, (rw g.same_tcb b, rw g.same_tcb (g.still_queued _ c)), rw g.same_tcb d, g.same_delay ∙ e)
Ticked-Untouched u i j k (inr (a, b, c, d)) g =
    inr (a, rw g.same_tcb b, rw g.same_tcb c, g.same_delay ∙ d)

pub Untouched-Ticked : (u : ℕ) (i j k : Kernel) → Untouched u i j → Ticked j k u → Ticked i k u
Untouched-Ticked u i j k g h = rw g.same_tcb at h

module _ ⦃m : Modules⦄ (lists : ListLaws m) (bits : BitmapLaws m) (k : Kernel) (t : ℕ)
    (inv : Inv k) where
  pub enqueue_ready-Untouched : IsDetached k t → (u : ℕ) → t ≢ u → Untouched u k (enqueue_ready k t)
  unfolding enqueue_ready
  enqueue_ready-Untouched d u n = record {
    same_tcb = ground arith;
    same_delay = refl;
    still_queued = λ p h. ground (
      arith,
      lists.insert_tail_lem (k.ready_queues p) t (d.unqueued p),
      mem-snoc u t (k.ready_queues p),
    );
  }

module _ ⦃m : Modules⦄ (lists : ListLaws m) (bits : BitmapLaws m) (k : Kernel) (t : ℕ) (inv : Inv k)
    (h : mem t k.delay_list ≡ true) (flag : Bool) where
  visit_last :
      (k.tcbs t).delay_ticks ≡ 1
      → visit_delayed (k, flag) t ≡ (enqueue_ready (timed_out lists bits k t inv h) t, true)
  unfolding visit_delayed
  visit_last one =
      rw ((count_down_fields k t).3, one) (ap (λ x. (x, true)) (expire-eq lists bits k t inv h one))

  visit_more : 1 < (k.tcbs t).delay_ticks → visit_delayed (k, flag) t ≡ (count_down k t, flag)
  unfolding visit_delayed
  visit_more more = rw (count_down_fields k t).3 (ground arith)

  enqueue_delay_list : (j : Kernel) → (enqueue_ready j t).delay_list ≡ j.delay_list
  unfolding enqueue_ready
  enqueue_delay_list j = refl

  visit_last_lem :
      (k.tcbs t).delay_ticks ≡ 1
      → let (k', flag') = visit_delayed (k, flag) t in Inv k' × Ticked k k' t × (flag' ≡ true)
  visit_last_lem one =
      let j = timed_out lists bits k t inv h in
      let (frame, safe, detached, d) = timed_out_lem lists bits k t inv h one in
      let prio = low lists bits k t inv h one in
      rw (visit_last one) (
        enqueue_ready-Inv lists bits j t safe detached prio,
        inl (
          one,
          enqueue_ready-IsQueued lists bits j t safe detached prio,
          (enqueue_ready_fields j t).0,
          rw
              (
                enqueue_delay_list j,
                d,
                lists.remove_lem k.delay_list t h inv.at_delay.delayed_distinct,
              )
              (ground (arith, mem-erase t t k.delay_list inv.at_delay.delayed_distinct)),
        ),
        refl,
      )

  visit_more_lem :
      1 < (k.tcbs t).delay_ticks
      → let (k', flag') = visit_delayed (k, flag) t in Inv k' × Ticked k k' t × (flag' ≡ flag)
  visit_more_lem more =
      let f = count_down_fields k t in
      rw (visit_more more) (
        count_down-Inv lists bits k t inv h more,
        inr (more, f.3, f.0.same_state ∙ inv.at_delay.delayed_state t h, rw f.2 h),
        refl,
      )

  pub visit-Untouched : (u : ℕ) → t ≢ u → Untouched u k (visit_delayed (k, flag) t).0
  visit-Untouched u n = elim (Bool-cases ((k.tcbs t).delay_ticks == 1)) [
    | inl e ↦
        let one = ==→eq (k.tcbs t).delay_ticks 1 e in
        let j = timed_out lists bits k t inv h in
        let (frame, safe, detached, d) = timed_out_lem lists bits k t inv h one in
        rw (visit_last one) (
          Untouched-trans u k j (enqueue_ready j t)
            (record {
              same_tcb = frame.same_tcbs u n;
              same_delay =
                  rw (d, lists.remove_lem k.delay_list t h inv.at_delay.delayed_distinct)
                    (ground (arith, mem-erase u t k.delay_list inv.at_delay.delayed_distinct));
              still_queued = λ p g. rw frame.same_queues g;
            })
            (enqueue_ready-Untouched lists bits j t safe detached u n))
    | inr e ↦
        let f = count_down_fields k t in
        rw (visit_more (ground (arith, inv.at_delay.delayed_ticks t h))) (record {
          same_tcb = f.0.same_tcbs u n;
          same_delay = rw f.2 refl;
          still_queued = λ p g. rw f.0.same_queues g;
        })
  ]

  pub visit_lem :
      let (k', flag') = visit_delayed (k, flag) t in
      Inv k' × Ticked k k' t × (flag' ≡ (flag || (k.tcbs t).delay_ticks == 1))
  visit_lem = elim (Bool-cases ((k.tcbs t).delay_ticks == 1)) [
    | inl e ↦
        let r = visit_last_lem (==→eq (k.tcbs t).delay_ticks 1 e) in (r.0, r.1, r.2 ∙ ground arith)
    | inr e ↦
        let r = visit_more_lem (ground (arith, inv.at_delay.delayed_ticks t h)) in
        (r.0, r.1, r.2 ∙ ground arith)
  ]
