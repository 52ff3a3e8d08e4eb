-- ===== src/Scheduler/Invariant/Delays.antt =====
-- How the invariant of the delay list survives the writes that src/sertos_scheduler.c makes.
use sertos.Base.{
  ℕ, ◌<◌, ◌≡◌, true, false, List, mem, ◌==◌, ==→eq, arith, inl, inr, Bool-cases, mem-snoc,
  distinct-snoc, mem-erase, distinct-erase,
}
use sertos.Types.{blocked, max_priorities}
use sertos.Modules.{Modules, ListLaws}
use sertos.Kernel.{Tcb}
use sertos.Scheduler.Invariant.{SameBut, DelayInv}

module _ {l : List ℕ} {b c : ℕ → Tcb} (t : ℕ) (inv : DelayInv l b) (same : SameBut t b c) where
  -- A write to a task that is not delayed, and does not become so.
  pub DelayInv-other : mem t l ≡ false → (c t).delay_ticks ≡ 0 → DelayInv l c
  DelayInv-other out z = record {
    delayed_state = λ u h. ground (arith, same u, inv.delayed_state u h);
    delayed_ticks = λ u h. ground (arith, same u, inv.delayed_ticks u h);
    delayed_priority = λ u h. ground (arith, same u, inv.delayed_priority u h);
    delayed_distinct = inv.delayed_distinct;
    counting_delayed = λ u h. elim (Bool-cases (t == u)) [
      | inl e ↦ ground (arith, z, ==→eq t u e)
      | inr e ↦ ground (arith, same u, inv.counting_delayed u)
    ];
  }

  -- A write that leaves a delayed task blocked, with time left.
  pub DelayInv-keep :
      mem t l ≡ true
      → (c t).state ≡ blocked
      → 0 < (c t).delay_ticks
      → (c t).priority < max_priorities
      → DelayInv l c
  DelayInv-keep at s d p = record {
    delayed_state = λ u h. elim (Bool-cases (t == u)) [
      | inl e ↦ rw (← ==→eq t u e) s
      | inr e ↦ ground (arith, same u, inv.delayed_state u h)
    ];
    delayed_ticks = λ u h. elim (Bool-cases (t == u)) [
      | inl e ↦ rw (← ==→eq t u e) d
      | inr e ↦ ground (arith, same u, inv.delayed_ticks u h)
    ];
    delayed_priority = λ u h. elim (Bool-cases (t == u)) [
      | inl e ↦ rw (← ==→eq t u e) p
      | inr e ↦ ground (arith, same u, inv.delayed_priority u h)
    ];
    delayed_distinct = inv.delayed_distinct;
    counting_delayed = λ u h. elim (Bool-cases (t == u)) [
      | inl e ↦ rw (← ==→eq t u e) at
      | inr e ↦ ground (arith, same u, inv.counting_delayed u)
    ];
  }

module _ ⦃m : Modules⦄ (lists : ListLaws m) {l : List ℕ} {b c : ℕ → Tcb} (t : ℕ)
    (inv : DelayInv l b) (same : SameBut t b c) where
  pub DelayInv-insert :
      mem t l ≡ false
      → (c t).state ≡ blocked
      → 0 < (c t).delay_ticks
      → (c t).priority < max_priorities
      → DelayInv (m.linked_list_insert_tail_direct l t) c
  DelayInv-insert out s d p = rw (lists.insert_tail_lem l t out) (record {
    delayed_state = λ u h. elim (Bool-cases (t == u)) [
      | inl e ↦ rw (← ==→eq t u e) s
      | inr e ↦ ground (arith, same u, mem-snoc u t l, inv.delayed_state u)
    ];
    delayed_ticks = λ u h. elim (Bool-cases (t == u)) [
      | inl e ↦ rw (← ==→eq t u e) d
      | inr e ↦ ground (arith, same u, mem-snoc u t l, inv.delayed_ticks u)
    ];
    delayed_priority = λ u h. elim (Bool-cases (t == u)) [
      | inl e ↦ rw (← ==→eq t u e) p
      | inr e ↦ ground (arith, same u, mem-snoc u t l, inv.delayed_priority u)
    ];
    delayed_distinct = distinct-snoc t l out inv.delayed_distinct;
    counting_delayed = λ u h. ground (arith, same u, mem-snoc u t l, inv.counting_delayed u);
  })

  pub DelayInv-remove :
      mem t l ≡ true → (c t).delay_ticks ≡ 0 → DelayInv (m.linked_list_remove_direct l t) c
  DelayInv-remove at z = rw (lists.remove_lem l t at inv.delayed_distinct) (record {
    delayed_state =
        λ u h. ground (arith, same u, mem-erase u t l inv.delayed_distinct, inv.delayed_state u);
    delayed_ticks =
        λ u h. ground (arith, same u, mem-erase u t l inv.delayed_distinct, inv.delayed_ticks u);
    delayed_priority =
        λ u h. ground (arith, same u, mem-erase u t l inv.delayed_distinct, inv.delayed_priority u);
    delayed_distinct = distinct-erase t l inv.delayed_distinct;
    counting_delayed = λ u h. elim (Bool-cases (t == u)) [
      | inl e ↦ ground (arith, z, ==→eq t u e)
      | inr e ↦ ground (arith, same u, mem-erase u t l inv.delayed_distinct, inv.counting_delayed u)
    ];
  })
