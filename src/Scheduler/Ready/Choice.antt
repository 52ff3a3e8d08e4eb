-- ===== src/Scheduler/Ready/Choice.antt =====
-- The choice of the next task by src/sertos_scheduler.c.
use sertos.Base.{
  ℕ, ◌≤◌, ◌<◌, ◌≡◌, inl, inr, true, some, mem, head?, null, arith, Option-cases, mem-head?,
  null_of_head?, mem_of_null,
}
use sertos.Types.{max_priorities}
use sertos.Modules.{Modules, ListLaws, BitmapLaws}
use sertos.Kernel.{Kernel}
use sertos.Scheduler.Ready.{select_next_task}
use sertos.Scheduler.Invariant.{ReadyInv}

module _ ⦃m : Modules⦄ (lists : ListLaws m) (bits : BitmapLaws m) (k : Kernel)
    (inv : ReadyInv k.ready_queues k.ready_bitmap k.tcbs) where
  -- The queue of a priority above that of the choice is empty.
  above_empty :
      (p q : ℕ)
      → m.bitmap_find_last_set k.ready_bitmap ≡ some p
      → p < q
      → q < max_priorities
      → null (k.ready_queues q) ≡ true
  above_empty p q e h l = ground (arith, bits.find_last k.ready_bitmap p q e h l, inv.marked q l)

  chosen_head :
      (t p : ℕ)
      → m.bitmap_find_last_set k.ready_bitmap ≡ some p
      → select_next_task k ≡ some t
      → (head? (k.ready_queues p) ≡ some t) × ((k.tcbs t).priority ≡ p)
  unfolding select_next_task
  chosen_head t p f e = ground (
    arith,
    lists.peek_head_lem (k.ready_queues p),
    mem-head? t (k.ready_queues p),
    inv.queued_priority p t,
  )

  -- What is chosen among queues with a highest one that is marked.
  chosen :
      (p u q : ℕ)
      → m.bitmap_find_last_set k.ready_bitmap ≡ some p
      → q < max_priorities
      → mem u (k.ready_queues q) ≡ true
      → (t : ℕ) × (select_next_task k ≡ some t)
        × (head? (k.ready_queues (k.tcbs t).priority) ≡ some t)
        × ((k.tcbs u).priority ≤ (k.tcbs t).priority)
  unfolding select_next_task
  chosen p u q f l h = elim (Option-cases (head? (k.ready_queues p))) [
    | inl e ↦ absurd (
        ground (
          arith,
          null_of_head? (k.ready_queues p) e,
          bits.find_some k.ready_bitmap p f,
          inv.marked p,
        ))
    | inr (t, e) ↦ (
      t,
      ground (arith, f, lists.peek_head_lem (k.ready_queues p)),
      ground (arith, mem-head? t (k.ready_queues p) e, inv.queued_priority p t),
      ground (
        arith,
        mem-head? t (k.ready_queues p) e,
        inv.queued_priority p t,
        inv.queued_priority q u h,
        above_empty p q f,
        mem_of_null u (k.ready_queues q),
      ),
    )
  ]

  -- If a task is in a ready queue of a well-formed scheduler, then some task is chosen: it is the
  -- head of the ready queue of its priority, and that priority is at least the first task's.
  pub select_next_task-highest :
      (u q : ℕ)
      → q < max_priorities
      → mem u (k.ready_queues q) ≡ true
      → (t : ℕ) × (select_next_task k ≡ some t)
        × (head? (k.ready_queues (k.tcbs t).priority) ≡ some t)
        × ((k.tcbs u).priority ≤ (k.tcbs t).priority)
  select_next_task-highest u q l h = elim (Option-cases (m.bitmap_find_last_set k.ready_bitmap)) [
    | inl f ↦ absurd (
        ground (
          arith,
          bits.find_none k.ready_bitmap q f l,
          inv.marked q l,
          mem_of_null u (k.ready_queues q),
        ))
    | inr (p, f) ↦ chosen p u q f l h
  ]

  -- The converse: a task that is chosen is in the ready queue of its priority, a valid one.
  pub select_next_task-mem :
      (t : ℕ)
      → select_next_task k ≡ some t
      → (mem t (k.ready_queues (k.tcbs t).priority) ≡ true) × ((k.tcbs t).priority < max_priorities)
  unfolding select_next_task
  select_next_task-mem t e = elim (Option-cases (m.bitmap_find_last_set k.ready_bitmap)) [
    | inl f ↦ ground (arith, f)
    | inr (p, f) ↦ ground (
      arith,
      lists.peek_head_lem (k.ready_queues p),
      mem-head? t (k.ready_queues p),
      inv.queued_priority p t,
      bits.find_some k.ready_bitmap p f,
    )
  ]
