-- ===== src/Scheduler/Invariant/Queues.antt =====
-- How the invariant of the ready queues survives the writes that src/sertos_scheduler.c makes.
use sertos.Base.{
  ℕ, ◌<◌, ◌≡◌, Bool, true, false, List, mem, erase, ◌==◌, ==→eq, if◌then◌else◌, update, arith, inl,
  inr, Bool-cases, mem-snoc, distinct-snoc, mem-erase, distinct-erase, null-snoc,
}
use sertos.Types.{max_priorities}
use sertos.Modules.{Modules, ListLaws, BitmapLaws}
use sertos.Kernel.{Tcb}
use sertos.Scheduler.Invariant.{SameBut, ReadyInv, is_runnable}

module _ {q : ℕ → List ℕ} {bitmap : ℕ → Bool} {b c : ℕ → Tcb} (t : ℕ) (inv : ReadyInv q bitmap b)
    (same : SameBut t b c) where
  -- A write to a control block that is in no queue.
  pub ReadyInv-other : ((p : ℕ) → mem t (q p) ≡ false) → ReadyInv q bitmap c
  ReadyInv-other out = record {
    queued_priority = λ p u h. ground (arith, out p, same u, inv.queued_priority p u h);
    queued_state = λ p u h. ground (arith, out p, same u, inv.queued_state p u h);
    queued_linked = λ p u h. ground (arith, out p, same u, inv.queued_linked p u h);
    queued_distinct = inv.queued_distinct;
    marked = inv.marked;
  }

  -- A write that keeps the priority of a queued task and leaves it runnable and linked.
  pub ReadyInv-keep :
      (c t).priority ≡ (b t).priority
      → is_runnable (c t).state ≡ true
      → (c t).state_linked ≡ true
      → ReadyInv q bitmap c
  ReadyInv-keep p s n = record {
    queued_priority = λ r u h. elim (Bool-cases (t == u)) [
      | inl e ↦ rw (← ==→eq t u e) (ground (arith, ==→eq t u e, inv.queued_priority r u h))
      | inr e ↦ ground (arith, same u, inv.queued_priority r u h)
    ];
    queued_state = λ r u h. elim (Bool-cases (t == u)) [
      | inl e ↦ rw (← ==→eq t u e) s
      | inr e ↦ ground (arith, same u, inv.queued_state r u h)
    ];
    queued_linked = λ r u h. elim (Bool-cases (t == u)) [
      | inl e ↦ rw (← ==→eq t u e) n
      | inr e ↦ ground (arith, same u, inv.queued_linked r u h)
    ];
    queued_distinct = inv.queued_distinct;
    marked = inv.marked;
  }

module _ ⦃m : Modules⦄ (lists : ListLaws m) (bits : BitmapLaws m) {q : ℕ → List ℕ}
    {bitmap : ℕ → Bool} {b c : ℕ → Tcb} (t p : ℕ) (inv : ReadyInv q bitmap b) (same : SameBut t b c)
    (low : p < max_priorities) where
  -- A task that is in no queue joins the queue of its priority.
  pub ReadyInv-enqueue :
      ((r : ℕ) → mem t (q r) ≡ false)
      → (c t).priority ≡ p
      → is_runnable (c t).state ≡ true
      → (c t).state_linked ≡ true
      → ReadyInv
          (update q p (m.linked_list_insert_tail_direct (q p) t))
          (m.bitmap_set_bit bitmap p)
          c
  ReadyInv-enqueue out e s n = rw (lists.insert_tail_lem (q p) t (out p)) (record {
    queued_priority =
        λ r u h. ground (arith, out r, mem-snoc u t (q p), same u, inv.queued_priority r u);
    queued_state = λ r u h. ground (arith, out r, mem-snoc u t (q p), same u, inv.queued_state r u);
    queued_linked =
        λ r u h. ground (arith, out r, mem-snoc u t (q p), same u, inv.queued_linked r u);
    queued_distinct = λ r.
        ground (arith, distinct-snoc t (q p) (out p), inv.queued_distinct r, inv.queued_distinct p);
    marked = λ r l. ground (arith, bits.set_lem bitmap p r low, null-snoc (q p) t, inv.marked r l);
  })

  -- A queued task leaves the queue of its priority.
  pub ReadyInv-dequeue :
      mem t (q p) ≡ true
      → let queue = m.linked_list_remove_direct (q p) t in
        ReadyInv
          (update q p queue)
          (if m.linked_list_is_empty queue then m.bitmap_clear_bit bitmap p else bitmap)
          c
  ReadyInv-dequeue h =
      rw (lists.remove_lem (q p) t h (inv.queued_distinct p), lists.is_empty_lem (erase t (q p)))
        (record {
          queued_priority = λ r u g. ground (
            arith,
            mem-erase u t (q p) (inv.queued_distinct p),
            same u,
            inv.queued_priority r u,
            inv.queued_priority p t h,
          );
          queued_state = λ r u g. ground (
            arith,
            mem-erase u t (q p) (inv.queued_distinct p),
            same u,
            inv.queued_state r u,
            inv.queued_priority p t h,
            inv.queued_priority r u,
          );
          queued_linked = λ r u g. ground (
            arith,
            mem-erase u t (q p) (inv.queued_distinct p),
            same u,
            inv.queued_linked r u,
            inv.queued_priority p t h,
            inv.queued_priority r u,
          );
          queued_distinct = λ r.
              ground (arith, distinct-erase t (q p) (inv.queued_distinct p), inv.queued_distinct r);
          marked = λ r l. ground (arith, bits.clear_lem bitmap p r low, inv.marked r l);
        })

  -- After that it is in no queue.
  pub not-mem-dequeue :
      mem t (q p) ≡ true
      → (r : ℕ) → mem t (update q p (m.linked_list_remove_direct (q p) t) r) ≡ false
  not-mem-dequeue h r =
      rw (lists.remove_lem (q p) t h (inv.queued_distinct p)) (elim (Bool-cases (mem t (q r))) [
        | inl g ↦ ground (
          arith,
          mem-erase t t (q p) (inv.queued_distinct p),
          inv.queued_priority r t g,
          inv.queued_priority p t h,
        )
        | inr g ↦ ground (arith, mem-erase t t (q p) (inv.queued_distinct p))
      ])
