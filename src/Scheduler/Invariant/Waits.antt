-- ===== src/Scheduler/Invariant/Waits.antt =====
-- How the invariant of the wait lists survives the writes that src/sertos_scheduler.c makes.
use sertos.Base.{
  ℕ, ◌<◌, ◌≡◌, refl, sym, ◌∙◌, ◌≢◌, true, false, none, some, List, mem, erase, ◌==◌, ==→eq, arith,
  inl, inr, Bool-cases, mem-erase, distinct-erase,
}
use sertos.Types.{blocked, max_priorities}
use sertos.Modules.{Modules, ListLaws}
use sertos.Kernel.{Tcb, WaitList, same_list, same_list→eq, same_list_self, update_list}
use sertos.Scheduler.Wait.{insert_priority}
use sertos.Scheduler.Invariant.{SameBut, WaitInv}
use sertos.Scheduler.Wait.Order.{
  insert_sorted, insert_priority-eq, mem-insert_sorted, distinct-insert_sorted,
  by_priority-insert_sorted, by_priority-erase,
}
use sertos.Scheduler.Invariant.Orders.{by_priority-other, by_priority-keep}

module _ {l : WaitList → List ℕ} {b c : ℕ → Tcb} (t : ℕ) (inv : WaitInv l b)
    (same : SameBut t b c) where
  -- A write to a task that is in no wait list, and does not say that it is.
  pub WaitInv-other : ((w : WaitList) → mem t (l w) ≡ false) → (c t).wait_list ≡ none → WaitInv l c
  WaitInv-other out z = record {
    waiting_state = λ w u h. ground (arith, out w, same u, inv.waiting_state w u h);
    waiting_list = λ w u h. ground (arith, out w, same u, inv.waiting_list w u h);
    waiting_linked = λ w u h. ground (arith, out w, same u, inv.waiting_linked w u h);
    waiting_priority = λ w u h. ground (arith, out w, same u, inv.waiting_priority w u h);
    waiting_distinct = inv.waiting_distinct;
    linked_waiting = λ w u h. elim (Bool-cases (t == u)) [
      | inl e ↦ ground (arith, z, ==→eq t u e)
      | inr e ↦ ground (arith, same u, inv.linked_waiting w u)
    ];
    waiting_order = λ w. rw (by_priority-other b c t (l w) same (out w)) (inv.waiting_order w);
  }

  -- A write that keeps a task's priority, its wait list and its node, and leaves it blocked if it
  -- was.
  pub WaitInv-keep :
      (c t).priority ≡ (b t).priority
      → (c t).wait_list ≡ (b t).wait_list
      → (c t).event_linked ≡ (b t).event_linked
      → ((b t).state ≡ blocked → (c t).state ≡ blocked)
      → WaitInv l c
  WaitInv-keep p z n s = record {
    waiting_state = λ w u h. elim (Bool-cases (t == u)) [
      | inl e ↦ rw (← ==→eq t u e) (s (inv.waiting_state w t (ground (arith, ==→eq t u e))))
      | inr e ↦ ground (arith, same u, inv.waiting_state w u h)
    ];
    waiting_list = λ w u h. elim (Bool-cases (t == u)) [
      | inl e ↦ rw (← ==→eq t u e) (ground (arith, z, ==→eq t u e, inv.waiting_list w t))
      | inr e ↦ ground (arith, same u, inv.waiting_list w u h)
    ];
    waiting_linked = λ w u h. elim (Bool-cases (t == u)) [
      | inl e ↦ rw (← ==→eq t u e) (ground (arith, n, ==→eq t u e, inv.waiting_linked w t))
      | inr e ↦ ground (arith, same u, inv.waiting_linked w u h)
    ];
    waiting_priority = λ w u h. elim (Bool-cases (t == u)) [
      | inl e ↦ rw (← ==→eq t u e, p) (inv.waiting_priority w t (ground (arith, ==→eq t u e)))
      | inr e ↦ ground (arith, same u, inv.waiting_priority w u h)
    ];
    waiting_distinct = inv.waiting_distinct;
    linked_waiting = λ w u h. elim (Bool-cases (t == u)) [
      | inl e ↦ ground (arith, z, ==→eq t u e, inv.linked_waiting w t)
      | inr e ↦ ground (arith, same u, inv.linked_waiting w u)
    ];
    waiting_order = λ w. rw (by_priority-keep b c t (l w) same p) (inv.waiting_order w);
  }

module _ ⦃m : Modules⦄ (lists : ListLaws m) {l : WaitList → List ℕ} {b c : ℕ → Tcb} (w : WaitList)
    (t : ℕ) (inv : WaitInv l b) (same : SameBut t b c) where
  -- A task joins a wait list by priority; `a` holds the control blocks at that moment.
  pub WaitInv-insert :
      (a : ℕ → Tcb)
      → SameBut t b a
      → (c t).priority ≡ (a t).priority
      → ((v : WaitList) → mem t (l v) ≡ false)
      → (c t).state ≡ blocked
      → (c t).wait_list ≡ some w
      → (c t).event_linked ≡ true
      → (c t).priority < max_priorities
      → WaitInv (update_list l w (insert_priority a t (l w))) c
  WaitInv-insert a same_a p out s z n low =
      rw (insert_priority-eq lists a t (l w) (out w)) (record {
        waiting_state = λ v u h. elim (Bool-cases (t == u)) [
          | inl e ↦ rw (← ==→eq t u e) s
          | inr e ↦ ground (
            arith,
            same u,
            mem-insert_sorted a t u (l w),
            inv.waiting_state v u,
            inv.waiting_state w u,
          )
        ];
        waiting_list = λ v u h. elim (Bool-cases (t == u)) [
          | inl e ↦ rw (← ==→eq t u e) (elim (Bool-cases (same_list w v)) [
            | inl f ↦ rw (← same_list→eq w v f) z
            | inr f ↦ ground (arith, ==→eq t u e, out v)
          ])
          | inr e ↦
              ground (
                arith,
                same u,
                mem-insert_sorted a t u (l w),
                inv.waiting_list v u,
                same_list→eq w v,
              )
        ];
        waiting_linked = λ v u h. elim (Bool-cases (t == u)) [
          | inl e ↦ rw (← ==→eq t u e) n
          | inr e ↦ ground (
            arith,
            same u,
            mem-insert_sorted a t u (l w),
            inv.waiting_linked v u,
            inv.waiting_linked w u,
          )
        ];
        waiting_priority = λ v u h. elim (Bool-cases (t == u)) [
          | inl e ↦ rw (← ==→eq t u e) low
          | inr e ↦ ground (
            arith,
            same u,
            mem-insert_sorted a t u (l w),
            inv.waiting_priority v u,
            inv.waiting_priority w u,
          )
        ];
        waiting_distinct = λ v. ground (
          arith,
          distinct-insert_sorted a t (l w) (out w),
          inv.waiting_distinct v,
          inv.waiting_distinct w,
        );
        linked_waiting = λ v u h. elim (Bool-cases (t == u)) [
          | inl e ↦ ground (arith, z, ==→eq t u e, mem-insert_sorted a t u (l w), same_list_self w)
          | inr e ↦ ground (
            arith,
            same u,
            mem-insert_sorted a t u (l w),
            inv.linked_waiting v u,
            same_list→eq w v,
          )
        ];
        waiting_order = λ v. ground (
          arith,
          inv.waiting_order v,
          inv.waiting_order w,
          by_priority-other b c t (l v) same (out v),
          by_priority-other b a t (l w) same_a (out w),
          by_priority-insert_sorted a t (l w),
          by_priority-keep a c t (insert_sorted a t (l w)) (λ x d. same x d ∙ sym (same_a x d)) p,
        );
      })

  -- After the removal the task is in no wait list, and the others are where they were.
  mem-update-erase :
      (v : WaitList) (u : ℕ)
      → mem t (l w) ≡ true
      → mem u (update_list l w (erase t (l w)) v) ≡ true
      → (t ≢ u) × (mem u (l v) ≡ true)
  mem-update-erase v u at h = elim (Bool-cases (same_list w v)) [
    | inl f ↦ ground (arith, same_list→eq w v f, mem-erase u t (l w) (inv.waiting_distinct w))
    | inr f ↦ (
      λ e. ground (arith, e, inv.waiting_list w t at, inv.waiting_list v u, same_list_self w),
      ground arith,
    )
  ]

  not-mem-update-erase :
      (v : WaitList) → mem t (l w) ≡ true → mem t (update_list l w (erase t (l w)) v) ≡ false
  not-mem-update-erase v at = elim (Bool-cases (mem t (update_list l w (erase t (l w)) v))) [
    | inl h ↦ absurd ((mem-update-erase v t at h).0 refl)
    | inr h ↦ h
  ]

  -- A task leaves its wait list.
  pub WaitInv-remove :
      mem t (l w) ≡ true
      → (c t).wait_list ≡ none
      → WaitInv (update_list l w (m.linked_list_remove_direct (l w) t)) c
  WaitInv-remove at z = rw (lists.remove_lem (l w) t at (inv.waiting_distinct w)) (record {
    waiting_state =
        λ v u h. ground (arith, mem-update-erase v u at h, same u, inv.waiting_state v u);
    waiting_list = λ v u h. ground (arith, mem-update-erase v u at h, same u, inv.waiting_list v u);
    waiting_linked =
        λ v u h. ground (arith, mem-update-erase v u at h, same u, inv.waiting_linked v u);
    waiting_priority =
        λ v u h. ground (arith, mem-update-erase v u at h, same u, inv.waiting_priority v u);
    waiting_distinct = λ v.
        ground (arith, distinct-erase t (l w) (inv.waiting_distinct w), inv.waiting_distinct v);
    linked_waiting = λ v u h. elim (Bool-cases (t == u)) [
      | inl e ↦ ground (arith, z, ==→eq t u e)
      | inr e ↦ ground (
        arith,
        same u,
        mem-erase u t (l w) (inv.waiting_distinct w),
        inv.linked_waiting v u,
        same_list→eq w v,
      )
    ];
    waiting_order = λ v.
        rw
          (by_priority-other b c t (update_list l w (erase t (l w)) v) same
            (not-mem-update-erase v at))
          (ground (arith, by_priority-erase b t (l w), inv.waiting_order v, inv.waiting_order w));
  })
