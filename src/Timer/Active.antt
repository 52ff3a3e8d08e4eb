-- ===== src/Timer/Active.antt =====
-- The list of the active timers of src/sertos_timer.c.
use sertos.Base.{
  ℕ, ◌≡◌, refl, ◌≢◌, ◌∙◌, Bool, true, false, some, List, mem, distinct, arith, ◌==◌, ==→eq, update,
  Bool-cases, inl, inr, mem-snoc, mem-erase, distinct-snoc, distinct-erase,
}
use sertos.Types.{ok}
use sertos.Modules.{Modules, ListLaws}
use sertos.Kernel.{Kernel, Timer}
use sertos.Timer.Control.{arm, disarm, start, stop, delete, invalidate, free_unless, is_timer}

-- A timer is in the list exactly if it is active, and then once.
pub record TimerInv (l : List ℕ) (b : ℕ → Timer) : Type 0 where
  pub listed : (t : ℕ) → mem t l ≡ (b t).is_active
  pub once : distinct l ≡ true

module _ ⦃m : Modules⦄ (lists : ListLaws m) (l : List ℕ) (b c : ℕ → Timer) (t : ℕ)
    (inv : TimerInv l b) (others : (u : ℕ) → t ≢ u → c u ≡ b u) where
  -- A timer that is not in the list joins it at the end.
  pub TimerInv-insert :
      (b t).is_active ≡ false
      → (c t).is_active ≡ true
      → TimerInv (m.linked_list_insert_tail_direct l t) c
  TimerInv-insert out a =
      let n : mem t l ≡ false = inv.listed t ∙ out in
      rw (lists.insert_tail_lem l t n) (record {
        listed = λ u. elim (Bool-cases (t == u)) [
          | inl e ↦ ground (arith, mem-snoc u t l, ==→eq t u e, a)
          | inr e ↦ ground (arith, mem-snoc u t l, others u, inv.listed u, e)
        ];
        once = distinct-snoc t l n inv.once;
      })

  -- An active one leaves it.
  pub TimerInv-remove :
      (b t).is_active ≡ true
      → (c t).is_active ≡ false
      → TimerInv (m.linked_list_remove_direct l t) c
  TimerInv-remove a out = rw (lists.remove_lem l t (inv.listed t ∙ a) inv.once) (record {
    listed = λ u. elim (Bool-cases (t == u)) [
      | inl e ↦ ground (arith, mem-erase u t l inv.once, ==→eq t u e, out)
      | inr e ↦ ground (arith, mem-erase u t l inv.once, others u, inv.listed u, e)
    ];
    once = distinct-erase t l inv.once;
  })

  -- A write that leaves the flag alone changes nothing.
  pub TimerInv-same : (c t).is_active ≡ (b t).is_active → TimerInv l c
  TimerInv-same a = record {
    listed = λ u. elim (Bool-cases (t == u)) [
      | inl e ↦ ground (arith, ==→eq t u e, inv.listed u, a)
      | inr e ↦ ground (arith, others u, inv.listed u, e)
    ];
    once = inv.once;
  }

free_unless_timers :
    ⦃m : Modules⦄ (b : Bool) (k : Kernel) (h : ℕ)
    → ((free_unless b k h).active_timers ≡ k.active_timers)
      × ((free_unless b k h).timers ≡ k.timers)
unfolding free_unless
free_unless_timers true k h = (refl, refl)
free_unless_timers false k h = (refl, refl)

module _ ⦃m : Modules⦄ (lists : ListLaws m) (k : Kernel) (h : ℕ)
    (inv : TimerInv k.active_timers k.timers) where
  -- A live timer that is started, active or not, is in the list of the active timers once, with its
  -- whole period to run; the list stays well formed.
  pub start-TimerInv :
      is_timer k h ≡ true
      → let (k', status) = start k (some h) in
        (status ≡ ok)
        × TimerInv k'.active_timers k'.timers
        × (mem h k'.active_timers ≡ true)
        × ((k'.timers h).remaining_ticks ≡ (k.timers h).period_ticks)
  unfolding start arm disarm
  start-TimerInv valid =
      let c = record (k.timers h) {
        remaining_ticks = (k.timers h).period_ticks;
        is_active = true;
        node_linked = true;
      } in
      let off = record (k.timers h) { is_active = false } in
      rw valid (elim (Bool-cases (k.timers h).is_active) [
        | inl a ↦
            let left =
              TimerInv-remove lists k.active_timers k.timers (update k.timers h off) h inv
                (λ u n. ground arith) a (ground arith) in
            let inv' =
              TimerInv-insert lists _ (update k.timers h off) (update k.timers h c) h left
                (λ u n. ground arith) (ground arith) (ground arith) in
            rw a (refl, inv', inv'.listed h ∙ ground arith, ground arith)
        | inr a ↦
            let inv' =
              TimerInv-insert lists k.active_timers k.timers (update k.timers h c) h inv
                (λ u n. ground arith) a (ground arith) in
            rw a (refl, inv', inv'.listed h ∙ ground arith, ground arith)
      ])

  -- A live timer that is stopped is inactive and not in the list; the list stays well formed.
  pub stop-TimerInv :
      is_timer k h ≡ true
      → let (k', status) = stop k (some h) in
        (status ≡ ok)
        × TimerInv k'.active_timers k'.timers
        × (mem h k'.active_timers ≡ false)
        × ((k'.timers h).is_active ≡ false)
  unfolding stop
  stop-TimerInv valid = rw valid (elim (Bool-cases (k.timers h).is_active) [
    | inl a ↦
        let off = record (k.timers h) { node_linked = false; is_active = false } in
        let inv' =
          TimerInv-remove lists k.active_timers k.timers (update k.timers h off) h inv
            (λ u n. ground arith) a (ground arith) in
        rw a (refl, inv', inv'.listed h ∙ ground arith, ground arith)
    | inr a ↦ rw a (refl, inv, inv.listed h ∙ a, a)
  ])

  invalidate-TimerInv :
      is_timer k h ≡ true
      → let k' = invalidate k h in
        TimerInv k'.active_timers k'.timers
        × (mem h k'.active_timers ≡ false)
        × (is_timer k' h ≡ false)
  unfolding invalidate disarm
  invalidate-TimerInv valid =
      let off = record (k.timers h) { is_active = false; magic = 0 } in
      elim (Bool-cases (k.timers h).is_active) [
        | inl a ↦
            let inv' =
              TimerInv-remove lists k.active_timers k.timers (update k.timers h off) h inv
                (λ u n. ground arith) a (ground arith) in
            rw a (inv', inv'.listed h ∙ ground arith, ground arith)
        | inr a ↦
            let inv' =
              TimerInv-same lists k.active_timers k.timers (update k.timers h off) h inv
                (λ u n. ground arith) (ground (arith, a)) in
            rw a (inv', inv.listed h ∙ a, ground arith)
      ]

  -- A live timer that is deleted is inactive, not in the list, and not live any more; the list stays
  -- well formed.
  pub delete-TimerInv :
      is_timer k h ≡ true
      → let (k', status) = delete k (some h) in
        (status ≡ ok)
        × TimerInv k'.active_timers k'.timers
        × (mem h k'.active_timers ≡ false)
        × (is_timer k' h ≡ false)
  unfolding delete
  delete-TimerInv valid =
      let k' = invalidate k h in
      let (inv', gone, dead) = invalidate-TimerInv valid in
      let (l, b) = free_unless_timers (k.timers h).is_statically_allocated k' h in
      rw (valid, l, b) (refl, inv', gone, dead)
