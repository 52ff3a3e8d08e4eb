-- ===== src/Scheduler/Delay/RoundRobin.antt =====
-- `process_time_slicing` of src/sertos_scheduler.c: round robin in a ready queue.
use sertos.Base.{
  ℕ, ◌<◌, ◌≡◌, refl, sym, ◌∙◌, ap, subst, Bool, true, false, not, none, some, List, [], ◌∷◌, ◌++◌,
  mem, erase, distinct, null, length, ltb, ◌==◌, ==→eq, ==-self, if◌then◌else◌, arith, update,
  Bool-cases, inl, inr, mem-snoc, mem-erase, distinct-snoc, distinct-erase, null-snoc, mem_of_null,
}
use sertos.Types.{max_priorities}
use sertos.Modules.{Modules, ListLaws}
use sertos.Kernel.{Kernel, Tcb}
use sertos.Scheduler.Delay.{process_time_slicing, rotate}
use sertos.Scheduler.Ready.Membership.{IsQueued}
use sertos.Scheduler.Invariant.{ReadyInv, Inv}
use sertos.Scheduler.Invariant.Same.{SameScheduling, SameScheduling-refl, Inv-same}

module _ (t : ℕ) (l : List ℕ) (h : mem t l ≡ true) (d : distinct l ≡ true) where
  abbrev turned : List ℕ
  turned = erase t l ++ t ∷ []

  mem-turned : (u : ℕ) → mem u turned ≡ mem u l
  mem-turned u = elim (Bool-cases (t == u)) [
    | inl e ↦ mem-snoc u t (erase t l) ∙ rw e (sym (subst (λ i. mem i l ≡ true) (==→eq t u e) h))
    | inr e ↦ ground (arith, mem-snoc u t (erase t l), mem-erase u t l d, e)
  ]

  distinct-turned : distinct turned ≡ true
  distinct-turned =
      distinct-snoc t (erase t l) (mem-erase t t l d ∙ rw (==-self t) refl) (distinct-erase t l d)

  null-turned : null turned ≡ null l
  null-turned =
      null-snoc (erase t l) t
      ∙ elim (Bool-cases (null l)) [ inl e ↦ ground (arith, mem_of_null t l e, h) | inr e ↦ sym e ]

-- A queue of one task is turned by doing nothing.
turned_single :
    (t : ℕ) (l : List ℕ) → mem t l ≡ true → ltb 1 (length l) ≡ false → l ≡ erase t l ++ t ∷ []
turned_single t [] h e = ground arith
turned_single t (x ∷ []) h e = elim (Bool-cases (x == t)) [
  | inl f ↦ rw (f, ==→eq x t f) refl
  | inr f ↦ ground (arith, f)
]
turned_single t (x ∷ y ∷ ys) h e = ground arith

-- A queue with the same tasks in another order.
ReadyInv-reordered :
    (q : ℕ → List ℕ) (bitmap : ℕ → Bool) (b : ℕ → Tcb) (p : ℕ) (l : List ℕ)
    → ReadyInv q bitmap b
    → ((u : ℕ) → mem u l ≡ mem u (q p))
    → distinct l ≡ true
    → null l ≡ null (q p)
    → ReadyInv (update q p l) bitmap b
ReadyInv-reordered q bitmap b p l inv same d n =
    let tasks : (r u : ℕ) → mem u (update q p l r) ≡ mem u (q r) = λ r u.
      elim (Bool-cases (p == r)) [ inl e ↦ rw (e, ← ==→eq p r e) (same u) | inr e ↦ rw e refl ] in
    record {
      queued_priority = λ r u h. inv.queued_priority r u (sym (tasks r u) ∙ h);
      queued_state = λ r u h. inv.queued_state r u (sym (tasks r u) ∙ h);
      queued_linked = λ r u h. inv.queued_linked r u (sym (tasks r u) ∙ h);
      queued_distinct =
          λ r. elim (Bool-cases (p == r)) [ inl e ↦ rw e d | inr e ↦ rw e (inv.queued_distinct r) ];
      marked = λ r low. elim (Bool-cases (p == r)) [
        | inl e ↦
            rw (e, n, ← ==→eq p r e)
              (inv.marked p (subst (λ i. i < max_priorities) (sym (==→eq p r e)) low))
        | inr e ↦ rw e (inv.marked r low)
      ];
    }

module _ ⦃m : Modules⦄ (lists : ListLaws m) (k : Kernel) (t : ℕ) (inv : Inv k) where
  abbrev queue : List ℕ
  queue = k.ready_queues (k.tcbs t).priority

  -- The queue is turned, and nothing else.
  abbrev turn : Kernel
  turn = record k {
    ready_queues = update k.ready_queues (k.tcbs t).priority (erase t queue ++ t ∷ []);
    tcbs = update k.tcbs t (record (k.tcbs t) { state_linked = true });
  }

  linked_same :
      mem t queue ≡ true
      → (u : ℕ)
      → SameScheduling (k.tcbs u) (update k.tcbs t (record (k.tcbs t) { state_linked = true }) u)
  linked_same h u = elim (Bool-cases (t == u)) [
    | inl e ↦
        rw (e, ← ==→eq t u e)
          (record {
            same_priority = refl;
            same_state_node = sym (inv.at_ready.queued_linked (k.tcbs t).priority t h);
            same_event_node = refl;
            same_delay_ticks = refl;
            same_wait_list = refl;
            still_runnable = λ r. r;
            still_blocked = λ r. r;
            was_runnable = λ r. r;
            was_blocked = λ r. r;
            same_magic = refl;
          })
    | inr e ↦ rw e (SameScheduling-refl (k.tcbs u))
  ]

  turn-Inv : mem t queue ≡ true → Inv turn
  turn-Inv h =
      let p : ℕ = (k.tcbs t).priority in
      let d = inv.at_ready.queued_distinct p in
      let linked = record k {
        tcbs = update k.tcbs t (record (k.tcbs t) { state_linked = true });
      } in
      let inv1 = Inv-same k linked inv (linked_same h) refl refl refl refl in
      record {
        at_ready =
            ReadyInv-reordered k.ready_queues k.ready_bitmap linked.tcbs p (turned t queue h d)
              inv1.at_ready (mem-turned t queue h d) (distinct-turned t queue h d)
              (null-turned t queue h d);
        at_delay = inv1.at_delay;
        at_wait = inv1.at_wait;
      }

  rotate-eq : mem t queue ≡ true → ltb 1 (length queue) ≡ true → rotate k t ≡ turn
  unfolding rotate
  rotate-eq h e =
      let d = inv.at_ready.queued_distinct (k.tcbs t).priority in
      let out : mem t (erase t queue) ≡ false = mem-erase t t queue d ∙ rw (==-self t) refl in
      rw (e, lists.remove_lem queue t h d, lists.insert_tail_lem (erase t queue) t out) refl

  rotate_alone : ltb 1 (length queue) ≡ false → rotate k t ≡ k
  unfolding rotate
  rotate_alone e = rw e refl

  pub rotate-Inv :
      mem t queue ≡ true
      → let k' = rotate k t in
        Inv k' × (k'.ready_queues (k.tcbs t).priority ≡ erase t queue ++ t ∷ [])
  rotate-Inv h = elim (Bool-cases (ltb 1 (length queue))) [
    | inl e ↦ rw (rotate-eq h e) (turn-Inv h, rw (==-self (k.tcbs t).priority) refl)
    | inr e ↦ rw (rotate_alone e) (inv, turned_single t queue h e)
  ]

  turn_kept :
      mem t queue ≡ true
      → (u : ℕ)
      → SameScheduling (k.tcbs u) (turn.tcbs u)
        × ((turn.tcbs u).state ≡ (k.tcbs u).state)
        × ((p : ℕ) → mem u (turn.ready_queues p) ≡ mem u (k.ready_queues p))
  turn_kept h u = (
    linked_same h u,
    ground arith,
    λ p. elim (Bool-cases ((k.tcbs t).priority == p)) [
      | inl e ↦
          rw (e, ← ==→eq (k.tcbs t).priority p e)
            (mem-turned t queue h (inv.at_ready.queued_distinct (k.tcbs t).priority) u)
      | inr e ↦ rw e refl
    ],
  )

  -- No task leaves its queue or changes its state.
  pub rotate_kept :
      mem t queue ≡ true
      → (u : ℕ)
      → let k' = rotate k t in
        SameScheduling (k.tcbs u) (k'.tcbs u)
        × ((k'.tcbs u).state ≡ (k.tcbs u).state)
        × ((p : ℕ) → mem u (k'.ready_queues p) ≡ mem u (k.ready_queues p))
        × (k'.current_tcb ≡ k.current_tcb)
  rotate_kept h u = elim (Bool-cases (ltb 1 (length queue))) [
    | inl e ↦ let (a, b, c) = turn_kept h u in rw (rotate-eq h e) (a, b, c, refl)
    | inr e ↦ rw (rotate_alone e) (SameScheduling-refl (k.tcbs u), refl, λ p. refl, refl)
  ]

  -- With time slicing, the current task, if it is queued, goes to the end of its ready queue, behind
  -- the tasks of its priority in the order that they had; the scheduler stays well formed.
  pub process_time_slicing-Inv :
      k.time_slicing_enabled ≡ true
      → k.current_tcb ≡ some t
      → IsQueued k t
      → let k' = process_time_slicing k in
        Inv k'
        × (k'.ready_queues (k.tcbs t).priority
            ≡ erase t (k.ready_queues (k.tcbs t).priority) ++ t ∷ [])
  unfolding process_time_slicing
  process_time_slicing-Inv on current q =
      subst (λ x. Inv x × (x.ready_queues (k.tcbs t).priority ≡ erase t queue ++ t ∷ []))
        (sym (
          ap (λ b. if not b then k else elim k.current_tcb [ none ↦ k | some u ↦ rotate k u ]) on
          ∙ ap (λ c. elim c as (λ x. Kernel) [ none ↦ k | some u ↦ rotate k u ]) current))
        (rotate-Inv q.1)
