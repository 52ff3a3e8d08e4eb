-- ===== src/Scheduler/Invariant/Same.antt =====
-- Writes to the control blocks that the lists of src/sertos_scheduler.c do not depend on.
use sertos.Base.{ℕ, ◌≡◌, refl, ◌∙◌, true, List, [], ◌∷◌}
use sertos.Types.{blocked}
use sertos.Kernel.{Kernel, Tcb}
use sertos.Scheduler.Wait.Order.{by_priority, all_at_most}
use sertos.Scheduler.Invariant.{Inv, is_runnable}

-- The same priority, nodes, delay and wait list; a task is runnable, or blocked, if it was.
pub record SameScheduling (x y : Tcb) : Type 0 where
  pub same_priority : y.priority ≡ x.priority
  pub same_state_node : y.state_linked ≡ x.state_linked
  pub same_event_node : y.event_linked ≡ x.event_linked
  pub same_delay_ticks : y.delay_ticks ≡ x.delay_ticks
  pub same_wait_list : y.wait_list ≡ x.wait_list
  pub still_runnable : is_runnable x.state ≡ true → is_runnable y.state ≡ true
  pub still_blocked : x.state ≡ blocked → y.state ≡ blocked
  pub was_runnable : is_runnable y.state ≡ true → is_runnable x.state ≡ true
  pub was_blocked : y.state ≡ blocked → x.state ≡ blocked
  pub same_magic : y.magic ≡ x.magic

pub SameScheduling-refl : (x : Tcb) → SameScheduling x x
SameScheduling-refl x = record {
  same_priority = refl;
  same_state_node = refl;
  same_event_node = refl;
  same_delay_ticks = refl;
  same_wait_list = refl;
  still_runnable = λ h. h;
  still_blocked = λ h. h;
  was_runnable = λ h. h;
  was_blocked = λ h. h;
  same_magic = refl;
}

module _ (b c : ℕ → Tcb) (same : (u : ℕ) → SameScheduling (b u) (c u)) where
  all_at_most-same : (p : ℕ) (l : List ℕ) → all_at_most c p l ≡ all_at_most b p l
  all_at_most-same p [] = refl
  all_at_most-same p (x ∷ xs) = rw ((same x).same_priority, all_at_most-same p xs) refl

  by_priority-same : (l : List ℕ) → by_priority c l ≡ by_priority b l
  by_priority-same [] = refl
  by_priority-same (x ∷ xs) =
      rw ((same x).same_priority, all_at_most-same (b x).priority xs, by_priority-same xs) refl

-- Such a write keeps the scheduler well formed.
pub Inv-same :
    (k k' : Kernel)
    → Inv k
    → ((u : ℕ) → SameScheduling (k.tcbs u) (k'.tcbs u))
    → k'.ready_queues ≡ k.ready_queues
    → k'.ready_bitmap ≡ k.ready_bitmap
    → k'.delay_list ≡ k.delay_list
    → k'.wait_lists ≡ k.wait_lists
    → Inv k'
Inv-same k k' inv same q m d w = record {
  at_ready =
      rw (q, m)
        (record {
          queued_priority = λ p t h. (same t).same_priority ∙ inv.at_ready.queued_priority p t h;
          queued_state = λ p t h. (same t).still_runnable (inv.at_ready.queued_state p t h);
          queued_linked = λ p t h. (same t).same_state_node ∙ inv.at_ready.queued_linked p t h;
          queued_distinct = inv.at_ready.queued_distinct;
          marked = inv.at_ready.marked;
        });
  at_delay = rw d (record {
    delayed_state = λ t h. (same t).still_blocked (inv.at_delay.delayed_state t h);
    delayed_ticks = λ t h. rw (same t).same_delay_ticks (inv.at_delay.delayed_ticks t h);
    delayed_priority = λ t h. rw (same t).same_priority (inv.at_delay.delayed_priority t h);
    delayed_distinct = inv.at_delay.delayed_distinct;
    counting_delayed = λ t h. inv.at_delay.counting_delayed t (rw (same t).same_delay_ticks at h);
  });
  at_wait = rw w (record {
    waiting_state = λ v t h. (same t).still_blocked (inv.at_wait.waiting_state v t h);
    waiting_list = λ v t h. (same t).same_wait_list ∙ inv.at_wait.waiting_list v t h;
    waiting_linked = λ v t h. (same t).same_event_node ∙ inv.at_wait.waiting_linked v t h;
    waiting_priority = λ v t h. rw (same t).same_priority (inv.at_wait.waiting_priority v t h);
    waiting_distinct = inv.at_wait.waiting_distinct;
    linked_waiting = λ v t h. inv.at_wait.linked_waiting v t (rw (same t).same_wait_list at h);
    waiting_order =
        λ v. by_priority-same k.tcbs k'.tcbs same (k.wait_lists v) ∙ inv.at_wait.waiting_order v;
  });
}
