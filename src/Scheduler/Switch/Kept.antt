-- ===== src/Scheduler/Switch/Kept.antt =====
-- The accounting of src/sertos_stats.c at a context switch leaves the lists and the states of the
-- tasks.
use sertos.Base.{
  ℕ, ◌+◌, ◌≡◌, refl, ◌∙◌, Bool, true, false, not, Option, none, some, ◌==◌, ==→eq, if◌then◌else◌,
  is_handle, arith, Bool-cases, inl, inr,
}
use sertos.Types.{u32}
use sertos.Kernel.{Kernel, Tcb, set_tcb}
use sertos.Stats.Accounting.{on_switch, charge, enter}
use sertos.Scheduler.Invariant.Same.{SameScheduling, SameScheduling-refl}

-- Two states with the same lists and the same current task.
pub record SameLists (k k' : Kernel) : Type 0 where
  pub same_ready_queues : k'.ready_queues ≡ k.ready_queues
  pub same_ready_bitmap : k'.ready_bitmap ≡ k.ready_bitmap
  pub same_delay_list : k'.delay_list ≡ k.delay_list
  pub same_wait_lists : k'.wait_lists ≡ k.wait_lists

SameLists-trans : (i j k : Kernel) → SameLists i j → SameLists j k → SameLists i k
SameLists-trans i j k f g = record {
  same_ready_queues = g.same_ready_queues ∙ f.same_ready_queues;
  same_ready_bitmap = g.same_ready_bitmap ∙ f.same_ready_bitmap;
  same_delay_list = g.same_delay_list ∙ f.same_delay_list;
  same_wait_lists = g.same_wait_lists ∙ f.same_wait_lists;
}

-- What a step keeps: the lists, the current task and every task's state.
pub record Kept (k k' : Kernel) : Type 0 where
  pub lists : SameLists k k'
  pub same_current : k'.current_tcb ≡ k.current_tcb
  pub same_state : (u : ℕ) → (k'.tcbs u).state ≡ (k.tcbs u).state
  pub same_tcb : (u : ℕ) → SameScheduling (k.tcbs u) (k'.tcbs u)

Kept-refl : (k : Kernel) → Kept k k
Kept-refl k = record {
  lists = record {
    same_ready_queues = refl;
    same_ready_bitmap = refl;
    same_delay_list = refl;
    same_wait_lists = refl;
  };
  same_current = refl;
  same_state = λ u. refl;
  same_tcb = λ u. SameScheduling-refl (k.tcbs u);
}

pub SameScheduling-trans :
    (x y z : Tcb) → SameScheduling x y → SameScheduling y z → SameScheduling x z
SameScheduling-trans x y z f g = record {
  same_priority = g.same_priority ∙ f.same_priority;
  same_state_node = g.same_state_node ∙ f.same_state_node;
  same_event_node = g.same_event_node ∙ f.same_event_node;
  same_delay_ticks = g.same_delay_ticks ∙ f.same_delay_ticks;
  same_wait_list = g.same_wait_list ∙ f.same_wait_list;
  still_runnable = λ h. g.still_runnable (f.still_runnable h);
  still_blocked = λ h. g.still_blocked (f.still_blocked h);
  was_runnable = λ h. f.was_runnable (g.was_runnable h);
  was_blocked = λ h. f.was_blocked (g.was_blocked h);
  same_magic = g.same_magic ∙ f.same_magic;
}

Kept-trans : (i j k : Kernel) → Kept i j → Kept j k → Kept i k
Kept-trans i j k f g = record {
  lists = SameLists-trans i j k f.lists g.lists;
  same_current = g.same_current ∙ f.same_current;
  same_state = λ u. g.same_state u ∙ f.same_state u;
  same_tcb =
      λ u. SameScheduling-trans (i.tcbs u) (j.tcbs u) (k.tcbs u) (f.same_tcb u) (g.same_tcb u);
}

-- A write to one control block that the lists do not depend on.
pub set_tcb-same :
    (k : Kernel) (t : ℕ) (b : Tcb)
    → SameScheduling (k.tcbs t) b
    → (u : ℕ) → SameScheduling (k.tcbs u) ((set_tcb k t b).tcbs u)
set_tcb-same k t b same u = elim (Bool-cases (t == u)) [
  | inl e ↦ rw (e, ← ==→eq t u e) same
  | inr e ↦ rw e (SameScheduling-refl (k.tcbs u))
]

set_tcb-Kept :
    (k : Kernel) (t : ℕ) (b : Tcb)
    → SameScheduling (k.tcbs t) b
    → b.state ≡ (k.tcbs t).state
    → Kept k (set_tcb k t b)
set_tcb-Kept k t b same e = record {
  lists = record {
    same_ready_queues = refl;
    same_ready_bitmap = refl;
    same_delay_list = refl;
    same_wait_lists = refl;
  };
  same_current = refl;
  same_state = λ u. ground (arith, e);
  same_tcb = set_tcb-same k t b same;
}

same_accounting :
    (b : Tcb) (total last count : ℕ)
    → SameScheduling b
        (record b { run_time_total = total; run_time_last_entry = last; switch_in_count = count })
same_accounting b total last count = record {
  same_priority = refl;
  same_state_node = refl;
  same_event_node = refl;
  same_delay_ticks = refl;
  same_wait_list = refl;
  still_runnable = λ h. h;
  still_blocked = λ h. h;
  was_runnable = λ h. h;
  was_blocked = λ h. h;
  same_magic = refl;
}

-- The accounting keeps them.
charge-Kept : (k : Kernel) (prev : Option ℕ) (now : ℕ) → Kept k (charge k prev now)
unfolding charge
charge-Kept k none now = Kept-refl k
charge-Kept k (some t) now = set_tcb-Kept k t _ (same_accounting (k.tcbs t) _ _ _) refl

enter-Kept : (k : Kernel) (prev next : Option ℕ) (now : ℕ) → Kept k (enter k prev next now)
unfolding enter
enter-Kept k prev none now = Kept-refl k
enter-Kept k prev (some t) now = elim (Bool-cases (is_handle prev t)) [
  | inl e ↦ rw e (set_tcb-Kept k t _ (same_accounting (k.tcbs t) _ _ _) refl)
  | inr e ↦
      let kept =
        set_tcb-Kept k t
          (record (k.tcbs t) {
            run_time_last_entry = now;
            switch_in_count = u32 ((k.tcbs t).switch_in_count + 1);
          })
          (same_accounting (k.tcbs t) _ _ _) refl in
      rw e (record {
        lists = record {
          same_ready_queues = refl;
          same_ready_bitmap = refl;
          same_delay_list = refl;
          same_wait_lists = refl;
        };
        same_current = refl;
        same_state = kept.same_state;
        same_tcb = kept.same_tcb;
      })
]

if-Kept : (b : Bool) (k k' : Kernel) → Kept k k → Kept k k' → Kept k (if b then k else k')
if-Kept true k k' f g = f
if-Kept false k k' f g = g

pub on_switch-Kept : (k : Kernel) (prev next : Option ℕ) → Kept k (on_switch k prev next)
unfolding on_switch
on_switch-Kept k prev next = if-Kept (not k.stats_enabled) k _ (Kept-refl k) (
    Kept-trans k (charge k prev k.runtime_counter) _ (charge-Kept k prev k.runtime_counter)
      (enter-Kept (charge k prev k.runtime_counter) prev next k.runtime_counter))
