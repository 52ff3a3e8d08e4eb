-- ===== src/Scheduler/Objects.antt =====
-- What the wait lists of src/sertos_scheduler.c leave alone: the objects of the other modules, the
-- current task and the flags.
use sertos.Base.{
  ℕ, ◌≡◌, refl, ◌∙◌, Bool, true, false, Option, none, some, ltb, if◌then◌else◌, Bool-cases,
  Option-cases, inl, inr,
}
use sertos.Types.{Status}
use sertos.Modules.{Modules}
use sertos.Kernel.{Kernel, Tcb, WaitList, set_tcb}
use sertos.Scheduler.Ready.{add_ready, remove_ready, enqueue_ready, dequeue_ready}
use sertos.Scheduler.Wait.{
  wait_list_remove, cancel_delay, forget_wait_list, unblock, wait_list_unblock_highest,
}

pub record SameObjects (k k' : Kernel) : Type 0 where
  pub same_semaphores : k'.semaphores ≡ k.semaphores
  pub same_mutexes : k'.mutexes ≡ k.mutexes
  pub same_timers : k'.timers ≡ k.timers
  pub same_current : k'.current_tcb ≡ k.current_tcb
  pub same_running : k'.is_running ≡ k.is_running
  pub same_pool : k'.pool ≡ k.pool
  pub same_queues : k'.queues ≡ k.queues
  pub same_stream_buffers : k'.stream_buffers ≡ k.stream_buffers

pub SameObjects-refl : (k : Kernel) → SameObjects k k
SameObjects-refl k = record {
  same_semaphores = refl;
  same_mutexes = refl;
  same_timers = refl;
  same_current = refl;
  same_running = refl;
  same_pool = refl;
  same_queues = refl;
  same_stream_buffers = refl;
}

pub SameObjects-trans : (i j k : Kernel) → SameObjects i j → SameObjects j k → SameObjects i k
SameObjects-trans i j k f g = record {
  same_semaphores = g.same_semaphores ∙ f.same_semaphores;
  same_mutexes = g.same_mutexes ∙ f.same_mutexes;
  same_timers = g.same_timers ∙ f.same_timers;
  same_current = g.same_current ∙ f.same_current;
  same_running = g.same_running ∙ f.same_running;
  same_pool = g.same_pool ∙ f.same_pool;
  same_queues = g.same_queues ∙ f.same_queues;
  same_stream_buffers = g.same_stream_buffers ∙ f.same_stream_buffers;
}

-- A conditional whose branches both keep the objects.
pub SameObjects-if :
    (b : Bool) (k x y : Kernel)
    → SameObjects k x
    → SameObjects k y
    → SameObjects k (if b then x else y)
SameObjects-if true k x y f g = f
SameObjects-if false k x y f g = g

SameObjects-if_pair :
    (b : Bool) (k : Kernel) (x y : Kernel × Status)
    → SameObjects k x.0
    → SameObjects k y.0
    → SameObjects k (if b then x else y).0
SameObjects-if_pair true k x y f g = f
SameObjects-if_pair false k x y f g = g

module _ ⦃m : Modules⦄ (k : Kernel) where
  enqueue_ready-SameObjects : (t : ℕ) → SameObjects k (enqueue_ready k t)
  unfolding enqueue_ready
  enqueue_ready-SameObjects t = record {
    same_semaphores = refl;
    same_mutexes = refl;
    same_timers = refl;
    same_current = refl;
    same_running = refl;
    same_pool = refl;
    same_queues = refl;
    same_stream_buffers = refl;
  }

  dequeue_ready-SameObjects : (t : ℕ) → SameObjects k (dequeue_ready k t)
  unfolding dequeue_ready
  dequeue_ready-SameObjects t = record {
    same_semaphores = refl;
    same_mutexes = refl;
    same_timers = refl;
    same_current = refl;
    same_running = refl;
    same_pool = refl;
    same_queues = refl;
    same_stream_buffers = refl;
  }

  pub add_ready-SameObjects : (t : Option ℕ) → SameObjects k (add_ready k t).0
  unfolding add_ready
  add_ready-SameObjects none = SameObjects-refl k
  add_ready-SameObjects (some t) =
      SameObjects-if_pair _ k _ _ (SameObjects-refl k) (enqueue_ready-SameObjects t)

  pub remove_ready-SameObjects : (t : Option ℕ) → SameObjects k (remove_ready k t).0
  unfolding remove_ready
  remove_ready-SameObjects none = SameObjects-refl k
  remove_ready-SameObjects (some t) =
      SameObjects-if_pair _ k _ _ (SameObjects-refl k)
        (SameObjects-if_pair _ k _ _ (dequeue_ready-SameObjects t) (SameObjects-refl k))

  pub wait_list_remove-SameObjects :
      (w : WaitList) (t : ℕ) → SameObjects k (wait_list_remove k (some w) (some t))
  unfolding wait_list_remove
  wait_list_remove-SameObjects w t = elim (Bool-cases (k.tcbs t).event_linked) [
    | inl e ↦
        rw (wait_list_remove, e)
          (record {
            same_semaphores = refl;
            same_mutexes = refl;
            same_timers = refl;
            same_current = refl;
            same_running = refl;
            same_pool = refl;
            same_queues = refl;
            same_stream_buffers = refl;
          })
    | inr e ↦
        rw (wait_list_remove, e)
          (record {
            same_semaphores = refl;
            same_mutexes = refl;
            same_timers = refl;
            same_current = refl;
            same_running = refl;
            same_pool = refl;
            same_queues = refl;
            same_stream_buffers = refl;
          })
  ]

  cancel_delay-SameObjects : (t : ℕ) → SameObjects k (cancel_delay k t)
  unfolding cancel_delay
  cancel_delay-SameObjects t = elim (Bool-cases (ltb 0 (k.tcbs t).delay_ticks)) [
    | inl e ↦
        rw (cancel_delay, e)
          (record {
            same_semaphores = refl;
            same_mutexes = refl;
            same_timers = refl;
            same_current = refl;
            same_running = refl;
            same_pool = refl;
            same_queues = refl;
            same_stream_buffers = refl;
          })
    | inr e ↦
        rw (cancel_delay, e)
          (record {
            same_semaphores = refl;
            same_mutexes = refl;
            same_timers = refl;
            same_current = refl;
            same_running = refl;
            same_pool = refl;
            same_queues = refl;
            same_stream_buffers = refl;
          })
  ]

  pub set_tcb-SameObjects : (t : ℕ) (b : Tcb) → SameObjects k (set_tcb k t b)
  set_tcb-SameObjects t b = record {
    same_semaphores = refl;
    same_mutexes = refl;
    same_timers = refl;
    same_current = refl;
    same_running = refl;
    same_pool = refl;
    same_queues = refl;
    same_stream_buffers = refl;
  }

module _ ⦃m : Modules⦄ (k : Kernel) (w : WaitList) where
  unblock-SameObjects : (t : ℕ) → SameObjects k (unblock k w t)
  unfolding unblock forget_wait_list
  unblock-SameObjects t =
      let a = wait_list_remove k (some w) (some t) in
      let b = cancel_delay a t in
      let c = forget_wait_list b t in
      SameObjects-trans k a _ (wait_list_remove-SameObjects k w t) (
        SameObjects-trans a b _ (cancel_delay-SameObjects a t)
          (SameObjects-trans b c _ (set_tcb-SameObjects b t _) (add_ready-SameObjects c (some t))))

  pub unblock_highest-SameObjects : SameObjects k (wait_list_unblock_highest k (some w)).0
  unfolding wait_list_unblock_highest
  unblock_highest-SameObjects = elim (Option-cases (m.linked_list_peek_head (k.wait_lists w))) [
    | inl e ↦ rw (wait_list_unblock_highest, e) (SameObjects-refl k)
    | inr (t, e) ↦ rw (wait_list_unblock_highest, e) (unblock-SameObjects t)
  ]
