-- ===== src/System/Reachable.antt =====
-- Every state that the kernel comes to is safe.
use sertos.Base.{
  subst, ℕ, ◌≤◌, ◌≡◌, refl, ◌≢◌, Bool, true, false, none, some, [], arith, inl, inr, Bool-cases,
  ltb,
}
use sertos.Types.{running, max_priorities, task_magic_word}
use sertos.Modules.{Modules, ListLaws, BitmapLaws}
use sertos.Kernel.{Kernel, WaitList}
use sertos.Port.{Port}
use sertos.Scheduler.Invariant.{Inv, is_runnable}
use sertos.Scheduler.Init.{clear_lists}
use sertos.Scheduler.Ready.{select_next_task}
use sertos.Scheduler.Ready.Choice.{select_next_task-highest}
use sertos.System.{
  IsLive, Step, switch, block, sleep, wake, count_ticks, slice, suspend, reprioritise, inherit,
  resume, create, delete, write, Reach, here, next,
}
use sertos.System.Safe.{Safe}
use sertos.System.Blocking.{block-Safe, sleep-Safe}
use sertos.System.Waking.{wake-Safe, count_ticks-Safe}
use sertos.System.Tasks.{switch-Safe, slice-Safe, write-Safe}
use sertos.System.Requests.{suspend-Safe, resume-Safe}
use sertos.System.Resting.{reprioritise_idle-Safe, inherit_idle-Safe}
use sertos.System.Creation.{create-Safe, delete-Safe}

-- The memory before the set-up: no task was created, no object has a waiting task.
pub record IsFresh (k : Kernel) : Type 0 where
  pub no_task : (t : ℕ) → (k.tcbs t).magic ≢ task_magic_word
  pub no_delay : (t : ℕ) → (k.tcbs t).delay_ticks ≡ 0
  pub no_wait_list : (t : ℕ) → (k.tcbs t).wait_list ≡ none
  pub none_runs : (t : ℕ) → (k.tcbs t).state ≢ running
  pub none_waits : (w : WaitList) → k.wait_lists w ≡ []
  pub few_queues : (p : ℕ) → max_priorities ≤ p → k.ready_queues p ≡ []

module _ ⦃m : Modules⦄ ⦃e : Port⦄ (lists : ListLaws m) (bits : BitmapLaws m) where
  Step-Safe : {i j : Kernel} → Safe i → Step i j → Safe j
  Step-Safe {i} s (switch t c) = switch-Safe lists bits i s t c
  Step-Safe {i} s (block w t ticks runs pos) = block-Safe lists bits i t ticks s runs pos w
  Step-Safe {i} s (sleep t ticks runs pos) = sleep-Safe lists bits i t ticks s runs pos
  Step-Safe {i} s (wake w) = wake-Safe lists bits i s w
  Step-Safe {i} s count_ticks = count_ticks-Safe lists bits i s
  Step-Safe {i} s (slice t runs) = slice-Safe lists bits i s t runs
  Step-Safe {i} s (suspend t live r) = suspend-Safe lists bits i t s live r
  Step-Safe {i} s (reprioritise t p live r low) =
      reprioritise_idle-Safe lists bits i t s p live low r
  Step-Safe {i} s (inherit t p live r low) = inherit_idle-Safe lists bits i t s p live low r
  Step-Safe {i} s (resume t live off) = resume-Safe lists bits i t s live off
  Step-Safe {i} s (create t c is_static stack d low) =
      create-Safe lists bits i t s c is_static stack d low
  Step-Safe {i} s (delete t live r hook) = delete-Safe lists bits i t s live r hook
  Step-Safe {i} s (write j same) = write-Safe i j s same

  pub Reach-Safe : {i j : Kernel} → Safe i → Reach i j → Safe j
  Reach-Safe s here = s
  Reach-Safe s (next r st) = Step-Safe (Reach-Safe s r) st

  cleared_queue :
      (k : Kernel) (bitmap : ℕ → Bool)
      → IsFresh k
      → (p : ℕ) → (clear_lists k bitmap).ready_queues p ≡ []
  unfolding clear_lists
  cleared_queue k bitmap f p = elim (Bool-cases (ltb p max_priorities)) [
    | inl l ↦ rw l lists.init_lem
    | inr l ↦ rw l (f.few_queues p (ground (arith, l)))
  ]

  clear_lists-Inv :
      (k : Kernel) (bitmap : ℕ → Bool)
      → IsFresh k
      → ((i : ℕ) → bitmap i ≡ false)
      → Inv (clear_lists k bitmap)
  unfolding clear_lists
  clear_lists-Inv k bitmap f z =
      let queue = cleared_queue k bitmap f in
      record {
        at_ready = record {
          queued_priority = λ p t h. ground (arith, queue p);
          queued_state = λ p t h. ground (arith, queue p);
          queued_linked = λ p t h. ground (arith, queue p);
          queued_distinct = λ p. rw (queue p) refl;
          marked = λ p l. rw (queue p) (z p);
        };
        at_delay = record {
          delayed_state = λ t h. ground (arith, lists.init_lem);
          delayed_ticks = λ t h. ground (arith, lists.init_lem);
          delayed_priority = λ t h. ground (arith, lists.init_lem);
          delayed_distinct = rw lists.init_lem refl;
          counting_delayed = λ t h. ground (arith, f.no_delay t);
        };
        at_wait = record {
          waiting_state = λ w t h. ground (arith, f.none_waits w);
          waiting_list = λ w t h. ground (arith, f.none_waits w);
          waiting_linked = λ w t h. ground (arith, f.none_waits w);
          waiting_priority = λ w t h. ground (arith, f.none_waits w);
          waiting_distinct = λ w. rw (f.none_waits w) refl;
          linked_waiting = λ w t h. ground (arith, f.no_wait_list t);
          waiting_order = λ w. rw (f.none_waits w) refl;
        };
      }

  clear_lists-Safe :
      (k : Kernel) (bitmap : ℕ → Bool)
      → IsFresh k
      → ((i : ℕ) → bitmap i ≡ false)
      → Safe (clear_lists k bitmap)
  unfolding clear_lists
  clear_lists-Safe k bitmap f z = record {
    well_formed = clear_lists-Inv k bitmap f z;
    only = λ u r. absurd (f.none_runs u r);
    placed = λ u live. absurd (f.no_task u live);
  }

  pub Reach-clear_lists-Safe :
      (k k' : Kernel) (bitmap : ℕ → Bool)
      → IsFresh k
      → m.bitmap_init max_priorities ≡ some bitmap
      → Reach (clear_lists k bitmap) k'
      → Safe k'
  Reach-clear_lists-Safe k k' bitmap f e r =
      let (none_set, first, z) = bits.bits_init in
      let same : none_set ≡ bitmap = cc in
      Reach-Safe (clear_lists-Safe k bitmap f (subst (λ b. (i : ℕ) → b i ≡ false) same z)) r

  -- In a safe state the task that the scheduler chooses has the highest priority of all live tasks
  -- that are ready or running, and there is one if there is such a task.
  pub Safe-select_next_task :
      (k : Kernel) (u : ℕ)
      → Safe k
      → IsLive k u
      → is_runnable (k.tcbs u).state ≡ true
      → (t : ℕ) × (select_next_task k ≡ some t) × ((k.tcbs u).priority ≤ (k.tcbs t).priority)
  Safe-select_next_task k u s live r =
      let (low, h) = (s.placed u live).is_queued r in
      let (t, e, _, high) =
        select_next_task-highest lists bits k s.well_formed.at_ready u (k.tcbs u).priority low h in
      (t, e, high)
