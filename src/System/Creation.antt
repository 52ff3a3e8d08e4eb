-- ===== src/System/Creation.antt =====
-- Creation and deletion of a task: no task is lost.
use sertos.Base.{
  ℕ, ◌<◌, ◌≡◌, refl, Bool, true, false, not, some, inl, inr, arith, ◌⊎◌, update, Bool-cases, ◌==◌,
  ==-self, if◌then◌else◌,
}
use sertos.Types.{TaskState, terminated, max_priorities}
use sertos.Modules.{Modules, ListLaws, BitmapLaws}
use sertos.Kernel.{Kernel, Tcb, set_tcb}
use sertos.Port.{Port}
use sertos.Scheduler.Ready.{remove_ready, add_ready}
use sertos.Scheduler.Ready.Membership.{IsDetached, add_ready-Inv, set_tcb-Inv}
use sertos.Scheduler.Registry.{register_task, unregister_task}
use sertos.Scheduler.Objects.{add_ready-SameObjects}
use sertos.Task.Create.{TaskConfig, new_tcb}
use sertos.Task.Lifecycle.{withdraw, retire}
use sertos.System.Resting.{rest-Safe}
use sertos.System.{IsIdle, IsLive, SameTasks, publish_new}
use sertos.System.Safe.{Safe, Safe-step, Apart-trans}
use sertos.System.Effects.{set_tcb-Apart}
use sertos.System.Requests.{leave-Safe, queued-Placed, add_ready-Apart, add_ready_state}
use sertos.System.Tasks.{Safe-same, write-Safe}
use sertos.Scheduler.Invariant.Same.{SameScheduling, SameScheduling-refl}
use sertos.Scheduler.Switch.Kept.{SameLists, set_tcb-same}

-- The register is no list of the scheduler.
registered-same :
    (b : Tcb) (x y : Bool)
    → SameScheduling (record b { registry_linked = x }) (record b { registry_linked = y })
registered-same b x y = record {
  same_priority = refl;
  same_state_node = refl;
  same_event_node = refl;
  same_delay_ticks = refl;
  same_wait_list = refl;
  still_runnable = λ h. h;
  still_blocked = λ h. h;
  was_runnable = λ h. h;
  was_blocked = λ h. h;
  same_magic = refl;
}

abbrev unregistered : ⦃m : Modules⦄ → Kernel → ℕ → Kernel
unregistered ⦃m⦄ k t = record k {
  task_registry = m.linked_list_remove_direct k.task_registry t;
  tcbs = update k.tcbs t (record (k.tcbs t) { registry_linked = false });
}

unregister_task_cases :
    ⦃m : Modules⦄ (k : Kernel) (t : ℕ)
    → (unregister_task k (some t) ≡ unregistered k t) ⊎ (unregister_task k (some t) ≡ k)
unfolding unregister_task
unregister_task_cases k t = elim (Bool-cases (k.tcbs t).registry_linked) [
  | inl e ↦ inl (rw e refl)
  | inr e ↦ inr (rw e refl)
]

-- The task leaves the register before its state is written: that makes no difference here.
unregister_task-same :
    ⦃m : Modules⦄ (k : Kernel) (t : ℕ) (st : TaskState)
    → let j = unregister_task k (some t) in
      let k1 = set_tcb k t (record (k.tcbs t) { state = st }) in
      let k2 = set_tcb j t (record (j.tcbs t) { state = st }) in
      SameLists k1 k2
      × ((u : ℕ) → SameScheduling (k1.tcbs u) (k2.tcbs u))
      × ((u : ℕ) → (k2.tcbs u).state ≡ (k1.tcbs u).state)
      × (k2.current_tcb ≡ k1.current_tcb)
unregister_task-same k t st = elim (unregister_task_cases k t) [
  | inl e ↦ rw e (
    record {
      same_ready_queues = refl;
      same_ready_bitmap = refl;
      same_delay_list = refl;
      same_wait_lists = refl;
    },
    λ u. elim (Bool-cases (t == u)) [
      | inl f ↦
          rw (f, ==-self t)
            (registered-same (record (k.tcbs t) { state = st }) (k.tcbs t).registry_linked false)
      | inr f ↦ rw f (SameScheduling-refl (k.tcbs u))
    ],
    λ u. ground arith,
    refl,
  )
  | inr e ↦ rw e (
    record {
      same_ready_queues = refl;
      same_ready_bitmap = refl;
      same_delay_list = refl;
      same_wait_lists = refl;
    },
    λ u. SameScheduling-refl _,
    λ u. refl,
    refl,
  )
]

register_task-Safe : ⦃m : Modules⦄ (k : Kernel) (t : ℕ) → Safe k → Safe (register_task k (some t))
unfolding register_task
register_task-Safe k t s =
    Safe-same k (register_task k (some t)) s
      (record {
        same_ready_queues = refl;
        same_ready_bitmap = refl;
        same_delay_list = refl;
        same_wait_lists = refl;
      })
      (set_tcb-same k t _ (registered-same (k.tcbs t) (k.tcbs t).registry_linked true))
      (λ u. ground arith) refl

Safe-if : (b : Bool) (x y : Kernel) → Safe x → Safe y → Safe (if b then x else y)
Safe-if true x y f g = f
Safe-if false x y f g = g

module _ ⦃m : Modules⦄ (lists : ListLaws m) (bits : BitmapLaws m) (k : Kernel) (t : ℕ)
    (s : Safe k) where
  pub create-Safe :
      (c : TaskConfig) (is_static : Bool) (stack_ptr : ℕ)
      → IsDetached k t
      → c.priority < max_priorities
      → Safe (publish_new k t (new_tcb c is_static stack_ptr))
  unfolding new_tcb
  create-Safe c is_static stack_ptr d low =
      let b = new_tcb c is_static stack_ptr in
      let k1 = set_tcb k t b in
      let (inv1, d1) = set_tcb-Inv k t b s.well_formed d refl refl in
      let low1 : (k1.tcbs t).priority < max_priorities = ground (arith, low) in
      let k2 = (add_ready k1 (some t)).0 in
      let (_, inv2, q) = add_ready-Inv lists bits k1 t inv1 d1 low1 in
      let r = add_ready_state lists bits k1 t inv1 low1 in
      let safe2 : Safe k2 =
        Safe-step t k k2 s
          (Apart-trans t k k1 k2 (set_tcb-Apart t k b)
            (add_ready-Apart lists bits k1 t inv1 d1 low1))
          inv2 (add_ready-SameObjects k1 (some t)).same_current (λ run. ground (arith, r, run))
          (queued-Placed k2 t q r) in
      register_task-Safe k2 t safe2

module _ ⦃m : Modules⦄ ⦃e : Port⦄ (lists : ListLaws m) (bits : BitmapLaws m) (k : Kernel) (t : ℕ)
    (s : Safe k) where
  -- What a deletion does once the task is out of its ready queue.
  abbrev retire_from : Kernel → Kernel
  retire_from k1 =
      let j = unregister_task k1 (some t) in
      let k4 = e.port_task_delete_hook (set_tcb j t (record (j.tcbs t) { state = terminated })) t in
      if not (k4.tcbs t).is_statically_allocated
      then record k4 {
        pool = m.memory_pool_free (m.memory_pool_free k4.pool (k4.tcbs t).stack_base) t;
      }
      else k4

  retire_from-Safe :
      (k1 : Kernel)
      → Safe (set_tcb k1 t (record (k1.tcbs t) { state = terminated }))
      → ((j : Kernel) → SameTasks j (e.port_task_delete_hook j t))
      → Safe (retire_from k1)
  retire_from-Safe k1 safe2 hook =
      let k2 = set_tcb k1 t (record (k1.tcbs t) { state = terminated }) in
      let j = unregister_task k1 (some t) in
      let k3 = set_tcb j t (record (j.tcbs t) { state = terminated }) in
      let (a, b, c, d) = unregister_task-same k1 t terminated in
      let safe3 = Safe-same k2 k3 safe2 a b c d in
      let k4 = e.port_task_delete_hook k3 t in
      let safe4 = write-Safe k3 k4 safe3 (hook k3) in
      Safe-if (not (k4.tcbs t).is_statically_allocated)
        (record k4 {
          pool = m.memory_pool_free (m.memory_pool_free k4.pool (k4.tcbs t).stack_base) t;
        })
        k4
        (write-Safe k4 _ safe4 (record {
          same_bitmap = refl;
          same_queues = refl;
          same_delay_list = refl;
          same_wait_lists = refl;
          same_tcbs = refl;
          same_current = refl;
        }))
        safe4

  pub delete-Safe :
      IsLive k t
      → IsIdle k t
      → ((j : Kernel) → SameTasks j (e.port_task_delete_hook j t))
      → Safe (retire k t)
  unfolding retire withdraw
  delete-Safe live (inl r) hook = rw r (
      retire_from-Safe (remove_ready k (some t)).0
        (leave-Safe lists bits k t s terminated refl (λ x. ground (arith, x)) live r) hook)
  delete-Safe live (inr r) hook = rw r (
      retire_from-Safe k
        (rest-Safe k t s (record (k.tcbs t) { state = terminated }) live r refl
          (λ x. ground (arith, x)) refl refl ((s.placed t live).in_range))
        hook)
