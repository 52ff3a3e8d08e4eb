-- ===== src/Scheduler/Registry.antt =====
-- src/sertos_scheduler.c: the registry of the live tasks and the walk over it.
use sertos.Base.{ℕ, true, false, Option, none, some, List, [], ◌∷◌, if◌then◌else◌, update}
use sertos.Modules.{Modules}
use sertos.Kernel.{Kernel}

-- `visit_list_state_nodes`: a visitor works on the kernel and on the context that `ctx` points to.
unfoldable pub visit_list_state_nodes {ℓ} :
    {C : Type ℓ} → List ℕ → (ℕ → Kernel × C → Kernel × C) → Kernel × C → Kernel × C
visit_list_state_nodes [] visit s = s
visit_list_state_nodes (t ∷ ts) visit s = visit_list_state_nodes ts visit (visit t s)

-- `sertos_scheduler_visit_all_tasks`.
unfoldable pub visit_all_tasks {ℓ} :
    {C : Type ℓ} → Option (ℕ → Kernel × C → Kernel × C) → Kernel × C → Kernel × C
unfolding visit_list_state_nodes
visit_all_tasks none (k, c) = (k, c)
visit_all_tasks (some visit) (k, c) = visit_list_state_nodes k.task_registry visit (k, c)

module _ ⦃m : Modules⦄ where
  -- `sertos_scheduler_register_task`.
  unfoldable pub register_task : Kernel → Option ℕ → Kernel
  register_task k none = k
  register_task k (some t) = record k {
    task_registry = m.linked_list_insert_tail_direct k.task_registry t;
    tcbs = update k.tcbs t (record (k.tcbs t) { registry_linked = true });
  }

  -- `sertos_scheduler_unregister_task`.
  unfoldable pub unregister_task : Kernel → Option ℕ → Kernel
  unregister_task k none = k
  unregister_task k (some t) =
      if (k.tcbs t).registry_linked
      then record k {
        task_registry = m.linked_list_remove_direct k.task_registry t;
        tcbs = update k.tcbs t (record (k.tcbs t) { registry_linked = false });
      }
      else k
