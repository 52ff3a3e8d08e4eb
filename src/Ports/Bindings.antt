-- ===== src/Ports/Bindings.antt =====
-- Whose the contexts of port/posix/port_posix.c are.
use sertos.Base.{ℕ, zero, suc, ◌+◌, ◌<◌, ◌≡◌, refl, Bool, true, false, Option, none, some, arith}
use sertos.Kernel.{Kernel}
use sertos.Ports.Posix.{
  Host, Context, context_of, free_context, bind_context, release_context, task_create_hook,
  task_delete_hook, max_tasks,
}

-- Each task that has a context is the task of that context, which is in use.
unfoldable pub Bound : Host → Kernel → Type 0
Bound h k =
    (t i : ℕ)
    → context_of k t ≡ some i
    → ((h.task_contexts i).in_use ≡ true) × ((h.task_contexts i).tcb ≡ some t)

-- A free context is one of the pool, and not in use.
free_context_lem :
    (left i : ℕ) (contexts : ℕ → Context) (j : ℕ)
    → free_context left i contexts ≡ some j
    → (j < i + left) × ((contexts j).in_use ≡ false)
unfolding free_context
free_context_lem zero i contexts j e = ground arith
free_context_lem (suc left) i contexts j e =
    ground (arith, free_context_lem left (i + 1) contexts j)

bind_context-Bound :
    (created : Bool) (h : Host) (k : Kernel) (t : ℕ) (free : Option ℕ)
    → ((i : ℕ) → free ≡ some i → (h.task_contexts i).in_use ≡ false)
    → Bound h k
    → let (h', k') = bind_context created h k t free in Bound h' k'
unfolding Bound bind_context
bind_context-Bound created h k t none f b u j e = b u j e
bind_context-Bound created h k t (some i) f b u j e = ground (arith, b u j, b t i, f i refl)

release_context-Bound :
    (h : Host) (k : Kernel) (t : ℕ) (c : Option ℕ)
    → context_of k t ≡ c
    → Bound h k
    → let (h', k') = release_context h k t c in Bound h' k'
unfolding Bound release_context
release_context-Bound h k t none s b u j e = b u j e
release_context-Bound h k t (some i) s b u j e = ground (arith, b u j, b t i)

task_create_hook-Bound :
    (created : Bool) (h : Host) (k : Kernel) (t : Option ℕ)
    → Bound h k
    → let (h', k') = task_create_hook created h k t in Bound h' k'
unfolding task_create_hook
task_create_hook-Bound created h k none b = b
task_create_hook-Bound created h k (some t) b =
    bind_context-Bound created h k t (free_context max_tasks 0 h.task_contexts)
      (λ i e. (free_context_lem max_tasks 0 h.task_contexts i e).1) b

task_delete_hook-Bound :
    (h : Host) (k : Kernel) (t : Option ℕ)
    → Bound h k
    → let (h', k') = task_delete_hook h k t in Bound h' k'
unfolding task_delete_hook
task_delete_hook-Bound h k none b = b
task_delete_hook-Bound h k (some t) b = release_context-Bound h k t (context_of k t) refl b

-- The hooks of the simulator keep every task that has a context the task of that context, which is
-- in use, whether or not the host makes the thread; so two tasks never have the same context.
pub hooks-Bound :
    (created : Bool) (h : Host) (k : Kernel) (t : Option ℕ)
    → Bound h k
    → (let (h', k') = task_create_hook created h k t in Bound h' k')
      × (let (h', k') = task_delete_hook h k t in Bound h' k')
      × ((t u i : ℕ) → context_of k t ≡ some i → context_of k u ≡ some i → t ≡ u)
unfolding Bound
hooks-Bound created h k t b = (
  task_create_hook-Bound created h k t b,
  task_delete_hook-Bound h k t b,
  λ t u i e f. ground (arith, b t i e, b u i f),
)
