-- ===== src/Ports/Contexts.antt =====
-- Which context of port/posix/port_posix.c is signaled.
use sertos.Base.{
  ℕ, ◌≡◌, refl, sym, subst, ◌∙◌, ap, inl, inr, Bool, true, false, not, ◌&&◌, Option, none, some,
  is_none, ==→eq, if◌then◌else◌, arith, Bool-cases,
}
use sertos.Kernel.{Kernel}
use sertos.Ports.Posix.{
  Host, Caller, tick_thread, task_thread, signal, unsignal, same_context, context_of,
  yield_from_tick, yield_from_task, yield_as, yield,
}

-- The running context is signaled, and no other.
unfoldable pub HasBaton : Host → Type 0
HasBaton h =
    (i : ℕ)
    → ((h.task_contexts i).signaled ≡ true → h.running_ctx ≡ some i)
      × (h.running_ctx ≡ some i → (h.task_contexts i).signaled ≡ true)

-- The context for which a thread yields: its own, or, on the thread of the tick, the running one.
unfoldable pub caller_context : Host → Caller → Option ℕ
caller_context h tick_thread = h.running_ctx
caller_context h (task_thread my) = my

same_context→eq : (a b : Option ℕ) → same_context a b ≡ true → a ≡ b
same_context→eq none none e = refl
same_context→eq none (some j) e = ground arith
same_context→eq (some i) none e = ground arith
same_context→eq (some i) (some j) e = ap some (sym (==→eq j i e))

and-false : (a : Bool) → (a && false) ≡ false
and-false true = refl
and-false false = refl

and-true : (a b : Bool) → (a && b) ≡ true → b ≡ true
and-true true b e = e
and-true false b e = ground arith

signal-running : (h : Host) (c : Option ℕ) → (signal h c).running_ctx ≡ h.running_ctx
signal-running h none = refl
signal-running h (some i) = refl

unsignal-running : (h : Host) (c : Option ℕ) → (unsignal h c).running_ctx ≡ h.running_ctx
unsignal-running h none = refl
unsignal-running h (some i) = refl

-- The baton passes from one context to another, in either order of the two stores.
passed :
    (h : Host) (my next : Option ℕ)
    → h.running_ctx ≡ my
    → (not (is_none my) && same_context next my) ≡ false
    → HasBaton h
    → HasBaton (signal (unsignal (record h { running_ctx = next }) my) next)
      × HasBaton (unsignal (signal (record h { running_ctx = next }) next) my)
unfolding HasBaton
passed h none none e d b = (
  λ i. (ground (arith, b i, e), ground (arith, b i, e)),
  λ i. (ground (arith, b i, e), ground (arith, b i, e)),
)
passed h none (some j) e d b = (
  λ i. (ground (arith, b i, e), ground (arith, b i, e)),
  λ i. (ground (arith, b i, e), ground (arith, b i, e)),
)
passed h (some r) none e d b = (
  λ i. (ground (arith, b i, e), ground (arith, b i, e)),
  λ i. (ground (arith, b i, e), ground (arith, b i, e)),
)
passed h (some r) (some j) e d b = (
  λ i. (ground (arith, b i, e), ground (arith, b i, e)),
  λ i. (ground (arith, b i, e), ground (arith, b i, e)),
)

yield_from_tick-HasBaton :
    (h : Host) (j : ℕ)
    → HasBaton h
    → HasBaton (yield_from_tick h (some j)) × ((yield_from_tick h (some j)).running_ctx ≡ some j)
unfolding yield_from_tick
yield_from_tick-HasBaton h j b = elim (Bool-cases (same_context (some j) h.running_ctx)) [
  | inl same ↦ rw same (b, sym (same_context→eq (some j) h.running_ctx same))
  | inr new ↦ rw new (
    (passed h h.running_ctx (some j) refl (rw new (and-false (not (is_none h.running_ctx)))) b).0,
    unsignal-running (record h { running_ctx = some j }) h.running_ctx,
  )
]

yield_from_task-HasBaton :
    (h : Host) (next : Option ℕ)
    → HasBaton h
    → let h' = (yield_from_task h h.running_ctx next).0 in HasBaton h' × (h'.running_ctx ≡ next)
unfolding yield_from_task
yield_from_task-HasBaton h next b =
    elim (Bool-cases (not (is_none h.running_ctx) && same_context next h.running_ctx)) [
      | inl same ↦ rw same (b, sym (same_context→eq next h.running_ctx (and-true _ _ same)))
      | inr new ↦ rw new (
        (passed h h.running_ctx next refl new b).1,
        unsignal-running (signal (record h { running_ctx = next }) next) h.running_ctx
            ∙ signal-running (record h { running_ctx = next }) next,
      )
    ]

yield_as-HasBaton :
    (h : Host) (caller : Caller) (j : ℕ)
    → HasBaton h
    → caller_context h caller ≡ h.running_ctx
    → let h' = (yield_as h caller (some j)).0 in HasBaton h' × (h'.running_ctx ≡ some j)
unfolding yield_as caller_context
yield_as-HasBaton h tick_thread j b holds = yield_from_tick-HasBaton h j b
yield_as-HasBaton h (task_thread my) j b holds =
    subst
      (λ (c : Option ℕ).
        let h' = (yield_from_task h c (some j)).0 in HasBaton h' × (h'.running_ctx ≡ some j))
      (sym holds) (yield_from_task-HasBaton h (some j) b)

yield-running :
    (h : Host) (k : Kernel) (caller : Caller) (t j : ℕ)
    → h.scheduler_running ≡ true
    → k.current_tcb ≡ some t
    → context_of k t ≡ some j
    → yield h k caller ≡ yield_as h caller (some j)
unfolding yield
yield-running h k caller t j r c e =
    ap
      (λ (s : Bool).
        if not s
        then (h, false)
        else elim k.current_tcb [ none ↦ (h, false) | some t ↦ yield_as h caller (context_of k t) ])
      r
    ∙ ap
        (λ (c : Option ℕ). elim c [
          | none ↦ (h, false)
          | some t ↦ yield_as h caller (context_of k t)
        ])
        c
    ∙ ap (yield_as h caller) e

-- In the running simulator, whose running context is signaled and no other, a yield on the thread
-- of the tick, or on that of the running context, makes the context of the current task the running
-- one, and again the only one that is signaled, if the current task has a context.
pub yield-HasBaton :
    (h : Host) (k : Kernel) (caller : Caller) (t j : ℕ)
    → HasBaton h
    → caller_context h caller ≡ h.running_ctx
    → h.scheduler_running ≡ true
    → k.current_tcb ≡ some t
    → context_of k t ≡ some j
    → let h' = (yield h k caller).0 in HasBaton h' × (h'.running_ctx ≡ some j)
yield-HasBaton h k caller t j b holds r c e =
    subst (λ y. HasBaton (y.0) × (y.0.running_ctx ≡ some j))
      (sym (yield-running h k caller t j r c e)) (yield_as-HasBaton h caller j b holds)
