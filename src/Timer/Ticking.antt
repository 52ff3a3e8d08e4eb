-- ===== src/Timer/Ticking.antt =====
-- `sertos_timer_tick` of src/sertos_timer.c, with callbacks that leave the timers alone.
use sertos.Base.{
  ℕ, zero, suc, ◌≤◌, ◌≡◌, subst, refl, sym, ◌∙◌, ap, Bool, true, false, not, ◌&&◌, ◌||◌, some, List,
  [], ◌∷◌, ◌++◌, mem, erase, distinct, length, head?, arith, ◌==◌, ==→eq, ==-self, if◌then◌else◌,
  Bool-cases, inl, inr, mem-erase, distinct-erase,
}
use sertos.Modules.{Modules, ListLaws}
use sertos.Kernel.{Kernel, Timer}
use sertos.Port.{Port}
use sertos.Timer.Active.{TimerInv}
use sertos.Timer.Walk.{next_node, visit_timer, walk, timer_tick}
use sertos.Timer.Visit.{IsQuiet, advance, stays, visit_fields}

mem-append : (u : ℕ) (xs ys : List ℕ) → mem u (xs ++ ys) ≡ (mem u xs || mem u ys)
mem-append u [] ys = refl
mem-append u (x ∷ xs) ys = ground (arith, mem-append u xs ys)

snoc-append : (xs ys : List ℕ) (c : ℕ) → (xs ++ c ∷ []) ++ ys ≡ xs ++ c ∷ ys
snoc-append [] ys c = refl
snoc-append (x ∷ xs) ys c = ap (λ l. x ∷ l) (snoc-append xs ys c)

-- In a list without repetition the node behind the first part is found by its handle.
next_node-append :
    (c : ℕ) (xs ys : List ℕ)
    → distinct (xs ++ c ∷ ys) ≡ true
    → (next_node c (xs ++ c ∷ ys) ≡ head? ys)
      × (erase c (xs ++ c ∷ ys) ≡ xs ++ ys)
      × (mem c ys ≡ false)
unfolding next_node
next_node-append c [] ys d = ground (arith, ==-self c)
next_node-append c (x ∷ xs) ys d =
    ground (arith, next_node-append c xs ys, mem-append x xs (c ∷ ys))

keeps : (a i s : Bool) → s ≡ true → a ≡ (a && (not i || s))
keeps a i s e = ground arith

drops : (a i s : Bool) → s ≡ false → (not i && a) ≡ (a && (not i || s))
drops a i s e = ground arith

once_more : (a s : Bool) → (a && (not a || s)) ≡ (a && s)
once_more a s = ground arith

bool_lem :
    (a a1 i r s t x : Bool)
    → a1 ≡ (a && (not i || s))
    → i ≡ true
    → r ≡ false
    → s ≡ t
    → (a1 && (not r || x)) ≡ (a && (not (i || r) || t))
bool_lem a a1 i r s t x g f n e = ground arith

bool_lem' :
    (a a1 i r s t x : Bool)
    → a1 ≡ (a && (not i || s))
    → i ≡ false
    → x ≡ t
    → (a1 && (not r || x)) ≡ (a && (not (i || r) || t))
bool_lem' a a1 i r s t x g f e = ground arith

module _ ⦃m : Modules⦄ ⦃e : Port⦄ (lists : ListLaws m) (u : ℕ) where
  -- The timer that was visited is not visited again.
  visited_timer :
      (c : ℕ) (rest : List ℕ) (b : ℕ → Timer) (x : Timer)
      → x ≡ (if c == u then advance (b c) else b u)
      → mem c rest ≡ false
      → (if mem u rest then advance x else x)
        ≡ (if c == u || mem u rest then advance (b u) else b u)
  visited_timer c rest b x e out = elim (Bool-cases (c == u)) [
    | inl f ↦
        let q = ==→eq c u f in
        let n : mem u rest ≡ false = subst (λ i. mem i rest ≡ false) q out in
        rw (f, n) ((rw f at e) ∙ ap (λ i. advance (b i)) q)
    | inr f ↦ rw f (ap (λ y. if mem u rest then advance y else y) (rw f at e))
  ]

  visited_mem :
      (c : ℕ) (rest : List ℕ) (b : ℕ → Timer) (x : Timer)
      → x ≡ (if c == u then advance (b c) else b u)
      → mem c rest ≡ false
      → (a a1 : Bool) → a1 ≡ (a && (not (c == u) || stays (b c)))
      → (a1 && (not (mem u rest) || stays x)) ≡ (a && (not (c == u || mem u rest) || stays (b u)))
  visited_mem c rest b x e out a a1 g = elim (Bool-cases (c == u)) [
    | inl f ↦
        let q = ==→eq c u f in
        let n : mem u rest ≡ false = subst (λ i. mem i rest ≡ false) q out in
        let same : stays (b c) ≡ stays (b u) = ap (λ i. stays (b i)) q in
        bool_lem a a1 (c == u) (mem u rest) (stays (b c)) (stays (b u)) (stays x) g f n same
    | inr f ↦
        let same : stays x ≡ stays (b u) = ap (λ y. stays y) (rw f at e) in
        bool_lem' a a1 (c == u) (mem u rest) (stays (b c)) (stays (b u)) (stays x) g f same
  ]

  -- A timer that is still to be visited is as it was.
  unvisited :
      (k : Kernel) (c v : ℕ) (rest : List ℕ)
      → mem c rest ≡ false
      → mem v rest ≡ true
      → (visit_timer k c).timers v ≡ (if c == v then advance (k.timers c) else k.timers v)
      → (visit_timer k c).timers v ≡ k.timers v
  unvisited k c v rest out g e = elim (Bool-cases (c == v)) [
    | inl f ↦ absurd (ground (arith, out, g, f))
    | inr f ↦ rw f at e
  ]

  -- What is left to visit is the end of the list.
  walk_lem :
      (rest pre : List ℕ) (fuel : ℕ) (k : Kernel)
      → k.active_timers ≡ pre ++ rest
      → distinct k.active_timers ≡ true
      → length rest ≤ fuel
      → ((v : ℕ) → mem v rest ≡ true → IsQuiet e (k.timers v))
      → (k' : Kernel) × (walk fuel k (head? rest) ≡ some k')
        × (k'.timers u ≡ (if mem u rest then advance (k.timers u) else k.timers u))
        × (mem u k'.active_timers
            ≡ (mem u k.active_timers && (not (mem u rest) || stays (k.timers u))))
  unfolding walk
  walk_lem [] pre zero k l d f quiet = (k, refl, refl, ground arith)
  walk_lem [] pre (suc fuel) k l d f quiet = (k, refl, refl, ground arith)
  walk_lem (c ∷ rest) pre zero k l d f quiet = absurd (omega (arith, f))
  walk_lem (c ∷ rest) pre (suc fuel) k l d f quiet =
      let k1 = visit_timer k c in
      let (next, erased, out) = next_node-append c pre rest (subst (λ x. distinct x ≡ true) l d) in
      let (list, timer) = visit_fields k c u (quiet c (ground arith)) in
      let still : (v : ℕ) → mem v rest ≡ true → IsQuiet e (k1.timers v) = λ v g.
        subst (IsQuiet e)
          (sym (unvisited k c v rest out g (visit_fields k c v (quiet c (ground arith))).1))
          (quiet v (ground (arith, g))) in
      let pick : Bool → List ℕ =
        λ b. if b then k.active_timers else m.linked_list_remove_direct k.active_timers c in
      let found : mem c k.active_timers ≡ true =
        subst (λ x. mem c x ≡ true) (sym l) (mem-append c pre (c ∷ rest) ∙ ground arith) in
      elim (Bool-cases (stays (k.timers c))) [
        | inl s ↦
            let l1 : k1.active_timers ≡ k.active_timers = list ∙ ap pick s in
            let r =
              walk_lem rest (pre ++ c ∷ []) fuel k1 (l1 ∙ l ∙ sym (snoc-append pre rest c))
                (ap distinct l1 ∙ d) (omega (arith, f)) still in
            (
              r.0,
              ap (walk fuel k1) (ap (next_node c) l ∙ next) ∙ r.1,
              r.2 ∙ visited_timer c rest k.timers (k1.timers u) timer out,
              r.3
                  ∙ visited_mem c rest k.timers (k1.timers u) timer out (mem u k.active_timers)
                      (mem u k1.active_timers)
                      (ap (mem u) l1
                        ∙ keeps (mem u k.active_timers) (c == u) (stays (k.timers c)) s),
            )
        | inr s ↦
            let l1 : k1.active_timers ≡ erase c k.active_timers =
              list ∙ ap pick s ∙ lists.remove_lem k.active_timers c found d in
            let r =
              walk_lem rest pre fuel k1 (l1 ∙ ap (erase c) l ∙ erased)
                (ap distinct l1 ∙ distinct-erase c k.active_timers d) (omega (arith, f)) still in
            (
              r.0,
              ap (walk fuel k1) (ap (next_node c) l ∙ next) ∙ r.1,
              r.2 ∙ visited_timer c rest k.timers (k1.timers u) timer out,
              r.3
                  ∙ visited_mem c rest k.timers (k1.timers u) timer out (mem u k.active_timers)
                      (mem u k1.active_timers)
                      (ap (mem u) l1
                        ∙ mem-erase u c k.active_timers d
                        ∙ drops (mem u k.active_timers) (c == u) (stays (k.timers c)) s),
            )
      ]

module _ ⦃m : Modules⦄ ⦃e : Port⦄ (lists : ListLaws m) (k : Kernel) where
  -- When each active timer has no callback, or one that starts and stops no timer, which the sources do
  -- not demand of the application, a tick of the initialised timers comes to an end,
  -- on as much fuel as there are active timers, whatever their order. It advances every active
  -- timer once and no other; those that were active and do not expire as one-shot timers are still
  -- in the list, and no others.
  pub timer_tick-advances :
      (fuel u : ℕ)
      → k.timer_subsystem_initialized ≡ true
      → TimerInv k.active_timers k.timers
      → length k.active_timers ≤ fuel
      → ((v : ℕ) → mem v k.active_timers ≡ true → IsQuiet e (k.timers v))
      → (k' : Kernel) × (timer_tick fuel k ≡ some k')
        × (k'.timers u ≡ (if mem u k.active_timers then advance (k.timers u) else k.timers u))
        × (mem u k'.active_timers ≡ (mem u k.active_timers && stays (k.timers u)))
  unfolding timer_tick
  timer_tick-advances fuel u on inv enough quiet =
      let (k', run, timer, listed) =
        walk_lem lists u k.active_timers [] fuel k refl inv.once enough quiet in
      (
        k',
        ap (λ b. if not b then some k else walk fuel k (m.linked_list_peek_head k.active_timers)) on
            ∙ ap (walk fuel k) (lists.peek_head_lem k.active_timers)
            ∙ run,
        timer,
        listed ∙ once_more (mem u k.active_timers) (stays (k.timers u)),
      )
