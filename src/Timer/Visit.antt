-- ===== src/Timer/Visit.antt =====
-- One timer of the walk of src/sertos_timer.c, with callbacks that leave the timers alone.
use sertos.Base.{
  ℕ, ◌-◌, ◌≡◌, refl, sym, ◌∙◌, some, ap, Bool, true, false, not, ◌||◌, arith, ◌==◌, ==-self, ltb,
  if◌then◌else◌, Bool-cases, Option-cases, inl, inr,
}
use sertos.Modules.{Modules}
use sertos.Kernel.{Kernel, Timer}
use sertos.Port.{Port}
use sertos.Timer.Control.{set_timer}
use sertos.Timer.Walk.{tick_down, reload, reload_as, call_back, visit_timer}

-- The function at an address, as a callback, neither starts nor stops a timer.
pub record Quiet (e : Port) (f : ℕ) : Type 0 where
  pub same_list : (c p : ℕ) (k : Kernel) → (e.call_timer f c p k).active_timers ≡ k.active_timers
  pub same_timers : (c p : ℕ) (k : Kernel) → (e.call_timer f c p k).timers ≡ k.timers

-- A timer without a callback, or with such a one.
abbrev pub IsQuiet : Port → Timer → Type 0
IsQuiet e t = (f : ℕ) → t.callback ≡ some f → Quiet e f

-- What a tick does to an active timer, by a description apart from the code: with more than one
-- tick left it counts down; with the last one a periodic timer starts its period again, and a
-- one-shot timer becomes inactive.
abbrev pub expires : Timer → Bool
expires t = not (ltb 1 t.remaining_ticks)

abbrev pub advance : Timer → Timer
advance t =
    if ltb 1 t.remaining_ticks
    then record t { remaining_ticks = t.remaining_ticks - 1 }
    else if t.is_periodic
    then record t { remaining_ticks = t.period_ticks }
    else record t { remaining_ticks = 0; node_linked = false; is_active = false }

-- Whether it is active after the tick.
abbrev pub stays : Timer → Bool
stays t = ltb 1 t.remaining_ticks || t.is_periodic

tick_down-eq : (t : Timer) → tick_down t ≡ record t { remaining_ticks = t.remaining_ticks - 1 }
unfolding tick_down
tick_down-eq t = elim (Bool-cases (ltb 0 t.remaining_ticks)) [
  | inl p ↦ rw (tick_down, p) refl
  | inr p ↦
      let z : t.remaining_ticks ≡ t.remaining_ticks - 1 = ground (arith, p) in
      rw (tick_down, p) (ap (λ r. record t { remaining_ticks = r }) z)
]

module _ ⦃m : Modules⦄ ⦃e : Port⦄ where
  call_back_timers :
      (k : Kernel) (c : ℕ)
      → IsQuiet e (k.timers c)
      → ((call_back k c).active_timers ≡ k.active_timers) × ((call_back k c).timers ≡ k.timers)
  unfolding call_back
  call_back_timers k c quiet = elim (Option-cases (k.timers c).callback) [
    | inl n ↦ rw (call_back, n) (refl, refl)
    | inr (f, n) ↦ rw (call_back, n) ((quiet f n).same_list c _ k, (quiet f n).same_timers c _ k)
  ]

  visit_counts :
      (k : Kernel) (c : ℕ)
      → ltb 1 (k.timers c).remaining_ticks ≡ true
      → visit_timer k c
        ≡ set_timer k c (record (k.timers c) { remaining_ticks = (k.timers c).remaining_ticks - 1 })
  unfolding visit_timer
  visit_counts k c more =
      let n : (k.timers c).remaining_ticks - 1 == 0 ≡ false = ground (arith, more) in
      rw (tick_down-eq (k.timers c), ==-self c, n) refl

  visit_expires :
      (k : Kernel) (c : ℕ)
      → ltb 1 (k.timers c).remaining_ticks ≡ false
      → visit_timer k c ≡ (
          let k' = set_timer k c (record (k.timers c) { remaining_ticks = 0 }) in
          call_back (reload_as k' c (k.timers c).is_periodic) c)
  unfolding visit_timer reload
  visit_expires k c last =
      let n : (k.timers c).remaining_ticks - 1 ≡ 0 = ground (arith, last) in
      rw (tick_down-eq (k.timers c), ==-self c, n) refl

  reloaded_callback :
      (k : Kernel) (c : ℕ) (p : Bool)
      → ((reload_as (set_timer k c (record (k.timers c) { remaining_ticks = 0 })) c p).timers
          c).callback
        ≡ (k.timers c).callback
  unfolding reload_as
  reloaded_callback k c true = ground arith
  reloaded_callback k c false = ground arith

  reloaded_fields :
      (k : Kernel) (c u : ℕ) (p : Bool)
      → IsQuiet e (k.timers c)
      → let k' =
          call_back
            (reload_as (set_timer k c (record (k.timers c) { remaining_ticks = 0 })) c p)
            c in
        (k'.active_timers
          ≡ (if p then k.active_timers else m.linked_list_remove_direct k.active_timers c))
        × (k'.timers u ≡ (
            if c == u
            then (if p
                then record (k.timers c) { remaining_ticks = (k.timers c).period_ticks }
                else record (k.timers c) {
                  remaining_ticks = 0;
                  node_linked = false;
                  is_active = false;
                })
            else k.timers u))
  unfolding reload_as
  reloaded_fields k c u true quiet =
      let k0 = set_timer k c (record (k.timers c) { remaining_ticks = 0 }) in
      let (l, b) =
        call_back_timers (reload_as k0 c true) c
          (λ f g. quiet f (sym (reloaded_callback k c true) ∙ g)) in
      (l, rw b (ground arith))
  reloaded_fields k c u false quiet =
      let k0 = set_timer k c (record (k.timers c) { remaining_ticks = 0 }) in
      let (l, b) =
        call_back_timers (reload_as k0 c false) c
          (λ f g. quiet f (sym (reloaded_callback k c false) ∙ g)) in
      (l, rw b (ground arith))

  -- One timer of the walk, by the description.
  pub visit_fields :
      (k : Kernel) (c u : ℕ)
      → IsQuiet e (k.timers c)
      → let k' = visit_timer k c in
        (k'.active_timers ≡ (
          if stays (k.timers c)
          then k.active_timers
          else m.linked_list_remove_direct k.active_timers c))
        × (k'.timers u ≡ (if c == u then advance (k.timers c) else k.timers u))
  visit_fields k c u quiet = elim (Bool-cases (ltb 1 (k.timers c).remaining_ticks)) [
    | inl more ↦ rw (visit_counts k c more, more) (refl, refl)
    | inr last ↦
        rw (visit_expires k c last, last) (reloaded_fields k c u (k.timers c).is_periodic quiet)
  ]
