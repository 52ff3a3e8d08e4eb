-- ===== src/Ports/Systick.antt =====
-- The SysTick timer of the cores: `cortex_m_systick` of port/arm/cortex_m_systick.h and
-- `sertos_port_tick_init` of port/arm/*/port_cpu.c.
use native.Mathlib.Nat.{div-mul-le_self, lt-div-mul-add, mul-le-mul_right}
use sertos.Base.{
  ℕ, zero, suc, ◌+◌, ◌-◌, ◌*◌, ◌/◌, ◌^◌, ◌≤◌, ◌<◌, ◌≡◌, refl, ◌⊎◌, inl, inr, Option, none, some,
  ◌||◌, ltb, ◌==◌, if◌then◌else◌, arith, Bool-cases, ==→eq, ==-false,
}
use sertos.Types.{Status, ok, invalid_param}
use sertos.Ports.CortexM.{
  Cpu, cortex_m_systick, max_reload_counts, configure_systick, start_systick, systick_load,
  systick_val, systick_ctrl,
}
use sertos.Ports.Core.{Core, tick_init, tick_init-shared}

-- What `cortex_m_systick` owes: a reload value exactly when the clock has from one to 2^24 counts in
-- a period.
abbrev Fits : ℕ → ℕ → Option ℕ → Type 0
Fits clock rate none = (rate ≡ 0) ⊎ (clock < rate) ⊎ ((2 ^ 24 + 1) * rate ≤ clock)
Fits clock rate (some r) =
    (0 < rate) × (r < 2 ^ 24) × ((r + 1) * rate ≤ clock) × (clock < (r + 2) * rate)

counts-fit :
    (clock rate counts : ℕ)
    → 0 < rate
    → counts * rate ≤ clock
    → clock < counts * rate + rate
    → Fits clock rate
        (if (counts == 0) || ltb max_reload_counts counts then none else some (counts - 1))
counts-fit clock rate zero p l h = inr (inl (omega (arith, h)))
counts-fit clock rate (suc r) p l h =
    rw (==-false (suc r) 0 (omega arith)) (elim (Bool-cases (ltb max_reload_counts (suc r))) [
      | inl many ↦
          let more : 2 ^ 24 + 1 ≤ suc r = ground arith in
          let wide : (2 ^ 24 + 1) * rate ≤ suc r * rate = mul-le-mul_right rate more in
          rw many (inr (inr (omega (arith, l, wide))))
      | inr few ↦ rw few (p, ground arith, grind arith, grind arith)
    ])

cortex_m_systick-Fits : (clock rate : ℕ) → Fits clock rate (cortex_m_systick clock rate)
unfolding cortex_m_systick
cortex_m_systick-Fits clock rate = elim (Bool-cases ((clock == 0) || (rate == 0))) [
  | inl off ↦ rw off (elim (Bool-cases (rate == 0)) [
    | inl z ↦ inl (==→eq rate 0 z)
    | inr n ↦ inr (inl (ground arith))
  ])
  | inr on ↦
      let p : 0 < rate = ground arith in
      rw on (counts-fit clock rate (clock / rate) p (div-mul-le_self clock rate) (lt-div-mul-add p))
]

-- How a tick that a clock of 25 MHz drives is started, or refused.
unfoldable pub Started : Cpu → ℕ → Cpu → Status → Type 0
Started c rate c' s =
    ((s ≡ ok)
      × (2 ≤ rate)
      × (rate ≤ 25000000)
      × (c'.registers systick_load < 2 ^ 24)
      × ((c'.registers systick_load + 1) * rate ≤ 25000000)
      × (25000000 < (c'.registers systick_load + 2) * rate)
      × (c'.registers systick_val ≡ 0)
      × (c'.registers systick_ctrl ≡ 7))
    ⊎ ((s ≡ invalid_param) × ((rate < 2) ⊎ (25000000 < rate)) × (c' ≡ c))

too_slow_or_fast : (rate : ℕ) → Fits 25000000 rate none → (rate < 2) ⊎ (25000000 < rate)
too_slow_or_fast rate (inl z) = inl (omega (arith, z))
too_slow_or_fast rate (inr (inl l)) = inr l
too_slow_or_fast rate (inr (inr l)) = inl (omega (arith, l))

rate_bounds : (rate r : ℕ) → Fits 25000000 rate (some r) → (2 ≤ rate) × (rate ≤ 25000000)
rate_bounds rate r (p, l, lo, hi) =
    let few : r + 2 ≤ 2 ^ 24 + 1 = omega (arith, l) in
    let most : (r + 2) * rate ≤ (2 ^ 24 + 1) * rate = mul-le-mul_right rate few in
    let one : 1 ≤ r + 1 = omega arith in
    let least : 1 * rate ≤ (r + 1) * rate = mul-le-mul_right rate one in
    (omega (arith, hi, most), omega (arith, lo, least))

configure_systick-Started :
    (c : Cpu) (rate : ℕ) (reload : Option ℕ)
    → Fits 25000000 rate reload
    → let (c', s) = configure_systick c reload in Started c rate c' s
unfolding configure_systick Started
configure_systick-Started c rate none fits = inr (refl, too_slow_or_fast rate fits, refl)
configure_systick-Started c rate (some r) fits =
    let (slow, fast) = rate_bounds rate r fits in
    inl (refl, slow, fast, fits.1, fits.2, fits.3, refl, refl)

start_systick-Started :
    (c : Cpu) (rate : ℕ) → let (c', s) = start_systick 25000000 c rate in Started c rate c' s
unfolding start_systick
start_systick-Started c rate =
    configure_systick-Started c rate (cortex_m_systick 25000000 rate)
      (cortex_m_systick-Fits 25000000 rate)

-- Every core's tick, whose clock has 25 MHz, starts at the rates from 2 Hz to the clock's: the
-- reload value then has 24 bits and is one less than the number of clock cycles in a tick, rounded
-- down, the counter is cleared, and the timer runs with its interrupt on. Any other rate is an
-- invalid parameter, and no register changes.
pub tick_init-Started :
    (core : Core) (c : Cpu) (rate : ℕ) → let (c', s) = tick_init core c rate in Started c rate c' s
tick_init-Started core c rate = rw (tick_init-shared core) (start_systick-Started c rate)
