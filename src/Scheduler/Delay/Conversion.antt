-- ===== src/Scheduler/Delay/Conversion.antt =====
-- The conversions between milliseconds and ticks of inc/sertos_config.h, and `delay_until`.
use native.Mathlib.Nat.{mul-le-mul}
use sertos.Base.{refl, ◌-◌, ℕ, ◌+◌, ◌*◌, ◌/◌, ◌^◌, ◌≤◌, ◌<◌, ◌≡◌, arith}
use sertos.Types.{u32, u64}
use sertos.Scheduler.Delay.{ms_to_ticks, ticks_to_ms}

-- The products of 32-bit numbers, and the rounding, fit 64 bits.
product_bound : (rate ms : ℕ) → rate < 2 ^ 32 → ms < 2 ^ 32 → ms * rate + 999 < 2 ^ 64
product_bound rate ms r m =
    let short : ms ≤ 2 ^ 32 - 1 = omega (arith, m) in
    let slow : rate ≤ 2 ^ 32 - 1 = omega (arith, r) in
    let most : ms * rate ≤ (2 ^ 32 - 1) * (2 ^ 32 - 1) = mul-le-mul short slow in
    omega (arith, most)

rounded_up :
    (x : ℕ)
    → x + 999 < 2 ^ 64
    → let n = u64 (x + 999) / 1000 in (x ≤ n * 1000) × (n * 1000 < x + 1000)
rounded_up x h = omega arith

-- For every time and rate of 32 bits, the conversion computes in 64 bits without an overflow: its
-- result is the least number of ticks that lasts as long as the time, cut down to the 32 bits of a
-- tick count.
pub ms_to_ticks_lem :
    (rate ms : ℕ)
    → rate < 2 ^ 32
    → ms < 2 ^ 32
    → (n : ℕ) × (ms_to_ticks rate ms ≡ u32 n)
      × (ms * rate ≤ n * 1000)
      × (n * 1000 < ms * rate + 1000)
unfolding ms_to_ticks
ms_to_ticks_lem rate ms r m =
    let (low, high) = rounded_up (ms * rate) (product_bound rate ms r m) in
    (u64 (ms * rate + 999) / 1000, refl, low, high)

-- At the default rate of one tick in a millisecond, the conversions are inverse.
pub ticks_to_ms-ms_to_ticks : (ms : ℕ) → ms < 2 ^ 32 → ticks_to_ms 1000 (ms_to_ticks 1000 ms) ≡ ms
unfolding ms_to_ticks ticks_to_ms
ticks_to_ms-ms_to_ticks ms h = omega arith
