-- ===== src/Stats/Percent.antt =====
-- The shares of src/sertos_stats.c.
use sertos.Base.{ℕ, ◌+◌, ◌*◌, ◌/◌, ◌^◌, ◌≤◌, ◌<◌, ◌≡◌, false, ◌==◌, arith}
use native.Mathlib.Nat.{div-le_of_le-mul, div-mul-le_self, lt-div-mul-add}
use sertos.Types.{u64}
use sertos.Stats.Snapshot.{compute_percent_x100}

exact_share :
    (part total : ℕ)
    → 0 < total
    → part ≤ total
    → part * 10000 < 2 ^ 64
    → compute_percent_x100 part total ≡ part * 10000 / total
unfolding compute_percent_x100
exact_share part total pos le small =
    let n : (total == 0) ≡ false = ground (arith, pos) in
    let q : part * 10000 / total ≤ 10000 = div-le_of_le-mul total (omega (arith, le)) in
    let a : u64 (part * 10000) ≡ part * 10000 = omega (arith, small) in
    rw (compute_percent_x100, n, a) (omega (arith, q))

-- A part of a total that is not 0 is its share in hundredths of a percent, rounded down, and at
-- most 10000, if the product with 10000 does not overflow.
pub compute_percent_x100_lem :
    (part total : ℕ)
    → 0 < total
    → part ≤ total
    → part * 10000 < 2 ^ 64
    → let n = compute_percent_x100 part total in
      (n ≤ 10000) × (n * total ≤ part * 10000) × (part * 10000 < n * total + total)
compute_percent_x100_lem part total pos le small = rw (exact_share part total pos le small) (
  div-le_of_le-mul total (omega (arith, le)),
  div-mul-le_self (part * 10000) total,
  lt-div-mul-add pos,
)
