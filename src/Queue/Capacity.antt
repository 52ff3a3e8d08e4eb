-- ===== src/Queue/Capacity.antt =====
-- `next_power_of_two` of src/sertos_queue.c and src/sertos_stream_buffer.c.
use sertos.Base.{
  ltb→lt, subst, ℕ, zero, suc, ◌*◌, ◌^◌, ◌≤◌, ◌<◌, ◌≡◌, refl, sym, ◌∙◌, ap, ◌⊎◌, inl, inr, true,
  false, none, some, ltb, arith, Bool-cases,
}
use sertos.Types.{u64}
use sertos.Queue.{next_power_of_two, shift_rounds}

-- The powers of two.
pub data IsPowerOfTwo : ℕ → Type 0 where
  one : IsPowerOfTwo 1
  double : {n : ℕ} → IsPowerOfTwo n → IsPowerOfTwo (n * 2)

-- `n` doublings.
abbrev doubled : ℕ → ℕ → ℕ
doubled zero p = p
doubled (suc n) p = doubled n (p * 2)

shift_rounds_again :
    (fuel value p : ℕ)
    → ltb p value ≡ true
    → shift_rounds (suc fuel) value p ≡ shift_rounds fuel value (u64 (p * 2))
unfolding shift_rounds
shift_rounds_again fuel value p l = rw (shift_rounds, l) refl

shift_rounds_lem :
    (n value p : ℕ)
    → IsPowerOfTwo p
    → value ≤ 2 ^ 63
    → value ≤ doubled n p
    → (q : ℕ) × (shift_rounds (suc n) value p ≡ some q)
      × IsPowerOfTwo q
      × (value ≤ q)
      × ((q ≡ p) ⊎ (q < 2 * value))
unfolding shift_rounds
shift_rounds_lem zero value p power small enough =
    let l : ltb p value ≡ false = ground (arith, enough) in
    (p, rw (shift_rounds, l) refl, power, enough, inl refl)
shift_rounds_lem (suc n) value p power small enough = elim (Bool-cases (ltb p value)) [
  | inl l ↦
      let no_wrap : u64 (p * 2) ≡ p * 2 = omega (arith, small, ltb→lt p value l) in
      let (q, run, is_power, high, near) =
        shift_rounds_lem n value (p * 2) (double power) small enough in
      (
        q,
        shift_rounds_again (suc n) value p l ∙ ap (shift_rounds (suc n) value) no_wrap ∙ run,
        is_power,
        high,
        ground (arith, near, ltb→lt p value l),
      )
  | inr l ↦ (p, rw (shift_rounds, l) refl, power, ground (arith, l), inl refl)
]

-- A capacity of at most 2 ^ 63 bytes is rounded up to a power of two, with 63 rounds of the loop:
-- to the least one that is not below it, or to 2.
pub next_power_of_two_lem :
    (value : ℕ)
    → value ≤ 2 ^ 63
    → (q : ℕ) × (next_power_of_two 63 value ≡ some q)
      × IsPowerOfTwo q
      × (value ≤ q)
      × ((q ≡ 2) ⊎ (q < 2 * value))
unfolding next_power_of_two
next_power_of_two_lem value small =
    shift_rounds_lem 62 value 2 (double one) small (omega (arith, small))

-- What the shift comes to: a divisor of 2 ^ 63, and 0 behind it.
data Orbit : ℕ → Type 0 where
  wrapped : Orbit 0
  divides : (j p : ℕ) → doubled j p ≡ 2 ^ 63 → Orbit p

doubled_le : (j p : ℕ) → p ≤ doubled j p
doubled_le zero p = omega arith
doubled_le (suc j) p = omega (arith, doubled_le j (p * 2))

Orbit-next : (p : ℕ) → Orbit p → Orbit (u64 (p * 2))
Orbit-next p wrapped = wrapped
Orbit-next _ (divides zero p e) =
    let z : u64 (p * 2) ≡ 0 = omega (arith, e) in subst Orbit (sym z) wrapped
Orbit-next _ (divides (suc j) p e) =
    let no_wrap : u64 (p * 2) ≡ p * 2 = omega (arith, e, doubled_le j (p * 2)) in
    subst Orbit (sym no_wrap) (divides j (p * 2) e)

Orbit-le : (p : ℕ) → Orbit p → p ≤ 2 ^ 63
Orbit-le p wrapped = omega arith
Orbit-le _ (divides j p e) = omega (arith, e, doubled_le j p)

shift_rounds-none : (fuel value p : ℕ) → 2 ^ 63 < value → Orbit p → shift_rounds fuel value p ≡ none
unfolding shift_rounds
shift_rounds-none zero value p large o = refl
shift_rounds-none (suc fuel) value p large o =
    let l : ltb p value ≡ true = ground (arith, large, Orbit-le p o) in
    shift_rounds_again fuel value p l
    ∙ shift_rounds-none fuel value (u64 (p * 2)) large (Orbit-next p o)

-- Above 2 ^ 63 bytes the loop has no end: the shift wraps to 0, whatever the number of rounds.
pub next_power_of_two-endless :
    (fuel value : ℕ) → 2 ^ 63 < value → next_power_of_two fuel value ≡ none
unfolding next_power_of_two
next_power_of_two-endless fuel value large =
    shift_rounds-none fuel value 2 large (divides 62 2 refl)
