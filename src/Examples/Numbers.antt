-- ===== src/Examples/Numbers.antt =====
-- The computations on sizes and shares, and the set-up of a stream buffer, at concrete numbers.
use sertos.Base.{ℕ, ◌+◌, ◌*◌, ◌^◌, ◌≤◌, ◌<◌, ◌≡◌, ◌⊎◌, none, some, arith}
use sertos.Base.{[], ◌∷◌, true}
use sertos.Types.{ok, invalid_param}
use sertos.Modules.Plain.{plain}
use sertos.Stream.{create_static, is_valid_handle}
use sertos.Stream.Trigger.{IsTriggered, create_static_cases}
use sertos.Examples.States.{empty}
use sertos.Queue.{next_power_of_two}
use sertos.Queue.Capacity.{IsPowerOfTwo, next_power_of_two_lem, next_power_of_two-endless}
use sertos.Stats.Snapshot.{compute_percent_x100}
use sertos.Stats.Percent.{compute_percent_x100_lem}

next_power_of_two_lem_example :
    (q : ℕ) × (next_power_of_two 63 41 ≡ some q)
    × IsPowerOfTwo q
    × (41 ≤ q)
    × ((q ≡ 2) ⊎ (q < 2 * 41))
next_power_of_two_lem_example = next_power_of_two_lem 41 (ground arith)

next_power_of_two-endless_example : next_power_of_two 1000 (2 ^ 63 + 1) ≡ none
next_power_of_two-endless_example = next_power_of_two-endless 1000 (2 ^ 63 + 1) (ground arith)

compute_percent_x100_lem_example :
    let n = compute_percent_x100 1 3 in (n ≤ 10000) × (n * 3 ≤ 1 * 10000) × (1 * 10000 < n * 3 + 3)
compute_percent_x100_lem_example =
    compute_percent_x100_lem 1 3 (ground arith) (ground arith) (ground arith)

create_static_cases_example :
    let (k', out, status) = create_static empty (some 2) (some (64, 0 ∷ 0 ∷ [])) 2 1 true in
    ((status ≡ ok)
      × (out ≡ some 2)
      × (is_valid_handle k' (some 2) ≡ true)
      × IsTriggered (k'.stream_buffers 2))
    ⊎ ((status ≡ invalid_param) × (out ≡ none))
create_static_cases_example = create_static_cases empty 2 64 (0 ∷ 0 ∷ []) 2 1
