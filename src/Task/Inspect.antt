-- ===== src/Task/Inspect.antt =====
-- src/sertos_task.c: what can be asked of a task.
use sertos.Base.{ℕ, zero, suc, ◌+◌, not, Option, none, some, String, List, ◌==◌, if◌then◌else◌}
use sertos.Types.{TaskState, terminated, stack_fill_byte}
use sertos.Modules.{Modules}
use sertos.Kernel.{Kernel, Tcb}
use sertos.Task.Lifecycle.{is_task}

-- `sertos_task_get_state`.
unfoldable pub get_state : Kernel → Option ℕ → TaskState
get_state k none = terminated
get_state k (some t) = if not (is_task k t) then terminated else (k.tcbs t).state

-- `sertos_task_get_current`.
unfoldable pub get_current : Kernel → Option ℕ
get_current k = k.current_tcb

-- `sertos_task_get_name`; a control block's name is never null.
unfoldable pub get_name : Kernel → Option ℕ → String
get_name k none = "Unknown"
get_name k (some t) = if not (is_task k t) then "Unknown" else (k.tcbs t).name

-- `sertos_task_get_priority`.
unfoldable pub get_priority : Kernel → Option ℕ → ℕ
get_priority k none = 0
get_priority k (some t) = if not (is_task k t) then 0 else (k.tcbs t).priority

-- The loop of `sertos_task_get_stack_high_water_mark`, over the bytes that are left.
unfoldable pub count_painted : (ℕ → ℕ) → ℕ → ℕ → ℕ → ℕ
count_painted memory zero address free_bytes = free_bytes
count_painted memory (suc left) address free_bytes =
    let rest = count_painted memory left (address + 1) (free_bytes + 1) in
    if memory address == stack_fill_byte then rest else free_bytes

-- `sertos_task_get_stack_high_water_mark`.
unfoldable pub get_stack_high_water_mark : Kernel → Option ℕ → ℕ
unfolding count_painted
get_stack_high_water_mark k none = 0
get_stack_high_water_mark k (some t) =
    if not (is_task k t)
    then 0
    else count_painted k.memory (k.tcbs t).stack_size (k.tcbs t).stack_base 0

module _ ⦃m : Modules⦄ where
  -- `sertos_task_compute_crc`, given how the fields in front of `magic` lie in memory.
  unfoldable pub compute_crc : (Tcb → List ℕ) → Kernel → Option ℕ → ℕ
  compute_crc bytes k none = 0
  compute_crc bytes k (some t) = m.crc_32_calculate (bytes (k.tcbs t))
