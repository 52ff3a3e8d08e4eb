-- ===== src/Stats/Snapshot.antt =====
-- src/sertos_stats.c: the reset and the snapshots.
use sertos.Base.{
  ℕ, ◌+◌, ◌-◌, ◌*◌, ◌/◌, ◌++◌, ◌^◌, Bool, true, false, ◌||◌, not, Option, none, some, String, List,
  [], ◌∷◌, map, length, ◌==◌, ltb, if◌then◌else◌,
}
use sertos.Types.{Status, ok, null_ptr, not_initialized, TaskState, ready, u32, u64}
use sertos.Kernel.{Kernel, set_tcb}
use sertos.Scheduler.Registry.{visit_all_tasks}
use sertos.Scheduler.Delay.{get_tick_count}
use sertos.Task.Inspect.{get_stack_high_water_mark}

-- `SertosTaskStats`; a name may be null.
pub record TaskStats : Type 0 where
  pub name : Option String
  pub priority : ℕ
  pub state : TaskState
  pub run_time : ℕ
  pub cpu_percent_x100 : ℕ
  pub switch_in_count : ℕ
  pub stack_high_water : ℕ

-- `SertosSystemStats`.
pub record SystemStats : Type 0 where
  pub total_run_time : ℕ
  pub idle_run_time : ℕ
  pub idle_percent_x100 : ℕ
  pub total_switches : ℕ
  pub total_ticks : ℕ
  pub task_count : ℕ

-- `memset` to 0.
abbrev pub no_task_stats : TaskStats
no_task_stats = record {
  name = none;
  priority = 0;
  state = ready;
  run_time = 0;
  cpu_percent_x100 = 0;
  switch_in_count = 0;
  stack_high_water = 0;
}

abbrev pub no_system_stats : SystemStats
no_system_stats = record {
  total_run_time = 0;
  idle_run_time = 0;
  idle_percent_x100 = 0;
  total_switches = 0;
  total_ticks = 0;
  task_count = 0;
}

-- `compute_percent_x100`.
unfoldable pub compute_percent_x100 : ℕ → ℕ → ℕ
compute_percent_x100 part total = if total == 0 then 0 else u32 (u64 (part * 10000) / total)

-- `reset_visitor`: the context is the sample of the run-time counter.
unfoldable pub reset_visitor : ℕ → Kernel × ℕ → Kernel × ℕ
reset_visitor t (k, now) = (
  set_tcb k t
      (record (k.tcbs t) { run_time_total = 0; run_time_last_entry = now; switch_in_count = 0 }),
  now,
)

-- `sum_visitor`: the context is the total and the count.
unfoldable pub sum_visitor : ℕ → Kernel × (ℕ × ℕ) → Kernel × (ℕ × ℕ)
sum_visitor t (k, (total, count)) = (k, (u64 (total + (k.tcbs t).run_time_total), u32 (count + 1)))

unfoldable pub task_stats : Kernel → ℕ → ℕ → TaskStats
task_stats k t percent = record {
  name = some (k.tcbs t).name;
  priority = (k.tcbs t).priority;
  state = (k.tcbs t).state;
  run_time = (k.tcbs t).run_time_total;
  cpu_percent_x100 = percent;
  switch_in_count = (k.tcbs t).switch_in_count;
  stack_high_water = get_stack_high_water_mark k (some t);
}

-- `fill_visitor`: the context is the records written and the total.
unfoldable pub fill_visitor : ℕ → ℕ → Kernel × (List TaskStats × ℕ) → Kernel × (List TaskStats × ℕ)
unfolding task_stats
fill_visitor capacity t (k, (written, total)) = (
  k,
  (
    if ltb (length written) capacity then written ++ task_stats k t 0 ∷ [] else written,
    u64 (total + (k.tcbs t).run_time_total),
  ),
)

-- `sertos_stats_reset`.
unfoldable pub reset : Kernel → Kernel
unfolding reset_visitor
reset k = record (visit_all_tasks (some reset_visitor) (k, k.runtime_counter)).0 {
  total_switches = 0;
}

-- `sertos_stats_get_system`; `out` says whether the pointer is not null.
unfoldable pub get_system : Kernel → Bool → Option SystemStats × Status
unfolding compute_percent_x100 sum_visitor
get_system k false = (none, null_ptr)
get_system k true =
    if not k.stats_enabled
    then (some no_system_stats, not_initialized)
    else let (_, (total, count)) = visit_all_tasks (some sum_visitor) (k, (0, 0)) in
      (
        some (record {
          total_run_time = total;
          idle_run_time = (k.tcbs k.idle_tcb).run_time_total;
          idle_percent_x100 = compute_percent_x100 (k.tcbs k.idle_tcb).run_time_total total;
          total_switches = k.total_switches;
          total_ticks = get_tick_count k;
          task_count = count;
        }),
        ok,
      )

abbrev with_percent : ℕ → TaskStats → TaskStats
with_percent total r = record r { cpu_percent_x100 = compute_percent_x100 r.run_time total }

-- `sertos_stats_get_tasks`: the records written.
unfoldable pub get_tasks : Kernel → Bool → ℕ → List TaskStats
unfolding compute_percent_x100 fill_visitor
get_tasks k out capacity =
    if not out || capacity == 0 || not k.stats_enabled
    then []
    else let (_, (written, total)) = visit_all_tasks (some (fill_visitor capacity)) (k, ([], 0)) in
      map (with_percent total) written

abbrev task_of_system : Kernel → ℕ → Option SystemStats × Status → Option TaskStats × Status
task_of_system k t (some sys, ok) =
    (some (task_stats k t (compute_percent_x100 (k.tcbs t).run_time_total sys.total_run_time)), ok)
task_of_system k t (none, ok) = (none, ok)
task_of_system k t (sys, s) = (none, s)

-- `sertos_stats_get_task`.
unfoldable pub get_task : Kernel → Option ℕ → Bool → Option TaskStats × Status
unfolding compute_percent_x100 task_stats get_system
get_task k none out = (none, null_ptr)
get_task k (some t) false = (none, null_ptr)
get_task k (some t) true =
    if not k.stats_enabled
    then (some no_task_stats, not_initialized)
    else task_of_system k t (get_system k true)

abbrev load_of_system : Option SystemStats × Status → ℕ
load_of_system (some sys, ok) = u32 (10000 + 2 ^ 32 - sys.idle_percent_x100)
load_of_system (_, s) = 0

-- `sertos_stats_get_cpu_load_x100`.
unfoldable pub get_cpu_load_x100 : Kernel → ℕ
unfolding get_system
get_cpu_load_x100 k = load_of_system (get_system k true)
