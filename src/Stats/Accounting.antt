-- ===== src/Stats/Accounting.antt =====
-- src/sertos_stats.c: the switch of the statistics and the accounting at a context switch.
use sertos.Base.{ℕ, ◌+◌, ◌-◌, ◌^◌, Bool, Option, none, some, not, if◌then◌else◌, is_handle}
use sertos.Types.{u32, u64}
use sertos.Kernel.{Kernel, set_tcb}

-- `sertos_stats_set_enabled`.
unfoldable pub set_enabled : Kernel → Bool → Kernel
set_enabled k enabled = record k { stats_enabled = enabled }

-- `sertos_stats_is_enabled`.
unfoldable pub is_enabled : Kernel → Bool
is_enabled k = k.stats_enabled

-- The time since a task's last entry, as `uint32_t`.
abbrev pub elapsed_since : ℕ → ℕ → ℕ
elapsed_since now last = u32 (now + 2 ^ 32 - last)

unfoldable pub charge : Kernel → Option ℕ → ℕ → Kernel
charge k none now = k
charge k (some t) now = set_tcb k t (record (k.tcbs t) {
  run_time_total =
      u64 ((k.tcbs t).run_time_total + elapsed_since now (k.tcbs t).run_time_last_entry);
})

unfoldable pub enter : Kernel → Option ℕ → Option ℕ → ℕ → Kernel
enter k prev none now = k
enter k prev (some t) now =
    if is_handle prev t
    then set_tcb k t (record (k.tcbs t) { run_time_last_entry = now })
    else record (set_tcb k t (record (k.tcbs t) {
      run_time_last_entry = now;
      switch_in_count = u32 ((k.tcbs t).switch_in_count + 1);
    })) { total_switches = u32 (k.total_switches + 1) }

-- `sertos_stats_on_switch`.
unfoldable pub on_switch : Kernel → Option ℕ → Option ℕ → Kernel
unfolding charge enter
on_switch k prev next =
    if not k.stats_enabled
    then k
    else enter (charge k prev k.runtime_counter) prev next k.runtime_counter
