-- ===== src/Clock/State.antt =====
-- The state that the kernel module keeps for a group of threads, and the macros of
-- logical_clock/module/utility.h and bounded_tso.h over it. The structs are those of the patched
-- kernel's `linux/task_clock.h` and `linux/perf_event.h`, with the fields that the module uses.
use consequence.Base.{
  ℕ, ◌+◌, ℤ, negsuc, u64, Bool, true, false, ◌&&◌, ◌||◌, not, ltb, ◌==◌, if◌then◌else◌, Outcome, ok,
  ◌>>=◌,
}
pub use consequence.Base.{store, store_self, store_ne}
use consequence.ListArray.{ListArray}
use consequence.ListArray

-- The flags of logical_clock/module/Makefile: `counting` is the lack of NO_INSTRUCTION_COUNTING,
-- `adaptive` is USE_ADAPTIVE_OVERFLOW_PERIOD, `fence` is USE_BOUNDED_FENCE.
pub record Build : Type 0 where
  pub counting : Bool
  pub adaptive : Bool
  pub fence : Bool

-- What a call is made in: the build, the thread that makes it, whether it is in a non-maskable
-- interrupt, what lies on its stack where `thread_arr` is declared, and what its reads of the
-- hardware counter give.
pub record Context : Type 0 where
  pub build : Build
  pub tid : ℕ
  pub nmi : Bool
  pub stack : ℕ → ℕ
  pub raw_count : ℕ

-- `struct perf_event` and its `hw`; `wakeups` counts the calls of `wake_up_all`.
pub record PerfEvent : Type 0 where
  pub event_count : ℕ
  pub sample_period : ℕ
  pub period_left : ℕ
  pub prev_count : ℕ
  pub last_written : ℕ
  pub counter : ℕ
  pub poll_in : Bool
  pub wakeups : ℕ

-- `struct task_clock_entry_info`
pub record ClockEntry : Type 0 where
  pub initialized : Bool
  pub waiting : Bool
  pub sleeping : Bool
  pub inactive : Bool
  pub userspace_reading : Bool
  pub ticks : ℕ
  pub base_ticks : ℕ
  pub chunk_ticks : ℕ
  pub count_ticks : ℕ
  pub event : PerfEvent

-- Of a thread's own state: the trap flag of its saved registers, and the SIGUSR1 sent to it.
pub record Task : Type 0 where
  pub trap_flag : Bool
  pub signals : ℕ

-- `struct task_clock_user_status`, the page that a thread shares with the kernel
pub record UserStatus : Type 0 where
  pub lowest_clock : Bool
  pub ticks : ℕ
  pub notifying_clock : ℕ
  pub notifying_id : ℕ
  pub notifying_sample : ℕ
  pub notifying_diff : ℕ
  pub scaling_whole : ℕ
  pub scaling_fraction : ℕ
  pub period_sets : ℕ
  pub single_active_thread : Bool
  pub activated_lowest : Bool
  pub hwc_idx : ℕ
  pub hit_bounded_fence : Bool

-- `struct task_clock_group_info`. `users` is the memory that both `user_status_arr` and each
-- thread's `user_status` point to; `pending_work` says that work is queued for after the interrupt.
pub record Group : Type 0 where
  pub clocks : ℕ → ClockEntry
  pub users : ℕ → UserStatus
  pub tasks : ℕ → Task
  pub lowest_tid : ℤ
  pub lowest_ticks : ℕ
  pub notification_needed : Bool
  pub nmi_new_low : Bool
  pub user_status_mapped : Bool
  pub active_threads : ListArray
  pub pending_work : Bool

abbrev pub no_tid : ℤ
no_tid = negsuc 0

abbrev pub set_clock : Group → ℕ → ClockEntry → Group
set_clock g tid e = record g { clocks = store g.clocks tid e }

abbrev pub set_user : Group → ℕ → UserStatus → Group
set_user g tid u = record g { users = store g.users tid u }

-- `__get_clock_ticks`
unfoldable pub get_clock_ticks : Group → ℕ → ℕ
get_clock_ticks g tid = u64 ((g.clocks tid).ticks + (g.clocks tid).base_ticks)

-- `__clock_is_lower`
unfoldable pub clock_is_lower : Group → ℕ → ℕ → Bool
clock_is_lower g tid1 tid2 =
    ltb (get_clock_ticks g tid1) (get_clock_ticks g tid2)
    || (get_clock_ticks g tid1 == get_clock_ticks g tid2) && ltb tid1 tid2

-- `__inc_clock_ticks_no_chunk_add`
unfoldable pub inc_clock_ticks_no_chunk_add : Group → ℕ → ℕ → Group
inc_clock_ticks_no_chunk_add g tid val =
    let e = g.clocks tid in set_clock g tid (record e { ticks = u64 (e.ticks + val) })

-- `__reset_chunk_ticks`
unfoldable pub reset_chunk_ticks : Group → ℕ → Group
reset_chunk_ticks g tid = let e = g.clocks tid in set_clock g tid (record e { chunk_ticks = 0 })

-- `__tick_counter_turn_off`, `__tick_counter_turn_on` and `__tick_counter_is_running`
unfoldable pub tick_counter_turn_off : Context → Group → Group
tick_counter_turn_off c g =
    let e = g.clocks c.tid in set_clock g c.tid (record e { count_ticks = 0 })

unfoldable pub tick_counter_turn_on : Context → Group → Group
tick_counter_turn_on c g =
    let e = g.clocks c.tid in set_clock g c.tid (record e { count_ticks = 1 })

unfoldable pub tick_counter_is_running : Context → Group → Bool
tick_counter_is_running c g = not ((g.clocks c.tid).count_ticks == 0)

-- `__hit_bounded_fence_enable`, `__hit_bounded_fence_disable` and `__hit_bounded_fence`, which are
-- empty, or 0, without USE_BOUNDED_FENCE
unfoldable pub set_hit_bounded_fence : Context → Bool → Group → Group
set_hit_bounded_fence c b g =
    let u = g.users c.tid in
    if c.build.fence then set_user g c.tid (record u { hit_bounded_fence = b }) else g

unfoldable pub hit_bounded_fence : Context → Group → Bool
hit_bounded_fence c g = c.build.fence && (g.users c.tid).hit_bounded_fence

-- `__clear_entry_state`
unfoldable pub clear_entry_state : Context → Group → Group
unfolding set_hit_bounded_fence
clear_entry_state c g =
    let e = g.clocks c.tid in
    set_hit_bounded_fence c false
      (set_clock g c.tid (record e { inactive = false; waiting = false; sleeping = false }))

-- `__clear_entry_state_by_id`: the entry of `id`, and the fence flag of the calling thread
unfoldable pub clear_entry_state_by_id : Context → ℕ → Group → Group
clear_entry_state_by_id c id g =
    let e = g.clocks id in
    let u = g.users c.tid in
    set_user (set_clock g id (record e { inactive = false; waiting = false; sleeping = false }))
      c.tid (record u { hit_bounded_fence = false })

-- `__mark_as_inactive`
unfoldable pub mark_as_inactive : Group → ℕ → Outcome Group
mark_as_inactive g id = do
  let e = g.clocks id
  la ← ListArray.remove g.active_threads id
  ok (record (set_clock g id (record e { inactive = true })) { active_threads = la })

-- `__mark_as_active`
unfoldable pub mark_as_active : Group → ℕ → Outcome Group
mark_as_active g id = do
  let e = g.clocks id
  la ← ListArray.insert g.active_threads id
  ok (record (set_clock g id (record e { inactive = false })) { active_threads = la })

-- `__current_is_only_active_thread`
unfoldable pub current_is_only_active_thread : Context → Group → Bool
current_is_only_active_thread c g = g.active_threads.count == 1 && not (g.clocks c.tid).inactive
