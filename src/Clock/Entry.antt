-- ===== src/Clock/Entry.antt =====
-- The operations of logical_clock/module/clock_main.c on the calling thread's clock, or on that of a
-- thread that it activates: the functions that `init_module` hands to the kernel.
pub mod Handover
pub mod Halt
pub mod Activate
use consequence.Base.{
  ℕ, zero, suc, ◌+◌, ◌-◌, ◌^◌, pos, negsuc, u64, Bool, true, false, ◌==◌, ◌==ℤ◌, update,
  if◌then◌else◌, Outcome, ok, ◌>>=◌,
}
use consequence.ListArray.{ListArray}
use consequence.ListArray
use consequence.Clock.State.{
  Context, PerfEvent, ClockEntry, Group, no_tid, set_clock, set_user, get_clock_ticks,
  clock_is_lower, inc_clock_ticks_no_chunk_add, reset_chunk_ticks, tick_counter_turn_off,
  tick_counter_turn_on, tick_counter_is_running, clear_entry_state, clear_entry_state_by_id,
  mark_as_inactive, mark_as_active,
}
use consequence.Clock.Notify.{
  new_lowest, wake_if, notice_new_low, determine_lowest_and_notify_or_wait,
}
use consequence.Clock.Fence.{single_stepping_on, end_bounded_memory_fence_early}
use consequence.Clock.Counter.{
  update_clock_ticks, read_clock_and_update, reset_current_ticks, set_perf_counter_max,
  set_perf_counter, update_overflow_period, reset_overflow_period,
}

-- `task_clock_entry_overflow_update_period`
unfoldable pub entry_overflow_update_period : Context → Group → Outcome Group
unfolding tick_counter_is_running
entry_overflow_update_period c g =
    if tick_counter_is_running c g
    then update_overflow_period c (update_clock_ticks c g c.tid) c.tid
    else ok g

-- `task_clock_overflow_handler`, with the trap flag of the interrupted registers
unfoldable pub overflow_handler : Context → Group → Bool → Outcome (Group × Bool)
unfolding tick_counter_is_running single_stepping_on notice_new_low
overflow_handler c g trap =
    let handled : Outcome (Group × Bool) = (do
      new_low ← new_lowest c g c.tid
      ok (notice_new_low c g new_low, if single_stepping_on c g c.tid then true else trap)) in
    if tick_counter_is_running c g then handled else ok (g, trap)

-- Determine the lowest thread under the lock, then wake whom that calls for.
unfoldable pub determine_and_wake : Context → Group → Outcome Group
unfolding wake_if
determine_and_wake c g = do
  (g', lowest_tid) ← determine_lowest_and_notify_or_wait c g
  wake_if g' lowest_tid

-- "if we are in single stepping mode, we no longer need it"
unfoldable pub stop_single_stepping : Context → Group → Group
unfolding single_stepping_on end_bounded_memory_fence_early
stop_single_stepping c g =
    if single_stepping_on c g c.tid then end_bounded_memory_fence_early c g else g

-- `task_clock_on_disable`
unfoldable pub on_disable : Context → Group → Outcome Group
unfolding stop_single_stepping tick_counter_is_running tick_counter_turn_off determine_and_wake
on_disable c g =
    let g1 = stop_single_stepping c g in
    let g2 =
      (if tick_counter_is_running c g1
        then tick_counter_turn_off c (update_clock_ticks c g1 c.tid)
        else reset_current_ticks c g1 c.tid) in
    determine_and_wake c (record g2 { notification_needed = true })

-- `task_clock_add_ticks`; `ticks` is the 64-bit pattern of its `int32_t`
unfoldable pub add_ticks : Context → Group → ℕ → Outcome Group
unfolding inc_clock_ticks_no_chunk_add determine_and_wake
add_ticks c g ticks =
    let g1 = inc_clock_ticks_no_chunk_add g c.tid ticks in
    let u = g1.users c.tid in
    determine_and_wake c (set_user g1 c.tid (record u { ticks = get_clock_ticks g1 c.tid }))

-- "if (group_info->clocks[current->task_clock.tid].userspace_reading==1)"
unfoldable pub end_userspace_reading : Context → Group → Group
end_userspace_reading c g =
    let e = g.clocks c.tid in
    if e.userspace_reading
    then set_perf_counter c (set_clock g c.tid (record e { userspace_reading = false })) c.tid
    else g

-- `task_clock_on_enable`
unfoldable pub on_enable : Context → Group → Outcome Group
unfolding reset_chunk_ticks tick_counter_turn_on end_userspace_reading clear_entry_state wake_if
on_enable c g = do
  let g1 = tick_counter_turn_on c (reset_chunk_ticks g c.tid)
  g2 ← update_overflow_period c (reset_overflow_period c g1) c.tid
  (g3, lowest_tid) ← determine_lowest_and_notify_or_wait c (end_userspace_reading c g2)
  let g4 =
      (if g3.lowest_tid ==ℤ pos c.tid
        then record g3 { notification_needed = true; nmi_new_low = false }
        else g3)
  wake_if (clear_entry_state c g4) lowest_tid

-- The loop of `__init_task_clock_entries` over `i`, with the rounds that are left.
unfoldable pub init_task_clock_entries : ℕ → ℕ → (ℕ → ClockEntry) → ℕ → ClockEntry
init_task_clock_entries zero i clocks = clocks
init_task_clock_entries (suc rounds) i clocks = init_task_clock_entries rounds (i + 1) (
    update clocks i (record (clocks i) {
      initialized = false;
      waiting = false;
      sleeping = false;
      inactive = false;
      ticks = 0;
    }))

-- `task_clock_entry_init` for the event that the kernel made. Mapping the page of `user_status` is
-- the kernel's; the model keeps that it was mapped.
unfoldable pub entry_init : Context → Group → PerfEvent → Group
unfolding reset_chunk_ticks clear_entry_state tick_counter_turn_off
entry_init c g event =
    let old = g.clocks c.tid in
    let started = (if old.initialized then old else record old { ticks = 0; base_ticks = 0 }) in
    let g1 = set_clock g c.tid (record started {
      initialized = true;
      userspace_reading = false;
      event = event;
      count_ticks = 0;
    }) in
    let g2 = tick_counter_turn_off c (clear_entry_state c (reset_chunk_ticks g1 c.tid)) in
    let u = g2.users c.tid in
    set_user (if c.tid == 0 then record g2 { user_status_mapped = true } else g2) c.tid
      (record u { hwc_idx = 2 ^ 32 - 1 })

-- `task_clock_group_init`, from what the allocated memory holds, for `max_threads` entries
-- (TASK_CLOCK_MAX_THREADS of the kernel's header)
unfoldable pub group_init : ℕ → Group → Group
unfolding init_task_clock_entries
group_init max_threads g = record g {
  lowest_tid = no_tid;
  lowest_ticks = 0;
  notification_needed = true;
  nmi_new_low = false;
  user_status_mapped = false;
  active_threads = ListArray.init g.active_threads;
  clocks = init_task_clock_entries max_threads 0 g.clocks;
  pending_work = false;
}

-- `task_clock_entry_halt`
unfoldable pub entry_halt : Context → Group → Outcome Group
unfolding mark_as_inactive wake_if
entry_halt c g = do
  g1 ← mark_as_inactive g c.tid
  (g2, lowest_tid) ← determine_lowest_and_notify_or_wait c g1
  let e = g2.clocks c.tid
  wake_if (set_clock g2 c.tid (record e { waiting = false })) lowest_tid

-- The flags of the calling thread that `task_clock_entry_activate` sets.
unfoldable pub reset_notifying : Context → Group → Group
reset_notifying c g =
    let u = g.users c.tid in
    let e = g.clocks c.tid in
    set_clock
      (set_user g c.tid (record u {
        notifying_id = 0;
        notifying_clock = 666;
        notifying_sample = 666;
        hit_bounded_fence = false;
      }))
      c.tid (record e { userspace_reading = false })

-- `task_clock_entry_activate`
unfoldable pub entry_activate : Context → Group → Outcome Group
unfolding clear_entry_state reset_chunk_ticks mark_as_active reset_notifying
entry_activate c g = do
  g1 ← mark_as_active (reset_chunk_ticks (clear_entry_state c g) c.tid) c.tid
  g2 ← update_overflow_period c (reset_overflow_period c g1) c.tid
  let g3 = reset_notifying c g2
  new_low ← new_lowest c g3 c.tid
  let u = g3.users c.tid
  ok (
      if new_low ==ℤ pos c.tid
      then set_user (record g3 { notification_needed = false; lowest_tid = new_low }) c.tid
          (record u { lowest_clock = true })
      else g3)

-- "group_info->lowest_tid < 0 || __clock_is_lower(group_info, id, group_info->lowest_tid)"
unfoldable pub precedes_lowest : Group → ℕ → Bool
precedes_lowest g id = elim g.lowest_tid [ pos low ↦ clock_is_lower g id low | negsuc _ ↦ true ]

-- `task_clock_entry_activate_other`
unfoldable pub entry_activate_other : Context → Group → ℕ → Outcome Group
unfolding clear_entry_state_by_id mark_as_active reset_chunk_ticks precedes_lowest
entry_activate_other c g id = do
  let e = g.clocks id
  let started =
      (if e.initialized
        then e
        else record e { base_ticks = u64 (get_clock_ticks g c.tid + 1); ticks = 0 })
  let g1 = set_clock g id (record started { initialized = true })
  g2 ← mark_as_active (clear_entry_state_by_id c id g1) id
  let g3 = reset_chunk_ticks g2 id
  let u = g3.users c.tid
  ok (
      if precedes_lowest g3 id
      then set_user g3 c.tid (record u { activated_lowest = true })
      else g3)

-- `task_clock_entry_wait`
unfoldable pub entry_wait : Context → Group → Outcome Group
unfolding determine_and_wake
entry_wait c g = determine_and_wake c g

-- `task_clock_entry_reset`
unfoldable pub entry_reset : Context → Group → Group
entry_reset c g = let e = g.clocks c.tid in set_clock g c.tid (record e { initialized = false })

-- `task_clock_entry_sleep`
unfoldable pub entry_sleep : Context → Group → Outcome Group
unfolding wake_if
entry_sleep c g = do
  (g1, lowest_tid) ← determine_lowest_and_notify_or_wait c g
  let e = g1.clocks c.tid
  wake_if (if e.waiting then set_clock g1 c.tid (record e { sleeping = true }) else g1) lowest_tid

-- `task_clock_entry_woke_up`
unfoldable pub entry_woke_up : Context → Group → Group
entry_woke_up c g =
    let e = g.clocks c.tid in set_clock g c.tid (record e { sleeping = false; waiting = false })

-- `task_clock_entry_stop`
unfoldable pub entry_stop : Context → Group → Outcome Group
unfolding stop_single_stepping determine_and_wake
entry_stop c g = determine_and_wake c (read_clock_and_update c (stop_single_stepping c g) c.tid)

-- `task_clock_entry_stop_no_notify`
unfoldable pub entry_stop_no_notify : Context → Group → Group
entry_stop_no_notify c g = read_clock_and_update c g c.tid

-- `task_clock_entry_start`
unfoldable pub entry_start : Context → Group → Outcome Group
unfolding on_enable
entry_start c g =
    let u = g.users c.tid in
    on_enable c (reset_current_ticks c (set_user g c.tid (record u { notifying_id = 0 })) c.tid)

-- `task_clock_entry_start_no_notify`
unfoldable pub entry_start_no_notify : Context → Group → Group
unfolding tick_counter_turn_off
entry_start_no_notify c g =
    let e = g.clocks c.tid in
    let g1 = set_clock g c.tid (record e { userspace_reading = true }) in
    let g2 = set_perf_counter_max c (reset_current_ticks c g1 c.tid) c.tid in
    let g3 = tick_counter_turn_off c g2 in
    let u = g3.users c.tid in set_user g3 c.tid (record u { notifying_id = 666 })
