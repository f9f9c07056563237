-- ===== src/Clock/Counter.antt =====
-- logical_clock/module/logical_clock_instruction_counting.h: the clock counts the instructions that
-- the hardware counter reports. With NO_INSTRUCTION_COUNTING every operation here is the empty macro
-- of logical_clock_no_ticks.h. What a read of the counter gives is the context's `raw_count`, and
-- the loop that reads again when an interrupt came between is not entered a second time.
pub mod Delta
pub mod Period
use consequence.Base.{
  ℕ, ◌+◌, ◌-◌, ◌*◌, ◌/◌, ◌%◌, ◌^◌, ℤ, pos, negsuc, u64, Bool, true, false, ◌&&◌, ◌||◌, not, ltb,
  ◌==◌, if◌then◌else◌, Outcome, ok, ◌>>=◌,
}
use consequence.Clock.State.{
  Context, PerfEvent, ClockEntry, UserStatus, Group, set_clock, set_user, get_clock_ticks,
  tick_counter_turn_off, tick_counter_is_running, hit_bounded_fence,
}
use consequence.Clock.Search.{search_for_lowest_waiting_exclude_current}
use consequence.Clock.Fence.{imprecise_bounded_chunk_size, single_stepping_on, inc_clock_ticks}

abbrev pub max_clock_sample_period : ℕ
max_clock_sample_period = 200000

abbrev pub min_clock_sample_period : ℕ
min_clock_sample_period = 1024

abbrev pub x86_cnt_val_bits : ℕ
x86_cnt_val_bits = 48

-- `-val` as a `uint64_t`
abbrev pub neg64 : ℕ → ℕ
neg64 val = u64 (2 ^ 64 - val)

abbrev pub event_of : Group → ℕ → PerfEvent
event_of g tid = (g.clocks tid).event

abbrev pub set_event : Group → ℕ → PerfEvent → Group
set_event g tid event = set_clock g tid (record (g.clocks tid) { event = event })

-- `logical_clock_update_clock_ticks`
unfoldable pub update_clock_ticks : Context → Group → ℕ → Group
update_clock_ticks c g tid =
    let rawcount = (event_of g tid).event_count in
    let g1 = inc_clock_ticks c g tid rawcount in
    if c.build.counting then set_event g1 tid (record (event_of g1 tid) { event_count = 0 }) else g

-- `x >> shift` of an `int64_t`, on the bit pattern
unfoldable pub shift_right_signed : ℕ → ℕ
shift_right_signed x =
    if ltb x (2 ^ 63) then x / 2 ^ (64 - 48) else x / 2 ^ (64 - 48) + (2 ^ 64 - 2 ^ 48)

-- What the counter has counted between two reads, of which the low 48 bits matter.
unfoldable pub counter_delta : ℕ → ℕ → ℕ
unfolding shift_right_signed
counter_delta new_raw_count prev_raw_count =
    shift_right_signed
      (u64 (u64 (new_raw_count * 2 ^ (64 - 48)) + 2 ^ 64 - u64 (prev_raw_count * 2 ^ (64 - 48))))

-- `logical_clock_read_clock_and_update`
unfoldable pub read_clock_and_update : Context → Group → ℕ → Group
unfolding counter_delta tick_counter_turn_off tick_counter_is_running
read_clock_and_update c g id =
    let counter_was_on = tick_counter_is_running c g in
    let prev = (event_of g id).prev_count in
    let g1 = set_event g id (record (event_of g id) { prev_count = c.raw_count }) in
    let g2 = tick_counter_turn_off c g1 in
    let delta = u64 (counter_delta c.raw_count prev + (event_of g2 id).event_count) in
    let g3 = set_event g2 id (record (event_of g2 id) { event_count = 0 }) in
    let g4 = inc_clock_ticks c g3 id delta in
    let u = g4.users c.tid in
    if c.build.counting
    then (if counter_was_on
        then set_user g4 c.tid (record u { ticks = get_clock_ticks g4 c.tid })
        else g3)
    else g

-- `logical_clock_reset_current_ticks`
unfoldable pub reset_current_ticks : Context → Group → ℕ → Group
reset_current_ticks c g id =
    let e = event_of g id in
    if c.build.counting
    then set_event g id (record e { prev_count = c.raw_count; event_count = 0 })
    else g

-- `logical_clock_set_perf_counter_max`
unfoldable pub set_perf_counter_max : Context → Group → ℕ → Group
set_perf_counter_max c g id =
    let e = event_of g id in
    let val : ℕ = 2 ^ 31 - 1 in
    if c.build.counting
    then set_event g id (record e {
      counter = neg64 val % 2 ^ 48;
      period_left = val;
      sample_period = val;
      event_count = 0;
      prev_count = neg64 val;
      last_written = neg64 val;
    })
    else g

-- `logical_clock_set_perf_counter`
unfoldable pub set_perf_counter : Context → Group → ℕ → Group
set_perf_counter c g id =
    let e = event_of g id in
    let val = e.sample_period in
    if c.build.counting
    then set_event g id (record e {
      counter = neg64 val % 2 ^ 48;
      period_left = val;
      event_count = 0;
      prev_count = neg64 val;
      last_written = neg64 val;
    })
    else g

-- `__bound_overflow_period`
unfoldable pub bound_overflow_period : Context → Group → ℕ → ℕ → ℕ
bound_overflow_period c g tid period =
    let chunk = (g.clocks tid).chunk_ticks in
    if c.build.fence && ltb imprecise_bounded_chunk_size (u64 (period + chunk))
    then u64 (imprecise_bounded_chunk_size + 2 ^ 64 - chunk)
    else period

-- `new_sample_period`, given the lowest waiting thread
unfoldable pub new_sample_period : Group → ℕ → ℤ → ℕ
new_sample_period g id (pos low) =
    let longer = u64 ((event_of g id).sample_period + 10000) in
    let low_clock = get_clock_ticks g low in
    let my_clock = get_clock_ticks g id in
    let until = u64 (low_clock - my_clock + 1000) in
    if ltb my_clock low_clock
    then (if ltb min_clock_sample_period until then until else min_clock_sample_period)
    else longer
new_sample_period g id (negsuc _) = u64 ((event_of g id).sample_period + 10000)

-- The period is bounded by what is left of the chunk, and by the maximum.
unfoldable pub bounded_period : Context → Group → ℕ → ℕ → ℕ
unfolding bound_overflow_period
bounded_period c g id period =
    let bounded = bound_overflow_period c g id period in
    if ltb bounded max_clock_sample_period then bounded else max_clock_sample_period

-- `logical_clock_update_overflow_period`
unfoldable pub update_overflow_period : Context → Group → ℕ → Outcome Group
unfolding new_sample_period bounded_period single_stepping_on hit_bounded_fence
update_overflow_period c g id =
    let e = event_of g id in
    let adapted : Outcome Group = (do
      low ← search_for_lowest_waiting_exclude_current c g id
      ok (
          set_event g id
            (record e { sample_period = bounded_period c g id (new_sample_period g id low) }))) in
    if c.build.counting && c.build.adaptive
    then (if single_stepping_on c g id || hit_bounded_fence c g
        then ok (set_event g id (record e { sample_period = imprecise_bounded_chunk_size }))
        else adapted)
    else ok g

-- `logical_clock_reset_overflow_period`, which resets the calling thread's period
unfoldable pub reset_overflow_period : Context → Group → Group
reset_overflow_period c g =
    let e = event_of g c.tid in
    if c.build.counting && c.build.adaptive
    then set_event g c.tid (record e { sample_period = 0; period_left = 0 })
    else g
