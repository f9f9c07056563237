-- ===== src/Clock/Fence.antt =====
-- logical_clock/module/bounded_tso.c and the macros of bounded_tso.h: a chunk of instructions ends
-- at a fence after `bounded_chunk_size` ticks, the last of them in single steps. `count_ticks` is 0
-- while ticks are not counted, 1 while they are, and above that two more than the steps left.
pub mod Steps
use consequence.Base.{
  ℕ, suc, ◌+◌, ◌-◌, u64, Bool, true, false, ◌&&◌, not, ltb, leb, ◌==◌, if◌then◌else◌,
}
use consequence.Clock.State.{
  store, Context, ClockEntry, Task, Group, set_clock, inc_clock_ticks_no_chunk_add,
  tick_counter_turn_off, tick_counter_is_running, set_hit_bounded_fence, hit_bounded_fence,
}

abbrev pub bounded_chunk_size : ℕ
bounded_chunk_size = 1024000000

abbrev pub imprecise_overflow_buffer : ℕ
imprecise_overflow_buffer = 200

abbrev pub imprecise_bounded_chunk_size : ℕ
imprecise_bounded_chunk_size = bounded_chunk_size - imprecise_overflow_buffer

-- `__single_stepping_on`, which is 0 without USE_BOUNDED_FENCE
unfoldable pub single_stepping_on : Context → Group → ℕ → Bool
single_stepping_on c g tid = c.build.fence && ltb 1 (g.clocks tid).count_ticks

-- `__single_stepping_enable`
unfoldable pub single_stepping_enable : Context → Group → ℕ → ℕ → Group
single_stepping_enable c g tid val =
    if c.build.fence then set_clock g tid (record (g.clocks tid) { count_ticks = val + 2 }) else g

-- `__single_stepping_dec`
unfoldable pub single_stepping_dec : Context → Group → ℕ → Group
single_stepping_dec c g tid =
    if c.build.fence
    then set_clock g tid (record (g.clocks tid) { count_ticks = (g.clocks tid).count_ticks - 1 })
    else g

-- `__single_stepping_done`
unfoldable pub single_stepping_done : Context → Group → ℕ → Bool
single_stepping_done c g tid = c.build.fence && leb (g.clocks tid).count_ticks 2

-- `__single_stepping_reset`
unfoldable pub single_stepping_reset : Context → Group → ℕ → Group
single_stepping_reset c g tid =
    if c.build.fence then set_clock g tid (record (g.clocks tid) { count_ticks = 0 }) else g

-- `force_sig(SIGUSR1, current)`
unfoldable pub force_sig : Context → Group → Group
force_sig c g =
    let t = g.tasks c.tid in
    record g { tasks = store g.tasks c.tid (record t { signals = suc t.signals }) }

-- `task_pt_regs(current)->flags` with the trap flag on or off
unfoldable pub set_trap_flag : Context → Bool → Group → Group
set_trap_flag c b g =
    let t = g.tasks c.tid in record g { tasks = store g.tasks c.tid (record t { trap_flag = b }) }

-- The ticks that are left of a chunk.
unfoldable pub remaining_ticks : Group → ℕ → ℕ
remaining_ticks g tid =
    let chunk = (g.clocks tid).chunk_ticks in
    if ltb bounded_chunk_size chunk then 0 else bounded_chunk_size - chunk

unfoldable pub begin_bounded_memory_fence : Context → Group → Group
unfolding set_trap_flag force_sig single_stepping_enable set_hit_bounded_fence tick_counter_turn_off
begin_bounded_memory_fence c g =
    let remaining = remaining_ticks g c.tid in
    if tick_counter_is_running c g
    then (if remaining == 0
        then force_sig c (set_hit_bounded_fence c true (tick_counter_turn_off c g))
        else single_stepping_enable c (if c.nmi then g else set_trap_flag c true g) c.tid remaining)
    else g

-- `__inc_clock_ticks` with `__inc_chunk_ticks`
unfoldable pub inc_clock_ticks : Context → Group → ℕ → ℕ → Group
unfolding begin_bounded_memory_fence inc_clock_ticks_no_chunk_add
inc_clock_ticks c g tid val =
    let g1 = inc_clock_ticks_no_chunk_add g tid val in
    let e = g1.clocks tid in
    let g2 = set_clock g1 tid (record e { chunk_ticks = u64 (e.chunk_ticks + val) }) in
    if c.build.fence && ltb imprecise_bounded_chunk_size (g2.clocks tid).chunk_ticks
    then begin_bounded_memory_fence c g2
    else g2

unfoldable pub end_bounded_memory_fence_early : Context → Group → Group
unfolding set_trap_flag set_hit_bounded_fence single_stepping_reset
end_bounded_memory_fence_early c g =
    single_stepping_reset c (set_hit_bounded_fence c true (set_trap_flag c false g)) c.tid

-- `on_single_step`: the group, the trap flag of `regs`, and the result. The trap that the last
-- step ends is the caller's.
unfoldable pub on_single_step : Context → Group → Bool → Group × Bool × Bool
unfolding single_stepping_on single_stepping_dec inc_clock_ticks_no_chunk_add single_stepping_done
    tick_counter_turn_off set_hit_bounded_fence force_sig hit_bounded_fence
on_single_step c g trap =
    let g1 = inc_clock_ticks_no_chunk_add (single_stepping_dec c g c.tid) c.tid 1 in
    let g2 =
      force_sig c
        (set_hit_bounded_fence c true (tick_counter_turn_off c (single_stepping_dec c g1 c.tid))) in
    if single_stepping_on c g c.tid
    then (if single_stepping_done c g1 c.tid then (g2, false, true) else (g1, trap, true))
    else if hit_bounded_fence c g
    then (g, trap, true)
    else if ltb (g.clocks c.tid).chunk_ticks bounded_chunk_size
    then (g, false, true)
    else (g, trap, false)
