-- ===== src/Stats.antt =====
-- thread_lib/include/stats.h: the times and counts that are kept for each process. The clock's reading
-- and the process id are arguments; printing is left out, but for the average that is printed.
pub mod Sums
pub mod Tests
use consequence.Base.{
  ℕ, zero, suc, ◌+◌, ◌-◌, ◌*◌, ◌/◌, ◌%◌, ◌^◌, u64, ltb, ◌==◌, if◌then◌else◌, store, Outcome, ok,
  ◌>>=◌, ◌>>◌, bug_on, in_range,
}

-- `TOTAL_PIDS`
abbrev pub total_pids : ℕ
total_pids = 100000

-- `struct timespec`
pub record Time : Type 0 where
  pub tv_sec : ℕ
  pub tv_nsec : ℕ

-- `struct stats_struct`
pub record StatsStruct : Type 0 where
  pub total_time : ℕ
  pub total_ops : ℕ
  pub time_start : Time
  pub time_end : Time

-- `class commit_stats`
pub record CommitStats : Type 0 where
  pub stats : StatsStruct
  pub per_pid_stats : ℕ → StatsStruct

abbrev pub microseconds : Time → ℕ
microseconds t = u64 (t.tv_sec * 1000000 + t.tv_nsec / 1000)

-- `_time_util_time_diff`
unfoldable pub time_diff : Time → Time → ℕ
time_diff start end_time = u64 (microseconds end_time + (2 ^ 64 - microseconds start))

-- a `long` as an `int`, and an `int` added to an `unsigned long`, by its 32-bit pattern
abbrev pub as_int : ℕ → ℕ
as_int n = n % 2 ^ 32

abbrev pub add_int : ℕ → ℕ → ℕ
add_int n i = u64 (if ltb i (2 ^ 31) then n + i else n + (2 ^ 64 - 2 ^ 32) + i)

abbrev pub zero_stats : StatsStruct
zero_stats = record {
  total_time = 0;
  total_ops = 0;
  time_start = record { tv_sec = 0; tv_nsec = 0 };
  time_end = record { tv_sec = 0; tv_nsec = 0 };
}

-- the constructor
unfoldable pub new_stats : CommitStats
new_stats = record { stats = zero_stats; per_pid_stats = λ pid. zero_stats }

-- `stats_inc`
unfoldable pub stats_inc : CommitStats → CommitStats
stats_inc s = record s { stats = record (s.stats) { total_ops = u64 (s.stats.total_ops + 1) } }

-- "per_pid_stats[pid]" is changed
unfoldable pub at_pid : CommitStats → ℕ → (StatsStruct → StatsStruct) → Outcome CommitStats
at_pid s pid f =
    in_range (ltb pid total_pids)
    >> ok (record s { per_pid_stats = store s.per_pid_stats pid (f (s.per_pid_stats pid)) })

-- `stats_pid_start`
unfoldable pub stats_pid_start : CommitStats → ℕ → Time → Outcome CommitStats
unfolding at_pid
stats_pid_start s pid now = at_pid s pid λ p. record p { time_start = now }

-- `stats_pid_inc`
unfoldable pub stats_pid_inc : CommitStats → ℕ → Outcome CommitStats
unfolding at_pid
stats_pid_inc s pid = at_pid s pid λ p. record p { total_ops = u64 (p.total_ops + 1) }

-- The loop of `stats_pid_aggregate`, over the first processes.
unfoldable pub aggregate_first : ℕ → (ℕ → StatsStruct) → ℕ
aggregate_first zero per_pid = 0
aggregate_first (suc n) per_pid = u64 (aggregate_first n per_pid + (per_pid n).total_time)

-- `stats_pid_aggregate`
unfoldable pub stats_pid_aggregate : CommitStats → ℕ
unfolding aggregate_first
stats_pid_aggregate s = aggregate_first total_pids s.per_pid_stats

-- `stats_get_pid_ops` and `stats_get_pid_time`
unfoldable pub stats_get_pid_ops : CommitStats → ℕ → Outcome ℕ
stats_get_pid_ops s pid =
    in_range (ltb pid total_pids) >> ok (as_int (s.per_pid_stats pid).total_ops)

unfoldable pub stats_get_pid_time : CommitStats → ℕ → Outcome ℕ
stats_get_pid_time s pid =
    in_range (ltb pid total_pids) >> ok (as_int (s.per_pid_stats pid).total_time)

-- `stats_set_pid_time`, with the pattern of an `int`
unfoldable pub stats_set_pid_time : CommitStats → ℕ → ℕ → Outcome CommitStats
unfolding at_pid
stats_set_pid_time s pid t = at_pid s pid λ p. record p { total_time = add_int 0 t }

-- an interval ends
unfoldable pub end_interval : StatsStruct → Time → StatsStruct
unfolding time_diff
end_interval p now = record p {
  time_end = now;
  total_time = add_int p.total_time (as_int (time_diff p.time_start now));
}

-- `stats_pid_end`
unfoldable pub stats_pid_end : CommitStats → ℕ → Time → Outcome (ℕ × CommitStats)
unfolding at_pid end_interval
stats_pid_end s pid now = do
  s1 ← at_pid s pid λ p. end_interval (record p { total_ops = u64 (p.total_ops + 1) }) now
  ok (as_int (time_diff (s.per_pid_stats pid).time_start now), s1)

-- `stats_start` and `stats_end`
unfoldable pub stats_start : CommitStats → Time → CommitStats
stats_start s now = record s { stats = record (s.stats) { time_start = now } }

unfoldable pub stats_end : CommitStats → Time → ℕ × CommitStats
unfolding end_interval
stats_end s now =
    (as_int (time_diff s.stats.time_start now), record s { stats = end_interval s.stats now })

-- what `stats_pid_print_avg` prints; a division by 0 is as a failed assertion
unfoldable pub pid_average : CommitStats → ℕ → Outcome ℕ
pid_average s pid =
    in_range (ltb pid total_pids)
    >> (bug_on ((s.per_pid_stats pid).total_ops == 0)
        >> ok ((s.per_pid_stats pid).total_time / (s.per_pid_stats pid).total_ops))
