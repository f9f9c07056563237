-- ===== src/Stats/Tests.antt =====
-- Two intervals of a process, and the theorems on stats.h of thread_lib about them.
use consequence.Base.{ℕ, ◌+◌, ◌≡◌, arith, u64, List, [], ◌∷◌, Returns}
use consequence.Stats.{Time, CommitStats, zero_stats, stats_pid_aggregate}
use consequence.Stats.Sums.{Added, measure, measure-aggregate}

abbrev at_second : ℕ → Time
at_second s = record { tv_sec = s; tv_nsec = 2500 }

abbrev used : CommitStats
used = record {
  stats = zero_stats;
  per_pid_stats = λ pid. record zero_stats { total_time = 40; total_ops = 3 };
}

abbrev intervals : List (Time × Time)
intervals = (at_second 10, at_second 12) ∷ (at_second 30, at_second 31) ∷ []

measure-aggregate_example :
    Returns
      (λ s'.
        Added used 4321 3000000 2 s'
        × (stats_pid_aggregate s' ≡ u64 (stats_pid_aggregate used + 3000000)))
      (measure used 4321 intervals)
measure-aggregate_example =
    measure-aggregate used 4321 intervals (omega arith)
      ((omega arith, omega arith), ((omega arith, omega arith), tt)) (omega arith) (omega arith)
