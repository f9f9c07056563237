-- ===== src/Sync/Events/Tests.antt =====
-- Some events of a thread, and the theorem on the log of determ.h about them.
use consequence.Base.{ℕ, ◌+◌, ◌*◌, refl, arith, true, List, [], ◌∷◌}
use consequence.Sync.Events.{Event, Reading}
use consequence.Sync.Events.Ordered.{
  IsOrdered, LogCall, starts, ends, adds_commit_stats, adds_atomic, adds_coarsening_stats, log_all,
  log_all-IsOrdered,
}

abbrev empty_event : Event
empty_event = record {
  begin_time_us = 0;
  end_time_us = 0;
  event_type = 0;
  begin_clock = 0;
  end_clock = 0;
  dirty_pages = 0;
  updated_pages = 0;
  partial_pages = 0;
  merged_pages = 0;
  sync_object = 0;
  coarsening_counter = 0;
  coarsening_level = 0;
  perf_counter_last = 0;
  perf_counter_current = 0;
  cpu = 0;
  period_sets = 0;
}

abbrev at_time : ℕ → Reading
at_time t = record {
  time_us = t;
  clock = 10 * t;
  later_clock = 10 * t + 1;
  coarsened_ticks = 3;
  last_raw_perf = 0;
  current_raw_perf = 0;
  cpu = 1;
  period_sets = 0;
}

abbrev calls : List LogCall
calls =
    starts (at_time 5) 2 0
    ∷ adds_commit_stats 1 2 3 4
    ∷ ends (at_time 9) 2
    ∷ ends (at_time 11) 3
    ∷ adds_atomic (at_time 12) 7 8
    ∷ adds_coarsening_stats (at_time 12) (at_time 20) 40 50 true
    ∷ []

log_all-IsOrdered_example :
    IsOrdered 20 (log_all (record { event_counter = 0; events = λ i. empty_event }) calls)
log_all-IsOrdered_example =
    log_all-IsOrdered (5 ∷ 5 ∷ 9 ∷ 11 ∷ 12 ∷ 20 ∷ []) (λ i. empty_event) calls (λ i. refl)
      (
        (omega arith, omega arith),
        (
          omega arith,
          (
            (omega arith, omega arith),
            (
              (omega arith, omega arith),
              ((omega arith, omega arith), ((omega arith, omega arith, omega arith), tt)),
            ),
          ),
        ),
      )
