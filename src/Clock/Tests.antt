-- ===== src/Clock/Tests.antt =====
-- A group of three threads, and the clock's theorems and runs on it.
use consequence.Base.{
  update, All, ◌||◌, not, ◌==ℤ◌, Bool, ◌&&◌, ◌-◌, All-has, ◌≡◌, ◌<◌, ◌+◌, refl, [], ◌∷◌, arith, pos,
  true, false, if◌then◌else◌, ◌==◌, ok, Returns,
}
use consequence.ListArray.{ListArray, entry_null, entry_dead}
use consequence.ListArray.Tests.{three, three-Holds}
use consequence.ListArray.Chain.{Holds}
use consequence.Clock.Notify.{thread_is_waiting, determine_lowest_and_notify_or_wait}
use consequence.Clock.Notify.Determine.{woken, determine-flag, determine-wake}
use consequence.Clock.Entry.{determine_and_wake, entry_halt, entry_activate_other}
use consequence.Clock.Entry.Handover.{determine_and_wake_hands_over}
use consequence.Clock.Entry.Halt.{entry_halt_lem}
use consequence.Clock.Entry.Activate.{HasEntered, entry_activate_other_lem}
use consequence.Clock.State.{
  current_is_only_active_thread, Context, PerfEvent, ClockEntry, UserStatus, Group, no_tid,
  clock_is_lower, get_clock_ticks, tick_counter_is_running,
}
use consequence.Clock.Search.{is_candidate, search_for_lowest, search_for_lowest_waiting}
use consequence.Clock.Search.Lowest.{
  IsLowest, passing, search_for_lowest-IsLowest, search_for_lowest-nmi,
}
use consequence.Clock.Search.Waiting.{
  search_for_lowest_waiting_lem, search_for_lowest_waiting_undetermined,
}
use consequence.Clock.Fence.{begin_bounded_memory_fence}
use consequence.Clock.Fence.Steps.{Stands, steps, fence_ends_chunk}
use consequence.Clock.Counter.{counter_delta}
use consequence.Clock.Counter.Delta.{counter_delta-eq}
use consequence.Clock.Counter.Period.{waiting_other}

abbrev pub context : Context
context = record {
  build = record { counting = true; adaptive = true; fence = false };
  tid = 3;
  nmi = false;
  stack = λ i. 0;
  raw_count = 0;
}

abbrev fenced : Context
fenced = record context { build = record { counting = false; adaptive = true; fence = true } }

abbrev event : PerfEvent
event = record {
  event_count = 0;
  sample_period = 5000;
  period_left = 0;
  prev_count = 0;
  last_written = 0;
  counter = 0;
  poll_in = false;
  wakeups = 0;
}

abbrev entry : ClockEntry
entry = record {
  initialized = false;
  waiting = false;
  sleeping = false;
  inactive = false;
  userspace_reading = false;
  ticks = 0;
  base_ticks = 0;
  chunk_ticks = 1023999998;
  count_ticks = 1;
  event = event;
}

abbrev pub user : UserStatus
user = record {
  lowest_clock = false;
  ticks = 0;
  notifying_clock = 0;
  notifying_id = 0;
  notifying_sample = 0;
  notifying_diff = 0;
  scaling_whole = 0;
  scaling_fraction = 0;
  period_sets = 0;
  single_active_thread = false;
  activated_lowest = false;
  hwc_idx = 0;
  hit_bounded_fence = false;
}

-- Thread 3 is at 40 ticks; threads 5 and 2 are at 3000, and thread 5 waits.
abbrev pub group : Group
group = record {
  clocks = λ i.
      if i == 3
      then record entry { initialized = true; ticks = 40 }
      else if i == 5
      then record entry { initialized = true; ticks = 3000; waiting = true }
      else if i == 2
      then record entry { initialized = true; ticks = 3000 }
      else entry;
  users = λ i. user;
  tasks = λ i. record { trap_flag = false; signals = 0 };
  lowest_tid = no_tid;
  lowest_ticks = 0;
  notification_needed = true;
  nmi_new_low = false;
  user_status_mapped = true;
  active_threads = three;
  pending_work = false;
}

three-IsLowest : IsLowest group (passing (3 ∷ 5 ∷ 2 ∷ []) (is_candidate group)) (pos 3)
unfolding clock_is_lower get_clock_ticks
three-IsLowest = (
  refl,
  λ i q.
      All-has (λ j. clock_is_lower group j 3 ≡ false) i (3 ∷ 5 ∷ 2 ∷ []) (refl, (refl, (refl, tt)))
        (ground arith),
)

and_right : (a b : Bool) → (a && b) ≡ true → b ≡ true
and_right true b e = e
and_right false b e = cc

five-IsLowest : IsLowest group (passing (3 ∷ 5 ∷ 2 ∷ []) (waiting_other group 3)) (pos 5)
unfolding clock_is_lower get_clock_ticks
five-IsLowest = (
  refl,
  λ i q.
      All-has (λ j. waiting_other group 3 j ≡ true → clock_is_lower group j 5 ≡ false) i
        (3 ∷ 5 ∷ 2 ∷ []) (λ f. cc, (λ f. refl, (λ f. cc, tt))) (ground arith) (and_right _ _ q),
)

small : All (λ i. i < 128) (3 ∷ 5 ∷ 2 ∷ [])
small = (omega arith, (omega arith, (omega arith, tt)))

search_for_lowest-IsLowest_example :
    Returns
      (IsLowest group (passing (3 ∷ 5 ∷ 2 ∷ []) (is_candidate group)))
      (search_for_lowest context group)
search_for_lowest-IsLowest_example =
    search_for_lowest-IsLowest context group (3 ∷ 5 ∷ 2 ∷ []) three-Holds refl

search_for_lowest-nmi_example :
    Returns (IsLowest group (is_candidate group)) (search_for_lowest context group)
    × (search_for_lowest (record context { nmi = true }) group ≡ search_for_lowest context group)
search_for_lowest-nmi_example =
    search_for_lowest-nmi context group (3 ∷ 5 ∷ 2 ∷ []) three-Holds (λ i q. ground arith) true

search_for_lowest_waiting_lem_example : search_for_lowest_waiting context group ≡ ok no_tid
search_for_lowest_waiting_lem_example =
    search_for_lowest_waiting_lem context group (3 ∷ 5 ∷ 2 ∷ []) (pos 3) three-Holds refl small
      three-IsLowest

search_for_lowest_waiting_undetermined_example :
    (search_for_lowest_waiting (record context { stack = λ i. 0 }) group ≡ ok no_tid)
    × (search_for_lowest_waiting (record context { stack = λ i. 1 }) group ≡ ok (pos 3))
search_for_lowest_waiting_undetermined_example =
    search_for_lowest_waiting_undetermined context group (3 ∷ 5 ∷ 2 ∷ []) 3 three-Holds refl small
      three-IsLowest refl

counts : tick_counter_is_running fenced group ≡ true
unfolding tick_counter_is_running
counts = refl

fence_ends_chunk_example :
    Stands fenced (steps 2 fenced (begin_bounded_memory_fence fenced group)) 0 42 true 1
fence_ends_chunk_example =
    fence_ends_chunk fenced refl group 2 2 refl (omega arith) (omega arith) counts (omega arith)

counter_delta-eq_example : counter_delta 5 (281474976710656 - 10) ≡ 15
counter_delta-eq_example = counter_delta-eq 5 (281474976710656 - 10) 15 refl (omega arith)

five_is_ahead : get_clock_ticks group 3 < get_clock_ticks group 5
unfolding get_clock_ticks
five_is_ahead = omega arith

five_is_small : get_clock_ticks group 5 + 1000 < 18446744073709551616
unfolding get_clock_ticks
five_is_small = omega arith

-- Thread 3, the lowest, now waits, and thread 2 calls.
abbrev ready : Group
ready = record group { clocks = update group.clocks 3 (record (group.clocks 3) { waiting = true }) }

abbrev called_by_2 : Context
called_by_2 = record context { tid = 2 }

ready-IsLowest : IsLowest ready (passing (3 ∷ 5 ∷ 2 ∷ []) (is_candidate ready)) (pos 3)
unfolding clock_is_lower get_clock_ticks
ready-IsLowest = (
  refl,
  λ i q.
      All-has (λ j. clock_is_lower ready j 3 ≡ false) i (3 ∷ 5 ∷ 2 ∷ []) (refl, (refl, (refl, tt)))
        (ground arith),
)

others_active : current_is_only_active_thread called_by_2 ready ≡ false
unfolding current_is_only_active_thread
others_active = refl

waits_for_it : (not (pos 3 ==ℤ ready.lowest_tid) || ready.notification_needed) ≡ true
waits_for_it = refl

determine-flag_example :
    Returns
      (λ r.
        (r.0.users 2).lowest_clock
        ≡ (current_is_only_active_thread called_by_2 ready || pos 3 ==ℤ pos 2))
      (determine_lowest_and_notify_or_wait called_by_2 ready)
determine-flag_example =
    determine-flag called_by_2 ready (3 ∷ 5 ∷ 2 ∷ []) (pos 3) three-Holds refl small ready-IsLowest

determine-wake_example :
    Returns
      (λ r. r.1 ≡ (
        if current_is_only_active_thread called_by_2 ready
        then no_tid
        else woken called_by_2 ready (pos 3)))
      (determine_lowest_and_notify_or_wait called_by_2 ready)
determine-wake_example =
    determine-wake called_by_2 ready (3 ∷ 5 ∷ 2 ∷ []) (pos 3) three-Holds refl small ready-IsLowest

wakes_thread_3 : woken called_by_2 ready (pos 3) ≡ pos 3
unfolding thread_is_waiting
wakes_thread_3 = refl

determine_and_wake_hands_over_example :
    Returns
      (λ g'. ((g'.users 3).lowest_clock ≡ true) × ((g'.users 2).lowest_clock ≡ false))
      (determine_and_wake called_by_2 ready)
determine_and_wake_hands_over_example =
    determine_and_wake_hands_over called_by_2 ready 3 (3 ∷ 5 ∷ 2 ∷ []) three-Holds refl small
      ready-IsLowest refl others_active refl waits_for_it

entry_halt_lem_example :
    Returns
      (λ g'.
        Holds g'.active_threads (5 ∷ 2 ∷ [])
        × ((g'.clocks 3).inactive ≡ true)
        × ((g'.clocks 3).waiting ≡ false)
        × ((g'.users 3).lowest_clock ≡ false))
      (entry_halt context group)
entry_halt_lem_example = entry_halt_lem context group (3 ∷ 5 ∷ 2 ∷ []) three-Holds refl small refl

entry_activate_other_lem_example :
    Returns (HasEntered context group (3 ∷ 5 ∷ 2 ∷ []) 7) (entry_activate_other context group 7)
entry_activate_other_lem_example =
    entry_activate_other_lem context group (3 ∷ 5 ∷ 2 ∷ []) 7 three-Holds (omega arith) refl

-- thread 130 is the only active one
abbrev far_list : ListArray
far_list = record {
  entries = λ i.
      if i == 130
      then record { next = entry_null; prev = entry_null }
      else record { next = entry_dead; prev = entry_dead };
  head = pos 130;
  tail = pos 130;
  count = 1;
  max_index = 130;
}

far_list-Holds : Holds far_list (130 ∷ [])
far_list-Holds = record {
  head = refl;
  tail = refl;
  linked = (refl, refl, tt);
  distinct = (refl, tt);
  bounded = omega arith;
  reached = omega arith;
  count = refl;
  dead = λ i lt o. ground arith;
}

abbrev far_group : Group
far_group = record group {
  clocks = λ i. record entry { initialized = true; waiting = true };
  active_threads = far_list;
}
