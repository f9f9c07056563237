-- ===== src/Sync/Events.antt =====
-- The log of a thread's events in determ.h, in a build with `EVENT_VIEWER`; without it nothing is kept.
-- What the clocks say when a function is called is an argument; printing is left out.
pub mod Ordered
pub mod Coarsening
pub mod Tests
use consequence.Base.{ℕ, ◌+◌, ◌-◌, Bool, ◌&&◌, ltb, ◌==◌, if◌then◌else◌, store}

-- `MAX_EVENTS`
abbrev pub max_events : ℕ
max_events = 12000

-- `DEBUG_TYPE_COMMIT`, `DEBUG_TYPE_TX_COARSE_SUCCESS` and `DEBUG_TYPE_TX_COARSE_FAILED`
abbrev pub type_commit : ℕ
type_commit = 2

abbrev pub type_tx_coarse_success : ℕ
type_tx_coarse_success = 28

abbrev pub type_tx_coarse_failed : ℕ
type_tx_coarse_failed = 29

-- `struct debugging_events`
pub record Event : Type 0 where
  pub begin_time_us : ℕ
  pub end_time_us : ℕ
  pub event_type : ℕ
  pub begin_clock : ℕ
  pub end_clock : ℕ
  pub dirty_pages : ℕ
  pub updated_pages : ℕ
  pub partial_pages : ℕ
  pub merged_pages : ℕ
  pub sync_object : ℕ
  pub coarsening_counter : ℕ
  pub coarsening_level : ℕ
  pub perf_counter_last : ℕ
  pub perf_counter_current : ℕ
  pub cpu : ℕ
  pub period_sets : ℕ

-- `class EventEntry`
pub record EventEntry : Type 0 where
  pub event_counter : ℕ
  pub events : ℕ → Event

-- the time since the start of the program, the thread's clock, which may be read twice, and the
-- counters
pub record Reading : Type 0 where
  pub time_us : ℕ
  pub clock : ℕ
  pub later_clock : ℕ
  pub coarsened_ticks : ℕ
  pub last_raw_perf : ℕ
  pub current_raw_perf : ℕ
  pub cpu : ℕ
  pub period_sets : ℕ

-- the event that is being kept
abbrev pub current : EventEntry → Event
current e = e.events e.event_counter

-- where there is room, the event that is being kept is changed
abbrev pub with_current : EventEntry → Event → EventEntry
with_current e event = record e { events = store e.events e.event_counter event }

-- the next event is kept from now on
abbrev pub next_event : EventEntry → EventEntry
next_event e = record e { event_counter = e.event_counter + 1 }

-- `start_event`
unfoldable pub start_event : EventEntry → Reading → ℕ → ℕ → EventEntry
start_event e now type sync_object =
    if ltb e.event_counter max_events
    then with_current e (record (current e) {
      event_type = type;
      begin_time_us = now.time_us;
      begin_clock = now.clock;
      sync_object = sync_object;
    })
    else e

-- an event that begins where the last one ended
abbrev pub begun_at_last : EventEntry → ℕ → Event
begun_at_last e type = record (current e) {
  event_type = type;
  begin_time_us = (e.events (e.event_counter - 1)).end_time_us;
  begin_clock = (e.events (e.event_counter - 1)).end_clock;
}

-- Of `end_event`, the event that ends, where it has no beginning with that of the last one's end.
unfoldable pub begin_at_last : EventEntry → ℕ → Event
begin_at_last e type =
    if (current e).begin_time_us == 0 && (current e).begin_clock == 0 && ltb 0 e.event_counter
    then begun_at_last e type
    else current e

-- `end_event`
unfoldable pub end_event : EventEntry → Reading → ℕ → EventEntry
unfolding begin_at_last
end_event e now type =
    if ltb e.event_counter max_events
    then next_event (
        with_current e (record (begin_at_last e type) {
          end_time_us = now.time_us;
          end_clock = now.clock;
          coarsening_counter = now.coarsened_ticks;
          perf_counter_last = now.last_raw_perf;
          perf_counter_current = now.current_raw_perf;
          cpu = now.cpu;
          period_sets = now.period_sets;
        }))
    else e

-- `add_event_commit_stats`
unfoldable pub add_event_commit_stats : EventEntry → ℕ → ℕ → ℕ → ℕ → EventEntry
add_event_commit_stats e updated merged partial_updated dirty =
    if ltb e.event_counter max_events && ((current e).event_type == type_commit)
    then with_current e (record (current e) {
      updated_pages = updated;
      partial_pages = partial_updated;
      dirty_pages = dirty;
      merged_pages = merged;
    })
    else e

-- `add_atomic_event`
unfoldable pub add_atomic_event : EventEntry → Reading → ℕ → ℕ → EventEntry
add_atomic_event e now type sync_object =
    if ltb e.event_counter max_events
    then next_event (
        with_current e (record (current e) {
          event_type = type;
          begin_time_us = now.time_us;
          end_time_us = now.time_us;
          begin_clock = now.clock;
          end_clock = now.later_clock;
          sync_object = sync_object;
        }))
    else e

-- `EventEntry::add_coarsening_stats`
unfoldable pub set_coarsening_stats : EventEntry → ℕ → ℕ → EventEntry
set_coarsening_stats e counter level =
    if ltb e.event_counter max_events
    then with_current e
        (record (current e) { coarsening_counter = counter; coarsening_level = level })
    else e

-- `determ::add_coarsening_stats`, with what is read at its start and at its end
unfoldable pub add_coarsening_stats : EventEntry → Reading → Reading → ℕ → ℕ → Bool → EventEntry
unfolding start_event set_coarsening_stats end_event
add_coarsening_stats e at_start at_end counter level successful =
    let started =
      start_event e at_start (if successful then type_tx_coarse_success else type_tx_coarse_failed)
        0 in
    end_event (set_coarsening_stats started counter level) at_end type_tx_coarse_failed
