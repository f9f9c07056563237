-- ===== src/Sync/Events/Coarsening.antt =====
-- What add_coarsening_stats of determ.h keeps of what it is given.
use consequence.Base.{
  ℕ, ◌<◌, ◌≡◌, refl, ap, subst, ◌∙◌, arith, Bool, true, ltb, if◌then◌else◌, store_self, if_both,
}
use consequence.Sync.Events.{
  Event, EventEntry, Reading, max_events, current, type_tx_coarse_success, type_tx_coarse_failed,
  start_event, end_event, set_coarsening_stats, add_coarsening_stats,
}

end_event-coarsening_counter :
    (e : EventEntry) (t : Reading) (type : ℕ)
    → e.event_counter < max_events
    → ((end_event e t type).events e.event_counter).coarsening_counter ≡ t.coarsened_ticks
unfolding end_event
end_event-coarsening_counter e t type room =
    let has_room : ltb e.event_counter max_events ≡ true = ground arith in
    rw has_room (ap (λ (x : Event). x.coarsening_counter) (store_self e.events e.event_counter _))

start_event-event_counter :
    (e : EventEntry) (t : Reading) (type object : ℕ)
    → (start_event e t type object).event_counter ≡ e.event_counter
unfolding start_event
start_event-event_counter e t type object =
    if_both (λ (x : EventEntry). x.event_counter ≡ e.event_counter) (ltb e.event_counter max_events)
      _ _ refl refl

set_coarsening_stats-event_counter :
    (e : EventEntry) (counter level : ℕ)
    → (set_coarsening_stats e counter level).event_counter ≡ e.event_counter
unfolding set_coarsening_stats
set_coarsening_stats-event_counter e counter level =
    if_both (λ (x : EventEntry). x.event_counter ≡ e.event_counter) (ltb e.event_counter max_events)
      _ _ refl refl

-- Where there is room for the event, the counter that `add_coarsening_stats` is given is not in it:
-- what the thread's clock had coarsened at the end of the event is.
pub add_coarsening_stats-lost :
    (e : EventEntry) (at_start at_end : Reading) (counter level : ℕ) (successful : Bool)
    → e.event_counter < max_events
    → (current (record (add_coarsening_stats e at_start at_end counter level successful) {
      event_counter = e.event_counter;
    })).coarsening_counter
      ≡ at_end.coarsened_ticks
unfolding add_coarsening_stats
add_coarsening_stats-lost e at_start at_end counter level successful room =
    let started =
      start_event e at_start (if successful then type_tx_coarse_success else type_tx_coarse_failed)
        0 in
    let set = set_coarsening_stats started counter level in
    let same : set.event_counter ≡ e.event_counter =
      set_coarsening_stats-event_counter started counter level
      ∙ start_event-event_counter e at_start _ 0 in
    subst
      (λ n.
        ((end_event set at_end type_tx_coarse_failed).events n).coarsening_counter
        ≡ at_end.coarsened_ticks)
      same (end_event-coarsening_counter set at_end type_tx_coarse_failed (omega (arith, same)))
