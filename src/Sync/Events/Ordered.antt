-- ===== src/Sync/Events/Ordered.antt =====
-- What the log of events in determ.h holds after calls at times that do not go back.
use consequence.Base.{
  ℕ, ◌-◌, ◌≤◌, ◌<◌, ◌≡◌, refl, arith, Bool, true, false, ltb, ◌==◌, ◌&&◌, if◌then◌else◌,
  store_cases, List, [], ◌∷◌, inl, inr, Bool-cases, if_both,
}
use consequence.Sync.Events.{
  Event, EventEntry, Reading, max_events, current, with_current, next_event, start_event,
  begun_at_last, type_commit, begin_at_last, end_event, add_event_commit_stats, add_atomic_event,
  set_coarsening_stats, add_coarsening_stats,
}

-- Up to `now`: no more events than there is room for; each that has ended did so after it began; and
-- none has begun later.
pub record IsOrdered (now : ℕ) (e : EventEntry) : Type 0 where
  pub few : e.event_counter ≤ max_events
  pub ended :
      (i : ℕ)
      → i < e.event_counter
      → ((e.events i).begin_time_us ≤ (e.events i).end_time_us) × ((e.events i).end_time_us ≤ now)
  pub begun : (i : ℕ) → e.event_counter ≤ i → (e.events i).begin_time_us ≤ now

IsOrdered-later :
    (now later : ℕ) (e : EventEntry) → now ≤ later → IsOrdered now e → IsOrdered later e
IsOrdered-later now later e h o = record {
  few = o.few;
  ended = λ i under. let ends = o.ended i under in (ends.0, omega arith);
  begun = λ i over. let begins = o.begun i over in omega arith;
}

module _ (now : ℕ) (e : EventEntry) (event : Event) (o : IsOrdered now e) where
  -- the event that is being kept gets another beginning, not later than now
  with_current-IsOrdered : event.begin_time_us ≤ now → IsOrdered now (with_current e event)
  with_current-IsOrdered begins = record {
    few = o.few;
    ended = λ i under.
        store_cases (λ x. (x.begin_time_us ≤ x.end_time_us) × (x.end_time_us ≤ now)) e.events
          e.event_counter i event (λ same. absurd (omega arith)) (λ _. o.ended i under);
    begun = λ i over.
        store_cases (λ x. x.begin_time_us ≤ now) e.events e.event_counter i event (λ _. begins)
          (λ _. o.begun i over);
  }

  -- it ends, not before its beginning
  next_event-IsOrdered :
      event.begin_time_us ≤ event.end_time_us
      → event.end_time_us ≤ now
      → e.event_counter < max_events
      → IsOrdered now (next_event (with_current e event))
  next_event-IsOrdered order ends room = record {
    few = omega arith;
    ended = λ i under.
        store_cases (λ x. (x.begin_time_us ≤ x.end_time_us) × (x.end_time_us ≤ now)) e.events
          e.event_counter i event (λ _. (order, ends)) (λ other. o.ended i (ground arith));
    begun = λ i over.
        store_cases (λ x. x.begin_time_us ≤ now) e.events e.event_counter i event (λ _. omega arith)
          (λ _. o.begun i (omega arith));
  }

-- a call of the log, with what is read in it
pub data LogCall : Type 0 where
  starts : Reading → ℕ → ℕ → LogCall
  ends : Reading → ℕ → LogCall
  adds_commit_stats : ℕ → ℕ → ℕ → ℕ → LogCall
  adds_atomic : Reading → ℕ → ℕ → LogCall
  adds_coarsening_stats : Reading → Reading → ℕ → ℕ → Bool → LogCall

abbrev pub log : EventEntry → LogCall → EventEntry
log e (starts now type object) = start_event e now type object
log e (ends now type) = end_event e now type
log e (adds_commit_stats u m p d) = add_event_commit_stats e u m p d
log e (adds_atomic now type object) = add_atomic_event e now type object
log e (adds_coarsening_stats at_start at_end counter level successful) =
    add_coarsening_stats e at_start at_end counter level successful

abbrev pub log_all : EventEntry → List LogCall → EventEntry
log_all e [] = e
log_all e (call ∷ calls) = log_all (log e call) calls

-- The calls are made at these times, which do not go back, from `now` on to `later`.
abbrev pub Between : ℕ → ℕ → LogCall → Type 0
Between now later (starts t _ _) = (now ≤ t.time_us) × (t.time_us ≤ later)
Between now later (ends t _) = (now ≤ t.time_us) × (t.time_us ≤ later)
Between now later (adds_commit_stats _ _ _ _) = now ≤ later
Between now later (adds_atomic t _ _) = (now ≤ t.time_us) × (t.time_us ≤ later)
Between now later (adds_coarsening_stats a b _ _ _) =
    (now ≤ a.time_us) × (a.time_us ≤ b.time_us) × (b.time_us ≤ later)

abbrev pub InOrder : ℕ → List ℕ → List LogCall → Type 0
InOrder now [] [] = Unit
InOrder now (later ∷ times) (call ∷ calls) = Between now later call × InOrder later times calls
InOrder now [] (call ∷ calls) = ⊥
InOrder now (later ∷ times) [] = ⊥

abbrev pub end_of : ℕ → List ℕ → ℕ
end_of now [] = now
end_of now (later ∷ times) = end_of later times

start_event-IsOrdered :
    (now : ℕ) (e : EventEntry) (t : Reading) (type object : ℕ)
    → now ≤ t.time_us
    → IsOrdered now e
    → IsOrdered t.time_us (start_event e t type object)
unfolding start_event
start_event-IsOrdered now e t type object h o =
    let o' = IsOrdered-later now t.time_us e h o in
    if_both (IsOrdered t.time_us) (ltb e.event_counter max_events) _ _
      (with_current-IsOrdered t.time_us e _ o' (omega arith)) o'

-- what holds of one value if the last of three tests does, and of the other
if_last :
    (P : Event → Type 0) (b c d : Bool) (x y : Event)
    → (d ≡ true → P x)
    → P y
    → P (if b && c && d then x else y)
if_last P true true true x y h k = h refl
if_last P true true false x y h k = k
if_last P true false d x y h k = k
if_last P false c d x y h k = k

begin_at_last-before :
    (now : ℕ) (e : EventEntry) (type : ℕ)
    → IsOrdered now e
    → (begin_at_last e type).begin_time_us ≤ now
unfolding begin_at_last
begin_at_last-before now e type o =
    if_last (λ x. x.begin_time_us ≤ now) ((current e).begin_time_us == 0)
      ((current e).begin_clock == 0) (ltb 0 e.event_counter) (begun_at_last e type) (current e)
      (λ some_events. (o.ended (e.event_counter - 1) (ground arith)).1)
      (o.begun e.event_counter (omega arith))

end_event-IsOrdered :
    (now : ℕ) (e : EventEntry) (t : Reading) (type : ℕ)
    → now ≤ t.time_us
    → IsOrdered now e
    → IsOrdered t.time_us (end_event e t type)
unfolding end_event
end_event-IsOrdered now e t type h o = elim (Bool-cases (ltb e.event_counter max_events)) [
  | inl room ↦
      let o' = IsOrdered-later now t.time_us e h o in
      rw room (
        next_event-IsOrdered t.time_us e _ o' (begin_at_last-before t.time_us e type o')
          (omega arith) (ground arith))
  | inr full ↦ rw full (IsOrdered-later now t.time_us e h o)
]

add_atomic_event-IsOrdered :
    (now : ℕ) (e : EventEntry) (t : Reading) (type object : ℕ)
    → now ≤ t.time_us
    → IsOrdered now e
    → IsOrdered t.time_us (add_atomic_event e t type object)
unfolding add_atomic_event
add_atomic_event-IsOrdered now e t type object h o =
    elim (Bool-cases (ltb e.event_counter max_events)) [
      | inl room ↦ rw room (
          next_event-IsOrdered t.time_us e _ (IsOrdered-later now t.time_us e h o) (omega arith)
            (omega arith) (ground arith))
      | inr full ↦ rw full (IsOrdered-later now t.time_us e h o)
    ]

set_coarsening_stats-IsOrdered :
    (now : ℕ) (e : EventEntry) (counter level : ℕ)
    → IsOrdered now e
    → IsOrdered now (set_coarsening_stats e counter level)
unfolding set_coarsening_stats
set_coarsening_stats-IsOrdered now e counter level o =
    if_both (IsOrdered now) (ltb e.event_counter max_events) _ _
      (with_current-IsOrdered now e _ o (o.begun e.event_counter (omega arith))) o

add_event_commit_stats-IsOrdered :
    (now : ℕ) (e : EventEntry) (u m p d : ℕ)
    → IsOrdered now e
    → IsOrdered now (add_event_commit_stats e u m p d)
unfolding add_event_commit_stats
add_event_commit_stats-IsOrdered now e u m p d o =
    if_both (IsOrdered now)
      (ltb e.event_counter max_events && ((current e).event_type == type_commit)) _ _
      (with_current-IsOrdered now e _ o (o.begun e.event_counter (omega arith))) o

log-IsOrdered :
    (now later : ℕ) (e : EventEntry) (call : LogCall)
    → Between now later call
    → IsOrdered now e
    → IsOrdered later (log e call)
unfolding add_coarsening_stats
log-IsOrdered now later e (starts t type object) h o =
    IsOrdered-later t.time_us later _ h.1 (start_event-IsOrdered now e t type object h.0 o)
log-IsOrdered now later e (ends t type) h o =
    IsOrdered-later t.time_us later _ h.1 (end_event-IsOrdered now e t type h.0 o)
log-IsOrdered now later e (adds_commit_stats u m p d) h o =
    IsOrdered-later now later _ h (add_event_commit_stats-IsOrdered now e u m p d o)
log-IsOrdered now later e (adds_atomic t type object) h o =
    IsOrdered-later t.time_us later _ h.1 (add_atomic_event-IsOrdered now e t type object h.0 o)
log-IsOrdered now later e (adds_coarsening_stats a b counter level successful) h o =
    IsOrdered-later b.time_us later _ h.2 (
      end_event-IsOrdered a.time_us _ b _ h.1 (
        set_coarsening_stats-IsOrdered a.time_us _ counter level
          (start_event-IsOrdered now e a _ 0 h.0 o)))

log_all-from :
    (now : ℕ) (times : List ℕ) (e : EventEntry) (calls : List LogCall)
    → InOrder now times calls
    → IsOrdered now e
    → IsOrdered (end_of now times) (log_all e calls)
log_all-from now [] e [] h o = o
log_all-from now (later ∷ times) e (call ∷ calls) h o =
    log_all-from later times (log e call) calls h.1 (log-IsOrdered now later e call h.0 o)
log_all-from now [] e (call ∷ calls) h o = absurd h
log_all-from now (later ∷ times) e [] h o = absurd h

-- After any calls of the log, from an empty one on, at times that do not go back: it has no more events
-- than there is room for; each that has ended did so after it began, and no later than now; and none
-- has begun later.
pub log_all-IsOrdered :
    (times : List ℕ) (events : ℕ → Event) (calls : List LogCall)
    → ((i : ℕ) → (events i).begin_time_us ≡ 0)
    → InOrder 0 times calls
    → IsOrdered (end_of 0 times) (log_all (record { event_counter = 0; events = events }) calls)
log_all-IsOrdered times events calls empty h =
    log_all-from 0 times (record { event_counter = 0; events = events }) calls h
      record {
        few = omega arith;
        ended = λ i under. absurd (omega arith);
        begun = λ i over. let at = empty i in omega arith;
      }
