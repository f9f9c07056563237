-- ===== src/Clock/Notify.antt =====
-- logical_clock/module/clock_main.c: how the module finds out that another thread has become the
-- lowest, and wakes it. A function that takes and frees the group's lock is one step here; the
-- wake-up that follows the lock is a step of its own, `wake_if`.
pub mod Settle
pub mod Determine
use consequence.Base.{
  ℕ, suc, ℤ, pos, negsuc, is_nonneg, Bool, true, false, ◌&&◌, ◌||◌, not, ◌==ℤ◌, if◌then◌else◌,
  Outcome, ok, out_of_bounds, ◌>>=◌,
}
use consequence.Clock.State.{
  Context, Group, no_tid, set_clock, set_user, get_clock_ticks, clock_is_lower, clear_entry_state,
  current_is_only_active_thread,
}
use consequence.Clock.Search.{search_for_lowest, search_for_lowest_waiting}

-- `__clock_is_lower(group_info, tid, low)` at an `int`
unfoldable pub clock_is_lower_than : Group → ℕ → ℤ → Outcome Bool
clock_is_lower_than g tid (pos low) = ok (clock_is_lower g tid low)
clock_is_lower_than g tid (negsuc _) = out_of_bounds

-- `__new_lowest`
unfoldable pub new_lowest : Context → Group → ℕ → Outcome ℤ
unfolding clock_is_lower_than
new_lowest c g tid =
    if g.lowest_tid ==ℤ no_tid
    then search_for_lowest c g
    else if pos tid ==ℤ g.lowest_tid
    then (do tmp ← search_for_lowest c g; ok (if tmp ==ℤ pos tid then no_tid else tmp))
    else (do lower ← clock_is_lower_than g tid g.lowest_tid; ok (if lower then pos tid else no_tid))

-- `__thread_is_waiting`
unfoldable pub thread_is_waiting : Group → ℤ → Bool
thread_is_waiting g (pos tid) = (g.clocks tid).waiting
thread_is_waiting g (negsuc _) = false

-- `__is_sleeping`
unfoldable pub is_sleeping : Group → ℤ → Bool
is_sleeping g (pos tid) = (g.clocks tid).sleeping
is_sleeping g (negsuc _) = false

-- `atomic_set(&buffer->poll, POLL_IN)` and `wake_up_all(&event->task_clock_waitq)`
unfoldable pub poll_and_wake : Group → ℕ → Group
poll_and_wake g tid =
    let e = g.clocks tid in
    let event = e.event in
    set_clock g tid
      (record e { event = record event { poll_in = true; wakeups = suc event.wakeups } })

-- `user_status_arr[tid].lowest_clock = 1`
unfoldable pub set_lowest_clock : Group → ℤ → Outcome Group
set_lowest_clock g (pos tid) =
    let u = g.users tid in ok (set_user g tid (record u { lowest_clock = true }))
set_lowest_clock g (negsuc _) = out_of_bounds

-- `__wake_up_waiting_thread`
unfoldable pub wake_up_waiting_thread : Group → ℕ → Outcome Group
unfolding is_sleeping poll_and_wake set_lowest_clock
wake_up_waiting_thread g tid =
    if is_sleeping g g.lowest_tid then ok (poll_and_wake g tid) else set_lowest_clock g g.lowest_tid

-- `if (lowest_tid>=0) __wake_up_waiting_thread(group_info, lowest_tid)`
unfoldable pub wake_if : Group → ℤ → Outcome Group
unfolding wake_up_waiting_thread
wake_if g (pos tid) = wake_up_waiting_thread g tid
wake_if g (negsuc _) = ok g

-- `__get_clock_ticks` at an `int`
unfoldable pub get_clock_ticks_at : Group → ℤ → Outcome ℕ
get_clock_ticks_at g (pos tid) = ok (get_clock_ticks g tid)
get_clock_ticks_at g (negsuc _) = out_of_bounds

-- `__set_new_low`
unfoldable pub set_new_low : Group → ℤ → Outcome Group
unfolding get_clock_ticks_at
set_new_low g tid = do
  ticks ← get_clock_ticks_at g tid
  ok (record g { lowest_tid = tid; lowest_ticks = ticks })

-- `new_low` becomes the lowest thread, and is the one to wake if that is called for.
unfoldable pub notify_new_low : Group → ℤ → Outcome (Group × ℤ)
unfolding set_new_low
notify_new_low g new_low = do
  low ← set_new_low g new_low
  ok (
      if low.notification_needed || low.nmi_new_low
      then (record low { nmi_new_low = false; notification_needed = false }, low.lowest_tid)
      else (low, no_tid))

-- The part of `__task_clock_notify_waiting_threads` under the lock, with the thread to wake.
unfoldable pub notify_under_lock : Context → Group → Outcome (Group × ℤ)
unfolding thread_is_waiting notify_new_low
notify_under_lock c g = do
  new_low ← search_for_lowest_waiting c g
  if is_nonneg new_low && thread_is_waiting g new_low
      then notify_new_low g new_low
      else ok (g, no_tid)

-- `__task_clock_notify_waiting_threads`, which the queued work runs
unfoldable pub notify_waiting_threads : Context → Group → Outcome Group
unfolding notify_under_lock wake_if
notify_waiting_threads c g = do (g', lowest_tid) ← notify_under_lock c g; wake_if g' lowest_tid

-- The end of `task_clock_overflow_handler`, at the value of `new_low`: queue the work.
unfoldable pub notice_new_low : Context → Group → ℤ → Group
unfolding thread_is_waiting
notice_new_low c g new_low =
    if is_nonneg new_low && not (new_low ==ℤ pos c.tid) && not g.nmi_new_low
    then (if thread_is_waiting g new_low
        then record g { nmi_new_low = true; pending_work = true }
        else g)
    else g

-- `__set_current_thread_to_lowest`
unfoldable pub set_current_thread_to_lowest : Context → Group → Group
unfolding clear_entry_state
set_current_thread_to_lowest c g =
    let u = g.users c.tid in
    let flagged = set_user g c.tid (record u { lowest_clock = true }) in
    let cleared = clear_entry_state c (record flagged { notification_needed = false }) in
    record cleared { lowest_ticks = get_clock_ticks cleared c.tid }

-- Where the calling thread is not the lowest: whom to wake.
unfoldable pub pick_thread_to_wakeup : Context → Group → Group × ℤ
unfolding thread_is_waiting
pick_thread_to_wakeup c g =
    let u = g.users c.tid in
    let g' = set_user g c.tid (record u { lowest_clock = false }) in
    if thread_is_waiting g' g'.lowest_tid && g'.notification_needed
    then (record g' { nmi_new_low = false; notification_needed = false }, g'.lowest_tid)
    else (g', no_tid)

-- "if its not already the lowest_tid, then set it and make sure we notify"
unfoldable pub take_new_low : Group → ℤ → Group
take_new_low g new_low =
    if new_low ==ℤ g.lowest_tid
    then g
    else record g { notification_needed = true; lowest_tid = new_low }

-- "if (group_info->lowest_tid>=0)": set the group's lowest ticks
unfoldable pub set_lowest_ticks : Group → Group
set_lowest_ticks g = elim g.lowest_tid [
  | pos low ↦ record g { lowest_ticks = get_clock_ticks g low }
  | negsuc _ ↦ g
]

-- What follows the search: the calling thread is the lowest, or finds whom to wake.
unfoldable pub settle : Context → Group → ℤ → Group × ℤ
unfolding take_new_low set_current_thread_to_lowest pick_thread_to_wakeup set_lowest_ticks
settle c g new_low =
    let g1 = take_new_low g new_low in
    let (g2, wake) =
      (if is_nonneg new_low && g1.lowest_tid ==ℤ pos c.tid
        then (set_current_thread_to_lowest c g1, no_tid)
        else pick_thread_to_wakeup c g1) in
    (set_lowest_ticks g2, wake)

-- The branch of `__determine_lowest_and_notify_or_wait` with other active threads.
unfoldable pub determine_among_others : Context → Group → Outcome (Group × ℤ)
unfolding settle
determine_among_others c g = do
  let e = g.clocks c.tid
  let waiting = set_clock g c.tid (record e { waiting = true })
  new_low ← search_for_lowest_waiting c waiting
  ok (settle c waiting new_low)

-- `__determine_lowest_and_notify_or_wait`, with the thread to wake
unfoldable pub determine_lowest_and_notify_or_wait : Context → Group → Outcome (Group × ℤ)
unfolding determine_among_others set_current_thread_to_lowest
determine_lowest_and_notify_or_wait c g =
    let u = g.users c.tid in
    let published = set_user g c.tid (record u { ticks = get_clock_ticks g c.tid }) in
    let v = published.users c.tid in
    if current_is_only_active_thread c published
    then ok (
      set_current_thread_to_lowest c
          (set_user published c.tid (record v { single_active_thread = true })),
      no_tid,
    )
    else determine_among_others c published
