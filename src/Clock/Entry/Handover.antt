-- ===== src/Clock/Entry/Handover.antt =====
-- Determining the lowest thread and waking it, as most handlers of clock_main.c do.
use consequence.Base.{
  ℕ, ◌<◌, ◌≡◌, refl, sym, ap, ◌∙◌, pos, List, true, false, Bool-cases, inl, inr, ◌||◌, not, ◌==◌,
  ==_sym, ◌==ℤ◌, if◌then◌else◌, All, Returns, returns, Returns-mono,
}
use consequence.ListArray.Chain.{Holds}
use consequence.Clock.State.{Context, Group, store_self, store_ne, current_is_only_active_thread}
use consequence.Clock.Search.{thread_arr_size, is_candidate}
use consequence.Clock.Search.Lowest.{IsLowest, passing}
use consequence.Clock.Notify.{
  thread_is_waiting, is_sleeping, poll_and_wake, set_lowest_clock, wake_up_waiting_thread, wake_if,
  settle,
}
use consequence.Clock.Notify.Settle.{
  to_notify, settle-flag, settle-wake, settle-lowest, settle-clocks,
}
use consequence.Clock.Notify.Determine.{waits, waits-other, publish, determine_other}
use consequence.Clock.Entry.{determine_and_wake}

-- Waking the lowest thread: what reaches it depends on whether it sleeps.
wake_if-lowest :
    (g : Group) (m t : ℕ)
    → g.lowest_tid ≡ pos m
    → (m == t) ≡ false
    → Returns
        (λ g'.
          ((if (g.clocks m).sleeping
              then (g'.clocks m).event.poll_in
              else (g'.users m).lowest_clock)
            ≡ true)
          × ((g'.users t).lowest_clock ≡ (g.users t).lowest_clock))
        (wake_if g (pos m))
unfolding wake_if wake_up_waiting_thread is_sleeping poll_and_wake set_lowest_clock
wake_if-lowest g m t low other = elim (Bool-cases (g.clocks m).sleeping) [
  | inl s ↦ rw (low, s) (returns (ap (λ e. e.event.poll_in) (store_self g.clocks m _), refl))
  | inr s ↦
      rw (low, s)
        (returns (
          ap (λ u. u.lowest_clock) (store_self g.users m _),
          ap (λ u. u.lowest_clock) (store_ne g.users m t _ other),
        ))
]

module _ (c : Context) (g : Group) (m : ℕ) where
  abbrev settled : Group
  settled = (settle c (waits c (publish c g)) (pos m)).0

  settled-sleeping : (m == c.tid) ≡ false → (settled.clocks m).sleeping ≡ (g.clocks m).sleeping
  settled-sleeping other =
      ap (λ f. (f m).sleeping) (settle-clocks c (waits c (publish c g)) (pos m) other)
      ∙ ap (λ e. e.sleeping) (store_ne g.clocks c.tid m _ (==_sym c.tid m ∙ other))

  notifies :
      (m == c.tid) ≡ false
      → (g.clocks m).waiting ≡ true
      → (not (pos m ==ℤ g.lowest_tid) || g.notification_needed) ≡ true
      → to_notify (waits c (publish c g)) (pos m) ≡ true
  unfolding thread_is_waiting
  notifies other w needed = rw (waits-other c (publish c g) m (==_sym c.tid m ∙ other), w) needed

  -- Among active threads below 128, outside an interrupt, where the lowest thread is another than
  -- the caller, waits, and was not the lowest before or is yet to be notified, and the caller is not
  -- the only active thread: determining the lowest thread and waking it returns, that thread's poll
  -- flag is set if it sleeps and its flag `lowest_clock` if not, and the caller's is cleared.
  pub determine_and_wake_hands_over :
      (xs : List ℕ)
      → Holds g.active_threads xs
      → c.nmi ≡ false
      → All (λ i. i < thread_arr_size) xs
      → IsLowest g (passing xs (is_candidate g)) (pos m)
      → (m == c.tid) ≡ false
      → current_is_only_active_thread c g ≡ false
      → (g.clocks m).waiting ≡ true
      → (not (pos m ==ℤ g.lowest_tid) || g.notification_needed) ≡ true
      → Returns
          (λ g'.
            ((if (g.clocks m).sleeping
                then (g'.clocks m).event.poll_in
                else (g'.users m).lowest_clock)
              ≡ true)
            × ((g'.users c.tid).lowest_clock ≡ false))
          (determine_and_wake c g)
  unfolding determine_and_wake
  determine_and_wake_hands_over xs h outside small lowest other some w needed =
      rw
        (
          determine_other c g xs (pos m) h outside small lowest m refl other w some,
          settle-wake c (waits c (publish c g)) (pos m),
          other,
          notifies other w needed,
        )
        (Returns-mono
          (wake_if-lowest settled m c.tid (settle-lowest c (waits c (publish c g)) (pos m)) other)
          λ g' q. (
            ap (λ b. if b then (g'.clocks m).event.poll_in else (g'.users m).lowest_clock)
                  (sym (settled-sleeping other))
                ∙ q.0,
            q.1 ∙ settle-flag c (waits c (publish c g)) (pos m) ∙ other,
          ))
