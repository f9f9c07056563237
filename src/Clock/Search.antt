-- ===== src/Clock/Search.antt =====
-- logical_clock/module/search_entries.h: the searches for the thread with the lowest clock.
pub mod Lowest
pub mod Waiting
use consequence.Base.{
  ℕ, suc, ◌≡◌, ℤ, pos, negsuc, is_nonneg, Bool, true, false, ◌&&◌, ◌||◌, not, ltb, ◌==◌, ◌==ℤ◌,
  update, if◌then◌else◌, Outcome, ok, out_of_bounds, ◌>>=◌, ◌>>◌, in_range,
}
use consequence.ListArray.{foreach, foreach_allelements}
use consequence.Clock.State.{Context, ClockEntry, Group, no_tid, clock_is_lower}

-- the length of `thread_arr`
abbrev pub thread_arr_size : ℕ
thread_arr_size = 128

-- `min_tid < 0 || __clock_is_lower(group_info, i, min_tid)`
unfoldable pub beats : Group → ℕ → ℤ → Bool
beats g i (negsuc _) = true
beats g i (pos m) = clock_is_lower g i m

-- The body of a search loop, with the test of the entry.
abbrev pub consider : Group → (ℕ → Bool) → ℤ → ℕ → Outcome ℤ
consider g test min_tid i = ok (if test i && beats g i min_tid then pos i else min_tid)

-- `entry->initialized && !entry->inactive`
abbrev pub is_candidate : Group → ℕ → Bool
is_candidate g i = (g.clocks i).initialized && not (g.clocks i).inactive

-- The loop over the active threads, or in an interrupt over all entries.
unfoldable pub over_threads {ℓ} :
    {S : Type ℓ} → Context → Group → (S → ℕ → Outcome S) → S → Outcome S
over_threads c g body s =
    if c.nmi then foreach_allelements g.active_threads body s else foreach g.active_threads body s

unfoldable pub search_for_lowest : Context → Group → Outcome ℤ
unfolding over_threads
search_for_lowest c g = over_threads c g (consider g (is_candidate g)) no_tid

unfoldable pub active_thread_count : Context → Group → Outcome ℕ
unfolding over_threads
active_thread_count c g =
    over_threads c g
      (λ n i. ok (if is_candidate g i && not (g.clocks i).sleeping then suc n else n)) 0

unfoldable pub search_for_lowest_waiting_exclude_current : Context → Group → ℕ → Outcome ℤ
unfolding over_threads
search_for_lowest_waiting_exclude_current c g tid =
    over_threads c g (consider g (λ i. is_candidate g i && (g.clocks i).waiting && not (i == tid)))
      no_tid

-- The first loop of `__search_for_lowest_waiting`, over the array as the stack left it.
unfoldable pub mark_waiting : Group → (ℕ → ℕ) → Outcome (ℕ → ℕ)
mark_waiting g stack =
    foreach g.active_threads
      (λ thread_arr i.
        if (g.clocks i).waiting
        then (in_range (ltb i thread_arr_size) >> ok (update thread_arr i 1))
        else ok thread_arr)
      stack

-- `(low >= 0 && thread_arr[low]==1) ? low : -1`
unfoldable pub low_if_marked : (ℕ → ℕ) → ℤ → Outcome ℤ
low_if_marked thread_arr (pos low) =
    in_range (ltb low thread_arr_size) >> ok (if thread_arr low == 1 then pos low else no_tid)
low_if_marked thread_arr (negsuc _) = ok no_tid

unfoldable pub search_for_lowest_waiting : Context → Group → Outcome ℤ
unfolding mark_waiting low_if_marked
search_for_lowest_waiting c g = do
  thread_arr ← mark_waiting g c.stack
  low ← search_for_lowest c g
  low_if_marked thread_arr low
