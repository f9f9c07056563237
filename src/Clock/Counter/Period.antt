-- ===== src/Clock/Counter/Period.antt =====
-- How far the overflow period may go.
use consequence.Base.{
  Bool, ap, ℕ, ◌+◌, ◌≤◌, ◌<◌, ◌^◌, ◌≡◌, ◌⊎◌, ℤ, pos, negsuc, false, true, arith, Returns, returns,
  Returns-mono, Returns-bind, List, ◌&&◌, not, ◌==◌,
}
use consequence.ListArray.Chain.{Holds}
use consequence.Clock.State.{Context, Group, store_self, get_clock_ticks, hit_bounded_fence}
use consequence.Clock.Search.{is_candidate, search_for_lowest_waiting_exclude_current}
use consequence.Clock.Search.Lowest.{IsLowest, IsLowest-unique, passing, over_threads-active}
use consequence.Clock.Fence.{single_stepping_on}
use consequence.Clock.Counter.{
  event_of, min_clock_sample_period, max_clock_sample_period, new_sample_period, bounded_period,
  update_overflow_period,
}

-- The new period lies between the minimum and the maximum, unless a chunk is about to end.
bounded_period_range :
    (c : Context) (g : Group) (id period : ℕ)
    → c.build.fence ≡ false
    → min_clock_sample_period ≤ period
    → (min_clock_sample_period ≤ bounded_period c g id period)
      × (bounded_period c g id period ≤ max_clock_sample_period)
unfolding bounded_period
bounded_period_range c g id period f h = rw f (ground arith)

new_sample_period-min :
    (g : Group) (id : ℕ) (low : ℤ)
    → (event_of g id).sample_period ≤ max_clock_sample_period
    → min_clock_sample_period ≤ new_sample_period g id low
unfolding new_sample_period
new_sample_period-min g id (pos low) h = ground arith
new_sample_period-min g id (negsuc _) h = omega arith

-- the threads that wait, other than the one whose period it is
abbrev pub waiting_other : Group → ℕ → ℕ → Bool
waiting_other g id i = is_candidate g i && (g.clocks i).waiting && not (i == id)

module _ (c : Context) (g : Group) (xs : List ℕ) (h : Holds g.active_threads xs)
    (outside : c.nmi ≡ false) (counting : c.build.counting ≡ true)
    (adaptive : c.build.adaptive ≡ true) (no_fence : c.build.fence ≡ false) where
  -- The new period, for the lowest waiting thread that the search finds.
  update_overflow_period-Returns :
      Returns
        (λ g'.
          (low : ℤ) × IsLowest g (passing xs (waiting_other g c.tid)) low
          × ((event_of g' c.tid).sample_period
              ≡ bounded_period c g c.tid (new_sample_period g c.tid low)))
        (update_overflow_period c g c.tid)
  unfolding update_overflow_period single_stepping_on hit_bounded_fence
      search_for_lowest_waiting_exclude_current
  update_overflow_period-Returns =
      rw (counting, adaptive, no_fence)
        (Returns-bind (over_threads-active g (waiting_other g c.tid) c h outside)
          λ low l. returns (low, l, ap (λ e. e.event.sample_period) (store_self g.clocks c.tid _)))

  -- Outside an interrupt, in a build that counts instructions with adaptive periods and without the
  -- bounded fence, an update of a period of at most the maximum returns, and leaves the calling
  -- thread a period between the minimum and the maximum.
  pub update_overflow_period_range :
      (event_of g c.tid).sample_period ≤ max_clock_sample_period
      → Returns
          (λ g'.
            (min_clock_sample_period ≤ (event_of g' c.tid).sample_period)
            × ((event_of g' c.tid).sample_period ≤ max_clock_sample_period))
          (update_overflow_period c g c.tid)
  update_overflow_period_range le = Returns-mono update_overflow_period-Returns λ g' r. rw r.2 (
      bounded_period_range c g c.tid (new_sample_period g c.tid r.0) no_fence
        (new_sample_period-min g c.tid r.0 le))

  -- Outside an interrupt, in a build that counts instructions with adaptive periods and without the
  -- bounded fence: if the lowest waiting thread other than the caller is ahead of the caller, and its
  -- clock not within 1000 of 2 ^ 64, then an update returns, and the new period takes the caller's
  -- clock past that thread's clock, or is the maximum.
  pub update_overflow_period-passes :
      (low : ℕ)
      → IsLowest g (passing xs (waiting_other g c.tid)) (pos low)
      → get_clock_ticks g c.tid < get_clock_ticks g low
      → get_clock_ticks g low + 1000 < 2 ^ 64
      → Returns
          (λ g'.
            (get_clock_ticks g low < get_clock_ticks g c.tid + (event_of g' c.tid).sample_period)
            ⊎ ((event_of g' c.tid).sample_period ≡ max_clock_sample_period))
          (update_overflow_period c g c.tid)
  unfolding bounded_period new_sample_period
  update_overflow_period-passes low l ahead small =
      Returns-mono update_overflow_period-Returns λ g' r.
        let same = IsLowest-unique g (passing xs (waiting_other g c.tid)) r.0 (pos low) r.1 l in
        rw (r.2, same, no_fence) (ground arith)
