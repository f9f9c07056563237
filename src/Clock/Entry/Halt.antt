-- ===== src/Clock/Entry/Halt.antt =====
-- `task_clock_entry_halt`: a thread leaves the active threads.
use consequence.Base.{
  ℕ, ◌<◌, ◌≡◌, refl, ap, ◌∙◌, ℤ, pos, negsuc, List, arith, Bool, true, false, Bool-cases, inl, inr,
  ◌==◌, ==_iff, ◌==ℤ◌, if◌then◌else◌, All, All-erase, erase, ◌∈◌, ◌>>=◌, Returns, returns,
  Returns-mono, Returns-value,
}
use consequence.ListArray.{ListArray}
use consequence.ListArray.Chain.{Holds}
use consequence.ListArray.Remove.{remove-Holds}
use consequence.Clock.State.{
  Context, Group, no_tid, store_self, store_ne, set_clock, mark_as_inactive,
  current_is_only_active_thread,
}
use consequence.Clock.Search.{thread_arr_size, is_candidate}
use consequence.Clock.Search.Lowest.{IsLowest, passing, search_for_lowest-IsLowest}
use consequence.Clock.Search.Waiting.{reported}
use consequence.Clock.Notify.{
  is_sleeping, poll_and_wake, set_lowest_clock, wake_up_waiting_thread, wake_if, settle,
  determine_lowest_and_notify_or_wait,
}
use consequence.Clock.Notify.Settle.{
  settle-flag, settle-wake, settle-lowest, settle-clocks, settle-active,
}
use consequence.Clock.Notify.Determine.{waits, publish, reported-caller, determine-settle}
use consequence.Clock.Entry.{entry_halt}

-- Waking another thread, if that is called for, does not touch thread `t` or the list.
wake_if-elsewhere :
    (g : Group) (r : ℤ) (b : Bool) (t : ℕ)
    → g.lowest_tid ≡ r
    → (r ==ℤ pos t) ≡ false
    → Returns
        (λ g'.
          (g'.active_threads ≡ g.active_threads)
          × (g'.clocks t ≡ g.clocks t)
          × (g'.users t ≡ g.users t))
        (wake_if g (if b then r else no_tid))
unfolding wake_if wake_up_waiting_thread is_sleeping poll_and_wake set_lowest_clock
wake_if-elsewhere g r false t low other = returns (refl, refl, refl)
wake_if-elsewhere g (negsuc m) true t low other = returns (refl, refl, refl)
wake_if-elsewhere g (pos m) true t low other = elim (Bool-cases (g.clocks m).sleeping) [
  | inl s ↦ rw (low, s) (returns (refl, store_ne g.clocks m t _ other, refl))
  | inr s ↦ rw (low, s) (returns (refl, refl, store_ne g.users m t _ other))
]

abbrev inactive_in : Context → Group → ListArray → Group
inactive_in c g la = record (set_clock g c.tid (record (g.clocks c.tid) { inactive = true })) {
  active_threads = la;
}

module _ (c : Context) (g : Group) (la : ListArray) where
  abbrev gone : Group
  gone = inactive_in c g la

  gone-inactive : (gone.clocks c.tid).inactive ≡ true
  gone-inactive = ap (λ e. e.inactive) (store_self g.clocks c.tid _)

  not_only : current_is_only_active_thread c gone ≡ false
  unfolding current_is_only_active_thread
  not_only = rw gone-inactive (ground arith)

  gone_fails : (xs : List ℕ) (m : ℕ) → m ≡ c.tid → passing xs (is_candidate gone) m ≡ false
  gone_fails xs m same = rw (same, gone-inactive) (ground arith)

  not_lowest :
      (xs : List ℕ) (low : ℤ)
      → IsLowest gone (passing xs (is_candidate gone)) low
      → (low ==ℤ pos c.tid) ≡ false
  not_lowest xs (pos m) l = elim (Bool-cases (m == c.tid)) [
    | inl e ↦ cc (l.0, gone_fails xs m ((==_iff m c.tid).0 e))
    | inr e ↦ e
  ]
  not_lowest xs (negsuc m) l = refl

  settled-inactive :
      (r : ℤ)
      → (r ==ℤ pos c.tid) ≡ false
      → ((settle c (waits c (publish c gone)) r).0.clocks c.tid).inactive ≡ true
  settled-inactive r other =
      ap (λ f. (f c.tid).inactive) (settle-clocks c (waits c (publish c gone)) r other)
      ∙ ap (λ e. e.inactive) (store_self gone.clocks c.tid _)
      ∙ gone-inactive

  abbrev HasLeft : List ℕ → Group → Type 0
  HasLeft xs g' =
      Holds g'.active_threads xs
      × ((g'.clocks c.tid).inactive ≡ true)
      × ((g'.clocks c.tid).waiting ≡ false)
      × ((g'.users c.tid).lowest_clock ≡ false)

  halt_rest :
      (xs : List ℕ) (low : ℤ)
      → Holds la xs
      → c.nmi ≡ false
      → All (λ i. i < thread_arr_size) xs
      → IsLowest gone (passing xs (is_candidate gone)) low
      → Returns (HasLeft xs) (do
        (g2, w) ← determine_lowest_and_notify_or_wait c gone
        wake_if (set_clock g2 c.tid (record (g2.clocks c.tid) { waiting = false })) w)
  halt_rest xs low k outside small l =
      let G = waits c (publish c gone) in
      let r = reported G c.stack low in
      let other = reported-caller c (publish c gone) c.stack low ∙ not_lowest xs low l in
      let g2 = (settle c G r).0 in
      rw (determine-settle c gone xs low k outside small l not_only, settle-wake c G r)
        (Returns-mono
          (wake_if-elsewhere (set_clock g2 c.tid (record (g2.clocks c.tid) { waiting = false })) r _
            c.tid (settle-lowest c G r) other)
          λ g' (list, clock, user). (
            rw (list ∙ settle-active c G r other) k,
            ap (λ e. e.inactive) (clock ∙ store_self g2.clocks c.tid _) ∙ settled-inactive r other,
            ap (λ e. e.waiting) (clock ∙ store_self g2.clocks c.tid _),
            ap (λ u. u.lowest_clock) user ∙ settle-flag c G r ∙ other,
          ))

-- Where the caller is one of the active threads, which are below 128, outside an interrupt,
-- `task_clock_entry_halt` returns, and the caller is out of the list, which keeps its order, marked
-- inactive and not waiting, and its flag `lowest_clock` is cleared.
pub entry_halt_lem :
    (c : Context) (g : Group) (xs : List ℕ)
    → Holds g.active_threads xs
    → c.nmi ≡ false
    → All (λ i. i < thread_arr_size) xs
    → c.tid ∈ xs
    → Returns
        (λ g'.
          Holds g'.active_threads (erase c.tid xs)
          × ((g'.clocks c.tid).inactive ≡ true)
          × ((g'.clocks c.tid).waiting ≡ false)
          × ((g'.users c.tid).lowest_clock ≡ false))
        (entry_halt c g)
unfolding entry_halt mark_as_inactive
entry_halt_lem c g xs h outside small inside =
    let (la, e, k) = Returns-value (remove-Holds g.active_threads xs c.tid h inside) in
    let (low, _, l) =
      Returns-value (search_for_lowest-IsLowest c (gone c g la) (erase c.tid xs) k outside) in
    rw e (
      halt_rest c g la (erase c.tid xs) low k outside
        (All-erase (λ i. i < thread_arr_size) c.tid xs small) l)
