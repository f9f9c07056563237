-- ===== src/Clock/Notify/Determine.antt =====
-- `__determine_lowest_and_notify_or_wait`: which thread learns that it is the lowest, and which is
-- to be woken.
use consequence.Base.{
  ℕ, ◌<◌, ◌≡◌, refl, sym, ap, ◌∙◌, ℤ, pos, negsuc, zero, suc, List, arith, Bool, true, false,
  Bool-cases, inl, inr, ◌&&◌, ◌||◌, not, ◌==◌, ==_iff, ==_sym, ◌==ℤ◌, if◌then◌else◌, All, ok,
  Returns, returns,
}
use consequence.ListArray.Chain.{Holds}
use consequence.Clock.State.{
  Context, Group, no_tid, store_self, store_ne, set_clock, set_user, get_clock_ticks,
  clock_is_lower, current_is_only_active_thread,
}
use consequence.Clock.Search.{thread_arr_size, is_candidate, search_for_lowest_waiting}
use consequence.Clock.Search.Lowest.{IsLowest, passing}
use consequence.Clock.Search.Waiting.{reported, search_for_lowest_waiting_lem}
use consequence.Clock.Notify.{
  thread_is_waiting, settle, determine_among_others, determine_lowest_and_notify_or_wait,
}
use consequence.Clock.Notify.Settle.{to_notify, settle-flag, settle-wake, set_current-flag}

-- The order of clocks, and so the lowest of a set, only depends on the ticks.
IsLowest-frame :
    (g g' : Group) (s t : ℕ → Bool) (r : ℤ)
    → ((i : ℕ) → get_clock_ticks g' i ≡ get_clock_ticks g i)
    → ((i : ℕ) → t i ≡ s i)
    → IsLowest g s r
    → IsLowest g' t r
unfolding clock_is_lower
IsLowest-frame g g' s t (pos m) ticks same l =
    (same m ∙ l.0, λ i q. rw (ticks i, ticks m) (l.1 i (sym (same i) ∙ q)))
IsLowest-frame g g' s t (negsuc zero) ticks same l = λ i. same i ∙ l i
IsLowest-frame g g' s t (negsuc (suc _)) ticks same l = l

chosen :
    (w : Bool) (m t : ℕ)
    → ((m == t) ≡ true → w ≡ true)
    → ((if w then pos m else no_tid) ==ℤ pos t) ≡ (m == t)
chosen true m t h = refl
chosen false m t h = ground (arith, h)

-- The group once the calling thread has set itself to be waiting.
abbrev pub waits : Context → Group → Group
waits c g = set_clock g c.tid (record (g.clocks c.tid) { waiting = true })

module _ (c : Context) (g : Group) where
  waits-ticks : (i : ℕ) → get_clock_ticks (waits c g) i ≡ get_clock_ticks g i
  unfolding get_clock_ticks
  waits-ticks i = elim (Bool-cases (c.tid == i)) [
    | inl e ↦ rw (
      sym ((==_iff c.tid i).0 e),
      store_self g.clocks c.tid (record (g.clocks c.tid) { waiting = true }),
    )
    | inr e ↦ rw (store_ne g.clocks c.tid i (record (g.clocks c.tid) { waiting = true }) e)
  ]

  waits-candidate : (i : ℕ) → is_candidate (waits c g) i ≡ is_candidate g i
  waits-candidate i = elim (Bool-cases (c.tid == i)) [
    | inl e ↦ rw (
      sym ((==_iff c.tid i).0 e),
      store_self g.clocks c.tid (record (g.clocks c.tid) { waiting = true }),
    )
    | inr e ↦ rw (store_ne g.clocks c.tid i (record (g.clocks c.tid) { waiting = true }) e)
  ]

  waits_self : ((waits c g).clocks c.tid).waiting ≡ true
  waits_self =
      ap (λ e. e.waiting) (store_self g.clocks c.tid (record (g.clocks c.tid) { waiting = true }))

  pub waits-other :
      (m : ℕ) → (c.tid == m) ≡ false → ((waits c g).clocks m).waiting ≡ (g.clocks m).waiting
  waits-other m e =
      ap (λ e. e.waiting) (store_ne g.clocks c.tid m (record (g.clocks c.tid) { waiting = true }) e)

  -- What the search reports is the calling thread if and only if that is the lowest.
  pub reported-caller :
      (stack : ℕ → ℕ) (low : ℤ)
      → (reported (waits c g) stack low ==ℤ pos c.tid) ≡ (low ==ℤ pos c.tid)
  reported-caller stack (pos m) =
      chosen _ m c.tid λ e. let same : m ≡ c.tid = (==_iff m c.tid).0 e in rw (same, waits_self)
  reported-caller stack (negsuc m) = refl

  -- The thread to wake: the lowest, if it is not the calling thread, waits and is to be notified.
  abbrev pub woken : ℤ → ℤ
  woken low = if not (low ==ℤ pos c.tid) && to_notify g low then low else no_tid

  reported-woken :
      (stack : ℕ → ℕ) (low : ℤ)
      → (let r = reported (waits c g) stack low in
          if not (r ==ℤ pos c.tid) && to_notify (waits c g) r then r else no_tid)
        ≡ woken low
  unfolding thread_is_waiting
  reported-woken stack (pos m) = elim (Bool-cases (m == c.tid)) [
    | inl e ↦ rw (reported-caller stack (pos m), e)
    | inr e ↦
        let w = waits-other m (==_sym c.tid m ∙ e) in
        elim (Bool-cases (g.clocks m).waiting) [
          | inl q ↦ rw (w, q) (rw (w, q))
          | inr q ↦ elim (Bool-cases (stack m == 1)) [
            | inl k ↦ rw (w, q, k) (rw (w, q))
            | inr k ↦ rw (w, q, k) (rw e)
          ]
        ]
  ]
  reported-woken stack (negsuc m) = refl

-- The calling thread publishes its ticks.
abbrev pub publish : Context → Group → Group
publish c g =
    let u = g.users c.tid in set_user g c.tid (record u { ticks = get_clock_ticks g c.tid })

abbrev alone : Context → Group → Group
alone c g =
    let v = (publish c g).users c.tid in
    set_user (publish c g) c.tid (record v { single_active_thread = true })

woken-publish : (c : Context) (g : Group) (low : ℤ) → woken c (publish c g) low ≡ woken c g low
unfolding thread_is_waiting
woken-publish c g (pos m) = refl
woken-publish c g (negsuc m) = refl

only_publish :
    (c : Context) (g : Group)
    → current_is_only_active_thread c (publish c g) ≡ current_is_only_active_thread c g
unfolding current_is_only_active_thread
only_publish c g = refl

module _ (c : Context) (g : Group) (xs : List ℕ) (low : ℤ) (h : Holds g.active_threads xs)
    (outside : c.nmi ≡ false) (small : All (λ i. i < thread_arr_size) xs)
    (lowest : IsLowest g (passing xs (is_candidate g)) low) where
  search-waits : search_for_lowest_waiting c (waits c g) ≡ ok (reported (waits c g) c.stack low)
  search-waits = search_for_lowest_waiting_lem c (waits c g) xs low h outside small (
      IsLowest-frame g (waits c g) (passing xs (is_candidate g))
        (passing xs (is_candidate (waits c g))) low (waits-ticks c g)
        (λ i. rw (waits-candidate c g i)) lowest)

  among-settle :
      determine_among_others c g ≡ ok (settle c (waits c g) (reported (waits c g) c.stack low))
  unfolding determine_among_others
  among-settle = rw search-waits

module _ (c : Context) (g : Group) (xs : List ℕ) (low : ℤ) (h : Holds g.active_threads xs)
    (outside : c.nmi ≡ false) (small : All (λ i. i < thread_arr_size) xs)
    (lowest : IsLowest g (passing xs (is_candidate g)) low) where
  published : IsLowest (publish c g) (passing xs (is_candidate (publish c g))) low
  unfolding get_clock_ticks
  published =
      IsLowest-frame g (publish c g) (passing xs (is_candidate g))
        (passing xs (is_candidate (publish c g))) low (λ i. refl) (λ i. refl) lowest

  -- Among active threads below 128, outside an interrupt, `__determine_lowest_and_notify_or_wait`
  -- returns, and leaves the calling thread's flag `lowest_clock` set if that is the only active
  -- thread or the lowest one, and cleared otherwise, whatever the stack had in `thread_arr`.
  pub determine-flag :
      Returns
        (λ r.
          (r.0.users c.tid).lowest_clock ≡ (current_is_only_active_thread c g || low ==ℤ pos c.tid))
        (determine_lowest_and_notify_or_wait c g)
  unfolding determine_lowest_and_notify_or_wait
  determine-flag = elim (Bool-cases (current_is_only_active_thread c g)) [
    | inl o ↦ rw (only_publish c g, o) (returns (set_current-flag c (alone c g)))
    | inr o ↦
        rw (only_publish c g, o, among-settle c (publish c g) xs low h outside small published)
          (returns
            (settle-flag c (waits c (publish c g)) _ ∙ reported-caller c (publish c g) c.stack low))
  ]

  -- Among active threads below 128, outside an interrupt, `__determine_lowest_and_notify_or_wait`
  -- returns as the thread to wake the lowest thread, if the caller is not the only active thread,
  -- the lowest is another one, waits, and was not the lowest before or is yet to be notified, and -1
  -- otherwise, whatever the stack had in `thread_arr`.
  pub determine-wake :
      Returns
        (λ r. r.1 ≡ (if current_is_only_active_thread c g then no_tid else woken c g low))
        (determine_lowest_and_notify_or_wait c g)
  unfolding determine_lowest_and_notify_or_wait
  determine-wake = elim (Bool-cases (current_is_only_active_thread c g)) [
    | inl o ↦ rw (only_publish c g, o) (returns refl)
    | inr o ↦
        rw (only_publish c g, o, among-settle c (publish c g) xs low h outside small published)
          (returns (
            settle-wake c (waits c (publish c g)) _
            ∙ reported-woken c (publish c g) c.stack low
            ∙ woken-publish c g low))
  ]

  -- If another thread is the lowest and waits, the group is settled with it as the lowest.
  pub determine_other :
      (m : ℕ)
      → low ≡ pos m
      → (m == c.tid) ≡ false
      → (g.clocks m).waiting ≡ true
      → current_is_only_active_thread c g ≡ false
      → determine_lowest_and_notify_or_wait c g ≡ ok (settle c (waits c (publish c g)) (pos m))
  unfolding determine_lowest_and_notify_or_wait
  determine_other m e other w some =
      let waits_too = waits-other c (publish c g) m (==_sym c.tid m ∙ other) ∙ w in
      rw (
        only_publish c g,
        some,
        among-settle c (publish c g) xs low h outside small published,
        e,
        waits_too,
      )

  -- With other active threads, the group is settled with what the search reports.
  pub determine-settle :
      current_is_only_active_thread c g ≡ false
      → determine_lowest_and_notify_or_wait c g
        ≡ ok (settle c (waits c (publish c g)) (reported (waits c (publish c g)) c.stack low))
  unfolding determine_lowest_and_notify_or_wait
  determine-settle some =
      rw (only_publish c g, some, among-settle c (publish c g) xs low h outside small published)
