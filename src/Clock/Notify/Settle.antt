-- ===== src/Clock/Notify/Settle.antt =====
-- What `settle`, the end of `__determine_lowest_and_notify_or_wait`, makes of the search's answer.
use consequence.Base.{
  ℕ, ◌≡◌, refl, ap, ◌∙◌, ℤ, pos, negsuc, arith, Bool, true, false, Bool-cases, inl, inr, ◌⊎◌, ◌&&◌,
  ◌||◌, not, ◌==ℤ◌, ==ℤ_iff, if◌then◌else◌, is_nonneg,
}
use consequence.Clock.State.{
  Context, UserStatus, Group, no_tid, store_self, set_user, clear_entry_state,
  set_hit_bounded_fence,
}
use consequence.Clock.Notify.{
  take_new_low, thread_is_waiting, set_current_thread_to_lowest, pick_thread_to_wakeup,
  set_lowest_ticks, settle,
}

take_new_low-lowest : (g : Group) (r : ℤ) → (take_new_low g r).lowest_tid ≡ r
unfolding take_new_low
take_new_low-lowest g r = ground (arith, ==ℤ_iff r g.lowest_tid)

pub ℤ-cases : (z : ℤ) → ((n : ℕ) × (z ≡ pos n)) ⊎ ((n : ℕ) × (z ≡ negsuc n))
ℤ-cases (pos n) = inl (n, refl)
ℤ-cases (negsuc n) = inr (n, refl)

set_lowest_ticks-users : (g : Group) → (set_lowest_ticks g).users ≡ g.users
unfolding set_lowest_ticks
set_lowest_ticks-users g = elim (ℤ-cases g.lowest_tid) [ inl (n, e) ↦ rw e | inr (n, e) ↦ rw e ]

module _ (c : Context) (g : Group) where
  -- The calling thread finds in its page that it is the lowest, whatever the build.
  pub set_current-flag : ((set_current_thread_to_lowest c g).users c.tid).lowest_clock ≡ true
  unfolding set_current_thread_to_lowest clear_entry_state set_hit_bounded_fence
  set_current-flag = elim (Bool-cases c.build.fence) [
    | inl f ↦ simp (f, store_self)
    | inr f ↦ simp (f, store_self)
  ]

  set_current-settled : (set_current_thread_to_lowest c g).notification_needed ≡ false
  unfolding set_current_thread_to_lowest clear_entry_state set_hit_bounded_fence
  set_current-settled = elim (Bool-cases c.build.fence) [ inl f ↦ rw f | inr f ↦ rw f ]

thread_is_waiting-set_user :
    (g : Group) (tid : ℕ) (u : UserStatus) (t : ℤ)
    → thread_is_waiting (set_user g tid u) t ≡ thread_is_waiting g t
unfolding thread_is_waiting
thread_is_waiting-set_user g tid u (pos t) = refl
thread_is_waiting-set_user g tid u (negsuc t) = refl

-- Another thread is to be woken: it waits, and has not been notified yet.
abbrev to_wake : Group → Bool
to_wake g = thread_is_waiting g g.lowest_tid && g.notification_needed

module _ (c : Context) (g : Group) where
  pick-flag : ((pick_thread_to_wakeup c g).0.users c.tid).lowest_clock ≡ false
  unfolding pick_thread_to_wakeup
  pick-flag = elim (Bool-cases (to_wake g)) [
    | inl f ↦
        rw (thread_is_waiting-set_user g c.tid _ g.lowest_tid, f)
          (ap (λ u. u.lowest_clock) (store_self g.users c.tid _))
    | inr f ↦
        rw (thread_is_waiting-set_user g c.tid _ g.lowest_tid, f)
          (ap (λ u. u.lowest_clock) (store_self g.users c.tid _))
  ]

  pick-wake : (pick_thread_to_wakeup c g).1 ≡ (if to_wake g then g.lowest_tid else no_tid)
  unfolding pick_thread_to_wakeup
  pick-wake = elim (Bool-cases (to_wake g)) [
    | inl f ↦ rw (thread_is_waiting-set_user g c.tid _ g.lowest_tid, f)
    | inr f ↦ rw (thread_is_waiting-set_user g c.tid _ g.lowest_tid, f)
  ]

  pick-lowest : (pick_thread_to_wakeup c g).0.lowest_tid ≡ g.lowest_tid
  unfolding pick_thread_to_wakeup
  pick-lowest = elim (Bool-cases (to_wake g)) [
    | inl f ↦ rw (thread_is_waiting-set_user g c.tid _ g.lowest_tid, f)
    | inr f ↦ rw (thread_is_waiting-set_user g c.tid _ g.lowest_tid, f)
  ]

set_lowest_ticks-lowest : (g : Group) → (set_lowest_ticks g).lowest_tid ≡ g.lowest_tid
unfolding set_lowest_ticks
set_lowest_ticks-lowest g = elim (ℤ-cases g.lowest_tid) [ inl (n, e) ↦ rw e | inr (n, e) ↦ rw e ]

set_current-lowest :
    (c : Context) (g : Group) → (set_current_thread_to_lowest c g).lowest_tid ≡ g.lowest_tid
unfolding set_current_thread_to_lowest clear_entry_state set_hit_bounded_fence
set_current-lowest c g = elim (Bool-cases c.build.fence) [ inl f ↦ rw f | inr f ↦ rw f ]

is_caller :
    (g : Group) (r : ℤ) (t : ℕ)
    → (is_nonneg r && (take_new_low g r).lowest_tid ==ℤ pos t) ≡ (r ==ℤ pos t)
is_caller g (pos m) t = rw (take_new_low-lowest g (pos m))
is_caller g (negsuc m) t = refl

-- The thread that the search found waits, and is new or has not been notified yet.
abbrev pub to_notify : Group → ℤ → Bool
to_notify g r = thread_is_waiting g r && (not (r ==ℤ g.lowest_tid) || g.notification_needed)

thread_is_waiting-take :
    (g : Group) (r t : ℤ) → thread_is_waiting (take_new_low g r) t ≡ thread_is_waiting g t
unfolding take_new_low thread_is_waiting
thread_is_waiting-take g r (pos t) = elim (Bool-cases (r ==ℤ g.lowest_tid)) [
  | inl e ↦ rw e
  | inr e ↦ rw e
]
thread_is_waiting-take g r (negsuc t) = refl

take_new_low-needed :
    (g : Group) (r : ℤ)
    → (take_new_low g r).notification_needed ≡ (not (r ==ℤ g.lowest_tid) || g.notification_needed)
unfolding take_new_low
take_new_low-needed g r = elim (Bool-cases (r ==ℤ g.lowest_tid)) [ inl e ↦ rw e | inr e ↦ rw e ]

to_wake-take : (g : Group) (r : ℤ) → to_wake (take_new_low g r) ≡ to_notify g r
unfolding thread_is_waiting
to_wake-take g r =
    rw (take_new_low-lowest g r, thread_is_waiting-take g r r, take_new_low-needed g r)

module _ (c : Context) (g : Group) (r : ℤ) where
  -- The flag of the calling thread says whether it was found.
  pub settle-flag : ((settle c g r).0.users c.tid).lowest_clock ≡ (r ==ℤ pos c.tid)
  unfolding settle
  settle-flag = elim (Bool-cases (r ==ℤ pos c.tid)) [
    | inl e ↦
        rw
          (
            is_caller g r c.tid,
            e,
            set_lowest_ticks-users (set_current_thread_to_lowest c (take_new_low g r)),
          )
          (set_current-flag c (take_new_low g r))
    | inr e ↦
        rw
          (
            is_caller g r c.tid,
            e,
            set_lowest_ticks-users (pick_thread_to_wakeup c (take_new_low g r)).0,
          )
          (pick-flag c (take_new_low g r))
  ]

  -- The thread to wake is the one that was found, if it is another, waits and is to be notified.
  pub settle-wake :
      (settle c g r).1 ≡ (if not (r ==ℤ pos c.tid) && to_notify g r then r else no_tid)
  unfolding settle
  settle-wake = elim (Bool-cases (r ==ℤ pos c.tid)) [
    | inl e ↦ rw (is_caller g r c.tid, e)
    | inr e ↦
        rw (is_caller g r c.tid, e)
          (pick-wake c (take_new_low g r) ∙ rw (to_wake-take g r, take_new_low-lowest g r))
  ]

  pub settle-lowest : (settle c g r).0.lowest_tid ≡ r
  unfolding settle
  settle-lowest = elim (Bool-cases (r ==ℤ pos c.tid)) [
    | inl e ↦
        rw (is_caller g r c.tid, e)
          (set_lowest_ticks-lowest (set_current_thread_to_lowest c (take_new_low g r))
            ∙ set_current-lowest c (take_new_low g r)
            ∙ take_new_low-lowest g r)
    | inr e ↦
        rw (is_caller g r c.tid, e)
          (set_lowest_ticks-lowest (pick_thread_to_wakeup c (take_new_low g r)).0
            ∙ pick-lowest c (take_new_low g r)
            ∙ take_new_low-lowest g r)
  ]

set_lowest_ticks-clocks : (g : Group) → (set_lowest_ticks g).clocks ≡ g.clocks
unfolding set_lowest_ticks
set_lowest_ticks-clocks g = elim (ℤ-cases g.lowest_tid) [ inl (n, e) ↦ rw e | inr (n, e) ↦ rw e ]

take_new_low-clocks : (g : Group) (r : ℤ) → (take_new_low g r).clocks ≡ g.clocks
unfolding take_new_low
take_new_low-clocks g r = elim (Bool-cases (r ==ℤ g.lowest_tid)) [ inl e ↦ rw e | inr e ↦ rw e ]

pick-clocks : (c : Context) (g : Group) → (pick_thread_to_wakeup c g).0.clocks ≡ g.clocks
unfolding pick_thread_to_wakeup
pick-clocks c g = elim (Bool-cases (to_wake g)) [
  | inl f ↦ rw (thread_is_waiting-set_user g c.tid _ g.lowest_tid, f)
  | inr f ↦ rw (thread_is_waiting-set_user g c.tid _ g.lowest_tid, f)
]

-- If another thread is found, no clock changes.
pub settle-clocks :
    (c : Context) (g : Group) (r : ℤ)
    → (r ==ℤ pos c.tid) ≡ false
    → (settle c g r).0.clocks ≡ g.clocks
unfolding settle
settle-clocks c g r e =
    rw (is_caller g r c.tid, e)
      (set_lowest_ticks-clocks (pick_thread_to_wakeup c (take_new_low g r)).0
        ∙ pick-clocks c (take_new_low g r)
        ∙ take_new_low-clocks g r)

set_lowest_ticks-active : (g : Group) → (set_lowest_ticks g).active_threads ≡ g.active_threads
unfolding set_lowest_ticks
set_lowest_ticks-active g = elim (ℤ-cases g.lowest_tid) [ inl (n, e) ↦ rw e | inr (n, e) ↦ rw e ]

take_new_low-active : (g : Group) (r : ℤ) → (take_new_low g r).active_threads ≡ g.active_threads
unfolding take_new_low
take_new_low-active g r = elim (Bool-cases (r ==ℤ g.lowest_tid)) [ inl e ↦ rw e | inr e ↦ rw e ]

pick-active :
    (c : Context) (g : Group) → (pick_thread_to_wakeup c g).0.active_threads ≡ g.active_threads
unfolding pick_thread_to_wakeup
pick-active c g = elim (Bool-cases (to_wake g)) [
  | inl f ↦ rw (thread_is_waiting-set_user g c.tid _ g.lowest_tid, f)
  | inr f ↦ rw (thread_is_waiting-set_user g c.tid _ g.lowest_tid, f)
]

-- If another thread is found, the list of active threads stays.
pub settle-active :
    (c : Context) (g : Group) (r : ℤ)
    → (r ==ℤ pos c.tid) ≡ false
    → (settle c g r).0.active_threads ≡ g.active_threads
unfolding settle
settle-active c g r e =
    rw (is_caller g r c.tid, e)
      (set_lowest_ticks-active (pick_thread_to_wakeup c (take_new_low g r)).0
        ∙ pick-active c (take_new_low g r)
        ∙ take_new_low-active g r)
