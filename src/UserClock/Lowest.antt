-- ===== src/UserClock/Lowest.antt =====
-- `determ_task_clock_is_lowest` and `determ_task_clock_is_lowest_wait` of determ_clock.c, for a kernel
-- whose calls return and succeed.
use consequence.Base.{
  ◌≡◌, refl, ap, Bool, true, false, Bool-cases, inl, inr, ◌&&◌, not, Outcome, Returns, returns,
  Returns-bind, Returns-mono, arith,
}
use consequence.Clock.State.{UserStatus}
use consequence.UserClock.{
  Kernel, Process, or_exit, call, user_status, on_wakeup, woke_up, wait_unless_told, is_lowest,
  sleep_and_poll, is_lowest_wait,
}

-- The thread's page keeps what is written to it, and the calls return and succeed.
pub record IsSound {S : Type 0} (K : Kernel S) : Type 0 where
  pub status_set : (s : S) (u : UserStatus) → K.status (K.set_status s u) ≡ u
  pub wait : (s : S) → Returns (λ r. r.1 ≡ true) (K.wait s)
  pub sleep : (s : S) → Returns (λ r. r.1 ≡ true) (K.sleep s)
  pub woke_up : (s : S) → Returns (λ r. r.1 ≡ true) (K.woke_up s)
  pub poll : (s : S) → Returns (λ s'. Unit {0}) (K.poll s)

module _ {S : Type 0} (K : Kernel S) where
  -- A call that succeeds only changes the kernel's state.
  pub call-Returns :
      (Q : S → Type 0) (f : S → Outcome (S × Bool)) (p : Process S)
      → Returns (λ r. (r.1 ≡ true) × Q r.0) (f p.state)
      → Returns (λ p'. (p'.info ≡ p.info) × Q p'.state) (call K f p)
  unfolding call or_exit
  call-Returns Q f p q =
      Returns-bind (Returns-bind {Q = Q} q λ r k. rw k.0 (returns k.1)) λ s k. returns (refl, k)

  -- A call of which nothing is known but that it succeeds.
  call_same :
      (f : S → Outcome (S × Bool)) (p : Process S)
      → Returns (λ r. r.1 ≡ true) (f p.state)
      → Returns (λ p'. p'.info ≡ p.info) (call K f p)
  call_same f p q =
      Returns-mono (call-Returns (λ s. Unit {0}) f p (Returns-mono q λ r e. (e, tt))) λ p' r. r.0

  module _ (sound : IsSound K) where
    -- After the call of WOKE_UP the thread is enabled, and its flag is cleared.
    woke_up-Returns :
        (p : Process S)
        → Returns
            (λ p'. (p'.info.disabled ≡ false) × ((user_status K p').lowest_clock ≡ false))
            (woke_up K p)
    unfolding woke_up on_wakeup
    woke_up-Returns p =
        Returns-bind (call_same K.woke_up p (sound.woke_up p.state))
          λ p1 e. returns (refl, ap (λ u. u.lowest_clock) (sound.status_set p1.state _))

    -- A thread that is not disabled and has not been told has called WAIT, and is disabled.
    wait_unless_told-Returns :
        (p : Process S)
        → Returns
            (λ p'. (user_status K p').lowest_clock ≡ false → p'.info.disabled ≡ true)
            (wait_unless_told K p)
    unfolding wait_unless_told
    wait_unless_told-Returns p =
        elim (Bool-cases (not p.info.disabled && not (user_status K p).lowest_clock)) [
          | inl e ↦
              rw e
                (Returns-bind (call_same K.wait p (sound.wait p.state)) λ p1 k. returns (λ f. refl))
          | inr e ↦ rw e (returns (λ f. ground (arith, f)))
        ]

    -- For a kernel whose calls return and succeed, `determ_task_clock_is_lowest` returns; it says yes
    -- and leaves the thread enabled, or no and leaves it disabled, and the flag `lowest_clock` of the
    -- thread is cleared in both cases.
    pub is_lowest_lem :
        (p : Process S)
        → Returns
            (λ r. (r.1.info.disabled ≡ not r.0) × ((user_status K r.1).lowest_clock ≡ false))
            (is_lowest K p)
    unfolding is_lowest
    is_lowest_lem p = Returns-bind (wait_unless_told-Returns p) λ p1 waited.
        elim (Bool-cases (user_status K p1).lowest_clock) [
          | inl e ↦ rw e (Returns-bind (woke_up-Returns p1) λ p2 k. returns k)
          | inr e ↦ rw e (returns (waited e, e))
        ]

    sleep_and_poll-Returns : (p : Process S) → Returns (λ p'. p'.info ≡ p.info) (sleep_and_poll K p)
    unfolding sleep_and_poll
    sleep_and_poll-Returns p = elim (Bool-cases (user_status K p).lowest_clock) [
      | inl e ↦ rw e (returns refl)
      | inr e ↦ rw e (
          Returns-bind (call_same K.sleep p (sound.sleep p.state)) λ p1 k.
            elim (Bool-cases (user_status K p1).lowest_clock) [
              | inl t ↦ rw t (returns k)
              | inr t ↦ rw t (Returns-bind (sound.poll p1.state) λ s u. returns k)
            ])
    ]

    pub is_lowest_wait_lem :
        (p : Process S)
        → Returns
            (λ r.
              (r.0 ≡ p.info.disabled)
              × (r.1.info.disabled ≡ false)
              × ((user_status K r.1).lowest_clock ≡ false))
            (is_lowest_wait K p)
    unfolding is_lowest_wait
    is_lowest_wait_lem p = Returns-bind (call_same K.wait p (sound.wait p.state)) λ p1 e1.
        Returns-bind (sleep_and_poll-Returns _) λ p3 e3.
          Returns-bind (call_same K.woke_up p3 (sound.woke_up p3.state))
            λ p4 e4. Returns-bind (woke_up-Returns p4) λ p5 k. returns (refl, k.0, k.1)
