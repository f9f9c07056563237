-- ===== src/Sync/SimpleBarrier.antt =====
-- `barrier_wait` of determ.h in a build with `USE_SIMPLE_BARRIER`: all threads but the last give the token
-- up until all have come. Between the two parts, and within the second, the thread waits at the real
-- barrier.
use consequence.Base.{
  ℕ, ◌+◌, ◌<◌, ◌≡◌, ◌^◌, refl, arith, Bool, true, false, ltb, if◌then◌else◌, none, some, Outcome,
  ok, ◌>>=◌, Returns, returns, Returns-bind, Returns-mono, if_both, ==_refl, ◌∙◌, Bool-cases, inl,
  inr,
}
use consequence.Sync.{Determ, Services, is_token_holder, put_token}
use consequence.Sync.Barriers.{BarrierEntry, u16}
use consequence.Sync.Waiting.{Waits, get_token}

module _ {S : Type 0} (V : Services S) (E : Waits S) (add_infinity : S → ℕ → Outcome S) where
  -- `determ_task_clock_add_ticks(LOGICAL_CLOCK_ROUND_ROBIN_INFINITY)`, in a build that passes the token
  -- round-robin
  unfoldable pub add_round_robin : Bool → Determ S → ℕ → Outcome (Determ S)
  add_round_robin round_robin d threadindex =
      if round_robin
      then (do clock ← add_infinity d.clock threadindex; ok (record d { clock = clock }))
      else ok d

  -- up to the real barrier: whether the thread has halted its clock
  unfoldable pub arrive_simple :
      Bool → Determ S → BarrierEntry → ℕ → Outcome (Bool × BarrierEntry × Determ S)
  unfolding add_round_robin put_token
  arrive_simple round_robin d barr threadindex = do
    d1 ← get_token V E E.rounds d threadindex
    d2 ← add_round_robin round_robin (V.commit_and_update d1) threadindex
    let barr1 = record barr { counter = u16 (barr.counter + 1) }
    (if ltb barr1.counter barr1.maxthreads
        then (do
          clock ← V.halt d2.clock threadindex
          d3 ← put_token V (record d2 { clock = clock }) threadindex true
          ok (true, barr1, d3))
        else ok (false, barr1, d2))

  -- once all have come: a thread that has halted its clock lets it run again
  unfoldable pub wake_up_simple : Bool → Determ S → ℕ → Outcome (Determ S)
  wake_up_simple halted d threadindex =
      if halted
      then (do
        clock ← V.activate d.clock threadindex
        ok (record d { clock = V.on_wakeup clock threadindex }))
      else ok d

  -- once all have woken up
  unfoldable pub leave_simple :
      Bool → Bool → Determ S → BarrierEntry → ℕ → Outcome (BarrierEntry × Determ S)
  unfolding add_round_robin put_token
  leave_simple round_robin halted d barr threadindex = do
    (barr1, d1) ←
        (if halted
          then (do d0 ← get_token V E E.rounds d threadindex; ok (barr, d0))
          else ok (record barr { counter = 0 }, d))
    d2 ← add_round_robin round_robin (V.commit_and_update d1) threadindex
    d3 ← put_token V d2 threadindex true
    ok (barr1, d3)

  -- What the barrier asks of the memory and the clock: they leave the token where it is, and the calls
  -- return.
  pub record TokenStays (threadindex : ℕ) : Type 0 where
    pub commits : (d : Determ S) → (V.commit_and_update d).tokenpos ≡ d.tokenpos
    pub halts : (s : S) → Returns (λ _. Unit {0}) (V.halt s threadindex)
    pub adds : (s : S) → Returns (λ _. Unit {0}) (add_infinity s threadindex)

  module _ (threadindex : ℕ) (stays : TokenStays threadindex) (round_robin : Bool) where
    add_round_robin-tokenpos :
        (d : Determ S)
        → Returns (λ d1. d1.tokenpos ≡ d.tokenpos) (add_round_robin round_robin d threadindex)
    unfolding add_round_robin
    add_round_robin-tokenpos d =
        if_both (Returns (λ d1. d1.tokenpos ≡ d.tokenpos)) round_robin _ _
          (Returns-bind (stays.adds d.clock) λ clock _. returns refl) (returns refl)

    put_token-free :
        (d : Determ S)
        → d.tokenpos ≡ some threadindex
        → Returns (λ d1. d1.tokenpos ≡ none) (put_token V d threadindex true)
    unfolding put_token is_token_holder
    put_token-free d holds = rw (holds, ==_refl threadindex) (returns refl)

    -- the thread gets the token
    abbrev pub GetsToken : Determ S → Type 0
    GetsToken d =
        Returns (λ d1. d1.tokenpos ≡ some threadindex) (get_token V E E.rounds d threadindex)

    committed-tokenpos :
        (d : Determ S)
        → d.tokenpos ≡ some threadindex
        → Returns
            (λ d1. d1.tokenpos ≡ some threadindex)
            (add_round_robin round_robin (V.commit_and_update d) threadindex)
    committed-tokenpos d holds =
        Returns-mono (add_round_robin-tokenpos (V.commit_and_update d))
          λ d1 same. same ∙ stays.commits d ∙ holds

    -- Where a thread gets the token at a barrier that fewer than 2 ^ 16 - 1 have come to, it returns up to
    -- the real barrier, and is counted. If it is the last one it keeps the token, and otherwise it
    -- has given it up, with its clock halted.
    pub arrive_simple-counter :
        (d : Determ S) (barr : BarrierEntry)
        → GetsToken d
        → barr.counter + 1 < 2 ^ 16
        → Returns
            (λ r.
              (r.0 ≡ ltb (barr.counter + 1) barr.maxthreads)
              × (r.1 ≡ record barr { counter = barr.counter + 1 })
              × (r.2.tokenpos ≡ (if r.0 then none else some threadindex)))
            (arrive_simple round_robin d barr threadindex)
    unfolding arrive_simple
    arrive_simple-counter d barr gets few =
        let counts : u16 (barr.counter + 1) ≡ barr.counter + 1 = omega arith in
        rw counts (
          Returns-bind gets λ d1 holds. Returns-bind (committed-tokenpos d1 holds) λ d2 holds2.
            elim (Bool-cases (ltb (barr.counter + 1) barr.maxthreads)) [
              | inl early ↦ rw early (
                  Returns-bind (stays.halts d2.clock) λ clock _.
                    Returns-bind (put_token-free (record d2 { clock = clock }) holds2)
                      λ d3 free. returns (refl, refl, free))
              | inr last ↦ rw last (returns (refl, refl, holds2))
            ])

    -- Where the last thread to come has kept the token, or another one gets it again: it leaves the
    -- barrier, and the token is free; the last one has set the barrier's counter back to 0.
    pub leave_simple-counter :
        (halted : Bool) (d : Determ S) (barr : BarrierEntry)
        → (if halted then GetsToken d else (d.tokenpos ≡ some threadindex))
        → Returns
            (λ r.
              (r.0 ≡ (if halted then barr else record barr { counter = 0 }))
              × (r.1.tokenpos ≡ none))
            (leave_simple round_robin halted d barr threadindex)
    unfolding leave_simple
    leave_simple-counter true d barr gets =
        Returns-bind {P = λ r. (r.0 ≡ barr) × (r.1.tokenpos ≡ some threadindex)}
          (Returns-bind gets λ d0 holds. returns (refl, holds))
          λ (barr1, d1) (same, holds).
            Returns-bind (committed-tokenpos d1 holds)
              λ d2 holds2. Returns-bind (put_token-free d2 holds2) λ d3 free. returns (same, free)
    leave_simple-counter false d barr holds =
        Returns-bind (committed-tokenpos d holds)
          λ d2 holds2. Returns-bind (put_token-free d2 holds2) λ d3 free. returns (refl, free)
