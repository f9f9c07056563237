-- ===== src/Run/FastForward.antt =====
-- xrun.h: the clock of a thread that takes the token catches up with that of its last holder.
use consequence.Base.{
  ℕ, ◌+◌, ◌-◌, ◌^◌, ◌<◌, ◌≡◌, refl, ap, ◌∙◌, arith, true, false, ltb, if◌then◌else◌, ok, Returns,
  returns, Returns-bind, Bool-cases, inl, inr,
}
use consequence.Run.{
  Build, Runtime, Thread, run, fast_forward_clock, add_ticks, monitor, wait_token,
}

module _ {W : Type 0} (B : Build) (R : Runtime W) where
  fast_forward_clock_lem :
      (t : Thread W)
      → B.fast_forward ≡ true
      → R.clock_read t.world < 2 ^ 63
      → R.last_token_clock t.world < 2 ^ 63
      → fast_forward_clock B R t ≡ (R.last_token_clock t.world - R.clock_read t.world)
  unfolding fast_forward_clock
  fast_forward_clock_lem t ff own last = rw ff (ground arith)

  monitor-keeps :
      (t : Thread W)
      → ((monitor B R t).world ≡ t.world) × ((monitor B R t).token_holding ≡ t.token_holding)
  unfolding monitor
  monitor-keeps t = elim (Bool-cases t.monitor_next) [
    | inl e ↦ rw e (refl, refl)
    | inr e ↦ rw e (refl, refl)
  ]

  add_ticks-Returns :
      (t : Thread W) (n : ℕ)
      → Returns (λ w. R.clock_read w ≡ R.clock_read t.world + n) (R.add_ticks t.world n)
      → Returns
          (λ t'.
            (R.clock_read t'.world ≡ R.clock_read t.world + n)
            × (t'.token_holding ≡ t.token_holding))
          (add_ticks B R t n)
  unfolding add_ticks run
  add_ticks-Returns t n adds = Returns-bind adds λ w e. returns (e, refl)

  -- Where the build fast-forwards, a thread does not hold the token and can get it, the last token
  -- clock is less than 2 ^ 31 ahead of its own clock, both are below 2 ^ 63, and ticks up to 2 ^ 31 are
  -- added to its clock: `waitToken` returns, the thread holds the token, and its clock reads the
  -- greater of its own clock and the last token clock, as both were when it got the token.
  pub wait_token-catches_up :
      (t : Thread W) (w : W)
      → B.fast_forward ≡ true
      → t.token_holding ≡ false
      → R.get_token t.world t.thread_index ≡ ok w
      → R.clock_read w < 2 ^ 63
      → R.last_token_clock w < 2 ^ 63
      → R.last_token_clock w < R.clock_read w + 2 ^ 31
      → ((n : ℕ)
          → n < 2 ^ 31
          → Returns (λ w'. R.clock_read w' ≡ R.clock_read w + n) (R.add_ticks w n))
      → Returns
          (λ t'.
            (R.clock_read t'.world ≡ (
              if ltb (R.clock_read w) (R.last_token_clock w)
              then R.last_token_clock w
              else R.clock_read w))
            × (t'.token_holding ≡ true))
          (wait_token B R t)
  unfolding wait_token run
  wait_token-catches_up t w ff free got own last near adds =
      let t1 = record t { world = w; token_holding = false } in
      let n = R.last_token_clock w - R.clock_read w in
      rw (free, got, fast_forward_clock_lem t1 ff own last)
        (Returns-bind (add_ticks-Returns t1 n (adds n (omega arith))) λ t2 (reads, h).
          let t3 = record t2 { token_holding = true } in
          returns
            (ap R.clock_read (monitor-keeps t3).0 ∙ (reads ∙ ground arith), (monitor-keeps t3).1))
