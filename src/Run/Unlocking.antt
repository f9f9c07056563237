-- ===== src/Run/Unlocking.antt =====
-- xrun.h: what `mutex_unlock` does in a thread that is the only active one.
use consequence.Base.{
  ℕ, ◌+◌, ◌%◌, ◌^◌, ◌<◌, ◌≡◌, refl, arith, true, false, ltb, ◌&&◌, not, ok, ◌>>=◌, ==_refl,
}
use consequence.Run.{
  Build, Runtime, Thread, run, single_active, fits_level, use_tx_coarsening, add_round_robin_ticks,
  start_clock, stop_clock,
}
use consequence.Run.Mutexes.{count_down, should_update, commit_to_unlock, mutex_unlock}

module _ {W : Type 0} (B : Build) (R : Runtime W) where
  -- the thread once its next transaction is counted into the coarsened one
  abbrev pub coarsened : Thread W → Thread W
  coarsened t = record t {
    coarsening_counter = (t.coarsening_counter + R.last_tx_size t.world) % 2 ^ 32;
    consecutively_coarsened = (t.consecutively_coarsened + 1) % 2 ^ 32;
    lock_count = count_down t.lock_count;
  }

  use_tx_coarsening-fits :
      (t : Thread W) (id : ℕ)
      → B.use_tx_coarsening ≡ true
      → R.estimate_next_tx t.world id < 2 ^ 63
      → fits_level t.coarsening_counter (R.estimate_next_tx t.world id) t.coarsening_level ≡ true
      → use_tx_coarsening B R t id
        ≡ ok (
          true,
          record t {
            coarsening_counter = (t.coarsening_counter + R.last_tx_size t.world) % 2 ^ 32;
            consecutively_coarsened = (t.consecutively_coarsened + 1) % 2 ^ 32;
          },
        )
  unfolding use_tx_coarsening
  use_tx_coarsening-fits t id coarsens known fits =
      let below : ltb (R.estimate_next_tx t.world id) (2 ^ 63) ≡ true = ground arith in
      rw (coarsens, below, fits) refl

  pub mutex_unlock-uncommitted :
      (t t1 : Thread W) (mutex waiters : ℕ)
      → B.use_tx_coarsening ≡ true
      → B.token_order_round_robin ≡ false
      → stop_clock B R t mutex ≡ ok t1
      → single_active B R t1 ≡ true
      → R.last_token_putter t1.world ≡ t1.thread_index
      → R.estimate_next_tx t1.world 0 < 2 ^ 63
      → fits_level t1.coarsening_counter (R.estimate_next_tx t1.world 0) t1.coarsening_level ≡ true
      → R.lock_waiters_count t1.world mutex ≡ ok waiters
      → mutex_unlock B R t mutex ≡ (do
        t2 ← run B R (λ w. R.lock_release w mutex t1.thread_index) (coarsened t1)
        start_clock B R t2)
  unfolding mutex_unlock commit_to_unlock should_update single_active add_round_robin_ticks
  mutex_unlock-uncommitted t t1 mutex waiters coarsens ordered stopped single putter known fits
        count =
      let still_single : single_active B R (coarsened t1) ≡ true = single in
      let kept : (ltb 0 waiters && not true) ≡ false = ground arith in
      rw
        (
          stopped,
          use_tx_coarsening-fits t1 0 coarsens known fits,
          single,
          count,
          still_single,
          putter,
          ==_refl t1.thread_index,
          kept,
          ordered,
        )
        refl
