-- ===== src/Run/Mutexes.antt =====
-- The mutex operations of xrun.h, as it is built and with `USE_SIMPLE_LOCKS`.
use consequence.Base.{
  ℕ, zero, suc, ◌+◌, ◌-◌, ◌^◌, u64, Bool, true, false, ◌&&◌, ◌||◌, not, ltb, ◌==◌, if◌then◌else◌,
  Outcome, ok, out_of_fuel, exited, ◌>>=◌,
}
use consequence.Run.{
  Build, Runtime, Thread, round_robin_infinity, kendo_acq_inc, run, single_active,
  end_tx_coarsening, use_tx_coarsening, add_ticks, add_round_robin_ticks, wait_token, stop_clock,
  start_clock, put_token, commit_and_update_memory, ticks_to_add,
}

-- `_lock_count++` and `_lock_count--`
abbrev pub count_up : ℕ → ℕ
count_up n = u64 (n + 1)

abbrev pub count_down : ℕ → ℕ
count_down n = u64 (n + (2 ^ 64 - 1))

module _ {W : Type 0} (B : Build) (R : Runtime W) where
  -- whether the mutex was free, and the thread has it
  unfoldable pub acquire : Thread W → ℕ → Outcome (Bool × Thread W)
  acquire t mutex = do
    (free, w) ← R.lock_acquire t.world mutex t.thread_index
    ok (free, record t { world = w })

  -- "_thread_index != getLastTokenPutter()"
  unfoldable pub should_update : Thread W → Bool
  should_update t = not (t.thread_index == R.last_token_putter t.world)

  -- The lock was taken by another: give up the token until it is this thread's turn.
  unfoldable pub lock_failed : Thread W → ℕ → ℕ → Bool → Outcome (Thread W)
  unfolding commit_and_update_memory end_tx_coarsening add_ticks put_token run
  lock_failed t mutex failure_count is_single = if is_single then exited else do
    t1 ← end_tx_coarsening B R (if failure_count == 0 then commit_and_update_memory B R t else t)
    if B.use_kendo then (do t2 ← add_ticks B R t1 (kendo_acq_inc B); put_token B R t2) else (do
      t2 ← run B R (λ w. R.wait_on_lock w mutex t1.thread_index) t1
      ok (record t2 { token_holding = false }))

  -- The thread has the lock: update its memory, and release the token unless it is kept.
  unfoldable pub lock_taken : Thread W → Bool → Bool → Bool → Outcome (Thread W)
  unfolding commit_and_update_memory add_ticks ticks_to_add add_round_robin_ticks put_token
  lock_taken t is_single is_coarsening updates = do
    t1 ←
        (if (not is_single && not is_coarsening) || updates
          then (let t0 = commit_and_update_memory B R t in
              add_ticks B R t0 (kendo_acq_inc B + ticks_to_add B R t0))
          else ok t)
    t2 ← add_round_robin_ticks B R t1 round_robin_infinity
    if not is_single && not is_coarsening then put_token B R t2 else ok t2

  -- From "bool shouldUpdate" on, and whether the thread has the lock.
  unfoldable pub acquire_or_fail : Thread W → ℕ → ℕ → Bool → Bool → Outcome (Bool × Thread W)
  unfolding acquire should_update lock_failed lock_taken
  acquire_or_fail t mutex failure_count is_single is_coarsening = do
    (free, t1) ← acquire t mutex
    if free
        then (do t2 ← lock_taken t1 is_single is_coarsening (should_update t); ok (true, t2))
        else (do t2 ← lock_failed t1 mutex failure_count is_single; ok (false, t2))

  -- One round from `retry:` on.
  unfoldable pub try_lock : Thread W → ℕ → ℕ → Bool → Outcome (Bool × Thread W)
  unfolding single_active wait_token acquire_or_fail
  try_lock t mutex failure_count is_coarsening = do
    let is_single = single_active B R t
    t1 ←
        (if (not is_single && not t.token_holding) || ltb 0 failure_count
          then wait_token B R t
          else ok t)
    acquire_or_fail t1 mutex failure_count is_single is_coarsening

  -- "goto retry", with the rounds that are left
  unfoldable pub retry : ℕ → Thread W → ℕ → ℕ → Bool → Outcome (Thread W)
  unfolding try_lock
  retry zero t mutex failure_count is_coarsening = out_of_fuel
  retry (suc rounds) t mutex failure_count is_coarsening = do
    (done, t1) ← try_lock t mutex failure_count is_coarsening
    elim done [ true ↦ ok t1 | false ↦ retry rounds t1 mutex (failure_count + 1) false ]

  -- `__mutex_lock_inner`
  unfoldable pub mutex_lock_inner : ℕ → Thread W → ℕ → Bool → Outcome (Thread W)
  unfolding use_tx_coarsening retry
  mutex_lock_inner rounds t mutex allow_coarsening = do
    (coarsens, t1) ← use_tx_coarsening B R (record t { lock_count = count_up t.lock_count }) mutex
    retry rounds t1 mutex 0 (coarsens && allow_coarsening)

  -- `mutex_lock`
  unfoldable pub mutex_lock : ℕ → Thread W → ℕ → Outcome (Thread W)
  unfolding stop_clock mutex_lock_inner start_clock
  mutex_lock rounds t mutex = do
    t1 ← stop_clock B R t 0
    t2 ← mutex_lock_inner rounds t1 mutex true
    start_clock B R t2

  -- Of `mutex_unlock`: take the token unless the thread is the only one, and commit where another
  -- thread may read what this one wrote.
  unfoldable pub commit_to_unlock : Thread W → ℕ → Bool → Bool → Outcome (Thread W)
  unfolding wait_token should_update single_active commit_and_update_memory
  commit_to_unlock t mutex is_single is_coarsening = do
    t1 ← (if not is_single && not t.token_holding then wait_token B R t else ok t)
    waiters ← R.lock_waiters_count t1.world mutex
    ok (
        if (not (single_active B R t1) && not is_coarsening)
          || (should_update t1 || (ltb 0 waiters && not is_coarsening))
        then commit_and_update_memory B R t1
        else t1)

  -- `mutex_unlock`
  unfoldable pub mutex_unlock : Thread W → ℕ → Outcome (Thread W)
  unfolding stop_clock single_active use_tx_coarsening commit_to_unlock run add_round_robin_ticks
      put_token start_clock
  mutex_unlock t mutex = do
    t1 ← stop_clock B R t mutex
    let is_single = single_active B R t1
    (is_coarsening, t2) ← use_tx_coarsening B R t1 0
    t3 ←
        commit_to_unlock (record t2 { lock_count = count_down t2.lock_count }) mutex is_single
          is_coarsening
    t4 ← run B R (λ w. R.lock_release w mutex t3.thread_index) t3
    t5 ← add_round_robin_ticks B R t4 round_robin_infinity
    t6 ← (if not is_single && not is_coarsening then put_token B R t5 else ok t5)
    start_clock B R t6

  -- `__mutex_lock_inner` with `USE_SIMPLE_LOCKS`
  unfoldable pub mutex_lock_inner_simple : Thread W → ℕ → Outcome (Thread W)
  unfolding wait_token add_round_robin_ticks acquire commit_and_update_memory
  mutex_lock_inner_simple t mutex = do
    t1 ← wait_token B R t
    t2 ←
        add_round_robin_ticks B R (record t1 { lock_count = count_up t1.lock_count })
          round_robin_infinity
    (free, t3) ← acquire t2 mutex
    ok (if not t.token_holding then commit_and_update_memory B R t3 else t3)

  -- `mutex_lock` with `USE_SIMPLE_LOCKS`
  unfoldable pub mutex_lock_simple : Thread W → ℕ → Outcome (Thread W)
  unfolding stop_clock mutex_lock_inner_simple start_clock
  mutex_lock_simple t mutex = do
    t1 ← stop_clock B R t 0
    t2 ← mutex_lock_inner_simple t1 mutex
    start_clock B R t2

  -- `mutex_unlock` with `USE_SIMPLE_LOCKS`
  unfoldable pub mutex_unlock_simple : Thread W → ℕ → Outcome (Thread W)
  unfolding stop_clock run commit_and_update_memory add_round_robin_ticks put_token start_clock
  mutex_unlock_simple t mutex = do
    t1 ← stop_clock B R t mutex
    let t2 = record t1 { lock_count = count_down t1.lock_count }
    t3 ← run B R (λ w. R.lock_release w mutex t2.thread_index) t2
    t4 ←
        (if t3.lock_count == 0
          then (do
            t5 ← add_round_robin_ticks B R (commit_and_update_memory B R t3) round_robin_infinity
            put_token B R t5)
          else ok t3)
    start_clock B R t4
