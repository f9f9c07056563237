-- ===== src/UserClock/Transactions.antt =====
-- The part of determ_clock.c that starts and stops the clock, with perf_counter_start and
-- perf_counter_stop of perf_counter.c.
use consequence.Base.{
  ℕ, ◌+◌, ◌-◌, ◌^◌, u64, Bool, true, false, not, ltb, if◌then◌else◌, Outcome, ok, ◌>>=◌,
}
use consequence.TxEstimate.{add_observation, next_observation_guess}
use consequence.UserClock.{
  Kernel, Process, raw_delta, set_user_status, user_status, set_disabled, call, read,
  add_clock_ticks,
}

module _ {S : Type 0} (K : Kernel S) where
  -- `perf_counter_start`, and `perf_counter_stop`
  unfoldable pub counter_start : Process S → Outcome (Process S)
  unfolding call
  counter_start p = do
    p1 ← call K K.enable p
    ok (record p1 { info = record p1.info { started = true } })

  unfoldable pub counter_stop : Process S → Outcome (Process S)
  unfolding call
  counter_stop p = do
    p1 ← call K K.disable p
    ok (record p1 { info = record p1.info { started = false } })

  -- a system call whose result is not looked at
  unfoldable pub run_op : (S → Outcome S) → Process S → Outcome (Process S)
  run_op f p = do s ← f p.state; ok (record p { state = s })

  -- `__determ_task_clock_start`, for a transaction that is coarsened or not
  unfoldable pub start_clock : Bool → Process S → Outcome (Process S)
  unfolding run_op counter_start read
  start_clock coarsened p =
      let p1 =
        set_user_status K (set_disabled K p false)
          (record (user_status K p) { lowest_clock = false }) in
      let p2 = record p1 { info = record p1.info { last_clock_value = read K p1 } } in
      if coarsened
      then run_op K.op_start_coarsened p2
      else if not p2.info.started
      then counter_start p2
      else run_op K.op_start p2

  -- `determ_task_clock_end_coarsened_tx`
  unfoldable pub end_coarsened_tx : Process S → Outcome (Process S)
  unfolding add_clock_ticks
  end_coarsened_tx p = do
    p1 ←
        (if ltb 0 p.info.coarsened_ticks_counter
          then add_clock_ticks K p p.info.coarsened_ticks_counter
          else ok p)
    ok (record p1 {
      info = record p1.info { in_coarsened_tx = false; coarsened_ticks_counter = 0 };
    })

  -- `determ_task_clock_start_no_notify`
  unfoldable pub start_no_notify : Process S → Outcome (Process S)
  unfolding start_clock read
  start_no_notify p = do
    p1 ←
        (if not p.info.in_coarsened_tx
          then (do
            p0 ← start_clock true p
            ok (record p0 { info = record p0.info { in_coarsened_tx = true } }))
          else ok (record p { info = record p.info { last_clock_value = read K p } }))
    ok (record p1 {
      info = record p1.info { last_raw_perf = K.rdpmc p1.state (user_status K p1).hwc_idx };
    })

  -- `determ_task_clock_get_last_tx_size`
  unfoldable pub get_last_tx_size : Process S → ℕ
  unfolding read
  get_last_tx_size p = u64 (read K p + 2 ^ 64 - p.info.last_clock_value)

  -- `tx_estimate_add_observation` on the thread's estimator
  abbrev pub observe : (ℕ → ℕ → ℕ) → ℕ → ℕ → Process S → Process S
  observe average id tx_size p = record p {
    info = record p.info { estimator = add_observation average p.info.estimator id tx_size };
  }

  -- `__determ_task_clock_stop_with_id` for a transaction that is not coarsened
  unfoldable pub stop_with_id : (ℕ → ℕ → ℕ) → ℕ → Process S → Outcome (Process S)
  unfolding run_op get_last_tx_size
  stop_with_id average id p = do
    p1 ← run_op K.op_stop p
    ok (observe average id (get_last_tx_size p1) p1)

  -- and for one that is
  unfoldable pub stop_with_id_no_notify : (ℕ → ℕ → ℕ) → ℕ → Process S → Process S
  unfolding raw_delta
  stop_with_id_no_notify average id p =
      let new_raw = K.rdpmc p.state (user_status K p).hwc_idx in
      let delta = raw_delta new_raw p.info.last_raw_perf in
      observe average id delta (record p {
        info = record p.info {
          coarsened_ticks_counter = u64 (p.info.coarsened_ticks_counter + delta);
          current_raw_perf = new_raw;
        };
      })

  -- `determ_task_clock_estimate_next_tx`
  unfoldable pub estimate_next_tx : ℕ → Process S → ℕ → ℕ
  unfolding next_observation_guess
  estimate_next_tx least p id = next_observation_guess least p.info.estimator id

  -- `determ_task_clock_halt`
  unfoldable pub halt_clock : Process S → Outcome (Process S)
  unfolding call counter_stop
  halt_clock p = do p1 ← counter_stop p; call K K.halt (set_disabled K p1 true)

  -- `determ_task_set_scaling_factor`
  unfoldable pub set_scaling_factor : Process S → ℕ → ℕ → Process S
  set_scaling_factor p whole fraction =
      set_user_status K p
        (record (user_status K p) { scaling_whole = whole; scaling_fraction = fraction })

  -- `determ_task_clock_clear_single_active_thread`
  unfoldable pub clear_single_active_thread : Process S → Process S
  clear_single_active_thread p =
      set_user_status K p (record (user_status K p) { single_active_thread = false })
