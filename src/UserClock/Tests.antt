-- ===== src/UserClock/Tests.antt =====
-- A kernel of one thread, and the theorems on determ_clock.c and tx_estimate.h at concrete states.
use consequence.Base.{
  ℕ, ◌+◌, ◌-◌, ◌%◌, ◌^◌, ◌≡◌, refl, arith, u64, true, false, [], ◌∷◌, ok, Returns, returns,
}
use consequence.Clock.State.{UserStatus}
use consequence.Clock.Tests.{user}
use consequence.TxEstimate.{estimate_init}
use consequence.TxEstimate.Ring.{observe, observe_keeps, entry_of}
use consequence.UserClock.{Kernel, Process, raw_delta, read, user_status, is_lowest_wait}
use consequence.UserClock.Transactions.{
  get_last_tx_size, start_no_notify, stop_with_id_no_notify, end_coarsened_tx,
}
use consequence.UserClock.Lowest.{IsSound, is_lowest_wait_lem}
use consequence.UserClock.Coarsened.{
  at_state, raw_delta-eq, coarsened_tx_counts, end_coarsened_tx_truncates,
}

-- the thread's page, and the hardware counter
abbrev Page : Type 0
Page = UserStatus × ℕ

-- A kernel for a thread that is alone: it is the lowest as soon as it waits.
abbrev alone : Kernel Page
alone = record {
  status = λ s. s.0;
  set_status = λ s u. (u, s.1);
  others = λ s. s;
  reset = λ s. ok (s, true);
  wait = λ s. ok ((record s.0 { lowest_clock = true }, s.1), true);
  sleep = λ s. ok (s, true);
  woke_up = λ s. ok (s, true);
  activate = λ s. ok (s, true);
  activate_other = λ s id. ok (s, true);
  add_ticks = λ s n. ok ((record s.0 { ticks = u64 (s.0.ticks + n) }, s.1), true);
  halt = λ s. ok (s, true);
  enable = λ s. ok (s, true);
  disable = λ s. ok (s, true);
  poll = λ s. ok s;
  op_start = λ s. ok s;
  op_start_coarsened = λ s. ok s;
  op_stop = λ s. ok s;
  rdpmc = λ s idx. s.1;
}

alone-IsSound : IsSound alone
alone-IsSound = record {
  status_set = λ s u. refl;
  wait = λ s. returns refl;
  sleep = λ s. returns refl;
  woke_up = λ s. returns refl;
  poll = λ s. returns tt;
}

abbrev process : Process Page
process = record {
  info = record {
    tid = 0;
    started = true;
    disabled = false;
    last_clock_value = 0;
    coarsened_ticks_counter = 7;
    in_coarsened_tx = true;
    last_raw_perf = 0;
    current_raw_perf = 0;
    estimator = estimate_init;
  };
  state = (record user { ticks = 100 }, 281474976710650);
}

-- the thread after it has counted 2 ^ 31 ticks in user space
abbrev busy : Process Page
busy = record process { info = record process.info { coarsened_ticks_counter = 2147483648 } }

is_lowest_wait_lem_example :
    Returns
      (λ r.
        (r.0 ≡ false)
        × (r.1.info.disabled ≡ false)
        × ((user_status alone r.1).lowest_clock ≡ false))
      (is_lowest_wait alone process)
is_lowest_wait_lem_example = is_lowest_wait_lem alone alone-IsSound process

raw_delta-eq_example : raw_delta 4 281474976710650 ≡ 10
raw_delta-eq_example = raw_delta-eq 4 281474976710650 10 refl (omega arith)

abbrev average : ℕ → ℕ → ℕ
average ticks ewma = ticks

coarsened_tx_counts_example :
    Returns
      (λ p1.
        let p2 = stop_with_id_no_notify alone average 1 (at_state alone p1 (process.state.0, 4)) in
        (read alone p2 ≡ u64 (read alone process + 10))
        × (get_last_tx_size alone p2 ≡ 10)
        × (p2.info.in_coarsened_tx ≡ true))
      (start_no_notify alone process)
coarsened_tx_counts_example =
    coarsened_tx_counts alone average 1 process (process.state.0, 4) 10 refl refl refl (omega arith)

end_coarsened_tx_truncates_example :
    Returns
      (λ p'. read alone p' ≡ u64 (read alone busy + (2 ^ 64 - 2 ^ 32)))
      (end_coarsened_tx alone busy)
end_coarsened_tx_truncates_example =
    end_coarsened_tx_truncates alone busy (λ n. returns (refl, refl)) (omega arith) (omega arith)
      (omega arith)

observe_keeps_example :
    ((entry_of average 5 (observe average estimate_init 5 (4 ∷ 9 ∷ []))).counter
      ≡ (entry_of average 5 estimate_init).counter + 2)
    × ((entry_of average 5 (observe average estimate_init 5 (4 ∷ 9 ∷ []))).observations
          (((entry_of average 5 estimate_init).counter + 1) % 10)
        ≡ 9)
unfolding estimate_init
observe_keeps_example =
    observe_keeps average 5 (4 ∷ 9 ∷ []) estimate_init 1 (omega arith) (omega arith) (omega arith)
