-- ===== src/UserClock.antt =====
-- logical_clock/lib/determ_clock.c: a thread's own view of its clock, in user space. What the kernel does at each system call is a
-- record of operations, the parameter of this file; that a call fails is a result, at which the
-- code prints and exits. The clock's fd, its shared memory and its debugging counters are left out.
pub mod Transactions
pub mod Lowest
pub mod Coarsened
pub mod Tests
use consequence.Base.{
  ℕ, zero, suc, ◌+◌, ◌-◌, ◌*◌, ◌/◌, ◌%◌, ◌^◌, u64, Bool, true, false, ◌&&◌, ◌||◌, not, ltb, ◌==◌,
  if◌then◌else◌, Outcome, ok, exited, ◌>>=◌,
}
use consequence.Clock.State.{UserStatus}
use consequence.TxEstimate.{Estimator, estimate_init, add_observation, next_observation_guess}

-- The kernel as the thread sees it, with `S` for its state and that of the other threads. `status`
-- and `set_status` access the thread's page; `others` is what the others do to the state between
-- two reads of the page in a spin loop. A call ends with the state and whether it succeeded; the
-- system calls whose result the code does not look at end with the state.
pub record Kernel (S : Type 0) : Type 0 where
  pub status : S → UserStatus
  pub set_status : S → UserStatus → S
  pub others : S → S
  pub reset : S → Outcome (S × Bool)
  pub wait : S → Outcome (S × Bool)
  pub sleep : S → Outcome (S × Bool)
  pub woke_up : S → Outcome (S × Bool)
  pub activate : S → Outcome (S × Bool)
  pub activate_other : S → ℕ → Outcome (S × Bool)
  pub add_ticks : S → ℕ → Outcome (S × Bool)
  pub halt : S → Outcome (S × Bool)
  pub enable : S → Outcome (S × Bool)
  pub disable : S → Outcome (S × Bool)
  pub poll : S → Outcome S
  pub op_start : S → Outcome S
  pub op_start_coarsened : S → Outcome S
  pub op_stop : S → Outcome S
  pub rdpmc : S → ℕ → ℕ

-- `struct determ_task_clock_info`, with `started` of its `struct perf_counter_info`
pub record TaskClockInfo : Type 0 where
  pub tid : ℕ
  pub started : Bool
  pub disabled : Bool
  pub last_clock_value : ℕ
  pub coarsened_ticks_counter : ℕ
  pub in_coarsened_tx : Bool
  pub last_raw_perf : ℕ
  pub current_raw_perf : ℕ
  pub estimator : Estimator

-- The thread: `task_clock_info`, and the kernel's state.
pub record Process (S : Type 0) : Type 0 where
  pub info : TaskClockInfo
  pub state : S

abbrev pub max_spin_int : ℕ
max_spin_int = 1000

-- An `int32_t` argument of a system call, from the bits of a `uint64_t`.
unfoldable pub int32_arg : ℕ → ℕ
int32_arg n = let low = n % 2 ^ 32 in if ltb low (2 ^ 31) then low else low + (2 ^ 64 - 2 ^ 32)

-- What `__determ_task_clock_stop_with_id` works out between two reads of the counter.
unfoldable pub raw_delta : ℕ → ℕ → ℕ
raw_delta new_raw last_raw_perf =
    u64 (u64 (new_raw * 2 ^ 16) + 2 ^ 64 - u64 (last_raw_perf * 2 ^ 16)) / 2 ^ 16

-- "if (ioctl(...) != 0) exit(EXIT_FAILURE)"
unfoldable pub or_exit {ℓ} : {S : Type ℓ} → Outcome (S × Bool) → Outcome S
or_exit call = do (s, succeeded) ← call; if succeeded then ok s else exited

module _ {S : Type 0} (K : Kernel S) where
  -- a write to the thread's page
  abbrev pub set_user_status : Process S → UserStatus → Process S
  set_user_status p u = record p { state = K.set_status p.state u }

  abbrev pub user_status : Process S → UserStatus
  user_status p = K.status p.state

  -- `task_clock_info.disabled = b`
  abbrev pub set_disabled : Process S → Bool → Process S
  set_disabled p b = record p { info = record p.info { disabled = b } }

  -- a call of the kernel that must succeed
  unfoldable pub call : (S → Outcome (S × Bool)) → Process S → Outcome (Process S)
  unfolding or_exit
  call f p = do s ← or_exit (f p.state); ok (record p { state = s })

  -- `determ_task_clock_read`
  unfoldable pub read : Process S → ℕ
  read p = u64 ((user_status p).ticks + p.info.coarsened_ticks_counter)

  -- `determ_task_clock_reset`
  unfoldable pub reset_clock : Process S → Outcome (Process S)
  unfolding call
  reset_clock p = call K.reset p

  -- `determ_task_clock_on_wakeup`
  unfoldable pub on_wakeup : Process S → Process S
  on_wakeup p =
      set_user_status (set_disabled p false) (record (user_status p) { lowest_clock = false })

  -- `__woke_up`
  unfoldable pub woke_up : Process S → Outcome (Process S)
  unfolding call on_wakeup
  woke_up p = do p1 ← call K.woke_up p; ok (on_wakeup p1)

  -- "if (!task_clock_info.disabled && !task_clock_info.user_status->lowest_clock)": wait
  unfoldable pub wait_unless_told : Process S → Outcome (Process S)
  unfolding call
  wait_unless_told p =
      if not p.info.disabled && not (user_status p).lowest_clock
      then (do p1 ← call K.wait p; ok (set_disabled p1 true))
      else ok p

  -- `determ_task_clock_is_lowest`
  unfoldable pub is_lowest : Process S → Outcome (Bool × Process S)
  unfolding wait_unless_told woke_up
  is_lowest p = do
    p1 ← wait_unless_told p
    if (user_status p1).lowest_clock then (do p2 ← woke_up p1; ok (true, p2)) else ok (false, p1)

  -- The spin loop of `determ_task_clock_is_lowest_wait`, with the rounds that are left.
  unfoldable pub spin : ℕ → S → S
  spin zero s = s
  spin (suc rounds) s =
      let rest = spin rounds (K.others s) in if (K.status s).lowest_clock then s else rest

  -- "if (!task_clock_info.user_status->lowest_clock)": sleep, and poll if that did not help
  unfoldable pub sleep_and_poll : Process S → Outcome (Process S)
  unfolding call
  sleep_and_poll p = if (user_status p).lowest_clock then ok p else do
    p1 ← call K.sleep p
    if (user_status p1).lowest_clock
        then ok p1
        else (do s ← K.poll p1.state; ok (record p1 { state = s }))

  -- `determ_task_clock_is_lowest_wait`
  unfoldable pub is_lowest_wait : Process S → Outcome (Bool × Process S)
  unfolding call spin sleep_and_poll woke_up
  is_lowest_wait p = do
    p1 ← call K.wait p
    let p2 = set_disabled p1 true
    p3 ← sleep_and_poll (record p2 { state = spin max_spin_int p2.state })
    p4 ← call K.woke_up p3
    p5 ← woke_up p4
    ok (p.info.disabled, p5)

  -- `determ_task_clock_activate`
  unfoldable pub activate_clock : Process S → Outcome (Process S)
  unfolding call
  activate_clock p =
      call K.activate
        (set_disabled (set_user_status p (record (user_status p) { lowest_clock = false })) false)

  -- `determ_task_clock_add_ticks`
  unfoldable pub add_clock_ticks : Process S → ℕ → Outcome (Process S)
  unfolding call int32_arg
  add_clock_ticks p ticks = call (λ s. K.add_ticks s (int32_arg ticks)) p

  -- `determ_task_clock_activate_other`
  unfoldable pub activate_other_clock : Process S → ℕ → Outcome (Bool × Process S)
  unfolding call
  activate_other_clock p id = do
    p1 ←
        call (λ s. K.activate_other s id)
          (set_user_status p (record (user_status p) { single_active_thread = false }))
    ok (
        if (user_status p1).activated_lowest
        then (true, set_user_status p1 (record (user_status p1) { activated_lowest = false }))
        else (false, p1))
