-- ===== src/Run.antt =====
-- thread_lib/include/xrun.h: what a thread does at each call of a synchronization operation: its
-- clock stops, it takes the token, commits and updates its memory, runs the operation of determ.h,
-- releases the token and starts its clock again. Short transactions between two operations are
-- coarsened: the thread keeps the token from one to the next. The files below this one have the
-- operations; here are the thread's state and the steps they share. What the operations call in
-- determ.h, determ_clock.c, the versioned memory and the thread pool is a record of operations.
-- Recorded events, printing and timing are left out.
pub mod Mutexes
pub mod Operations
pub mod Tokens
pub mod Holding
pub mod Handling
pub mod Calls
pub mod FastForward
pub mod Unlocking
pub mod OverDeterm
pub mod DetermTests
pub mod Tests
use consequence.Base.{
  ℕ, ◌+◌, ◌-◌, ◌*◌, ◌%◌, ◌^◌, u64, Bool, true, false, ◌&&◌, not, ltb, ◌==◌, if◌then◌else◌, Option,
  none, some, Outcome, ok, ◌>>=◌,
}
use consequence.UserClock.{int32_arg}

-- the build flags of the thread library, and the macro `STATIC_TX_SIZE`
pub record Build : Type 0 where
  pub fast_forward : Bool
  pub single_thread_opt : Bool
  pub use_tx_coarsening : Bool
  pub use_userspace_reading : Bool
  pub token_order_round_robin : Bool
  pub use_kendo : Bool
  pub static_tx_size : Option ℕ

-- What the thread calls, with `W` for everything outside its own variables. An operation that blocks
-- ends when the thread runs again, with what the other threads have done in between.
pub record Runtime (W : Type 0) : Type 0 where
  pub get_token : W → ℕ → Outcome W
  pub put_token : W → ℕ → Bool → Outcome W
  pub last_token_clock : W → ℕ
  pub last_token_putter : W → ℕ
  pub last_token_holder : W → ℕ
  pub lock_init : W → ℕ → W
  pub lock_acquire : W → ℕ → ℕ → Outcome (Bool × W)
  pub lock_release : W → ℕ → ℕ → Outcome W
  pub lock_waiters_count : W → ℕ → Outcome ℕ
  pub wait_on_lock : W → ℕ → ℕ → Outcome W
  pub cond_init : W → ℕ → W
  pub cond_wait : W → ℕ → ℕ → ℕ → Outcome W
  pub cond_signal : W → ℕ → ℕ → Outcome W
  pub cond_broadcast : W → ℕ → ℕ → Outcome W
  pub barrier_init : W → ℕ → ℕ → W
  pub barrier_wait : W → ℕ → ℕ → Outcome W
  pub join : W → ℕ → ℕ → Outcome W
  pub cancel : W → ℕ → Outcome W
  pub register_thread : W → ℕ → ℕ → W
  pub deregister_thread : W → ℕ → Outcome W
  pub master_thread_finished : W → Bool
  pub initialize : W → Outcome W
  pub finalize : W → W
  pub clock_read : W → ℕ
  pub add_ticks : W → ℕ → Outcome W
  pub activate : W → Outcome W
  pub stop_with_id : W → ℕ → Outcome W
  pub stop_with_id_no_notify : W → ℕ → Outcome W
  pub start : W → Outcome W
  pub start_no_notify : W → Outcome W
  pub end_coarsened_tx : W → Outcome W
  pub estimate_next_tx : W → ℕ → ℕ
  pub last_tx_size : W → ℕ
  pub single_active_thread : W → Bool
  pub commit : W → W
  pub sleep : W → W
  pub wake : W → W
  pub logical_pages : W → ℕ
  pub in_heap_range : W → ℕ → Bool
  pub in_globals_range : W → ℕ → Bool
  pub get_thread : W → ℕ → ℕ → Bool → Outcome (ℕ × W)
  pub spawn_thread : W → ℕ → ℕ → ℕ → ℕ → Outcome (ℕ × W)
  pub kill_thread : W → ℕ → W
  pub thread_index_of : W → ℕ → ℕ
  pub set_exit_by_id : W → ℕ → W
  pub add_thread_to_pool_by_id : W → ℕ → W
  pub terminate_all : W → W

-- The static variables of `class xrun`. An `int` that may be negative is its 32-bit pattern.
pub record Thread (W : Type 0) : Type 0 where
  pub world : W
  pub thread_index : ℕ
  pub lock_count : ℕ
  pub token_holding : Bool
  pub coarsening_counter : ℕ
  pub coarsening_level : ℕ
  pub consecutively_coarsened : ℕ
  pub monitor_next : Bool
  pub sleep_count : ℕ
  pub is_sleeping : Bool

abbrev pub max_sleep_count : ℕ
max_sleep_count = 10

abbrev pub static_or : Option ℕ → ℕ → ℕ
static_or none size = size
static_or (some size) _ = size

-- `LOGICAL_CLOCK_MIN_ALLOWABLE_TX_SIZE`, `_MAX_ALLOWABLE_TX_SIZE`, `_TX_SIZE_AFTER_TOKEN_TRANSFER`
abbrev pub min_allowable_tx_size : Build → ℕ
min_allowable_tx_size B = static_or B.static_tx_size 20000

abbrev pub max_allowable_tx_size : Build → ℕ
max_allowable_tx_size B = static_or B.static_tx_size 500000

abbrev pub tx_size_after_token_transfer : Build → ℕ
tx_size_after_token_transfer B = static_or B.static_tx_size 50000

-- `LOGICAL_CLOCK_ROUND_ROBIN_INFINITY`, `_ROUND_ROBIN_FORKED_THREAD`, `_TIME_FORK_PER_PAGE`
abbrev pub round_robin_infinity : ℕ
round_robin_infinity = 50000

abbrev pub round_robin_forked_thread : ℕ
round_robin_forked_thread = 10

abbrev pub time_fork_per_page : Build → ℕ
time_fork_per_page B = if B.token_order_round_robin then 0 else 200

-- `KENDO_ACQ_INC`
abbrev pub kendo_acq_inc : Build → ℕ
kendo_acq_inc B = if B.use_kendo then 10000 else 0

-- "n > 0" for an `int`
abbrev pub is_positive : ℕ → Bool
is_positive n = ltb 0 n && ltb n (2 ^ 31)

-- `xmin`
abbrev pub xmin : ℕ → ℕ → ℕ
xmin a b = if ltb a b then a else b

-- "counter + next_tx < level" on `int64_t`, for an `int` counter and a `next_tx` that is not negative
unfoldable pub fits_level : ℕ → ℕ → ℕ → Bool
fits_level counter next_tx level =
    if ltb counter (2 ^ 31)
    then ltb (counter + next_tx) level
    else ltb next_tx (level + (2 ^ 32 - counter))

module _ {W : Type 0} (B : Build) (R : Runtime W) where
  -- a call of the runtime
  unfoldable pub run : (W → Outcome W) → Thread W → Outcome (Thread W)
  run f t = do w ← f t.world; ok (record t { world = w })

  abbrev pub set_world : Thread W → W → Thread W
  set_world t w = record t { world = w }

  -- `singleActiveThread`
  unfoldable pub single_active : Thread W → Bool
  single_active t =
      B.single_thread_opt
      && (R.single_active_thread t.world && t.thread_index == R.last_token_holder t.world)

  -- `inCoarsenedTx`
  unfoldable pub in_coarsened_tx : Thread W → Bool
  in_coarsened_tx t = B.use_userspace_reading && is_positive t.coarsening_counter

  -- `endTXCoarsening`
  unfoldable pub end_tx_coarsening : Thread W → Outcome (Thread W)
  unfolding run in_coarsened_tx
  end_tx_coarsening t = if not B.use_tx_coarsening then ok t else do
    t1 ← (if in_coarsened_tx t then run R.end_coarsened_tx t else ok t)
    ok (record t1 { coarsening_counter = 0; consecutively_coarsened = 0 })

  -- `resetTXCoarsening`
  unfoldable pub reset_tx_coarsening : Thread W → Outcome (Thread W)
  unfolding end_tx_coarsening
  reset_tx_coarsening t =
      if not B.use_tx_coarsening
      then ok t
      else end_tx_coarsening
          (record t { monitor_next = false; coarsening_level = min_allowable_tx_size B })

  -- `useTxCoarsening`
  unfoldable pub use_tx_coarsening : Thread W → ℕ → Outcome (Bool × Thread W)
  unfolding single_active end_tx_coarsening fits_level
  use_tx_coarsening t id =
      let next_tx = R.estimate_next_tx t.world id in
      if not B.use_tx_coarsening
      then ok (false, t)
      else if ltb next_tx (2 ^ 63) && fits_level t.coarsening_counter next_tx t.coarsening_level
      then ok (
        true,
        record t {
          coarsening_counter = (t.coarsening_counter + R.last_tx_size t.world) % 2 ^ 32;
          consecutively_coarsened = (t.consecutively_coarsened + 1) % 2 ^ 32;
        },
      )
      else if single_active t && is_positive t.coarsening_counter
      then (do t1 ← end_tx_coarsening t; ok (false, t1))
      else if is_positive t.coarsening_counter
      then ok (false, record t { monitor_next = true })
      else ok (false, t)

  -- `fast_forward_clock`
  unfoldable pub fast_forward_clock : Thread W → ℕ
  fast_forward_clock t =
      let diff = u64 (R.last_token_clock t.world + 2 ^ 64 - R.clock_read t.world) in
      if B.fast_forward && ltb diff (2 ^ 63) then diff else 0

  -- `determ_task_clock_add_ticks`
  unfoldable pub add_ticks : Thread W → ℕ → Outcome (Thread W)
  unfolding run
  add_ticks t ticks = run (λ w. R.add_ticks w ticks) t

  -- "#ifdef TOKEN_ORDER_ROUND_ROBIN"
  unfoldable pub add_round_robin_ticks : Thread W → ℕ → Outcome (Thread W)
  unfolding add_ticks
  add_round_robin_ticks t ticks = if B.token_order_round_robin then add_ticks t ticks else ok t

  -- "if (tx_monitor_next)": the allowable size after a coarsened transaction
  unfoldable pub monitor : Thread W → Thread W
  monitor t =
      if t.monitor_next
      then record t {
        coarsening_level =
            if R.last_token_putter t.world == t.thread_index
            then xmin (t.coarsening_level + t.coarsening_level) (max_allowable_tx_size B)
            else tx_size_after_token_transfer B;
        monitor_next = false;
      }
      else t

  -- `waitToken`
  unfoldable pub wait_token : Thread W → Outcome (Thread W)
  unfolding run add_ticks fast_forward_clock monitor
  wait_token t = if t.token_holding then ok t else do
    t1 ← run (λ w. R.get_token w t.thread_index) t
    t2 ← add_ticks t1 (fast_forward_clock t1)
    ok (monitor (record t2 { token_holding = true }))

  -- `stopClock`, `startClock` and `stopClockNoCoarsen`
  unfoldable pub stop_clock : Thread W → ℕ → Outcome (Thread W)
  unfolding run in_coarsened_tx
  stop_clock t id =
      if in_coarsened_tx t
      then run (λ w. R.stop_with_id_no_notify w id) t
      else run (λ w. R.stop_with_id w id) t

  unfoldable pub start_clock : Thread W → Outcome (Thread W)
  unfolding run in_coarsened_tx
  start_clock t = if in_coarsened_tx t then run R.start_no_notify t else run R.start t

  unfoldable pub stop_clock_no_coarsen : Thread W → Outcome (Thread W)
  unfolding stop_clock end_tx_coarsening
  stop_clock_no_coarsen t = do t1 ← stop_clock t 0; end_tx_coarsening t1

  -- "if (_token_holding)": release it
  unfoldable pub release_token : Thread W → Bool → Outcome (Thread W)
  unfolding run
  release_token t consider_for_fast_forward = if not t.token_holding then ok t else do
    t1 ← run (λ w. R.put_token w t.thread_index consider_for_fast_forward) t
    ok (record t1 { token_holding = false })

  -- `putToken`
  unfoldable pub put_token : Thread W → Outcome (Thread W)
  unfolding end_tx_coarsening release_token
  put_token t = do
    t1 ←
        (if B.use_tx_coarsening && is_positive t.coarsening_counter
          then end_tx_coarsening t
          else ok t)
    release_token t1 true

  -- `putTokenNoFastForward`
  unfoldable pub put_token_no_fast_forward : Thread W → Outcome (Thread W)
  unfolding release_token
  put_token_no_fast_forward t = release_token t false

  -- `commitAndUpdateMemory`
  unfoldable pub commit_and_update_memory : Thread W → Thread W
  commit_and_update_memory t = set_world t (R.commit t.world)

  -- `__ticks_to_add`, whose prices of pages are all 0
  unfoldable pub ticks_to_add : Thread W → ℕ
  unfolding fast_forward_clock
  ticks_to_add t = int32_arg (fast_forward_clock t)
