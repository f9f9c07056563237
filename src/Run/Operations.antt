-- ===== src/Run/Operations.antt =====
-- The other operations of xrun.h: threads, condition variables and barriers.
use consequence.Base.{
  ℕ, ◌+◌, ◌-◌, ◌*◌, Bool, true, false, ◌&&◌, ◌||◌, not, ltb, ◌==◌, if◌then◌else◌, Outcome, ok,
  exited, ◌>>=◌,
}
use consequence.Run.{
  Build, Runtime, Thread, max_sleep_count, min_allowable_tx_size, round_robin_infinity,
  round_robin_forked_thread, time_fork_per_page, run, set_world, end_tx_coarsening,
  reset_tx_coarsening, fast_forward_clock, add_ticks, add_round_robin_ticks, wait_token, stop_clock,
  start_clock, stop_clock_no_coarsen, put_token, put_token_no_fast_forward,
  commit_and_update_memory,
}
use consequence.Run.Mutexes.{count_down, mutex_lock_inner}

-- `xdefines::STACK_SIZE`
abbrev pub stack_size : ℕ
stack_size = 1048576 * 100

module _ {W : Type 0} (B : Build) (R : Runtime W) where
  -- `initialize`, where `R.initialize` sets the stack limit and up memory, locks and bitmap
  unfoldable pub initialize : W → Outcome (Thread W)
  unfolding run start_clock
  initialize w = do
    w1 ← R.initialize w
    t ← run B R R.activate (record {
      world = R.register_thread w1 0 0;
      thread_index = 0;
      lock_count = 0;
      token_holding = false;
      coarsening_counter = 0;
      coarsening_level = min_allowable_tx_size B;
      consecutively_coarsened = 0;
      monitor_next = false;
      sleep_count = 0;
      is_sleeping = false;
    })
    start_clock B R t

  -- `done`
  unfoldable pub done : Thread W → Outcome (Thread W)
  unfolding wait_token put_token
  done t = do
    t1 ← wait_token B R t
    put_token B R (set_world B R t1 (R.terminate_all (R.finalize t1.world)))

  -- `childRegister`, in a thread that has its parent's variables
  unfoldable pub child_register : Thread W → ℕ → ℕ → Outcome (Thread W)
  unfolding wait_token add_round_robin_ticks commit_and_update_memory put_token
  child_register t parentindex child_index = do
    t1 ← wait_token B R (record t {
      world = R.register_thread (R.wake t.world) child_index parentindex;
      thread_index = child_index;
      lock_count = 0;
      token_holding = false;
    })
    t2 ← add_round_robin_ticks B R t1 round_robin_infinity
    put_token B R (commit_and_update_memory B R t2)

  -- `threadDeregister`
  unfoldable pub thread_deregister : Thread W → Outcome (Thread W)
  unfolding stop_clock wait_token commit_and_update_memory run
  thread_deregister t = do
    t1 ← stop_clock B R t 0
    t2 ← wait_token B R t1
    let w = (commit_and_update_memory B R t2).world
    let parked =
        if R.master_thread_finished w
        then R.set_exit_by_id w t2.thread_index
        else R.add_thread_to_pool_by_id w t2.thread_index
    run B R (λ w'. R.deregister_thread w' t2.thread_index) (set_world B R t2 (R.sleep parked))

  -- `is_stack_addr`
  unfoldable pub is_stack_addr : Thread W → ℕ → ℕ → Bool
  is_stack_addr t addr end_of_stack =
      not (R.in_heap_range t.world addr || R.in_globals_range t.world addr)
      && (ltb end_of_stack addr && ltb (addr - end_of_stack) stack_size)

  -- Of `spawn`, what is done with the token: the new thread's entry, and the thread that forks.
  unfoldable pub prepare_spawn : Thread W → ℕ → ℕ → ℕ → Outcome (ℕ × Thread W)
  unfolding wait_token commit_and_update_memory add_ticks is_stack_addr add_round_robin_ticks
      put_token_no_fast_forward
  prepare_spawn t fn arg end_of_stack = do
    t1 ← wait_token B R t
    let t2 = commit_and_update_memory B R t1
    t3 ← add_ticks B R t2 (time_fork_per_page B * R.logical_pages t2.world)
    (tpe, w) ← R.get_thread t3.world fn arg (is_stack_addr t3 arg end_of_stack)
    t4 ← add_round_robin_ticks B R (set_world B R t3 w) round_robin_forked_thread
    t5 ← put_token_no_fast_forward B R t4
    ok (tpe, t5)

  -- `spawn`, with the new thread's `tid`
  unfoldable pub spawn : Thread W → ℕ → ℕ → ℕ → Outcome (ℕ × Thread W)
  unfolding stop_clock_no_coarsen prepare_spawn wait_token commit_and_update_memory put_token
      start_clock
  spawn t fn arg end_of_stack = do
    t1 ← stop_clock_no_coarsen B R t
    if ltb 0 t1.lock_count then exited else do
      (tpe, t2) ← prepare_spawn t1 fn arg end_of_stack
      (tid, w) ← R.spawn_thread t2.world fn arg t2.thread_index tpe
      t3 ← wait_token B R (set_world B R t2 w)
      t4 ← put_token B R (commit_and_update_memory B R t3)
      t5 ← start_clock B R t4
      ok (tid, t5)

  -- `join`; the clock stays stopped where the thread is NULL
  unfoldable pub join : Thread W → ℕ → Outcome (Thread W)
  unfolding stop_clock_no_coarsen wait_token commit_and_update_memory run add_ticks
      fast_forward_clock put_token start_clock
  join t v = do
    t1 ← stop_clock_no_coarsen B R t
    if v == 0 then ok t1 else do
      t2 ← wait_token B R t1
      let t3 = commit_and_update_memory B R t2
      let child_threadindex = R.thread_index_of t3.world v
      t4 ←
          run B R (λ w. R.join w child_threadindex t3.thread_index)
            (set_world B R t3 (R.sleep t3.world))
      t5 ← add_ticks B R t4 (fast_forward_clock B R t4)
      t6 ← put_token B R (commit_and_update_memory B R (set_world B R t5 (R.wake t5.world)))
      start_clock B R t6

  -- `cancel`
  unfoldable pub cancel : Thread W → ℕ → Outcome (Thread W)
  unfolding stop_clock_no_coarsen wait_token commit_and_update_memory run put_token start_clock
  cancel t v = do
    t1 ← stop_clock_no_coarsen B R t
    t2 ← wait_token B R t1
    let t3 = commit_and_update_memory B R t2
    let threadindex = R.thread_index_of t3.world v
    t4 ←
        run B R (λ w. R.cancel w threadindex)
          (set_world B R t3 (R.kill_thread t3.world threadindex))
    t5 ← put_token B R t4
    start_clock B R t5

  -- What `cond_init`, `barrier_init` and `mutex_init` share, with what they do in determ.h.
  unfoldable pub with_token : Thread W → (W → W) → Outcome (Thread W)
  unfolding stop_clock wait_token commit_and_update_memory put_token start_clock
  with_token t f = do
    t1 ← stop_clock B R t 0
    t2 ← wait_token B R t1
    t3 ← put_token B R (commit_and_update_memory B R (set_world B R t2 (f t2.world)))
    start_clock B R t3

  -- `cond_init`, `barrier_init` and `mutex_init`
  unfoldable pub cond_init : Thread W → ℕ → Outcome (Thread W)
  unfolding with_token
  cond_init t cond = with_token t (λ w. R.cond_init w cond)

  unfoldable pub barrier_init : Thread W → ℕ → ℕ → Outcome (Thread W)
  unfolding with_token
  barrier_init t barrier count = with_token t (λ w. R.barrier_init w barrier count)

  unfoldable pub mutex_init : Thread W → ℕ → Outcome (Thread W)
  unfolding with_token
  mutex_init t mutex = with_token t (λ w. R.lock_init w mutex)

  -- `sigstopHandle`
  unfoldable pub sigstop_handle : Thread W → Outcome (Thread W)
  unfolding with_token
  sigstop_handle t = with_token t (λ w. w)

  -- `barrier_wait`
  unfoldable pub barrier_wait : Thread W → ℕ → Outcome (Thread W)
  unfolding stop_clock put_token run start_clock
  barrier_wait t barrier = do
    t1 ← stop_clock B R t 0
    t2 ← put_token B R t1
    t3 ← run B R (λ w. R.barrier_wait w barrier t2.thread_index) t2
    start_clock B R t3

  -- "if (sleep_count<MAX_SLEEP_COUNT)": leave the memory's version to the garbage collector
  unfoldable pub sleep_memory : Thread W → Thread W
  sleep_memory t =
      if ltb t.sleep_count max_sleep_count
      then record t { world = R.sleep t.world; is_sleeping = true; sleep_count = t.sleep_count + 1 }
      else t

  -- "if (is_sleeping)"
  unfoldable pub wake_memory : Thread W → Thread W
  wake_memory t =
      if t.is_sleeping then record t { world = R.wake t.world; is_sleeping = false } else t

  -- Of `cond_wait`, up to where the thread runs again, without the token.
  unfoldable pub leave_to_wait : Thread W → ℕ → ℕ → Outcome (Thread W)
  unfolding wait_token commit_and_update_memory sleep_memory end_tx_coarsening run wake_memory
  leave_to_wait t cond lock = do
    t1 ← wait_token B R t
    t2 ← end_tx_coarsening B R (sleep_memory (commit_and_update_memory B R t1))
    t3 ← run B R (λ w. R.cond_wait w t2.thread_index cond lock) t2
    ok (commit_and_update_memory B R (record (wake_memory t3) { token_holding = false }))

  -- `cond_wait`
  unfoldable pub cond_wait : ℕ → Thread W → ℕ → ℕ → Outcome (Thread W)
  unfolding stop_clock leave_to_wait mutex_lock_inner start_clock
  cond_wait rounds t cond lock = do
    t1 ← stop_clock B R t 0
    t2 ← leave_to_wait (record t1 { lock_count = count_down t1.lock_count }) cond lock
    t3 ← mutex_lock_inner B R rounds t2 lock false
    start_clock B R t3

  -- `cond_broadcast`
  unfoldable pub cond_broadcast : Thread W → ℕ → Outcome (Thread W)
  unfolding stop_clock reset_tx_coarsening wait_token commit_and_update_memory run
      add_round_robin_ticks put_token start_clock
  cond_broadcast t cond = do
    t1 ← stop_clock B R t 0
    t2 ← reset_tx_coarsening B R t1
    t3 ← wait_token B R t2
    t4 ← run B R (λ w. R.cond_broadcast w t3.thread_index cond) (commit_and_update_memory B R t3)
    t5 ← add_round_robin_ticks B R t4 round_robin_infinity
    t6 ← put_token B R t5
    start_clock B R t6

  -- `cond_signal`
  unfoldable pub cond_signal : Thread W → ℕ → Outcome (Thread W)
  unfolding stop_clock reset_tx_coarsening wait_token commit_and_update_memory run
      add_round_robin_ticks put_token start_clock
  cond_signal t cond = do
    t1 ← stop_clock B R t 0
    t2 ← reset_tx_coarsening B R t1
    let acquiring_token = not t2.token_holding
    t3 ←
        (if acquiring_token
          then (do t0 ← wait_token B R t2; ok (commit_and_update_memory B R t0))
          else ok t2)
    t4 ← run B R (λ w. R.cond_signal w t3.thread_index cond) t3
    t5 ← add_round_robin_ticks B R t4 round_robin_infinity
    t6 ← (if acquiring_token then put_token B R t5 else ok t5)
    start_clock B R t6
