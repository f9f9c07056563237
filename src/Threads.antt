-- ===== src/Threads.antt =====
-- thread_lib/include/xthread.h and source/xthread.cpp: what starts a thread, what the thread's process
-- does while it lives, and what those who have its status can ask. A pointer to an entry of the pool is
-- the entry's id, as in ThreadPool.antt. The calls of the clock, the run loop and the system are a
-- record of operations.
pub mod Spawning
pub mod Jobs
pub mod Tests
use consequence.Base.{
  ℕ, zero, suc, ◌+◌, ◌-◌, ◌%◌, ◌^◌, Bool, true, false, ◌==◌, if◌then◌else◌, store, List, [], ◌∷◌,
  Outcome, ok, out_of_fuel, ◌>>=◌, ◌>>◌, bug_on,
}
use consequence.ThreadPool.{
  EntryStatus, entry_exit, entry_waiting, entry_ready, entry_init, is_init, Pool,
}

-- `class ThreadStatus`
pub record Status : Type 0 where
  pub tid : ℕ
  pub thread_index : ℕ
  pub retval : ℕ

-- The pool, the field `thread_status_obj` of its entries, the objects, by their addresses, and which
-- entries' processes have been made.
pub record Threads : Type 0 where
  pub pool : Pool
  pub status_obj : ℕ → ℕ
  pub statuses : ℕ → Status
  pub processes : List ℕ

-- What a thread's process calls, with `W` for everything outside: `others` is what the other threads do to
-- the entries while it is parked, and `call` runs a function of the program, which may spawn others.
pub record Process (W : Type 0) : Type 0 where
  pub getpid : W → ℕ
  pub init_with_id : W → ℕ → Outcome W
  pub on_wakeup : W → Outcome W
  pub child_register : W → ℕ → ℕ → ℕ → Outcome W
  pub start_clock : W → Outcome W
  pub call : W → Threads → ℕ → ℕ → Outcome (ℕ × W × Threads)
  pub thread_deregister : W → Outcome W
  pub final_thread_exit : W → W
  pub others : W → Threads → W × Threads

-- `is_exit`: "tpe->status==THREAD_POOL_ENTRY_EXIT"
abbrev pub is_exit : EntryStatus → Bool
is_exit entry_exit = true
is_exit entry_waiting = false
is_exit entry_ready = false
is_exit entry_init = false

-- `forkSpawn`, as its caller sees it
unfoldable pub fork_spawn : Threads → ℕ → ℕ × Threads
fork_spawn s tpe =
    if is_init (s.pool.status tpe)
    then (s.status_obj tpe, record s { processes = tpe ∷ s.processes })
    else (s.status_obj tpe, s)

-- Of `spawn`, the object that the entry has, or `fresh`, a new one.
unfoldable pub object_for : Threads → ℕ → ℕ → ℕ × Threads
object_for s tpe fresh =
    if s.status_obj tpe == 0
    then (fresh, record s { status_obj = store s.status_obj tpe fresh })
    else (s.status_obj tpe, s)

-- `spawn`, where `fresh` is what `allocateSharedObject` would return
unfoldable pub spawn : Threads → ℕ → ℕ → ℕ × Threads
unfolding object_for fork_spawn
spawn s tpe fresh =
    let (t, s1) = object_for s tpe fresh in
    fork_spawn
      (record s1 { statuses = store s1.statuses t (record (s1.statuses t) { thread_index = tpe }) })
      tpe

-- `getThreadIndex` and `getThreadPid`
unfoldable pub get_thread_index : Threads → ℕ → Outcome ℕ
get_thread_index s v = bug_on (v == 0) >> ok (s.statuses v).thread_index

unfoldable pub get_thread_pid : Threads → ℕ → Outcome ℕ
get_thread_pid s v = bug_on (v == 0) >> ok (s.statuses v).tid

-- `join`: the thread's result
unfoldable pub join : Threads → ℕ → ℕ
join s v = (s.statuses v).retval

-- `thread_kill`, and `cancel`, which sends `SIGKILL`: the thread's index, and whom the signal goes to
unfoldable pub thread_kill : Threads → ℕ → ℕ → ℕ × ℕ × ℕ
thread_kill s v sig = ((s.statuses v).thread_index, (s.statuses v).tid, sig)

abbrev pub sigkill : ℕ
sigkill = 9

unfoldable pub cancel : Threads → ℕ → ℕ × ℕ × ℕ
cancel s v = ((s.statuses v).thread_index, (s.statuses v).tid, sigkill)

-- the static variables of `class xthread` in one process, and what is outside
pub record Worker (W : Type 0) : Type 0 where
  pub world : W
  pub threads : Threads
  pub nesting_level : ℕ
  pub own_tid : ℕ

module _ {W : Type 0} (P : Process W) where
  -- `run_thread`
  unfoldable pub run_thread : Worker W → ℕ → ℕ → ℕ → Outcome (Worker W)
  run_thread w fn t arg = do
    w1 ← P.start_clock w.world
    (result, w2, s) ← P.call w1 w.threads fn arg
    w3 ← P.thread_deregister w2
    ok (record w {
      world = w3;
      threads = record s {
        statuses = store s.statuses t (record (s.statuses t) { retval = result });
      };
    })

  -- One round of the loop of `do_work`, up to where the thread is parked.
  unfoldable pub do_job : ℕ → ℕ → Worker W → Outcome (Worker W)
  unfolding run_thread
  do_job parent_index tpe w = do
    let t = w.threads.status_obj tpe
    let mypid = P.getpid w.world
    let s = w.threads
    let s1 = record s { statuses = store s.statuses t (record (s.statuses t) { tid = mypid }) }
    w1 ← (if is_init (s1.pool.status tpe) then P.init_with_id w.world tpe else P.on_wakeup w.world)
    w2 ← P.child_register w1 mypid parent_index tpe
    w3 ←
        run_thread
          (record w {
            world = w2;
            threads = s1;
            own_tid = mypid;
            nesting_level = (w.nesting_level + 1) % 2 ^ 32;
          })
          (s1.pool.run_function tpe) t (s1.pool.run_function_arg tpe)
    ok (record w3 { nesting_level = (w3.nesting_level + (2 ^ 32 - 1)) % 2 ^ 32 })

  -- The process is parked, until the others have changed its entry.
  unfoldable pub park : Worker W → Worker W
  park w =
      let (world, threads) = P.others w.world w.threads in
      record w { world = world; threads = threads }

  -- `do_work`, for at most `jobs` functions of the program
  unfoldable pub do_work : ℕ → ℕ → ℕ → Worker W → Outcome (Worker W)
  unfolding do_job park
  do_work zero parent_index tpe w = out_of_fuel
  do_work (suc jobs) parent_index tpe w = do
    w1 ← do_job parent_index tpe w
    let w2 = park w1
    elim (is_exit (w2.threads.pool.status tpe)) [
      | true ↦ ok (record w2 { world = P.final_thread_exit w2.world })
      | false ↦ do_work jobs parent_index tpe w2
    ]
