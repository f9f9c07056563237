-- ===== src/Interposition.antt =====
-- thread_lib/source/libdthread.cpp: the functions of the C library and of pthread that the run-time
-- puts in place of the system's. Before `initialize` and after `finalize` most do nothing. Here are those
-- of pthread, over the run loop; a thread's identity is the one that it has in the pool.
pub mod Programs
pub mod Allocating
pub mod Buffers
pub mod Tests
use consequence.Base.{ℕ, ◌+◌, Bool, true, false, if◌then◌else◌, Outcome, ok, bug, ◌>>=◌}
use consequence.Run.{Build, Runtime, Thread}
use consequence.Run.Mutexes.{mutex_lock, mutex_unlock, mutex_lock_simple, mutex_unlock_simple}
use consequence.Run.Operations.{
  initialize, done, spawn, join, cancel, cond_init, barrier_init, mutex_init, barrier_wait,
  cond_wait, cond_broadcast, cond_signal,
}

-- `initialized`, and the thread's state in the run loop
pub record Program (W : Type 0) : Type 0 where
  pub initialized : Bool
  pub thread : Thread W

-- the build has `USE_SIMPLE_LOCKS` or not
module _ {W : Type 0} (B : Build) (R : Runtime W) (simple_locks : Bool) (rounds : ℕ) where
  -- `initialize`, in what the process is before it
  unfoldable pub initialize_program : W → Outcome (Program W)
  initialize_program w = do t ← initialize B R w; ok (record { initialized = true; thread = t })

  -- `finalize`
  unfoldable pub finalize_program : Program W → Outcome (Program W)
  finalize_program p = do t ← done B R p.thread; ok (record { initialized = false; thread = t })

  -- Of a function that returns 0, what it does if the library is initialized.
  abbrev pub if_initialized : Program W → (Thread W → Outcome (Thread W)) → Outcome (ℕ × Program W)
  if_initialized p f =
      if p.initialized then (do t ← f p.thread; ok (0, record p { thread = t })) else ok (0, p)

  -- a function that does it always, and returns nothing
  abbrev pub always : Program W → (Thread W → Outcome (Thread W)) → Outcome (Program W)
  always p f = do t ← f p.thread; ok (record p { thread = t })

  unfoldable pub pthread_mutex_init : Program W → ℕ → Outcome (ℕ × Program W)
  pthread_mutex_init p mutex = if_initialized p λ t. mutex_init B R t mutex

  unfoldable pub pthread_mutex_lock : Program W → ℕ → Outcome (ℕ × Program W)
  pthread_mutex_lock p mutex =
      if_initialized p
        λ t. if simple_locks then mutex_lock_simple B R t mutex else mutex_lock B R rounds t mutex

  unfoldable pub pthread_mutex_trylock : Program W → ℕ → Outcome (ℕ × Program W)
  pthread_mutex_trylock p mutex = ok (0, p)

  unfoldable pub pthread_mutex_unlock : Program W → ℕ → Outcome (ℕ × Program W)
  pthread_mutex_unlock p mutex =
      if_initialized p
        λ t. if simple_locks then mutex_unlock_simple B R t mutex else mutex_unlock B R t mutex

  -- `pthread_create`, with the thread's identity where it creates one
  unfoldable pub pthread_create : Program W → ℕ → ℕ → ℕ → Outcome (ℕ × Program W)
  pthread_create p fn arg end_of_stack =
      if_initialized p λ t. do (tid, t1) ← spawn B R t fn arg end_of_stack; ok t1

  unfoldable pub pthread_join : Program W → ℕ → Outcome (ℕ × Program W)
  pthread_join p tid = if_initialized p λ t. join B R t tid

  unfoldable pub pthread_cancel : Program W → ℕ → Outcome (ℕ × Program W)
  pthread_cancel p thread = if_initialized p λ t. cancel B R t thread

  unfoldable pub pthread_cond_init : Program W → ℕ → Outcome (Program W)
  pthread_cond_init p cond = always p λ t. cond_init B R t cond

  unfoldable pub pthread_cond_broadcast : Program W → ℕ → Outcome (Program W)
  pthread_cond_broadcast p cond = always p λ t. cond_broadcast B R t cond

  unfoldable pub pthread_cond_signal : Program W → ℕ → Outcome (Program W)
  pthread_cond_signal p cond = always p λ t. cond_signal B R t cond

  unfoldable pub pthread_cond_wait : Program W → ℕ → ℕ → Outcome (Program W)
  pthread_cond_wait p cond mutex = always p λ t. cond_wait B R rounds t cond mutex

  unfoldable pub pthread_barrier_init : Program W → ℕ → ℕ → Outcome (ℕ × Program W)
  pthread_barrier_init p barrier count = if_initialized p λ t. barrier_init B R t barrier count

  unfoldable pub pthread_barrier_wait : Program W → ℕ → Outcome (ℕ × Program W)
  pthread_barrier_wait p barrier = if_initialized p λ t. barrier_wait B R t barrier

  -- `pthread_exit`, `pthread_kill`, `sigwait`, `pthread_cond_destroy`, `pthread_attr_getstacksize`
  unfoldable pub not_implemented : Program W → Outcome (ℕ × Program W)
  not_implemented p = bug

  -- `sched_yield`, and the functions on attributes
  unfoldable pub no_effect : Program W → Outcome (ℕ × Program W)
  no_effect p = ok (0, p)
