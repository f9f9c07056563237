-- ===== src/Threads/Jobs.antt =====
-- A job of a thread's process, of xthread.cpp of thread_lib: its result gets to who joins the thread.
use consequence.Base.{
  ℕ, ◌^◌, ◌<◌, ◌≡◌, refl, ap, ◌∙◌, arith, false, ◌==◌, store, store_self, store_ne, ok, Returns,
  returns, Returns-bind, if_both,
}
use consequence.ThreadPool.{is_init}
use consequence.Threads.{Threads, Status, Process, Worker, join, run_thread, do_job}

-- The calls of the clock and the run loop return, and so do the functions of the program.
pub record AllReturn {W : Type 0} (P : Process W) : Type 0 where
  pub init_with_id : (w : W) (i : ℕ) → Returns (λ _. Unit {0}) (P.init_with_id w i)
  pub on_wakeup : (w : W) → Returns (λ _. Unit {0}) (P.on_wakeup w)
  pub child_register :
      (w : W) (pid parent i : ℕ) → Returns (λ _. Unit {0}) (P.child_register w pid parent i)
  pub start_clock : (w : W) → Returns (λ _. Unit {0}) (P.start_clock w)
  pub call : (w : W) (s : Threads) (fn arg : ℕ) → (r : ℕ × W × Threads) × (P.call w s fn arg ≡ ok r)
  pub thread_deregister : (w : W) → Returns (λ _. Unit {0}) (P.thread_deregister w)

module _ {W : Type 0} (P : Process W) (all : AllReturn P) where
  -- the function's result is in the object at `t`
  record HasResult (w : Worker W) (fn arg t : ℕ) (w' : Worker W) : Type 0 where
    pub called_in : W
    pub left_in : W
    pub result : ℕ
    pub left_threads : Threads
    pub called : P.call called_in w.threads fn arg ≡ ok (result, left_in, left_threads)
    pub statuses :
        w'.threads.statuses
        ≡ store left_threads.statuses t (record (left_threads.statuses t) { retval = result })
    pub nesting : w'.nesting_level ≡ w.nesting_level

  run_thread-HasResult :
      (w : Worker W) (fn t arg : ℕ) → Returns (HasResult w fn arg t) (run_thread P w fn t arg)
  unfolding run_thread
  run_thread-HasResult w fn t arg = Returns-bind (all.start_clock w.world) λ w1 _.
      let r = all.call w1 w.threads fn arg in
      rw (r.1) (
        Returns-bind (all.thread_deregister r.0.1) λ w3 _. returns record {
          called_in = w1;
          left_in = r.0.1;
          left_threads = r.0.2;
          result = r.0.0;
          called = r.1;
          statuses = refl;
          nesting = refl;
        })

  -- the threads once the process has written its id into its entry's object
  abbrev pub with_tid : Worker W → ℕ → Threads
  with_tid w tpe = record (w.threads) {
    statuses =
        store w.threads.statuses (w.threads.status_obj tpe)
          (record (w.threads.statuses (w.threads.status_obj tpe)) { tid = P.getpid w.world });
  }

  -- What a job leaves: a function of the program has been called in some state of the world, with the
  -- entry's function and argument, and its result is what `join` gives.
  pub record JobDone (w : Worker W) (tpe : ℕ) (w' : Worker W) : Type 0 where
    pub called_in : W
    pub left_in : W
    pub result : ℕ
    pub left_threads : Threads
    pub called :
        P.call called_in
          (with_tid w tpe)
          (w.threads.pool.run_function tpe)
          (w.threads.pool.run_function_arg tpe)
        ≡ ok (result, left_in, left_threads)
    pub joined : join w'.threads (w.threads.status_obj tpe) ≡ result
    pub others :
        (v : ℕ) → (w.threads.status_obj tpe == v) ≡ false → join w'.threads v ≡ join left_threads v
    pub nesting : w'.nesting_level ≡ w.nesting_level

  pub do_job-JobDone :
      (parent_index tpe : ℕ) (w : Worker W)
      → w.nesting_level < 2 ^ 32
      → Returns (JobDone w tpe) (do_job P parent_index tpe w)
  unfolding do_job join
  do_job-JobDone parent_index tpe w level =
      let t = w.threads.status_obj tpe in
      Returns-bind
        (if_both (Returns λ _. Unit {0}) (is_init (w.threads.pool.status tpe)) _ _
          (all.init_with_id w.world tpe) (all.on_wakeup w.world))
        λ w1 _. Returns-bind (all.child_register w1 (P.getpid w.world) parent_index tpe) λ w2 _.
          Returns-bind (run_thread-HasResult _ _ t _) λ w3 h.
            let nesting = h.nesting in
            returns record {
              called_in = h.called_in;
              left_in = h.left_in;
              left_threads = h.left_threads;
              result = h.result;
              called = h.called;
              joined =
                  ap (λ (f : ℕ → Status). (f t).retval) h.statuses
                  ∙ ap (λ (s : Status). s.retval) (store_self _ t _);
              others = λ v apart.
                  ap (λ (f : ℕ → Status). (f v).retval) h.statuses
                  ∙ ap (λ (s : Status). s.retval) (store_ne _ t v _ apart);
              nesting = omega arith;
            }
