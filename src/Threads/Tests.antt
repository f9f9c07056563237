-- ===== src/Threads/Tests.antt =====
-- A pool whose entry 2 has an object and whose entry 3 has none, and the theorems on xthread.cpp of
-- thread_lib in it.
use consequence.Base.{
  ℕ, ◌+◌, ◌≡◌, refl, arith, false, ◌==◌, if◌then◌else◌, [], ◌∷◌, ok, Returns, returns,
}
use consequence.ThreadPool.{Pool, entry_init, entry_ready}
use consequence.Threads.{Threads, Process, Worker, spawn, get_thread_index, do_job}
use consequence.Threads.Spawning.{HasObjects, spawn-HasObjects}
use consequence.Threads.Jobs.{AllReturn, JobDone, do_job-JobDone}

abbrev pool : Pool
pool = record {
  head = 0;
  tail = 0;
  next = λ e. 0;
  prev = λ e. 0;
  status = λ e. if e == 2 then entry_ready else entry_init;
  run_function = λ e. e + 100;
  run_function_arg = λ e. e + 200;
  is_stack_allocated = λ e. false;
  id_counter = 3;
}

abbrev threads : Threads
threads = record {
  pool = pool;
  status_obj = λ e. if e == 2 then 8192 else 0;
  statuses = λ v. record { tid = 77; thread_index = 2; retval = 5 };
  processes = 2 ∷ [];
}

threads-HasObjects : HasObjects threads
threads-HasObjects = record { index = λ e h. ground arith }

spawn-HasObjects_example :
    HasObjects (spawn threads 3 12288).1
    × (get_thread_index (spawn threads 3 12288).1 (spawn threads 3 12288).0 ≡ ok 3)
    × ((spawn threads 3 12288).1.status_obj 3 ≡ (spawn threads 3 12288).0)
    × ((e : ℕ)
        → (3 == e) ≡ false
        → (spawn threads 3 12288).1.status_obj e ≡ (if e == 2 then 8192 else 0))
spawn-HasObjects_example =
    spawn-HasObjects threads 3 12288 threads-HasObjects (refl, λ e. ground arith)

-- a world that counts the calls; a function returns its argument and one more
abbrev process : Process ℕ
process = record {
  getpid = λ w. 99;
  init_with_id = λ w i. ok (w + 1);
  on_wakeup = λ w. ok (w + 1);
  child_register = λ w pid parent i. ok (w + 1);
  start_clock = λ w. ok (w + 1);
  call = λ w s fn arg. ok (arg + 1, w + 1, s);
  thread_deregister = λ w. ok (w + 1);
  final_thread_exit = λ w. w;
  others = λ w s. (w, s);
}

process-AllReturn : AllReturn process
process-AllReturn = record {
  init_with_id = λ w i. returns tt;
  on_wakeup = λ w. returns tt;
  child_register = λ w pid parent i. returns tt;
  start_clock = λ w. returns tt;
  call = λ w s fn arg. ((arg + 1, w + 1, s), refl);
  thread_deregister = λ w. returns tt;
}

abbrev worker : Worker ℕ
worker = record { world = 0; threads = threads; nesting_level = 1; own_tid = 0 }

do_job-JobDone_example :
    Returns (JobDone process process-AllReturn worker 2) (do_job process 1 2 worker)
do_job-JobDone_example = do_job-JobDone process process-AllReturn 1 2 worker (omega arith)
