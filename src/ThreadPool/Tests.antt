-- ===== src/ThreadPool/Tests.antt =====
-- A pool that threads 3 and 1 are in, and the theorems on thread_pool.h in it.
use consequence.Base.{
  ℕ, arith, ◌≡◌, ◌∉◌, refl, true, false, ◌||◌, ◌==◌, ltb, [], ◌∷◌, if◌then◌else◌, Outcome, ok,
  out_of_bounds, Returns, returns,
}
use consequence.ThreadPool.{entry_waiting, entry_ready, entry_init, Pool, get_thread}
use consequence.ThreadPool.Stacks.{
  sig_dfl, save_parent_stack, unpark, copy_parent_stack-save_parent_stack,
}
use consequence.ThreadPool.Handing.{Keeps, get_thread-Keeps, get_thread_exhausted}

-- Entries 2 and 4 run, and entries from 5 on have never run.
abbrev two_parked : Pool
two_parked = record {
  head = 1;
  tail = 3;
  next = λ e. if e == 1 then 3 else 0;
  prev = λ e. if e == 3 then 1 else 0;
  status = λ e.
      if (e == 3) || (e == 1) then entry_waiting else if ltb e 5 then entry_ready else entry_init;
  run_function = λ e. 0;
  run_function_arg = λ e. 0;
  is_stack_allocated = λ e. false;
  id_counter = 4;
}

two_parked-Keeps : Keeps false two_parked (3 ∷ 1 ∷ [])
two_parked-Keeps = record {
  pool = record {
    links = (refl, refl, refl, (refl, refl, refl, (refl, refl)));
    distinct = (refl, (refl, tt));
  };
  members = λ x m. (ground arith, ground arith, ground arith);
  fresh = λ x h. ground arith;
  few = omega arith;
}

abbrev activate : ℕ → ℕ → Outcome ℕ
activate clock entry = ok clock

get_thread-Keeps_example :
    Returns
      (λ (r : ℕ × Pool × ℕ).
        (r.0 ≡ 3) × (r.0 ∉ 1 ∷ []) × (r.1.status r.0 ≡ entry_ready) × Keeps false r.1 (1 ∷ []))
      (get_thread activate two_parked 10 7 8 true)
get_thread-Keeps_example =
    get_thread-Keeps activate false two_parked 10 7 8 true (3 ∷ 1 ∷ []) two_parked-Keeps (λ e. cc)
      (λ entry. returns tt)

-- All entries run.
abbrev exhausted : Pool
exhausted = record two_parked {
  head = 0;
  tail = 0;
  status = λ e. if ltb e 256 then entry_ready else entry_init;
  id_counter = 255;
}

exhausted-Keeps : Keeps false exhausted []
exhausted-Keeps = record {
  pool = record { links = (refl, refl); distinct = tt };
  members = λ x m. cc;
  fresh = λ x h. ground arith;
  few = omega arith;
}

get_thread_exhausted_example : get_thread activate exhausted 10 7 8 true ≡ out_of_bounds
get_thread_exhausted_example =
    get_thread_exhausted activate false exhausted 10 7 8 true exhausted-Keeps refl

-- byte 100 of the argument, of a parent whose bytes are 7 for a thread whose bytes are 9
copy_parent_stack-save_parent_stack_example :
    unpark true
      (save_parent_stack
        (λ a. true)
        (λ a. 7)
        (record { stack_space = λ j. 0; stack_start_addr = 0 })
        (λ j. 0)
        sig_dfl
        8192).0
      (λ a. 9)
      8292
    ≡ 7
copy_parent_stack-save_parent_stack_example =
    copy_parent_stack-save_parent_stack (λ a. true) (λ a. 7) (λ a. 9)
      (record { stack_space = λ j. 0; stack_start_addr = 0 }) (λ j. 0) sig_dfl 8192 8292 refl
      (omega arith)
