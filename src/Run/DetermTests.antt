-- ===== src/Run/DetermTests.antt =====
-- The run loop over determ.h, with clocks and memory that take no part, and other threads that rest.
use consequence.Base.{refl, true, false, ok, safely}
use consequence.Sync.{status_ready, Determ, is_token_holder}
use consequence.Sync.Tests.{services}
use consequence.Sync.Waiting.{Waits}
use consequence.Sync.Holder.{HolderLaws}
use consequence.Run.{Runtime}
use consequence.Run.Tokens.{TokenLaws}
use consequence.Run.OverDeterm.{over_determ, RestLaws, over_determ-TokenLaws}

-- Another thread makes every thread ready.
abbrev waits : Waits (Unit {0})
waits = record {
  others = λ d. record d { status = λ t. status_ready };
  is_lowest = λ s t. ok (true, s);
  is_lowest_wait = λ s t. ok s;
  partial_update = λ d. d;
  rounds = 3;
}

abbrev rest : Runtime (Determ (Unit {0}))
rest = record {
  get_token = λ d i. ok d;
  put_token = λ d i b. ok d;
  last_token_clock = λ d. 0;
  last_token_putter = λ d. 0;
  last_token_holder = λ d. 0;
  lock_init = λ d m. d;
  lock_acquire = λ d m i. ok (true, d);
  lock_release = λ d m i. ok d;
  lock_waiters_count = λ d m. ok 0;
  wait_on_lock = λ d m i. ok d;
  cond_init = λ d c. d;
  cond_wait = λ d i c m. ok d;
  cond_signal = λ d i c. ok d;
  cond_broadcast = λ d i c. ok d;
  barrier_init = λ d b n. d;
  barrier_wait = λ d b i. ok d;
  join = λ d c i. ok d;
  cancel = λ d c. ok d;
  register_thread = λ d i p. d;
  deregister_thread = λ d i. ok d;
  master_thread_finished = λ d. false;
  initialize = λ d. ok d;
  finalize = λ d. d;
  clock_read = λ d. 0;
  add_ticks = λ d n. ok d;
  activate = λ d. ok d;
  stop_with_id = λ d n. ok d;
  stop_with_id_no_notify = λ d n. ok d;
  start = λ d. ok d;
  start_no_notify = λ d. ok d;
  end_coarsened_tx = λ d. ok d;
  estimate_next_tx = λ d n. 300;
  last_tx_size = λ d. 250;
  single_active_thread = λ d. false;
  commit = λ d. d;
  sleep = λ d. d;
  wake = λ d. d;
  logical_pages = λ d. 3;
  in_heap_range = λ d a. false;
  in_globals_range = λ d a. false;
  get_thread = λ d f a b. ok (2, d);
  spawn_thread = λ d f a i e. ok (5, d);
  kill_thread = λ d c. d;
  thread_index_of = λ d v. 2;
  set_exit_by_id = λ d i. d;
  add_thread_to_pool_by_id = λ d i. d;
  terminate_all = λ d. d;
}

rest-RestLaws : RestLaws services waits rest 1 (λ d. is_token_holder d 1)
rest-RestLaws = record {
  barrier_wait = λ d b h. safely h;
  cond_signal = λ d c. safely refl;
  cancel = λ d c. safely refl;
  get_thread = λ d f a b. safely refl;
  spawn_thread = λ d f a e. safely refl;
  add_ticks = λ d n. safely refl;
  stop_with_id = λ d n. safely refl;
  stop_with_id_no_notify = λ d n. safely refl;
  start = λ d. safely refl;
  start_no_notify = λ d. safely refl;
  end_coarsened_tx = λ d. safely refl;
  barrier_init = λ d b n. refl;
  sleep = λ d. refl;
  wake = λ d. refl;
  kill_thread = λ d c. refl;
}

waits-HolderLaws : HolderLaws services waits 1
unfolding is_token_holder
waits-HolderLaws = record {
  halt = λ s t. safely tt;
  activate = λ s t. safely tt;
  activate_other = λ s t other. safely tt;
  is_lowest = λ s t. safely tt;
  is_lowest_wait = λ s t. safely tt;
  others = λ d. refl;
  partial_update = λ d. refl;
  commit = λ d. refl;
}

over_determ-TokenLaws_example :
    TokenLaws (over_determ services waits rest) 1 (λ d. is_token_holder d 1)
over_determ-TokenLaws_example =
    over_determ-TokenLaws services waits rest 1 waits-HolderLaws rest-RestLaws
