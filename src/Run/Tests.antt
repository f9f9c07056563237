-- ===== src/Run/Tests.antt =====
-- A small runtime: a world that knows who holds the token, what the clocks read, and how often memory
-- was committed; and the theorems on xrun.h in it.
use consequence.Base.{
  ℕ, ◌+◌, ◌≡◌, refl, arith, Bool, true, false, not, ◌==◌, Option, none, some, Outcome, ok, ◌>>=◌,
  ◌>>◌, bug_on, Returns, returns, Safely, safely,
}
use consequence.Run.{
  Build, Runtime, Thread, run, start_clock, wait_token, stop_clock, single_active, fits_level,
  in_coarsened_tx,
}
use consequence.Run.Mutexes.{mutex_unlock}
use consequence.Run.Tokens.{TokenLaws}
use consequence.Run.FastForward.{wait_token-catches_up}
use consequence.Run.Unlocking.{coarsened, mutex_unlock-uncommitted}

pub record World : Type 0 where
  pub holder : Option ℕ
  pub clock : ℕ
  pub last : ℕ
  pub putter : ℕ
  pub getter : ℕ
  pub commits : ℕ

abbrev pub holds : ℕ → World → Bool
holds i w = elim w.holder [ none ↦ false | some h ↦ h == i ]

abbrev gives : World → ℕ → Outcome World
gives w i = bug_on (not (holds i w)) >> ok (record w { holder = none; putter = i; last = w.clock })

abbrev pub runtime : Runtime World
runtime = record {
  get_token = λ w i. ok (record w { holder = some i; getter = i });
  put_token = λ w i b. gives w i;
  last_token_clock = λ w. w.last;
  last_token_putter = λ w. w.putter;
  last_token_holder = λ w. w.getter;
  lock_init = λ w m. w;
  lock_acquire = λ w m i. ok (true, w);
  lock_release = λ w m i. ok w;
  lock_waiters_count = λ w m. ok 1;
  wait_on_lock = λ w m i. gives w i;
  cond_init = λ w c. w;
  cond_wait = λ w i c m. gives w i;
  cond_signal = λ w i c. ok w;
  cond_broadcast = λ w i c. ok w;
  barrier_init = λ w b n. w;
  barrier_wait = λ w b i. ok w;
  join = λ w c i. ok w;
  cancel = λ w c. ok w;
  register_thread = λ w i p. w;
  deregister_thread = λ w i. gives w i;
  master_thread_finished = λ w. false;
  initialize = λ w. ok w;
  finalize = λ w. w;
  clock_read = λ w. w.clock;
  add_ticks = λ w n. ok (record w { clock = w.clock + n });
  activate = λ w. ok w;
  stop_with_id = λ w n. ok w;
  stop_with_id_no_notify = λ w n. ok w;
  start = λ w. ok w;
  start_no_notify = λ w. ok w;
  end_coarsened_tx = λ w. ok w;
  estimate_next_tx = λ w n. 300;
  last_tx_size = λ w. 250;
  single_active_thread = λ w. true;
  commit = λ w. record w { commits = w.commits + 1 };
  sleep = λ w. w;
  wake = λ w. w;
  logical_pages = λ w. 3;
  in_heap_range = λ w a. false;
  in_globals_range = λ w a. false;
  get_thread = λ w f a b. ok (2, w);
  spawn_thread = λ w f a i e. ok (5, w);
  kill_thread = λ w c. w;
  thread_index_of = λ w v. 2;
  set_exit_by_id = λ w i. w;
  add_thread_to_pool_by_id = λ w i. w;
  terminate_all = λ w. w;
}

gives-free : (w : World) → holds 1 w ≡ true → Safely (λ w'. holds 1 w' ≡ false) (gives w 1)
gives-free w h = rw h (safely refl)

pub runtime-TokenLaws : TokenLaws runtime 1 (holds 1)
runtime-TokenLaws = record {
  get_token = λ w h. safely refl;
  put_token = λ w b h. gives-free w h;
  wait_on_lock = λ w m h. gives-free w h;
  cond_wait = λ w c m h. gives-free w h;
  barrier_wait = λ w b h. safely h;
  join = λ w c h. safely h;
  lock_acquire = λ w m. safely refl;
  lock_release = λ w m. safely refl;
  lock_waiters_count = λ w m. safely tt;
  cond_signal = λ w c. safely refl;
  cond_broadcast = λ w c. safely refl;
  cancel = λ w c. safely refl;
  get_thread = λ w f a b. safely refl;
  spawn_thread = λ w f a e. safely refl;
  add_ticks = λ w n. safely refl;
  stop_with_id = λ w n. safely refl;
  stop_with_id_no_notify = λ w n. safely refl;
  start = λ w. safely refl;
  start_no_notify = λ w. safely refl;
  end_coarsened_tx = λ w. safely refl;
  lock_init = λ w m. refl;
  cond_init = λ w c. refl;
  barrier_init = λ w b n. refl;
  register_thread = λ w p. refl;
  commit = λ w. refl;
  sleep = λ w. refl;
  wake = λ w. refl;
  kill_thread = λ w c. refl;
}

-- the flags of `CONSEQ_TYPE=CheckSchedule`
abbrev pub build : Build
build = record {
  fast_forward = true;
  single_thread_opt = true;
  use_tx_coarsening = true;
  use_userspace_reading = true;
  token_order_round_robin = false;
  use_kendo = false;
  static_tx_size = none;
}

abbrev pub world : World
world = record { holder = none; clock = 40; last = 70; putter = 1; getter = 1; commits = 0 }

abbrev pub thread : Thread World
thread = record {
  world = world;
  thread_index = 1;
  lock_count = 1;
  token_holding = false;
  coarsening_counter = 0;
  coarsening_level = 20000;
  consecutively_coarsened = 0;
  monitor_next = false;
  sleep_count = 0;
  is_sleeping = false;
}

wait_token-catches_up_example :
    Returns
      (λ t'. (t'.world.clock ≡ 70) × (t'.token_holding ≡ true))
      (wait_token build runtime thread)
wait_token-catches_up_example =
    wait_token-catches_up build runtime thread (record world { holder = some 1; getter = 1 }) refl
      refl refl (omega arith) (omega arith) (omega arith) λ n h. returns refl

stops : stop_clock build runtime thread 7 ≡ ok thread
unfolding stop_clock in_coarsened_tx run
stops = refl

alone : single_active build runtime thread ≡ true
unfolding single_active
alone = refl

fits : fits_level 0 300 20000 ≡ true
unfolding fits_level
fits = refl

mutex_unlock-uncommitted_example : mutex_unlock build runtime thread 7 ≡ (do
  t2 ← run build runtime (λ w. ok w) (coarsened build runtime thread)
  start_clock build runtime t2)
mutex_unlock-uncommitted_example =
    mutex_unlock-uncommitted build runtime thread thread 7 1 refl refl stops alone refl
      (omega arith) fits refl
