-- ===== src/Run/OverDeterm.antt =====
-- The run loop over determ.h: the operations on the token, the locks, the condition variables and
-- joins are those of Sync, and the others stay a parameter.
use consequence.Base.{ℕ, ◌≡◌, refl, Bool, false, Safely, safely, Safely-bind}
use consequence.Sync.{Determ, Services, is_token_holder, put_token, register_thread}
use consequence.Sync.Mutex.{lock_init, lock_acquire, lock_release, lock_waiters_count}
use consequence.Sync.CondVar.{cond_init, cond_broadcast}
use consequence.Sync.Waiting.{Waits, get_token, wait_on_lock_and_release_token, wait_on_cond, join}
use consequence.Sync.Asserts.{deref-NoBug}
use consequence.Sync.Holder.{HolderLaws, put_token-held, get_token-held}
use consequence.Sync.Holder.Joins.{join-held}
use consequence.Sync.Holder.Queues.{
  wait_on_lock-held, lock_release-held, lock_acquire-held, wait_on_cond-held, cond_broadcast-held,
}
use consequence.Run.{Runtime}
use consequence.Run.Tokens.{TokenLaws, IsQuiet, world_itself, world_of}

module _ {S : Type 0} (V : Services S) (E : Waits S) (rest : Runtime (Determ S)) where
  abbrev pub over_determ : Runtime (Determ S)
  over_determ = record rest {
    get_token = λ d i. get_token V E E.rounds d i;
    put_token = λ d i ff. put_token V d i ff;
    last_token_clock = λ d. d.last_token_value;
    last_token_putter = λ d. d.last_putter;
    last_token_holder = λ d. d.last_getter;
    lock_init = λ d m. lock_init V d m;
    lock_acquire = λ d m i. lock_acquire V d m;
    lock_release = λ d m i. lock_release V d m i;
    lock_waiters_count = λ d m. lock_waiters_count V d m;
    wait_on_lock = λ d m i. wait_on_lock_and_release_token V E d m i;
    cond_init = λ d c. cond_init V d c;
    cond_wait = λ d i c m. wait_on_cond V E d i c m;
    cond_broadcast = λ d i c. cond_broadcast V d i c;
    join = λ d c i. join V E d c i;
    register_thread = λ d i parent. register_thread V d i parent;
    commit = λ d. V.commit_and_update d;
  }

  -- How the operations that are not those of determ.h treat the token.
  pub record RestLaws (i : ℕ) (held : Determ S → Bool) : Type 0 where
    pub barrier_wait :
        (d : Determ S) (b : ℕ)
        → held d ≡ false
        → Safely (λ d'. held d' ≡ false) (rest.barrier_wait d b i)
    pub cond_signal : (d : Determ S) (c : ℕ) → IsQuiet held d world_itself (rest.cond_signal d i c)
    pub cancel : (d : Determ S) (c : ℕ) → IsQuiet held d world_itself (rest.cancel d c)
    pub get_thread :
        (d : Determ S) (f a : ℕ) (b : Bool) → IsQuiet held d world_of (rest.get_thread d f a b)
    pub spawn_thread :
        (d : Determ S) (f a e : ℕ) → IsQuiet held d world_of (rest.spawn_thread d f a i e)
    pub add_ticks : (d : Determ S) (n : ℕ) → IsQuiet held d world_itself (rest.add_ticks d n)
    pub stop_with_id : (d : Determ S) (n : ℕ) → IsQuiet held d world_itself (rest.stop_with_id d n)
    pub stop_with_id_no_notify :
        (d : Determ S) (n : ℕ) → IsQuiet held d world_itself (rest.stop_with_id_no_notify d n)
    pub start : (d : Determ S) → IsQuiet held d world_itself (rest.start d)
    pub start_no_notify : (d : Determ S) → IsQuiet held d world_itself (rest.start_no_notify d)
    pub end_coarsened_tx : (d : Determ S) → IsQuiet held d world_itself (rest.end_coarsened_tx d)
    pub barrier_init : (d : Determ S) (b n : ℕ) → held (rest.barrier_init d b n) ≡ held d
    pub sleep : (d : Determ S) → held (rest.sleep d) ≡ held d
    pub wake : (d : Determ S) → held (rest.wake d) ≡ held d
    pub kill_thread : (d : Determ S) (c : ℕ) → held (rest.kill_thread d c) ≡ held d

  pub over_determ-TokenLaws :
      (i : ℕ)
      → HolderLaws V E i
      → RestLaws i (λ d. is_token_holder d i)
      → TokenLaws over_determ i (λ d. is_token_holder d i)
  unfolding lock_waiters_count lock_init cond_init register_thread is_token_holder
  over_determ-TokenLaws i L M = record {
    get_token = λ d h. get_token-held V E i L E.rounds d;
    put_token = λ d b h. put_token-held V E i L d b h;
    wait_on_lock = λ d m h. wait_on_lock-held V E i L d m h;
    cond_wait = λ d c m h. wait_on_cond-held V E i L d c m h;
    barrier_wait = M.barrier_wait;
    join = λ d c h. join-held V E i L d c h;
    lock_acquire = λ d m. lock_acquire-held V E i L d m;
    lock_release = λ d m. lock_release-held V E i L d m;
    lock_waiters_count = λ d m. Safely-bind (deref-NoBug (d.locks m)) λ entry u. safely tt;
    cond_signal = M.cond_signal;
    cond_broadcast = λ d c. cond_broadcast-held V E i L d c;
    cancel = M.cancel;
    get_thread = M.get_thread;
    spawn_thread = M.spawn_thread;
    add_ticks = M.add_ticks;
    stop_with_id = M.stop_with_id;
    stop_with_id_no_notify = M.stop_with_id_no_notify;
    start = M.start;
    start_no_notify = M.start_no_notify;
    end_coarsened_tx = M.end_coarsened_tx;
    lock_init = λ d m. refl;
    cond_init = λ d c. refl;
    barrier_init = M.barrier_init;
    register_thread = λ d p. refl;
    commit = L.commit;
    sleep = M.sleep;
    wake = M.wake;
    kill_thread = M.kill_thread;
  }
