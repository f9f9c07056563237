-- ===== src/Sync/Tests.antt =====
-- A lock and a condition variable that threads 3 and 6 wait on, and the theorems of determ.h on them.
use consequence.Base.{
  bug, arith, ◌≡◌, refl, [], ◌∷◌, ◌==◌, true, none, some, if◌then◌else◌, ok, Returns, returns,
}
use consequence.CircularList.Tests.{two, two-IsRing}
use consequence.Sync.{
  take_token, put_token, status_ready, status_waiting_on_lock, LockEntry, Determ, Services,
  is_token_holder,
}
use consequence.Sync.CondVar.{cond_signal, cond_broadcast}
use consequence.Sync.Mutex.{lock_release}
use consequence.Sync.Conds.{CondQueue, cond_signal-CondQueue, cond_broadcast-CondQueue}
use consequence.Sync.Barriers.{BarrierEntry, Pages, barrier_init, leave_barrier}
use consequence.Sync.Barriers.Rounds.{arrive_all, Chained, barrier_round}
use consequence.Sync.Token.{take_token_holds}
use consequence.Sync.Locks.{QueueOf, HandedOver, lock_release-HandedOver}

-- clocks that take no part
abbrev pub services : Services (Unit {0})
services = record {
  read = λ s t. 0;
  halt = λ s t. ok s;
  reset = λ s t. ok s;
  activate = λ s t. ok s;
  activate_other = λ s t other. ok (true, s);
  on_wakeup = λ s t. s;
  commit_and_update = λ d. d;
  fresh_waiters = 0;
}

abbrev contended : LockEntry
contended = record { is_acquired = true; waiters = 2; head = 4 }

-- thread 1 holds the token
abbrev determ : Determ (Unit {0})
determ = record {
  memory = two;
  status = λ t. if t == 1 then status_ready else status_waiting_on_lock;
  tid_parent = λ t. 0;
  joinee_thread_index = λ t. 0;
  cond_of = λ t. none;
  last_logical_clock = λ t. 0;
  locks = λ mutex. if mutex == 0 then some contended else none;
  conds = λ user_cond. record { waiters = 0; head = 0 };
  tokenpos = some 1;
  activation_counter = 0;
  last_token_value = 0;
  last_putter = 0;
  last_getter = 1;
  clock = tt;
}

contended-QueueOf : QueueOf determ 0 true (3 ∷ 6 ∷ [])
contended-QueueOf = record {
  entry = contended;
  found = refl;
  acquired_is = refl;
  ring = two-IsRing;
  waiters_is = refl;
}

holds_token : is_token_holder determ 1 ≡ true
unfolding is_token_holder
holds_token = refl

lock_release-HandedOver_example :
    Returns (HandedOver 0 (3 ∷ 6 ∷ [])) (lock_release services determ 0 1)
lock_release-HandedOver_example =
    lock_release-HandedOver services determ 0 1 true (3 ∷ 6 ∷ []) contended-QueueOf
      (λ other. returns tt)

-- the threads wait on a condition variable instead
abbrev waited : Determ (Unit {0})
waited = record determ {
  locks = λ mutex. none;
  conds = λ user_cond. record { waiters = 2; head = 4 };
}

waited-CondQueue : CondQueue waited 0 (3 ∷ 6 ∷ [])
waited-CondQueue = record { ring = two-IsRing; waiters_is = refl }

cond_signal-CondQueue_example :
    Returns
      (λ d'. CondQueue d' 0 (6 ∷ []) × (d'.status 3 ≡ status_ready))
      (cond_signal services waited 1 0)
cond_signal-CondQueue_example =
    cond_signal-CondQueue services 1 0 (λ s other. returns tt) 3 (6 ∷ []) waited waited-CondQueue

cond_broadcast-CondQueue_example :
    Returns
      (λ d'. CondQueue d' 0 [] × (d'.status 6 ≡ status_ready))
      (cond_broadcast services waited 1 0)
cond_broadcast-CondQueue_example =
    cond_broadcast-CondQueue services 1 0 (λ s other. returns tt) (3 ∷ 6 ∷ []) waited 6
      waited-CondQueue (omega arith, (omega arith, tt))

abbrev token_free : Determ (Unit {0})
token_free = record determ { tokenpos = none }

abbrev token_taken : Determ (Unit {0})
token_taken = record token_free { tokenpos = some 4; last_getter = 4 }

takes : take_token services token_free 4 0 ≡ some (true, token_taken)
unfolding take_token
takes = refl

take_token_holds_example :
    (token_free.tokenpos ≡ none)
    × (token_free.activation_counter ≡ 0)
    × (take_token services token_taken 5 0 ≡ none)
    × (put_token services token_taken 5 true ≡ bug)
    × Returns (λ d''. d''.tokenpos ≡ none) (put_token services token_taken 4 true)
take_token_holds_example = take_token_holds services token_free token_taken 4 5 0 0 true takes refl

-- Two threads arrive at a barrier; the second has written to the globals only.
abbrev pages_of_first : Pages
pages_of_first = record {
  heap_version = 65535;
  globals_version = 8;
  dirty = 3;
  dirty_heap = 2;
  dirty_globals = 1;
}

abbrev pages_of_last : Pages
pages_of_last = record {
  heap_version = 40;
  globals_version = 8;
  dirty = 1;
  dirty_heap = 0;
  dirty_globals = 1;
}

barrier_round_example :
    let r = arrive_all (barrier_init 2) (pages_of_first ∷ pages_of_last ∷ []) in
    Chained 65535 8 (pages_of_first ∷ pages_of_last ∷ []) r.0
    × (r.1.counter ≡ r.1.maxthreads)
    × Returns
        (λ (l : BarrierEntry × Determ (Unit {0})). (l.0 ≡ barrier_init 2) × (l.1.tokenpos ≡ none))
        (leave_barrier services determ r.1 1)
barrier_round_example =
    barrier_round services determ 1 pages_of_first (pages_of_last ∷ []) (omega arith) holds_token
