-- ===== src/Sync.antt =====
-- thread_lib/include/determ.h: the token, the locks and the condition variables. A thread is its
-- index, and the address of its entry is one more than that, so that 0 stays NULL. An operation that
-- blocks is two definitions, what it does before and what it does once it runs again. The mutex
-- `_mutex` is left out, since what is done under it is one step; so are timers and the waking of
-- threads, which look at their status again. The calls of the log of events, which is in Events, are
-- left out here.
pub mod Mutex
pub mod CondVar
pub mod Locks
pub mod Conds
pub mod Token
pub mod Waiting
pub mod Barriers
pub mod SimpleBarrier
pub mod Events
pub mod Entries
pub mod Asserts
pub mod Holder
pub mod Tests
use consequence.Base.{
  ℕ, zero, suc, ◌+◌, ◌-◌, u64, Bool, true, false, ◌&&◌, ◌||◌, not, ltb, ◌==◌, if◌then◌else◌, store,
  Option, none, some, Outcome, ok, bug, out_of_bounds, out_of_fuel, ◌>>=◌, ◌>>◌, bug_on,
}
use consequence.CircularList.{Memory, insert_tail, remove_head_entry, get_head_entry}

-- `MAX_THREADS`
abbrev pub max_threads : ℕ
max_threads = 2048

-- `enum threadStatus`
pub data ThreadStatus : Type 0 where
  status_cond_waiting : ThreadStatus
  status_barr_waiting : ThreadStatus
  status_ready : ThreadStatus
  status_exit : ThreadStatus
  status_joining : ThreadStatus
  status_others_need_to_wait : ThreadStatus
  status_waiting_on_lock : ThreadStatus
  status_on_deck : ThreadStatus
  status_forking : ThreadStatus

-- `class LockEntry`
pub record LockEntry : Type 0 where
  pub is_acquired : Bool
  pub waiters : ℕ
  pub head : ℕ

-- `class CondEntry`
pub record CondEntry : Type 0 where
  pub waiters : ℕ
  pub head : ℕ

-- The shared state of `class determ`, with the entries' fields as functions of the thread's index,
-- and the clock's state. A lock's entry is found through the mutex, whose memory is versioned:
-- `locks` is what the calling thread sees, and NULL is none.
pub record Determ (S : Type 0) : Type 0 where
  pub memory : Memory
  pub status : ℕ → ThreadStatus
  pub tid_parent : ℕ → ℕ
  pub joinee_thread_index : ℕ → ℕ
  pub cond_of : ℕ → Option ℕ
  pub last_logical_clock : ℕ → ℕ
  pub locks : ℕ → Option LockEntry
  pub conds : ℕ → CondEntry
  pub tokenpos : Option ℕ
  pub activation_counter : ℕ
  pub last_token_value : ℕ
  pub last_putter : ℕ
  pub last_getter : ℕ
  pub clock : S

-- What the locks ask of the calling thread's clock, of the versioned memory, and of the allocator:
-- the number of waiters that lies in a new `LockEntry`, which `lock_init` does not set.
pub record Services (S : Type 0) : Type 0 where
  pub read : S → ℕ → ℕ
  pub halt : S → ℕ → Outcome S
  pub reset : S → ℕ → Outcome S
  pub activate : S → ℕ → Outcome S
  pub activate_other : S → ℕ → ℕ → Outcome (Bool × S)
  pub on_wakeup : S → ℕ → S
  pub commit_and_update : Determ S → Determ S
  pub fresh_waiters : ℕ

-- a thread's entry as an address, and back
abbrev pub address : ℕ → ℕ
address threadindex = suc threadindex

abbrev pub thread_at : ℕ → Outcome ℕ
thread_at zero = out_of_bounds
thread_at (suc threadindex) = ok threadindex

-- an access through a pointer that may be NULL
abbrev pub deref : Option LockEntry → Outcome LockEntry
deref none = out_of_bounds
deref (some entry) = ok entry

module _ {S : Type 0} where
  abbrev pub set_status : Determ S → ℕ → ThreadStatus → Determ S
  set_status d threadindex status = record d { status = store d.status threadindex status }

  abbrev pub set_lock : Determ S → ℕ → LockEntry → Determ S
  set_lock d mutex entry = record d { locks = store d.locks mutex (some entry) }

  abbrev pub set_cond : Determ S → ℕ → CondEntry → Determ S
  set_cond d user_cond entry = record d { conds = store d.conds user_cond entry }

  -- `_tokenpos->threadindex` is the thread, and there is a holder
  unfoldable pub is_token_holder : Determ S → ℕ → Bool
  is_token_holder d threadindex = elim d.tokenpos [
    | none ↦ false
    | some holder ↦ holder == threadindex
  ]

  -- A thread leaves the queue of a condition variable.
  abbrev pub leave_cond : Determ S → ℕ → ℕ → ℕ → Memory → Determ S
  leave_cond d user_cond waiting head memory =
      let entry = d.conds user_cond in
      set_cond
        (set_status (record d { memory = memory; cond_of = store d.cond_of waiting none }) waiting
          status_ready)
        user_cond (record { waiters = entry.waiters - 1; head = head })

module _ {S : Type 0} (V : Services S) where
  -- `__putToken`: a thread that does not hold the token fails an assertion
  unfoldable pub put_token : Determ S → ℕ → Bool → Outcome (Determ S)
  unfolding is_token_holder
  put_token d threadindex consider_for_fast_forward =
      bug_on (not (is_token_holder d threadindex))
      >> ok (record d {
        last_token_value =
            if consider_for_fast_forward then V.read d.clock threadindex else d.last_token_value;
        tokenpos = none;
        last_putter = threadindex;
        last_logical_clock = store d.last_logical_clock threadindex (V.read d.clock threadindex);
      })

  -- `__getToken` once the thread is the lowest: none if another holds the token, and otherwise
  -- whether it was kept, which it is not if a thread was activated since `local_activation_counter`
  unfoldable pub take_token : Determ S → ℕ → ℕ → Option (Bool × Determ S)
  take_token d threadindex local_activation_counter = elim d.tokenpos [
    | some holder ↦ none
    | none ↦ some (
        if d.activation_counter == local_activation_counter
        then (true, record d { tokenpos = some threadindex; last_getter = threadindex })
        else (false, record d { tokenpos = none; clock = V.on_wakeup d.clock threadindex }))
  ]

  -- `determ_task_clock_activate_other` of a thread, and "_activation_counter++" if it is the lowest
  unfoldable pub activate_thread : Determ S → ℕ → ℕ → Outcome (Determ S)
  activate_thread d threadindex other = do
    (lowest, clock) ← V.activate_other d.clock threadindex other
    ok (record d {
      clock = clock;
      activation_counter = if lowest then u64 (d.activation_counter + 1) else d.activation_counter;
    })

  -- `registerThread`
  unfoldable pub register_thread : Determ S → ℕ → ℕ → Determ S
  register_thread d threadindex parentindex =
      set_status (record d { tid_parent = store d.tid_parent threadindex parentindex }) threadindex
        status_ready

  -- `deregisterThread`, up to where the thread waits for a parent that joins it
  unfoldable pub leave_threads : Determ S → ℕ → Determ S
  leave_threads d threadindex =
      let d1 = set_status d threadindex status_exit in
      let parent = d1.tid_parent threadindex in
      elim (d1.status parent) [
        | status_joining ↦
            if d1.joinee_thread_index parent == threadindex
            then set_status d1 parent status_others_need_to_wait
            else d1
        | status_cond_waiting ↦ d1
        | status_barr_waiting ↦ d1
        | status_ready ↦ d1
        | status_exit ↦ d1
        | status_others_need_to_wait ↦ d1
        | status_waiting_on_lock ↦ d1
        | status_on_deck ↦ d1
        | status_forking ↦ d1
      ]

  -- the rest of `deregisterThread`
  unfoldable pub deregister_thread : Determ S → ℕ → Outcome (Determ S)
  unfolding put_token
  deregister_thread d threadindex = do
    clock ← V.halt d.clock threadindex
    clock1 ← V.reset clock threadindex
    put_token (record d { clock = clock1 }) threadindex true
