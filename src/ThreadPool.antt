-- ===== src/ThreadPool.antt =====
-- thread_lib/include/thread_pool.h: the pool of parked threads, a list linked both ways from which the
-- thread that has been in it longest is taken. A pointer to the entry at index i of the array is
-- i + 1, which is also the entry's id, and NULL is 0. The pool's lock is left out (a function under it
-- is one step); the copy of the parent's stack is in Stacks.
pub mod Fifo
pub mod Handing
pub mod Stacks
pub mod Tests
use consequence.Base.{
  ℕ, zero, suc, ◌+◌, ◌-◌, ◌%◌, ◌^◌, Bool, true, false, not, ltb, ◌==◌, if◌then◌else◌, store,
  Outcome, ok, ◌>>=◌, ◌>>◌, bug_on, in_range,
}

-- `THREAD_POOL_ENTRY_EXIT`, `_WAITING`, `_READY` and `_INIT`
pub data EntryStatus : Type 0 where
  entry_exit : EntryStatus
  entry_waiting : EntryStatus
  entry_ready : EntryStatus
  entry_init : EntryStatus

abbrev pub is_waiting : EntryStatus → Bool
is_waiting entry_waiting = true
is_waiting entry_exit = false
is_waiting entry_ready = false
is_waiting entry_init = false

abbrev pub is_init : EntryStatus → Bool
is_init entry_init = true
is_init entry_waiting = false
is_init entry_exit = false
is_init entry_ready = false

-- `THREAD_POOL_MAX_SIZE`
abbrev pub max_size : ℕ
max_size = 256

-- `class ThreadPool`, with the entries' fields as functions of the pointer
pub record Pool : Type 0 where
  pub head : ℕ
  pub tail : ℕ
  pub next : ℕ → ℕ
  pub prev : ℕ → ℕ
  pub status : ℕ → EntryStatus
  pub run_function : ℕ → ℕ
  pub run_function_arg : ℕ → ℕ
  pub is_stack_allocated : ℕ → Bool
  pub id_counter : ℕ

-- `initialize`
unfoldable pub initialize : Pool → Pool
initialize p = record p {
  status = λ entry. entry_init;
  run_function = λ entry. 0;
  run_function_arg = λ entry. 0;
  is_stack_allocated = λ entry. false;
  id_counter = 0;
  head = 0;
  tail = 0;
}

-- Of `add_thread_to_pool`, what is done under the lock.
unfoldable pub link_entry : Pool → ℕ → Pool
link_entry p entry =
    if p.head == 0
    then record p {
      next = store p.next entry 0;
      prev = store p.prev entry 0;
      head = entry;
      tail = entry;
    }
    else record p {
      next = store (store p.next entry 0) entry p.head;
      prev = store (store p.prev entry 0) p.head entry;
      head = entry;
    }

-- `add_thread_to_pool`, in a build with `DISABLE_THREAD_POOL` or without
unfoldable pub add_thread_to_pool : Bool → Pool → ℕ → Pool
unfolding link_entry
add_thread_to_pool disabled p entry =
    let p1 = link_entry p entry in
    record p1 {
      is_stack_allocated = store p1.is_stack_allocated entry false;
      status = store p1.status entry (if disabled then entry_init else entry_waiting);
    }

-- `add_thread_to_pool_by_id`, which asserts that the id is not 0
unfoldable pub add_thread_to_pool_by_id : Bool → Pool → ℕ → Outcome Pool
unfolding add_thread_to_pool
add_thread_to_pool_by_id disabled p id = bug_on (id == 0) >> ok (add_thread_to_pool disabled p id)

-- `set_exit_by_id`
unfoldable pub set_exit_by_id : Pool → ℕ → Pool
set_exit_by_id p id = record p {
  status = store p.status id entry_exit;
  is_stack_allocated = store p.is_stack_allocated id false;
}

-- The last entry leaves the list.
unfoldable pub unlink_tail : Pool → Pool
unlink_tail p =
    let before = p.prev p.tail in
    if before == 0
    then record p { tail = 0; head = 0 }
    else record p { tail = before; next = store p.next before 0 }

-- Of `get_thread`, what is done under the lock: an entry from the pool, or a new one, or NULL.
unfoldable pub take_entry : Pool → Outcome (ℕ × Pool)
unfolding unlink_tail
take_entry p =
    if not (p.tail == 0)
    then ok (p.tail, unlink_tail p)
    else if ltb p.id_counter (max_size - 1)
    then (bug_on (not (is_init (p.status (p.id_counter + 1))))
        >> ok (p.id_counter + 1, record p { id_counter = (p.id_counter + 1) % 2 ^ 32 }))
    else ok (0, p)

-- `get_thread`, where `activate` is `determ_task_clock_activate_other` on the clock's state
unfoldable pub get_thread {ℓ} :
    {C : Type ℓ} → (C → ℕ → Outcome C) → Pool → C → ℕ → ℕ → Bool → Outcome (ℕ × Pool × C)
unfolding take_entry
get_thread activate p clock run arg on_stack = do
  (entry, p1) ← take_entry p
  in_range (not (entry == 0))
  clock1 ← activate clock entry
  ok (
    entry,
    record p1 {
      run_function = store p1.run_function entry run;
      run_function_arg = store p1.run_function_arg entry arg;
      is_stack_allocated = store p1.is_stack_allocated entry on_stack;
      status =
          store p1.status entry (if is_waiting (p1.status entry) then entry_ready else entry_init);
    },
    clock1,
  )

-- The loop of `terminate_all`, over the first entries.
unfoldable pub terminate_first : ℕ → Pool → Pool
terminate_first zero p = p
terminate_first (suc n) p =
    let p1 = terminate_first n p in
    if is_waiting (p1.status (suc n))
    then record p1 { status = store p1.status (suc n) entry_exit }
    else p1

-- `terminate_all`
unfoldable pub terminate_all : Bool → Pool → Pool
unfolding terminate_first
terminate_all disabled p = if disabled then p else terminate_first max_size p
