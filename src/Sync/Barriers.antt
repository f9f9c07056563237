-- ===== src/Sync/Barriers.antt =====
-- The barriers of determ.h, and the cancellation of a thread. A barrier's threads arrive one after the
-- other, each with the token; the last keeps it. What the thread's versioned memory says at a point
-- is a record of numbers. The thread's wait for all others, at the real barrier, lies between the
-- steps.
pub mod Rounds
use consequence.Base.{
  ℕ, ◌+◌, ◌*◌, ◌/◌, ◌%◌, ◌^◌, u64, Bool, true, false, ◌&&◌, ◌||◌, not, ltb, ◌==◌, if◌then◌else◌,
  List, [], ◌∷◌, none, some, Outcome, ok, bug, out_of_bounds, ◌>>=◌, ◌>>◌, bug_on,
}
use consequence.CircularList.{remove_entry}
use consequence.Sync.{
  status_exit, status_ready, status_joining, status_cond_waiting, status_barr_waiting,
  status_others_need_to_wait, status_waiting_on_lock, status_on_deck, status_forking, Determ,
  Services, address, set_status, set_cond, is_token_holder, put_token,
}

-- `class BarrierEntry`
pub record BarrierEntry : Type 0 where
  pub maxthreads : ℕ
  pub threads : ℕ
  pub arrival_phase : Bool
  pub counter : ℕ
  pub heap_version : ℕ
  pub globals_version : ℕ
  pub committed : ℕ
  pub total_dirty : ℕ

-- what `xmemory` says to a thread that arrives: its versions, and how many pages it has written
pub record Pages : Type 0 where
  pub heap_version : ℕ
  pub globals_version : ℕ
  pub dirty : ℕ
  pub dirty_heap : ℕ
  pub dirty_globals : ℕ

-- the versions that a thread waits for before it commits, and those that it makes
pub record Versions : Type 0 where
  pub heap_version : ℕ
  pub globals_version : ℕ
  pub our_heap_version : ℕ
  pub our_globals_version : ℕ

-- `barrier_init`
unfoldable pub barrier_init : ℕ → BarrierEntry
barrier_init count = record {
  maxthreads = count;
  threads = 0;
  arrival_phase = true;
  counter = 0;
  heap_version = 0;
  globals_version = 0;
  committed = 0;
  total_dirty = 0;
}

-- the value that a `uint16_t` keeps
abbrev pub u16 : ℕ → ℕ
u16 n = n % 2 ^ 16

-- "(pages>0) ? 1 : 0", added to a version, which is a `uint16_t`
unfoldable pub next_version : ℕ → ℕ → ℕ
next_version version pages = u16 (version + (if ltb 0 pages then 1 else 0))

-- Of `barrier_wait`, what the thread does to the barrier once it has the token.
unfoldable pub arrive : BarrierEntry → Pages → Versions × BarrierEntry
unfolding next_version
arrive barr pages =
    let counter = u16 (barr.counter + 1) in
    let first = counter == 1 in
    let heap = if first then u16 pages.heap_version else barr.heap_version in
    let globals = if first then u16 pages.globals_version else barr.globals_version in
    let our_heap = next_version heap pages.dirty_heap in
    let our_globals = next_version globals pages.dirty_globals in
    (
      record {
        heap_version = heap;
        globals_version = globals;
        our_heap_version = our_heap;
        our_globals_version = our_globals;
      },
      record barr {
        counter = counter;
        total_dirty = (barr.total_dirty + pages.dirty) % 2 ^ 32;
        heap_version = our_heap;
        globals_version = our_globals;
      },
    )

-- What a thread sees of the barrier and the versions in one round of `__wait_for_commiters`.
pub record Look : Type 0 where
  pub committed : ℕ
  pub total_dirty : ℕ
  pub heap_version : ℕ
  pub globals_version : ℕ

-- `__wait_for_commiters`, over what it sees: how often it updates its memory
unfoldable pub wait_for_commiters : ℕ → List Look → ℕ → ℕ → ℕ → ℕ
wait_for_commiters maxthreads [] counter heap_version globals_version = 0
wait_for_commiters maxthreads (look ∷ looks) counter heap_version globals_version =
    let updated =
      1 + wait_for_commiters maxthreads looks 0 look.heap_version look.globals_version in
    let waited = wait_for_commiters maxthreads looks (counter + 1) heap_version globals_version in
    if not (ltb counter 100000 && ltb (look.committed + 1) maxthreads)
    then 0
    else if ltb (maxthreads / 2) look.committed && ltb look.total_dirty (maxthreads * 10)
    then 0
    else if ltb heap_version look.heap_version || ltb globals_version look.globals_version
    then updated
    else waited

module _ {S : Type 0} (V : Services S) where
  -- `barrier_wait`, from where the thread has the token up to its commit
  unfoldable pub enter_barrier :
      Determ S → BarrierEntry → ℕ → Pages → Outcome (Versions × BarrierEntry × Determ S)
  unfolding arrive put_token
  enter_barrier d barr threadindex pages =
      let (versions, barr1) = arrive barr pages in
      if barr1.counter == barr1.maxthreads then ok (versions, barr1, d) else do
        clock ← V.halt d.clock threadindex
        d1 ← put_token V (record d { clock = clock }) threadindex true
        ok (versions, barr1, d1)

  -- "if (!isTokenHolder(threadindex))": back among the threads that may get the token
  unfoldable pub rejoin : Determ S → ℕ → Outcome (Determ S)
  unfolding is_token_holder
  rejoin d threadindex =
      if is_token_holder d threadindex
      then ok d
      else do clock ← V.activate d.clock threadindex; ok (record d { clock = clock })

  -- The end of `barrier_wait`: the token holder cleans up.
  unfoldable pub leave_barrier : Determ S → BarrierEntry → ℕ → Outcome (BarrierEntry × Determ S)
  unfolding is_token_holder put_token
  leave_barrier d barr threadindex =
      if not (is_token_holder d threadindex) then ok (barr, d) else do
        d1 ←
            put_token V (record d { activation_counter = u64 (d.activation_counter + 1) })
              threadindex true
        ok (
          record barr {
            counter = 0;
            heap_version = 0;
            globals_version = 0;
            committed = 0;
            total_dirty = 0;
          },
          d1,
        )

  -- Of `cancel`, what is done to a thread that waits on a condition variable.
  unfoldable pub cancel_waiter : Determ S → ℕ → ℕ → Outcome (Bool × Determ S)
  unfolding remove_entry
  cancel_waiter d threadindex user_cond = do
    let entry = d.conds user_cond
    (memory, head) ← remove_entry d.memory (address threadindex) entry.head
    bug_on (not (entry.waiters == 0))
    bug_on (head == 0)
    let d1 =
        set_cond (record d { memory = memory }) user_cond
          (record { waiters = entry.waiters; head = head })
    ok (true, set_status d1 threadindex status_exit)

  -- `cancel`
  unfoldable pub cancel : Determ S → ℕ → Outcome (Bool × Determ S)
  unfolding cancel_waiter
  cancel d threadindex = elim (d.status threadindex) [
    | status_exit ↦ ok (false, d)
    | status_cond_waiting ↦ elim (d.cond_of threadindex) [
      | none ↦ out_of_bounds
      | some user_cond ↦ cancel_waiter d threadindex user_cond
    ]
    | status_barr_waiting ↦ bug
    | status_ready ↦ bug
    | status_joining ↦ bug
    | status_others_need_to_wait ↦ bug
    | status_waiting_on_lock ↦ bug
    | status_on_deck ↦ bug
    | status_forking ↦ bug
  ]
