-- ===== src/Sync/Mutex.antt =====
-- The locks of determ.h.
use consequence.Base.{
  ℕ, zero, suc, ◌+◌, ◌-◌, Bool, true, false, ltb, if◌then◌else◌, none, some, Outcome, ok, ◌>>=◌,
}
use consequence.CircularList.{insert_tail, remove_head_entry, get_head_entry}
use consequence.Sync.{
  status_ready, status_on_deck, status_waiting_on_lock, LockEntry, Determ, Services, address,
  thread_at, deref, set_status, set_lock, put_token, activate_thread,
}

module _ {S : Type 0} (V : Services S) where
  -- `lock_init`
  unfoldable pub lock_init : Determ S → ℕ → Determ S
  lock_init d mutex =
      set_lock d mutex (record { is_acquired = false; waiters = V.fresh_waiters; head = 0 })

  -- "if (entry == NULL)": see whether another thread has made the lock, and make it if not
  unfoldable pub find_lock : Determ S → ℕ → Determ S
  unfolding lock_init
  find_lock d mutex =
      let seen = V.commit_and_update d in
      elim (d.locks mutex) [
        | some entry ↦ d
        | none ↦ elim (seen.locks mutex) [
          | some entry ↦ seen
          | none ↦ V.commit_and_update (lock_init seen mutex)
        ]
      ]

  -- `lock_acquire`
  unfoldable pub lock_acquire : Determ S → ℕ → Outcome (Bool × Determ S)
  unfolding find_lock
  lock_acquire d mutex = do
    let d1 = find_lock d mutex
    entry ← deref (d1.locks mutex)
    ok (
        if entry.is_acquired
        then (false, d1)
        else (true, set_lock d1 mutex (record entry { is_acquired = true })))

  -- `lock_waiters_count`
  unfoldable pub lock_waiters_count : Determ S → ℕ → Outcome ℕ
  lock_waiters_count d mutex = do entry ← deref (d.locks mutex); ok entry.waiters

  -- The next thread that waits on the lock, if there is one, gets ready to spin.
  unfoldable pub put_on_deck : Determ S → LockEntry → Determ S
  put_on_deck d entry = elim (get_head_entry entry.head) [
    | zero ↦ d
    | suc next ↦ if ltb 0 entry.waiters then set_status d next status_on_deck else d
  ]

  -- "if (entry->waiters>0)": hand the lock's turn to the first thread that waits
  unfoldable pub wake_waiter : Determ S → ℕ → ℕ → LockEntry → Outcome (Determ S)
  unfolding activate_thread put_on_deck
  wake_waiter d mutex threadindex entry = do
    (memory, head, first) ← remove_head_entry d.memory entry.head
    let entry1 = record entry { waiters = entry.waiters - 1; head = head }
    waiting ← thread_at first
    d1 ←
        activate_thread V (set_lock (record d { memory = memory }) mutex entry1) threadindex waiting
    ok (put_on_deck (set_status d1 waiting status_ready) entry1)

  -- `lock_release`
  unfoldable pub lock_release : Determ S → ℕ → ℕ → Outcome (Determ S)
  unfolding wake_waiter
  lock_release d mutex threadindex = do
    entry ← deref (d.locks mutex)
    let released = record entry { is_acquired = false }
    if ltb 0 entry.waiters
        then wake_waiter d mutex threadindex released
        else ok (set_lock d mutex released)

  -- `wait_on_lock_and_release_token`, up to where the thread waits
  unfoldable pub wait_on_lock : Determ S → ℕ → ℕ → Outcome (Determ S)
  unfolding put_token
  wait_on_lock d mutex threadindex = do
    entry ← deref (d.locks mutex)
    (memory, head) ← insert_tail d.memory (address threadindex) entry.head
    let d1 =
        set_lock (record d { memory = memory }) mutex
          (record entry { head = head; waiters = entry.waiters + 1 })
    clock ← V.halt d1.clock threadindex
    put_token V (record (set_status d1 threadindex status_waiting_on_lock) { clock = clock })
        threadindex true
