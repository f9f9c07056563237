-- ===== src/Sync/CondVar.antt =====
-- The condition variables of determ.h.
use consequence.Base.{
  ℕ, zero, suc, ◌+◌, u64, true, ◌==◌, if◌then◌else◌, store, some, Outcome, ok, out_of_fuel, ◌>>=◌,
  ◌>>◌, bug_on,
}
use consequence.CircularList.{insert_tail, remove_head_entry}
use consequence.Sync.{
  status_cond_waiting, max_threads, Determ, Services, address, thread_at, set_status, set_cond,
  leave_cond, put_token, activate_thread,
}
use consequence.Sync.Mutex.{lock_release}

module _ {S : Type 0} (V : Services S) where
  -- `cond_init`
  unfoldable pub cond_init : Determ S → ℕ → Determ S
  cond_init d user_cond = set_cond d user_cond (record { waiters = 0; head = 0 })

  -- `cond_wait`, up to where the thread waits
  unfoldable pub cond_wait : Determ S → ℕ → ℕ → ℕ → Outcome (Determ S)
  unfolding lock_release put_token
  cond_wait d threadindex user_cond thelock = do
    let entry = d.conds user_cond
    (memory, head) ← insert_tail d.memory (address threadindex) entry.head
    let d1 =
        set_cond
          (record d { memory = memory; cond_of = store d.cond_of threadindex (some user_cond) })
          user_cond (record { waiters = entry.waiters + 1; head = head })
    d2 ← lock_release V (set_status d1 threadindex status_cond_waiting) thelock threadindex
    clock ← V.halt d2.clock threadindex
    put_token V (record d2 { clock = clock }) threadindex true

  -- `cond_signal`
  unfoldable pub cond_signal : Determ S → ℕ → ℕ → Outcome (Determ S)
  unfolding activate_thread
  cond_signal d threadindex user_cond =
      let entry = d.conds user_cond in
      let woken : Outcome (Determ S) = (do
        (memory, head, first) ← remove_head_entry d.memory entry.head
        bug_on (first == 0)
        waiting ← thread_at first
        activate_thread V (leave_cond d user_cond waiting head memory) threadindex waiting) in
      if entry.waiters == 0 then ok d else woken

  -- The loop of `cond_broadcast`, on fuel.
  unfoldable pub broadcast_loop : ℕ → Determ S → ℕ → ℕ → Outcome (Determ S)
  broadcast_loop zero d threadindex user_cond = out_of_fuel
  broadcast_loop (suc fuel) d threadindex user_cond = do
    (memory, head, first) ← remove_head_entry d.memory (d.conds user_cond).head
    elim first [
      | zero ↦ ok d
      | suc waiting ↦ do
        let d1 = leave_cond d user_cond waiting head memory
        (lowest, clock) ← V.activate_other d1.clock threadindex waiting
        broadcast_loop fuel (record d1 { clock = clock }) threadindex user_cond
    ]

  -- `cond_broadcast`; a queue holds each thread once, so that a round for each thread and one more is
  -- enough.
  unfoldable pub cond_broadcast : Determ S → ℕ → ℕ → Outcome (Determ S)
  unfolding broadcast_loop
  cond_broadcast d threadindex user_cond =
      let woken : Outcome (Determ S) = (do
        d1 ← broadcast_loop (max_threads + 1) d threadindex user_cond
        ok (record d1 { activation_counter = u64 (d1.activation_counter + 1) })) in
      if (d.conds user_cond).waiters == 0 then ok d else woken
