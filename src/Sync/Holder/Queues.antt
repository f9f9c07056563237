-- ===== src/Sync/Holder/Queues.antt =====
-- The operations of determ.h on locks and condition variables, and the token.
use consequence.Base.{
  ℕ, zero, suc, ◌≡◌, refl, ◌∙◌, Bool, true, false, ◌==◌, if_both, store, ltb, ◌+◌, ◌-◌, some, ok,
  ◌>>=◌, Safely, safely, safely_waiting, Safely-bind, Safely-if, Safely-mono, Bool-cases,
  Option-cases, inl, inr,
}
use consequence.CircularList.{get_head_entry}
use consequence.Sync.{
  status_ready, status_cond_waiting, max_threads, status_waiting_on_lock, LockEntry, Determ,
  Services, address, set_status, set_lock, set_cond, leave_cond, is_token_holder, activate_thread,
}
use consequence.Sync.Mutex.{
  lock_init, find_lock, lock_acquire, put_on_deck, wake_waiter, lock_release, wait_on_lock,
}
use consequence.Sync.CondVar.{cond_wait, broadcast_loop, cond_broadcast}
use consequence.Sync.Waiting.{Waits, wait_on_lock_and_release_token, wait_on_cond}
use consequence.Sync.Asserts.{
  insert_tail-NoBug, remove_head_entry-NoBug, deref-NoBug, thread_at-NoBug,
}
use consequence.Sync.Holder.{HolderLaws, put_token-held, wait_until_ready-held}

module _ {S : Type 0} (V : Services S) (E : Waits S) (i : ℕ) (L : HolderLaws V E i) where
  abbrev held : Determ S → Bool
  held d = is_token_holder d i

  -- Waiting for the turn on a lock: the holder puts the token back.
  pub wait_on_lock-held :
      (d : Determ S) (mutex : ℕ)
      → held d ≡ true
      → Safely (λ d'. held d' ≡ false) (wait_on_lock_and_release_token V E d mutex i)
  unfolding wait_on_lock_and_release_token wait_on_lock is_token_holder
  wait_on_lock-held d mutex h =
      Safely-bind
        (Safely-bind (deref-NoBug (d.locks mutex)) λ entry u0.
          Safely-bind (insert_tail-NoBug d.memory (address i) entry.head) λ r u1.
            Safely-bind (L.halt d.clock i) λ clock u2.
              put_token-held V E i L
                (record (set_status
                  (set_lock (record d { memory = r.0 }) mutex
                    (record entry { head = r.1; waiters = entry.waiters + 1 }))
                  i status_waiting_on_lock) { clock = clock })
                true h)
        λ d1 free. Safely-mono (wait_until_ready-held V E i L E.rounds d1) λ d2 same. same ∙ free

  activate_thread-held :
      (d : Determ S) (other : ℕ) → Safely (λ d'. held d' ≡ held d) (activate_thread V d i other)
  unfolding activate_thread is_token_holder
  activate_thread-held d other = Safely-bind (L.activate_other d.clock i other) λ r u. safely refl

  put_on_deck-head :
      (d : Determ S) (entry : LockEntry) (first : ℕ)
      → get_head_entry entry.head ≡ first
      → held (put_on_deck V d entry) ≡ held d
  unfolding put_on_deck is_token_holder
  put_on_deck-head d entry zero e = rw (e, put_on_deck) refl
  put_on_deck-head d entry (suc next) e = elim (Bool-cases (ltb 0 entry.waiters)) [
    | inl some_wait ↦ rw (e, put_on_deck, some_wait) refl
    | inr none_wait ↦ rw (e, put_on_deck, none_wait) refl
  ]

  wake_waiter-held :
      (d : Determ S) (mutex : ℕ) (entry : LockEntry)
      → Safely (λ d'. held d' ≡ held d) (wake_waiter V d mutex i entry)
  unfolding wake_waiter is_token_holder
  wake_waiter-held d mutex entry = Safely-bind (remove_head_entry-NoBug d.memory entry.head) λ r u0.
      Safely-bind (thread_at-NoBug r.2) λ waiting u1.
        let entry1 = record entry { waiters = entry.waiters - 1; head = r.1 } in
        Safely-bind
          (activate_thread-held (set_lock (record d { memory = r.0 }) mutex entry1) waiting)
          λ d1 same. safely (
            put_on_deck-head (set_status d1 waiting status_ready) entry1 (get_head_entry r.1) refl
            ∙ same)

  pub lock_release-held :
      (d : Determ S) (mutex : ℕ) → Safely (λ d'. held d' ≡ held d) (lock_release V d mutex i)
  unfolding lock_release is_token_holder
  lock_release-held d mutex = Safely-bind (deref-NoBug (d.locks mutex)) λ entry u.
      Safely-if (ltb 0 entry.waiters)
        (wake_waiter-held d mutex (record entry { is_acquired = false })) (safely refl)

  find_lock-held : (d : Determ S) (mutex : ℕ) → held (find_lock V d mutex) ≡ held d
  unfolding find_lock lock_init is_token_holder
  find_lock-held d mutex = elim (Option-cases (d.locks mutex)) [
    | inr (entry, e) ↦ rw (e, find_lock) refl
    | inl e ↦ elim (Option-cases ((V.commit_and_update d).locks mutex)) [
      | inr (entry, e1) ↦ rw (e, find_lock, e1) (L.commit d)
      | inl e1 ↦
          rw (e, find_lock, e1) (L.commit (lock_init V (V.commit_and_update d) mutex) ∙ L.commit d)
    ]
  ]

  pub lock_acquire-held :
      (d : Determ S) (mutex : ℕ)
      → Safely (λ (r : Bool × Determ S). held r.1 ≡ held d) (lock_acquire V d mutex)
  unfolding lock_acquire is_token_holder
  lock_acquire-held d mutex =
      let d1 = find_lock V d mutex in
      Safely-bind (deref-NoBug (d1.locks mutex)) λ entry u. safely (
        if_both (λ (r : Bool × Determ S). held r.1 ≡ held d) entry.is_acquired (false, d1)
          (true, set_lock d1 mutex (record entry { is_acquired = true })) (find_lock-held d mutex)
          (find_lock-held d mutex))

  -- Waiting on a condition variable: the same as on a lock.
  pub wait_on_cond-held :
      (d : Determ S) (user_cond thelock : ℕ)
      → held d ≡ true
      → Safely (λ d'. held d' ≡ false) (wait_on_cond V E d i user_cond thelock)
  unfolding wait_on_cond cond_wait is_token_holder
  wait_on_cond-held d user_cond thelock h =
      let entry = d.conds user_cond in
      Safely-bind
        (Safely-bind (insert_tail-NoBug d.memory (address i) entry.head) λ r u0.
          let d1 =
            set_cond (record d { memory = r.0; cond_of = store d.cond_of i (some user_cond) })
              user_cond (record { waiters = entry.waiters + 1; head = r.1 }) in
          Safely-bind (lock_release-held (set_status d1 i status_cond_waiting) thelock) λ d2 same.
            Safely-bind (L.halt d2.clock i)
              λ clock u1. put_token-held V E i L (record d2 { clock = clock }) true (same ∙ h))
        λ d1 free. Safely-mono (wait_until_ready-held V E i L E.rounds d1) λ d2 same. same ∙ free

  broadcast_loop-held :
      (fuel : ℕ) (d : Determ S) (user_cond : ℕ)
      → Safely (λ d'. held d' ≡ held d) (broadcast_loop V fuel d i user_cond)
  unfolding broadcast_loop is_token_holder
  broadcast_loop-held zero d user_cond = safely_waiting
  broadcast_loop-held (suc fuel) d user_cond =
      Safely-bind (remove_head_entry-NoBug d.memory (d.conds user_cond).head) λ r u0.
        elim r.2
          as (λ first.
            Safely (λ d'. held d' ≡ held d)
              (elim first [
                | zero ↦ ok d
                | suc waiting ↦ do
                  let d1 = leave_cond d user_cond waiting r.1 r.0
                  (lowest, clock) ← V.activate_other d1.clock i waiting
                  broadcast_loop V fuel (record d1 { clock = clock }) i user_cond
              ])) [
                | zero ↦ safely refl
                | suc waiting ↦ Safely-bind (L.activate_other d.clock i waiting) λ a u1.
                    broadcast_loop-held fuel
                      (record (leave_cond d user_cond waiting r.1 r.0) { clock = a.1 }) user_cond
              ]

  pub cond_broadcast-held :
      (d : Determ S) (user_cond : ℕ)
      → Safely (λ d'. held d' ≡ held d) (cond_broadcast V d i user_cond)
  unfolding cond_broadcast is_token_holder
  cond_broadcast-held d user_cond =
      Safely-if ((d.conds user_cond).waiters == 0) (safely refl)
        (Safely-bind (broadcast_loop-held (max_threads + 1) d user_cond) λ d1 same. safely same)
