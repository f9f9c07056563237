-- ===== src/Sync/Holder.antt =====
-- Which operations of determ.h change whether a thread holds the token.
pub mod Queues
pub mod Joins
use consequence.Base.{
  ℕ, zero, suc, ◌≡◌, ◌⊎◌, refl, ap, sym, ◌∙◌, arith, Bool, true, false, ◌&&◌, not, ◌==◌, ==_refl,
  if◌then◌else◌, if_both, store, ltb, ◌+◌, ◌-◌, Option, none, some, Outcome, ok, in_range, bug_on,
  ◌>>◌, ◌>>=◌, Safely, safely, safely_outside, safely_waiting, Safely-bind, Safely-if, Safely-mono,
  Safely-cases, Bool-cases, Option-cases, inl, inr,
}
use consequence.CircularList.{
  Memory, links_at, write_prev, write_next, insert_tail, get_head_entry, remove_entry,
  remove_head_entry,
}
use consequence.Sync.{
  status_ready, status_exit, status_joining, status_cond_waiting, max_threads,
  status_waiting_on_lock, LockEntry, Determ, Services, address, thread_at, deref, set_status,
  set_lock, set_cond, leave_cond, is_token_holder, put_token, take_token, activate_thread,
}
use consequence.Sync.Mutex.{
  lock_init, find_lock, lock_acquire, put_on_deck, wake_waiter, lock_release, wait_on_lock,
}
use consequence.Sync.CondVar.{cond_wait, broadcast_loop, cond_broadcast}
use consequence.Sync.Waiting.{
  Waits, is_ready, has_exited, max_spins, spin_for_lowest, spin_for_token, try_token, get_token,
  wait_until_ready, wait_on_lock_and_release_token, wait_on_cond, wait_for_exit, join_alive, join,
}
use consequence.Sync.Asserts.{
  NoBug, bug_on-Safely, insert_tail-NoBug, remove_head_entry-NoBug, deref-NoBug, thread_at-NoBug,
}

-- What thread `i` needs of its clock and of the others: no assertion fails at a call, and nobody else
-- gives it the token or takes it away.
pub record HolderLaws {S : Type 0} (V : Services S) (E : Waits S) (i : ℕ) : Type 0 where
  pub halt : (s : S) (t : ℕ) → NoBug (V.halt s t)
  pub activate : (s : S) (t : ℕ) → NoBug (V.activate s t)
  pub activate_other : (s : S) (t other : ℕ) → NoBug (V.activate_other s t other)
  pub is_lowest : (s : S) (t : ℕ) → NoBug (E.is_lowest s t)
  pub is_lowest_wait : (s : S) (t : ℕ) → NoBug (E.is_lowest_wait s t)
  pub others : (d : Determ S) → is_token_holder (E.others d) i ≡ is_token_holder d i
  pub partial_update : (d : Determ S) → is_token_holder (E.partial_update d) i ≡ is_token_holder d i
  pub commit : (d : Determ S) → is_token_holder (V.commit_and_update d) i ≡ is_token_holder d i

module _ {S : Type 0} (V : Services S) (E : Waits S) (i : ℕ) (L : HolderLaws V E i) where
  abbrev held : Determ S → Bool
  held d = is_token_holder d i

  pub put_token-held :
      (d : Determ S) (b : Bool) → held d ≡ true → Safely (λ d'. held d' ≡ false) (put_token V d i b)
  unfolding put_token is_token_holder
  put_token-held d b h = rw h (safely refl)

  spin_for_lowest-held :
      (spins : ℕ) (d : Determ S) (counter : ℕ)
      → Safely
          (λ (r : Bool × ℕ × Determ S). held r.2 ≡ held d)
          (spin_for_lowest V E spins d i counter)
  unfolding spin_for_lowest is_token_holder
  spin_for_lowest-held zero d counter = safely refl
  spin_for_lowest-held (suc spins) d counter = Safely-bind (L.is_lowest (E.others d).clock i) λ r u.
      let d2 = E.others (record (E.others d) { clock = r.1 }) in
      let d3 = E.partial_update d2 in
      let same : held d3 ≡ held d =
        L.partial_update d2 ∙ (L.others (record (E.others d) { clock = r.1 }) ∙ L.others d) in
      elim r.0
        as (λ l.
          Safely (λ (r' : Bool × ℕ × Determ S). held r'.2 ≡ held d)
            (elim l [
              | true ↦ ok (true, d2.activation_counter, d3)
              | false ↦ spin_for_lowest V E spins d3 i d2.activation_counter
            ])) [
              | true ↦ safely same
              | false ↦
                  Safely-mono (spin_for_lowest-held spins d3 d2.activation_counter) λ r' e. e ∙ same
            ]

  take_token-held :
      (d : Determ S) (counter : ℕ)
      → (take_token V d i counter ≡ none)
        ⊎ ((r : Bool × Determ S) × (take_token V d i counter ≡ some r) × (held r.1 ≡ r.0))
  unfolding take_token is_token_holder
  take_token-held d counter = elim (Option-cases d.tokenpos) [
    | inr (t, e) ↦ inl (rw e)
    | inl e ↦ elim (Bool-cases (d.activation_counter == counter)) [
      | inl same ↦
          inr
            ((true, record d { tokenpos = some i; last_getter = i }), rw (e, same) refl, ==_refl i)
      | inr other ↦ inr (
        (false, record d { tokenpos = none; clock = V.on_wakeup d.clock i }),
        rw (e, other) refl,
        refl,
      )
    ]
  ]

  spin_for_token-held :
      (looks : ℕ) (d : Determ S) (counter : ℕ)
      → Safely (λ (r : Bool × Determ S). held r.1 ≡ r.0) (spin_for_token V E looks d i counter)
  unfolding spin_for_token
  spin_for_token-held zero d counter = safely_waiting
  spin_for_token-held (suc looks) d counter = elim (take_token-held (E.others d) counter) [
    | inl e ↦ rw (e, spin_for_token) (spin_for_token-held looks (E.others d) counter)
    | inr (r, e, h) ↦ rw (e, spin_for_token) (safely h)
  ]

  try_token-held :
      (d : Determ S) → Safely (λ (r : Bool × Determ S). held r.1 ≡ r.0) (try_token V E d i)
  unfolding try_token
  try_token-held d = Safely-bind (spin_for_lowest-held max_spins d d.activation_counter) λ r same.
      let waits : NoBug (
          if r.0 then ok r.2 else (do
            clock ← E.is_lowest_wait r.2.clock i
            ok (E.others (record (r.2) { clock = clock })))) =
        Safely-if r.0 (safely tt)
          (Safely-bind (L.is_lowest_wait r.2.clock i) λ clock u. safely tt) in
      Safely-bind waits λ d2 u. spin_for_token-held E.rounds d2 r.1

  -- Getting the token: afterwards the thread has it.
  pub get_token-held :
      (tries : ℕ) (d : Determ S) → Safely (λ d'. held d' ≡ true) (get_token V E tries d i)
  unfolding get_token
  get_token-held zero d = safely_waiting
  get_token-held (suc tries) d = Safely-bind (try_token-held d) λ r h. elim (Bool-cases r.0) [
    | inl e ↦ rw e (safely (h ∙ e))
    | inr e ↦ rw e (get_token-held tries r.1)
  ]

  pub wait_until_ready-held :
      (looks : ℕ) (d : Determ S) → Safely (λ d'. held d' ≡ held d) (wait_until_ready V E looks d i)
  unfolding wait_until_ready is_token_holder
  wait_until_ready-held zero d = safely_waiting
  wait_until_ready-held (suc looks) d = elim (Bool-cases (is_ready ((E.others d).status i))) [
    | inl e ↦ rw (e, wait_until_ready) (safely (L.others d))
    | inr e ↦
        rw (e, wait_until_ready)
          (Safely-mono (wait_until_ready-held looks (E.others d)) λ d' h. h ∙ L.others d)
  ]
