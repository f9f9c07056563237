-- ===== src/Sync/Holder/Joins.antt =====
-- Joining a thread, and the token.
use consequence.Base.{
  ℕ, zero, suc, ◌≡◌, ap, Bool, true, not, if◌then◌else◌, store, ok, Safely, safely, safely_waiting,
  Safely-bind, Safely-if, Safely-mono, Safely-cases, Bool-cases, inl, inr,
}
use consequence.Sync.{
  status_ready, status_joining, Determ, Services, set_status, is_token_holder, put_token,
}
use consequence.Sync.Waiting.{Waits, has_exited, wait_for_exit, join_alive, join}
use consequence.Sync.Asserts.{NoBug, bug_on-Safely}
use consequence.Sync.Holder.{HolderLaws, put_token-held, get_token-held}

module _ {S : Type 0} (V : Services S) (E : Waits S) (i : ℕ) (L : HolderLaws V E i) where
  abbrev held : Determ S → Bool
  held d = is_token_holder d i

  -- While the thread joins another, it gives the token back if it has it, and gets it again.
  wait_for_exit-NoBug :
      (looks : ℕ) (d : Determ S) (guestindex : ℕ) → NoBug (wait_for_exit V E looks d guestindex i)
  unfolding wait_for_exit
  wait_for_exit-NoBug zero d guestindex = safely_waiting
  wait_for_exit-NoBug (suc looks) d guestindex =
      let d1 = set_status d i status_joining in
      let puts : NoBug (if is_token_holder d1 i then put_token V d1 i true else ok d1) =
        Safely-cases (is_token_holder d1 i)
          (λ e. Safely-mono (put_token-held V E i L d1 true e) λ d2 h. tt) λ e. safely tt in
      Safely-bind puts λ d2 u. elim (Bool-cases (has_exited ((E.others d2).status guestindex))) [
        | inl e ↦ rw e (safely tt)
        | inr e ↦ rw e (wait_for_exit-NoBug looks (E.others d2) guestindex)
      ]

  pub join-held :
      (d : Determ S) (guestindex : ℕ)
      → held d ≡ true
      → Safely (λ d'. held d' ≡ true) (join V E d guestindex i)
  unfolding join join_alive is_token_holder
  join-held d guestindex h = bug_on-Safely (not (held d)) (ap not h) (
      Safely-if (has_exited (d.status guestindex)) (safely h) (
        Safely-bind (L.halt d.clock i) λ clock u0.
          Safely-bind
            (wait_for_exit-NoBug E.rounds
              (record d {
                clock = clock;
                joinee_thread_index = store d.joinee_thread_index i guestindex;
              })
              guestindex)
            λ d1 u1. Safely-bind (L.activate d1.clock i) λ clock1 u2.
              get_token-held V E i L E.rounds
                (set_status (record d1 { clock = clock1 }) i status_ready)))
