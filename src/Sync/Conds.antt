-- ===== src/Sync/Conds.antt =====
-- Condition variables of determ.h: a signal wakes the thread that has waited longest, a broadcast wakes
-- every thread that waits.
use consequence.Base.{
  ℕ, zero, suc, ◌-◌, ◌<◌, ◌≡◌, refl, sym, ap, ◌∙◌, List, [], ◌∷◌, arith, false, Bool-cases, inl,
  inr, ◌==◌, ==_sym, ==_iff, if◌then◌else◌, All, has, length, length-le-bound, Distinct, store,
  store_self, store_ne, ok, Returns, returns, Returns-bind, Returns-mono,
}
use consequence.CircularList.{Memory, remove_head_entry}
use consequence.CircularList.Ring.{IsRing, remove_head_entry-IsRing}
use consequence.Sync.{
  ThreadStatus, status_ready, max_threads, CondEntry, Determ, Services, address, leave_cond,
  activate_thread,
}
use consequence.Sync.CondVar.{broadcast_loop, cond_signal, cond_broadcast}
use consequence.Sync.Locks.{addresses, has-addresses}

-- Threads `xs` wait on the condition variable, in that order.
pub record CondQueue {S : Type 0} (d : Determ S) (user_cond : ℕ) (xs : List ℕ) : Type 0 where
  pub ring : IsRing d.memory (d.conds user_cond).head (addresses xs)
  pub waiters_is : (d.conds user_cond).waiters ≡ length xs

Distinct-addresses : (xs : List ℕ) → Distinct (addresses xs) → Distinct xs
Distinct-addresses [] d = tt
Distinct-addresses (x ∷ xs) d = (sym (has-addresses x xs) ∙ d.0, Distinct-addresses xs d.1)

remove_head_entry-none :
    (m : Memory) (head : ℕ) → head ≡ 0 → remove_head_entry m head ≡ ok (m, 0, 0)
unfolding remove_head_entry
remove_head_entry-none m head e = rw e

-- The status of thread `i`, when first `x` and then the threads `xs` have been made ready.
woken :
    (status : ℕ → ThreadStatus) (i x : ℕ) (xs : List ℕ)
    → (if has i xs then status_ready else store status x status_ready i)
      ≡ (if has i (x ∷ xs) then status_ready else status i)
woken status i x xs = elim (Bool-cases (i == x)) [
  | inl e ↦
      rw
        (
          e,
          ap (λ j. store status x status_ready j) ((==_iff i x).0 e),
          store_self status x status_ready,
        )
        (elim (Bool-cases (has i xs)) [ inl k ↦ rw k | inr k ↦ rw k ])
  | inr e ↦ rw (e, store_ne status x i status_ready (==_sym x i ∙ e))
]

module _ {S : Type 0} (V : Services S) (t user_cond : ℕ)
    (activates : (s : S) (other : ℕ) → Returns (λ r. Unit {0}) (V.activate_other s t other)) where
  left-CondQueue :
      (d : Determ S) (x : ℕ) (xs : List ℕ) (m : Memory) (head : ℕ)
      → CondQueue d user_cond (x ∷ xs)
      → IsRing m head (addresses xs)
      → CondQueue (leave_cond d user_cond x head m) user_cond xs
  left-CondQueue d x xs m head q ring = record {
    ring =
        rw
          (store_self d.conds user_cond
            (record { waiters = (d.conds user_cond).waiters - 1; head = head }))
          ring;
    waiters_is =
        ap (λ (e : CondEntry). e.waiters) (store_self d.conds user_cond _)
        ∙ omega (arith, q.waiters_is);
  }

  -- The clock takes no part in it.
  left_with :
      (d : Determ S) (x : ℕ) (xs : List ℕ) (m : Memory) (head : ℕ) (clock : S)
      → CondQueue d user_cond (x ∷ xs)
      → IsRing m head (addresses xs)
      → CondQueue (record (leave_cond d user_cond x head m) { clock = clock }) user_cond xs
  left_with d x xs m head clock q ring =
      let k = left-CondQueue d x xs m head q ring in
      record { ring = k.ring; waiters_is = k.waiters_is }

  -- The loop of a broadcast wakes every thread that waits, in as many rounds.
  broadcast_loop-Returns :
      (fuel : ℕ) (xs : List ℕ) (d : Determ S) (i : ℕ)
      → CondQueue d user_cond xs
      → length xs < fuel
      → Returns
          (λ d'.
            CondQueue d' user_cond []
            × (d'.status i ≡ (if has i xs then status_ready else d.status i)))
          (broadcast_loop V fuel d t user_cond)
  unfolding broadcast_loop
  broadcast_loop-Returns zero xs d i q lt = absurd (omega arith)
  broadcast_loop-Returns (suc fuel) [] d i q lt =
      rw (remove_head_entry-none d.memory (d.conds user_cond).head q.ring.starts)
        (returns (q, refl))
  broadcast_loop-Returns (suc fuel) (x ∷ xs) d i q lt =
      Returns-bind
        (remove_head_entry-IsRing d.memory (d.conds user_cond).head (address x) (addresses xs)
          q.ring)
        λ r (rest, same). rw same (
          Returns-bind (activates d.clock x) λ s u.
            Returns-mono
              (broadcast_loop-Returns fuel xs
                (record (leave_cond d user_cond x r.1 r.0) { clock = s.1 }) i
                (left_with d x xs r.0 r.1 s.1 q rest) (omega arith))
              λ d' (done, status). (done, status ∙ woken d.status i x xs))

  -- Where threads `xs`, below MAX_THREADS, wait on a condition variable, and any thread can be
  -- activated, `cond_broadcast` returns: no thread waits any more, and every thread `i` that waited is
  -- ready, while the others keep their status.
  pub cond_broadcast-CondQueue :
      (xs : List ℕ) (d : Determ S) (i : ℕ)
      → CondQueue d user_cond xs
      → All (λ x. x < max_threads) xs
      → Returns
          (λ d'.
            CondQueue d' user_cond []
            × (d'.status i ≡ (if has i xs then status_ready else d.status i)))
          (cond_broadcast V d t user_cond)
  unfolding cond_broadcast
  cond_broadcast-CondQueue [] d i q below = rw q.waiters_is (returns (q, refl))
  cond_broadcast-CondQueue (x ∷ xs) d i q below =
      let some_wait : ((d.conds user_cond).waiters == 0) ≡ false = ground (arith, q.waiters_is) in
      let few = length-le-bound 2048 (x ∷ xs) (Distinct-addresses (x ∷ xs) q.ring.distinct) below in
      rw some_wait (
        Returns-bind (broadcast_loop-Returns 2049 (x ∷ xs) d i q (omega (arith, few)))
          λ d' (done, status).
            returns (record { ring = done.ring; waiters_is = done.waiters_is }, status))

  pub cond_signal-CondQueue :
      (x : ℕ) (xs : List ℕ) (d : Determ S)
      → CondQueue d user_cond (x ∷ xs)
      → Returns
          (λ d'. CondQueue d' user_cond xs × (d'.status x ≡ status_ready))
          (cond_signal V d t user_cond)
  unfolding cond_signal activate_thread
  cond_signal-CondQueue x xs d q =
      let some_wait : ((d.conds user_cond).waiters == 0) ≡ false = ground (arith, q.waiters_is) in
      let not_null : (address x == 0) ≡ false = ground arith in
      rw some_wait (
        Returns-bind
          (remove_head_entry-IsRing d.memory (d.conds user_cond).head (address x) (addresses xs)
            q.ring)
          λ r (rest, same).
            rw (same, not_null)
              (Returns-bind (activates d.clock x) λ s u.
                let k = left-CondQueue d x xs r.0 r.1 q rest in
                returns
                  (record { ring = k.ring; waiters_is = k.waiters_is }, store_self d.status x _)))
