-- ===== src/Run/Holding.antt =====
-- The locking of mutexes in xrun.h, and the token.
pub mod Unlocks
use consequence.Base.{
  ◌>>=◌, ℕ, zero, suc, ◌+◌, ◌≡◌, refl, arith, Bool, true, false, not, ltb, ◌==◌, ◌&&◌, ◌||◌,
  if◌then◌else◌, ok, inl, inr, Bool-cases, if_both, Safely, safely, safely_waiting, safely_exited,
  Safely-bind, Safely-if, Safely-mono, Safely-cases,
}
use consequence.Run.{
  Build, Runtime, Thread, round_robin_infinity, kendo_acq_inc, run, single_active,
  add_round_robin_ticks, put_token, commit_and_update_memory, ticks_to_add, wait_token, start_clock,
}
use consequence.Run.Mutexes.{
  count_up, count_down, acquire, should_update, lock_failed, lock_taken, acquire_or_fail, try_lock,
  retry, mutex_lock_inner, mutex_lock, commit_to_unlock, mutex_unlock, mutex_lock_inner_simple,
  mutex_lock_simple, mutex_unlock_simple,
}
use consequence.Run.Tokens.{
  TokenLaws, IsConsistent, IsConsistent-world, IsConsistent-vars, run-IsConsistent,
  add_ticks-IsConsistent, add_round_robin_ticks-IsConsistent, stop_clock-IsConsistent,
  start_clock-IsConsistent, end_tx_coarsening-IsConsistent, use_tx_coarsening-IsConsistent,
}
use consequence.Run.Tokens.Handing.{
  wait_token-IsConsistent, put_token-IsConsistent, IsConsistent-token,
}

module _ {W : Type 0} (B : Build) (R : Runtime W) (i : ℕ) (held : W → Bool)
    (L : TokenLaws R i held) where
  abbrev Consistent : Bool → Thread W → Type 0
  Consistent b t = IsConsistent B i held b t

  -- consistent, with the token or without it
  abbrev pub EitherWay : Thread W → Type 0
  EitherWay t = (b : Bool) × Consistent b t

  pub start_clock-EitherWay : (t : Thread W) → EitherWay t → Safely EitherWay (start_clock B R t)
  start_clock-EitherWay t (b, c) =
      Safely-mono (start_clock-IsConsistent B R i held L b t c) λ t1 c1. (b, c1)

  pub commit-IsConsistent :
      (b : Bool) (t : Thread W) → Consistent b t → Consistent b (commit_and_update_memory B R t)
  unfolding commit_and_update_memory
  commit-IsConsistent b t c =
      IsConsistent-world B R i held L b t (R.commit t.world) (L.commit t.world) c

  -- A thread that has counted a lock.
  pub counted-IsConsistent :
      (b : Bool) (t : Thread W) (n : ℕ)
      → Consistent b t
      → Consistent b (record t { lock_count = n })
  counted-IsConsistent b t n =
      IsConsistent-vars B R i held L b t n t.coarsening_counter t.consecutively_coarsened
        t.monitor_next t.sleep_count t.is_sleeping

  pub release-IsConsistent :
      (b : Bool) (t : Thread W) (mutex : ℕ)
      → Consistent b t
      → Safely (Consistent b) (run B R (λ w. R.lock_release w mutex t.thread_index) t)
  release-IsConsistent b t mutex c =
      run-IsConsistent B R i held L b (λ w. R.lock_release w mutex t.thread_index) t
        (rw c.index (L.lock_release t.world mutex)) c

  pub acquire-IsConsistent :
      (b : Bool) (t : Thread W) (mutex : ℕ)
      → Consistent b t
      → Safely (λ r. Consistent b r.1) (acquire B R t mutex)
  unfolding acquire
  acquire-IsConsistent b t mutex c =
      let quiet : Safely (λ r. held r.1 ≡ held t.world)
          (R.lock_acquire t.world mutex t.thread_index) =
        rw c.index (L.lock_acquire t.world mutex) in
      Safely-bind quiet λ r same. safely (IsConsistent-world B R i held L b t r.1 same c)

  -- Only a thread that holds the token waits for a lock, and then it does not.
  wait_on_lock-IsConsistent :
      (t : Thread W) (mutex : ℕ)
      → Consistent true t
      → Safely
          (λ t'. Consistent false (record t' { token_holding = false }))
          (run B R (λ w. R.wait_on_lock w mutex t.thread_index) t)
  unfolding run
  wait_on_lock-IsConsistent t mutex c =
      let waits : Safely (λ w. held w ≡ false) (R.wait_on_lock t.world mutex t.thread_index) =
        rw c.index (L.wait_on_lock t.world mutex c.holding) in
      Safely-bind waits λ w h. safely (IsConsistent-token B R i held L t w true false h c)

  lock_failed-EitherWay :
      (t : Thread W) (mutex failures : ℕ)
      → Consistent true t
      → Safely EitherWay (lock_failed B R t mutex failures false)
  unfolding lock_failed
  lock_failed-EitherWay t mutex failures c =
      let t0 = if failures == 0 then commit_and_update_memory B R t else t in
      let c0 =
        if_both (Consistent true) (failures == 0) (commit_and_update_memory B R t) t
          (commit-IsConsistent true t c) c in
      Safely-bind (end_tx_coarsening-IsConsistent B R i held L true t0 c0) λ t1 c1.
        Safely-if B.use_kendo
          (Safely-bind (add_ticks-IsConsistent B R i held L true t1 (kendo_acq_inc B) c1) λ t2 c2.
            Safely-mono (put_token-IsConsistent B R i held L true t2 c2) λ t3 c3. (false, c3))
          (Safely-bind (wait_on_lock-IsConsistent t1 mutex c1) λ t2 c2. safely (false, c2))

  lock_taken-EitherWay :
      (b : Bool) (t : Thread W) (is_single is_coarsening updates : Bool)
      → Consistent b t
      → Safely EitherWay (lock_taken B R t is_single is_coarsening updates)
  unfolding lock_taken
  lock_taken-EitherWay b t is_single is_coarsening updates c =
      Safely-bind
        (Safely-if ((not is_single && not is_coarsening) || updates)
          (add_ticks-IsConsistent B R i held L b (commit_and_update_memory B R t)
            (kendo_acq_inc B + ticks_to_add B R (commit_and_update_memory B R t))
            (commit-IsConsistent b t c))
          (safely c))
        λ t1 c1.
          Safely-bind (add_round_robin_ticks-IsConsistent B R i held L b t1 round_robin_infinity c1)
            λ t2 c2.
              Safely-if (not is_single && not is_coarsening)
                (Safely-mono (put_token-IsConsistent B R i held L b t2 c2) λ t3 c3. (false, c3))
                (safely (b, c2))

  -- A thread that is not the only one has the token before it looks at the lock.
  acquire_or_fail-EitherWay :
      (b : Bool) (t : Thread W) (mutex failures : ℕ) (is_single is_coarsening : Bool)
      → (is_single ≡ false → b ≡ true)
      → Consistent b t
      → Safely
          (λ (r : Bool × Thread W). EitherWay r.1)
          (acquire_or_fail B R t mutex failures is_single is_coarsening)
  unfolding acquire_or_fail lock_failed
  acquire_or_fail-EitherWay b t mutex failures is_single is_coarsening has c =
      Safely-bind (acquire-IsConsistent b t mutex c) λ r c2.
        Safely-if r.0
          (Safely-bind (lock_taken-EitherWay b r.1 is_single is_coarsening (should_update B R t) c2)
            λ t3 c3. safely c3)
          (elim (Bool-cases is_single) [
            | inl e ↦ rw e safely_exited
            | inr e ↦
                let c3 : Consistent true r.1 = rw (has e) at c2 in
                rw e (Safely-bind (lock_failed-EitherWay r.1 mutex failures c3) λ t3 c4. safely c4)
          ])

  try_lock-EitherWay :
      (b : Bool) (t : Thread W) (mutex failures : ℕ) (is_coarsening : Bool)
      → Consistent b t
      → Safely
          (λ (r : Bool × Thread W). EitherWay r.1)
          (try_lock B R t mutex failures is_coarsening)
  unfolding try_lock
  try_lock-EitherWay b t mutex failures is_coarsening c =
      let says = c.says in
      let single = single_active B R t in
      let waits : Safely (λ t1. (b1 : Bool) × Consistent b1 t1 × (single ≡ false → b1 ≡ true))
          (if (not single && not t.token_holding) || ltb 0 failures
            then wait_token B R t
            else ok t) =
        Safely-cases ((not single && not t.token_holding) || ltb 0 failures)
          (λ e.
            Safely-mono (wait_token-IsConsistent B R i held L b t c)
              λ t1 c1. (true, c1, λ e1. refl))
          λ e. safely (b, c, λ e1. ground arith) in
      Safely-bind waits λ t1 (b1, c1, has).
        acquire_or_fail-EitherWay b1 t1 mutex failures single is_coarsening has c1

  retry-EitherWay :
      (rounds : ℕ) (t : Thread W) (mutex failures : ℕ) (is_coarsening : Bool)
      → EitherWay t
      → Safely EitherWay (retry B R rounds t mutex failures is_coarsening)
  unfolding retry
  retry-EitherWay zero t mutex failures is_coarsening e = safely_waiting
  retry-EitherWay (suc rounds) t mutex failures is_coarsening (b, c) =
      Safely-bind (try_lock-EitherWay b t mutex failures is_coarsening c) λ r e.
        elim r.0
          as (λ l.
            Safely EitherWay (elim l [
              | true ↦ ok r.1
              | false ↦ retry B R rounds r.1 mutex (failures + 1) false
            ])) [
              | true ↦ safely e
              | false ↦ retry-EitherWay rounds r.1 mutex (failures + 1) false e
            ]

  pub mutex_lock_inner-EitherWay :
      (rounds : ℕ) (t : Thread W) (mutex : ℕ) (allow : Bool)
      → EitherWay t
      → Safely EitherWay (mutex_lock_inner B R rounds t mutex allow)
  unfolding mutex_lock_inner
  mutex_lock_inner-EitherWay rounds t mutex allow (b, c) =
      let t0 = record t { lock_count = count_up t.lock_count } in
      Safely-bind
        (use_tx_coarsening-IsConsistent B R i held L b t0 mutex
          (counted-IsConsistent b t (count_up t.lock_count) c))
        λ r c1. retry-EitherWay rounds r.1 mutex 0 (r.0 && allow) (b, c1)

  pub mutex_lock-EitherWay :
      (rounds : ℕ) (t : Thread W) (mutex : ℕ)
      → EitherWay t
      → Safely EitherWay (mutex_lock B R rounds t mutex)
  unfolding mutex_lock
  mutex_lock-EitherWay rounds t mutex (b, c) =
      Safely-bind (stop_clock-IsConsistent B R i held L b t 0 c) λ t1 c1.
        Safely-bind (mutex_lock_inner-EitherWay rounds t1 mutex true (b, c1)) start_clock-EitherWay
