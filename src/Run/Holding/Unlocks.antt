-- ===== src/Run/Holding/Unlocks.antt =====
-- The unlocking of mutexes in xrun.h and its simple locks, and the token.
use consequence.Base.{
  ◌>>=◌, ℕ, Bool, true, false, not, ltb, ◌==◌, ◌&&◌, ◌||◌, if◌then◌else◌, ok, if_both, Safely,
  safely, Safely-bind, Safely-if, Safely-mono,
}
use consequence.Run.{
  Build, Runtime, Thread, round_robin_infinity, single_active, add_round_robin_ticks, put_token,
  commit_and_update_memory, wait_token,
}
use consequence.Run.Mutexes.{
  count_up, count_down, should_update, commit_to_unlock, mutex_unlock, mutex_lock_inner_simple,
  mutex_lock_simple, mutex_unlock_simple,
}
use consequence.Run.Tokens.{
  TokenLaws, IsConsistent, add_round_robin_ticks-IsConsistent, stop_clock-IsConsistent,
  use_tx_coarsening-IsConsistent,
}
use consequence.Run.Tokens.Handing.{wait_token-IsConsistent, put_token-IsConsistent}
use consequence.Run.Holding.{
  EitherWay, start_clock-EitherWay, commit-IsConsistent, counted-IsConsistent, release-IsConsistent,
  acquire-IsConsistent,
}

module _ {W : Type 0} (B : Build) (R : Runtime W) (i : ℕ) (held : W → Bool)
    (L : TokenLaws R i held) where
  abbrev Consistent : Bool → Thread W → Type 0
  Consistent b t = IsConsistent B i held b t

  abbrev Either : Thread W → Type 0
  Either t = EitherWay B R i held L t

  commit_to_unlock-EitherWay :
      (t : Thread W) (mutex : ℕ) (is_single is_coarsening : Bool)
      → Either t
      → Safely Either (commit_to_unlock B R t mutex is_single is_coarsening)
  unfolding commit_to_unlock
  commit_to_unlock-EitherWay t mutex is_single is_coarsening (b, c) =
      let waits : Safely Either
          (if not is_single && not t.token_holding then wait_token B R t else ok t) =
        Safely-if (not is_single && not t.token_holding)
          (Safely-mono (wait_token-IsConsistent B R i held L b t c) λ t1 c1. (true, c1))
          (safely (b, c)) in
      Safely-bind waits λ t1 e. Safely-bind (L.lock_waiters_count t1.world mutex) λ waiters u.
        safely (
          if_both Either
            ((not (single_active B R t1) && not is_coarsening)
              || (should_update B R t1 || (ltb 0 waiters && not is_coarsening)))
            (commit_and_update_memory B R t1) t1 (e.0, commit-IsConsistent B R i held L e.0 t1 e.1)
            e)

  -- `putToken` where a condition says so
  pub put_if-EitherWay :
      (puts : Bool) (t : Thread W)
      → Either t
      → Safely Either (if puts then put_token B R t else ok t)
  put_if-EitherWay puts t (b, c) =
      Safely-if puts (Safely-mono (put_token-IsConsistent B R i held L b t c) λ t1 c1. (false, c1))
        (safely (b, c))

  pub mutex_unlock-EitherWay :
      (t : Thread W) (mutex : ℕ) → Either t → Safely Either (mutex_unlock B R t mutex)
  unfolding mutex_unlock
  mutex_unlock-EitherWay t mutex (b, c) =
      Safely-bind (stop_clock-IsConsistent B R i held L b t mutex c) λ t1 c1.
        Safely-bind (use_tx_coarsening-IsConsistent B R i held L b t1 0 c1) λ r c2.
          let t2 = r.1 in
          let single = single_active B R t1 in
          Safely-bind
            (commit_to_unlock-EitherWay (record t2 { lock_count = count_down t2.lock_count }) mutex
              single r.0 (b, counted-IsConsistent B R i held L b t2 (count_down t2.lock_count) c2))
            λ t3 (b3, c3). Safely-bind (release-IsConsistent B R i held L b3 t3 mutex c3) λ t4 c4.
              Safely-bind
                (add_round_robin_ticks-IsConsistent B R i held L b3 t4 round_robin_infinity c4)
                λ t5 c5.
                  Safely-bind (put_if-EitherWay (not single && not r.0) t5 (b3, c5))
                    (start_clock-EitherWay B R i held L)

  mutex_lock_inner_simple-EitherWay :
      (b : Bool) (t : Thread W) (mutex : ℕ)
      → Consistent b t
      → Safely Either (mutex_lock_inner_simple B R t mutex)
  unfolding mutex_lock_inner_simple
  mutex_lock_inner_simple-EitherWay b t mutex c =
      Safely-bind (wait_token-IsConsistent B R i held L b t c) λ t1 c1.
        Safely-bind
          (add_round_robin_ticks-IsConsistent B R i held L true
            (record t1 { lock_count = count_up t1.lock_count }) round_robin_infinity
            (counted-IsConsistent B R i held L true t1 (count_up t1.lock_count) c1))
          λ t2 c2. Safely-bind (acquire-IsConsistent B R i held L true t2 mutex c2) λ r c3. safely (
            if_both Either (not t.token_holding) (commit_and_update_memory B R r.1) r.1
              (true, commit-IsConsistent B R i held L true r.1 c3) (true, c3))

  pub mutex_lock_simple-EitherWay :
      (t : Thread W) (mutex : ℕ) → Either t → Safely Either (mutex_lock_simple B R t mutex)
  unfolding mutex_lock_simple
  mutex_lock_simple-EitherWay t mutex (b, c) =
      Safely-bind (stop_clock-IsConsistent B R i held L b t 0 c) λ t1 c1.
        Safely-bind (mutex_lock_inner_simple-EitherWay b t1 mutex c1)
          (start_clock-EitherWay B R i held L)

  commit_and_put-EitherWay :
      (b : Bool) (t : Thread W)
      → Consistent b t
      → Safely Either (do
        t5 ← add_round_robin_ticks B R (commit_and_update_memory B R t) round_robin_infinity
        put_token B R t5)
  commit_and_put-EitherWay b t c =
      Safely-bind
        (add_round_robin_ticks-IsConsistent B R i held L b (commit_and_update_memory B R t)
          round_robin_infinity (commit-IsConsistent B R i held L b t c))
        λ t5 c5. Safely-mono (put_token-IsConsistent B R i held L b t5 c5) λ t6 c6. (false, c6)

  pub mutex_unlock_simple-EitherWay :
      (t : Thread W) (mutex : ℕ) → Either t → Safely Either (mutex_unlock_simple B R t mutex)
  unfolding mutex_unlock_simple
  mutex_unlock_simple-EitherWay t mutex (b, c) =
      Safely-bind (stop_clock-IsConsistent B R i held L b t mutex c) λ t1 c1.
        Safely-bind
          (release-IsConsistent B R i held L b (record t1 { lock_count = count_down t1.lock_count })
            mutex (counted-IsConsistent B R i held L b t1 (count_down t1.lock_count) c1))
          λ t3 c3.
            Safely-bind
              (Safely-if (t3.lock_count == 0) (commit_and_put-EitherWay b t3 c3) (safely (b, c3)))
              (start_clock-EitherWay B R i held L)
