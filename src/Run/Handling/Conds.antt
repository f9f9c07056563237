-- ===== src/Run/Handling/Conds.antt =====
-- The operations of xrun.h on condition variables, and the token.
use consequence.Base.{
  ℕ, ◌+◌, ◌≡◌, Bool, true, false, not, ltb, if◌then◌else◌, ◌>>=◌, ok, if_both, Safely, safely,
  Safely-bind, Safely-if,
}
use consequence.Run.{
  Build, Runtime, Thread, max_sleep_count, round_robin_infinity, run, start_clock, set_world,
  wait_token, commit_and_update_memory,
}
use consequence.Run.Mutexes.{count_down}
use consequence.Run.Operations.{
  sleep_memory, wake_memory, leave_to_wait, cond_wait, cond_broadcast, cond_signal,
}
use consequence.Run.Tokens.{
  TokenLaws, IsConsistent, IsConsistent-world, IsConsistent-vars, run-IsConsistent,
  add_round_robin_ticks-IsConsistent, stop_clock-IsConsistent, end_tx_coarsening-IsConsistent,
  reset_tx_coarsening-IsConsistent,
}
use consequence.Run.Tokens.Handing.{IsConsistent-token}
use consequence.Run.Holding.{
  EitherWay, start_clock-EitherWay, counted-IsConsistent, mutex_lock_inner-EitherWay,
}
use consequence.Run.Holding.Unlocks.{put_if-EitherWay}
use consequence.Run.Handling.{put_and_start-EitherWay, waits, commits}

module _ {W : Type 0} (B : Build) (R : Runtime W) (i : ℕ) (held : W → Bool)
    (L : TokenLaws R i held) where
  abbrev Consistent : Bool → Thread W → Type 0
  Consistent b t = IsConsistent B i held b t

  abbrev Either : Thread W → Type 0
  Either t = EitherWay B R i held L t

  abbrev starts : (t : Thread W) → Either t → Safely Either (start_clock B R t)
  starts = start_clock-EitherWay B R i held L

  -- The thread runs again, and its variable is behind.
  abbrev HasLeft : Thread W → Type 0
  HasLeft t = Consistent false (record t { token_holding = false })

  cond_wait-HasLeft :
      (t : Thread W) (cond lock : ℕ)
      → Consistent true t
      → Safely HasLeft (run B R (λ w. R.cond_wait w t.thread_index cond lock) t)
  unfolding run
  cond_wait-HasLeft t cond lock c =
      let left : Safely (λ w. held w ≡ false) (R.cond_wait t.world t.thread_index cond lock) =
        rw c.index (L.cond_wait t.world cond lock c.holding) in
      Safely-bind left λ w h. safely (IsConsistent-token B R i held L t w true false h c)

  sleep_memory-IsConsistent :
      (t : Thread W) → Consistent true t → Consistent true (sleep_memory B R t)
  unfolding sleep_memory
  sleep_memory-IsConsistent t c =
      let t1 = set_world B R t (R.sleep t.world) in
      let c1 = IsConsistent-world B R i held L true t (R.sleep t.world) (L.sleep t.world) c in
      if_both (Consistent true) (ltb t.sleep_count max_sleep_count)
        (record t1 { is_sleeping = true; sleep_count = t.sleep_count + 1 }) t
        (IsConsistent-vars B R i held L true t1 t.lock_count t.coarsening_counter
          t.consecutively_coarsened t.monitor_next (t.sleep_count + 1) true c1)
        c

  wake_memory-HasLeft : (t : Thread W) → HasLeft t → HasLeft (wake_memory B R t)
  unfolding wake_memory
  wake_memory-HasLeft t c =
      let t1 = record t { world = R.wake t.world; token_holding = false } in
      let c1 =
        IsConsistent-world B R i held L false (record t { token_holding = false }) (R.wake t.world)
          (L.wake t.world) c in
      if_both HasLeft t.is_sleeping (record t { world = R.wake t.world; is_sleeping = false }) t
        (IsConsistent-vars B R i held L false t1 t.lock_count t.coarsening_counter
          t.consecutively_coarsened t.monitor_next t.sleep_count false c1)
        c

  leave_to_wait-IsConsistent :
      (b : Bool) (t : Thread W) (cond lock : ℕ)
      → Consistent b t
      → Safely (Consistent false) (leave_to_wait B R t cond lock)
  unfolding leave_to_wait
  leave_to_wait-IsConsistent b t cond lock c = Safely-bind (waits B R i held L b t c) λ t1 c1.
      let t2 = sleep_memory B R (commit_and_update_memory B R t1) in
      let c2 =
        sleep_memory-IsConsistent (commit_and_update_memory B R t1)
          (commits B R i held L true t1 c1) in
      Safely-bind (end_tx_coarsening-IsConsistent B R i held L true t2 c2) λ t3 c3.
        Safely-bind (cond_wait-HasLeft t3 cond lock c3) λ t4 c4. safely (
          commits B R i held L false (record (wake_memory B R t4) { token_holding = false })
            (wake_memory-HasLeft t4 c4))

  pub cond_wait-EitherWay :
      (rounds : ℕ) (t : Thread W) (cond lock : ℕ)
      → Either t
      → Safely Either (cond_wait B R rounds t cond lock)
  unfolding cond_wait
  cond_wait-EitherWay rounds t cond lock (b, c) =
      Safely-bind (stop_clock-IsConsistent B R i held L b t 0 c) λ t1 c1.
        Safely-bind
          (leave_to_wait-IsConsistent b (record t1 { lock_count = count_down t1.lock_count }) cond
            lock (counted-IsConsistent B R i held L b t1 (count_down t1.lock_count) c1))
          λ t2 c2.
            Safely-bind (mutex_lock_inner-EitherWay B R i held L rounds t2 lock false (false, c2))
              starts

  pub cond_broadcast-EitherWay :
      (t : Thread W) (cond : ℕ) → Either t → Safely Either (cond_broadcast B R t cond)
  unfolding cond_broadcast
  cond_broadcast-EitherWay t cond (b, c) =
      Safely-bind (stop_clock-IsConsistent B R i held L b t 0 c) λ t1 c1.
        Safely-bind (reset_tx_coarsening-IsConsistent B R i held L b t1 c1) λ t2 c2.
          Safely-bind (waits B R i held L b t2 c2) λ t3 c3.
            let c4 = commits B R i held L true t3 c3 in
            let t4 = commit_and_update_memory B R t3 in
            Safely-bind
              (run-IsConsistent B R i held L true (λ w. R.cond_broadcast w t3.thread_index cond) t4
                (rw c3.index (L.cond_broadcast t4.world cond)) c4)
              λ t5 c5.
                Safely-bind
                  (add_round_robin_ticks-IsConsistent B R i held L true t5 round_robin_infinity c5)
                  λ t6 c6. put_and_start-EitherWay B R i held L true t6 c6

  pub cond_signal-EitherWay :
      (t : Thread W) (cond : ℕ) → Either t → Safely Either (cond_signal B R t cond)
  unfolding cond_signal
  cond_signal-EitherWay t cond (b, c) =
      Safely-bind (stop_clock-IsConsistent B R i held L b t 0 c) λ t1 c1.
        Safely-bind (reset_tx_coarsening-IsConsistent B R i held L b t1 c1) λ t2 c2.
          let acquiring = not t2.token_holding in
          let updated : Safely Either (
              if acquiring
              then (do t0 ← wait_token B R t2; ok (commit_and_update_memory B R t0))
              else ok t2) =
            Safely-if acquiring
              (Safely-bind (waits B R i held L b t2 c2)
                λ t0 c0. safely (true, commits B R i held L true t0 c0))
              (safely (b, c2)) in
          Safely-bind updated λ t3 (b3, c3).
            Safely-bind
              (run-IsConsistent B R i held L b3 (λ w. R.cond_signal w t3.thread_index cond) t3
                (rw c3.index (L.cond_signal t3.world cond)) c3)
              λ t4 c4.
                Safely-bind
                  (add_round_robin_ticks-IsConsistent B R i held L b3 t4 round_robin_infinity c4)
                  λ t5 c5. Safely-bind (put_if-EitherWay B R i held L acquiring t5 (b3, c5)) starts
