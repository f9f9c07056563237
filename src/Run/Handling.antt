-- ===== src/Run/Handling.antt =====
-- The operations of xrun.h on threads and barriers, and the token.
pub mod Conds
use consequence.Base.{
  ℕ, ◌*◌, ◌≤◌, ◌+◌, ◌≡◌, refl, sym, ◌∙◌, Bool, true, false, not, ltb, ◌==◌, if◌then◌else◌, ◌>>=◌,
  Outcome, ok, if_both, Safely, safely, safely_exited, Safely-bind, Safely-if, Safely-mono,
}
use consequence.Run.{
  Build, Runtime, Thread, max_sleep_count, min_allowable_tx_size, max_allowable_tx_size,
  round_robin_infinity, round_robin_forked_thread, time_fork_per_page, run, start_clock, set_world,
  fast_forward_clock, wait_token, put_token, commit_and_update_memory,
}
use consequence.Run.Mutexes.{count_down}
use consequence.Run.Operations.{
  child_register, is_stack_addr, prepare_spawn, spawn, join, cancel, with_token, barrier_wait,
  sleep_memory, wake_memory, leave_to_wait, cond_wait, cond_broadcast, cond_signal,
}
use consequence.Run.Tokens.{
  TokenLaws, IsConsistent, IsConsistent-world, IsConsistent-vars, run-IsConsistent,
  add_ticks-IsConsistent, add_round_robin_ticks-IsConsistent, stop_clock-IsConsistent,
  end_tx_coarsening-IsConsistent, reset_tx_coarsening-IsConsistent,
  stop_clock_no_coarsen-IsConsistent,
}
use consequence.Run.Tokens.Handing.{
  wait_token-IsConsistent, put_token-IsConsistent, put_token_no_fast_forward-IsConsistent,
  IsConsistent-token,
}
use consequence.Run.Holding.{
  EitherWay, start_clock-EitherWay, commit-IsConsistent, counted-IsConsistent,
  mutex_lock_inner-EitherWay,
}
use consequence.Run.Holding.Unlocks.{put_if-EitherWay}

module _ {W : Type 0} (B : Build) (R : Runtime W) (i : ℕ) (held : W → Bool)
    (L : TokenLaws R i held) where
  abbrev Consistent : Bool → Thread W → Type 0
  Consistent b t = IsConsistent B i held b t

  abbrev Either : Thread W → Type 0
  Either t = EitherWay B R i held L t

  abbrev starts : (t : Thread W) → Either t → Safely Either (start_clock B R t)
  starts = start_clock-EitherWay B R i held L

  -- A call after which the thread holds the token, or not, as it did before.
  run_at :
      (f : W → Outcome W) (b : Bool) (t : Thread W)
      → Safely (λ w. held w ≡ b) (f t.world)
      → Consistent b t
      → Safely (Consistent b) (run B R f t)
  run_at f b t law c =
      run-IsConsistent B R i held L b f t (Safely-mono law λ w h. h ∙ sym c.holding) c

  -- `putToken` and what follows it, up to the start of the clock
  pub put_and_start-EitherWay :
      (b : Bool) (t : Thread W)
      → Consistent b t
      → Safely Either (do t1 ← put_token B R t; start_clock B R t1)
  put_and_start-EitherWay b t c =
      Safely-bind (put_token-IsConsistent B R i held L b t c) λ t1 c1. starts t1 (false, c1)

  pub waits :
      (b : Bool) (t : Thread W) → Consistent b t → Safely (Consistent true) (wait_token B R t)
  waits = wait_token-IsConsistent B R i held L

  pub commits :
      (b : Bool) (t : Thread W) → Consistent b t → Consistent b (commit_and_update_memory B R t)
  commits = commit-IsConsistent B R i held L

  pub with_token-EitherWay :
      (t : Thread W) (f : W → W)
      → ((w : W) → held (f w) ≡ held w)
      → Either t
      → Safely Either (with_token B R t f)
  unfolding with_token
  with_token-EitherWay t f same (b, c) =
      Safely-bind (stop_clock-IsConsistent B R i held L b t 0 c) λ t1 c1.
        Safely-bind (waits b t1 c1) λ t2 c2.
          let t3 = set_world B R t2 (f t2.world) in
          put_and_start-EitherWay true (commit_and_update_memory B R t3) (
            commits true t3
              (IsConsistent-world B R i held L true t2 (f t2.world) (same t2.world) c2))

  -- A thread that has just been made, or taken from the pool, with the level of its parent.
  pub child_register-IsConsistent :
      (t : Thread W) (parentindex : ℕ)
      → held t.world ≡ false
      → min_allowable_tx_size B ≤ t.coarsening_level
      → t.coarsening_level ≤ max_allowable_tx_size B
      → Safely (Consistent false) (child_register B R t parentindex i)
  unfolding child_register
  child_register-IsConsistent t parentindex h least most =
      let t0 = record t {
        world = R.register_thread (R.wake t.world) i parentindex;
        thread_index = i;
        lock_count = 0;
        token_holding = false;
      } in
      let c0 : Consistent false t0 = record {
        index = refl;
        holding = L.register_thread (R.wake t.world) parentindex ∙ (L.wake t.world ∙ h);
        says = refl;
        least = least;
        most = most;
      } in
      Safely-bind (waits false t0 c0) λ t1 c1.
        Safely-bind
          (add_round_robin_ticks-IsConsistent B R i held L true t1 round_robin_infinity c1)
          λ t2 c2.
            put_token-IsConsistent B R i held L true (commit_and_update_memory B R t2)
              (commits true t2 c2)

  prepare_spawn-IsConsistent :
      (b : Bool) (t : Thread W) (fn arg end_of_stack : ℕ)
      → Consistent b t
      → Safely
          (λ (r : ℕ × Thread W). Consistent false r.1)
          (prepare_spawn B R t fn arg end_of_stack)
  unfolding prepare_spawn
  prepare_spawn-IsConsistent b t fn arg end_of_stack c = Safely-bind (waits b t c) λ t1 c1.
      let t2 = commit_and_update_memory B R t1 in
      Safely-bind
        (add_ticks-IsConsistent B R i held L true t2
          (time_fork_per_page B * R.logical_pages t2.world) (commits true t1 c1))
        λ t3 c3.
          Safely-bind (L.get_thread t3.world fn arg (is_stack_addr B R t3 arg end_of_stack))
            λ r same.
              Safely-bind
                (add_round_robin_ticks-IsConsistent B R i held L true (set_world B R t3 r.1)
                  round_robin_forked_thread (IsConsistent-world B R i held L true t3 r.1 same c3))
                λ t4 c4.
                  Safely-bind (put_token_no_fast_forward-IsConsistent B R i held L true t4 c4)
                    λ t5 c5. safely c5

  pub spawn-EitherWay :
      (t : Thread W) (fn arg end_of_stack : ℕ)
      → Either t
      → Safely (λ (r : ℕ × Thread W). Either r.1) (spawn B R t fn arg end_of_stack)
  unfolding spawn
  spawn-EitherWay t fn arg end_of_stack (b, c) =
      Safely-bind (stop_clock_no_coarsen-IsConsistent B R i held L b t c) λ t1 c1.
        Safely-if (ltb 0 t1.lock_count) safely_exited (
          Safely-bind (prepare_spawn-IsConsistent b t1 fn arg end_of_stack c1) λ r c2.
            let spawned : Safely (λ s. held s.1 ≡ held r.1.world)
                (R.spawn_thread r.1.world fn arg r.1.thread_index r.0) =
              rw c2.index (L.spawn_thread r.1.world fn arg r.0) in
            Safely-bind spawned λ s same.
              Safely-bind
                (waits false (set_world B R r.1 s.1)
                  (IsConsistent-world B R i held L false r.1 s.1 same c2))
                λ t3 c3.
                  Safely-bind
                    (put_token-IsConsistent B R i held L true (commit_and_update_memory B R t3)
                      (commits true t3 c3))
                    λ t4 c4. Safely-bind (starts t4 (false, c4)) λ t5 e. safely e)

  pub join-EitherWay : (t : Thread W) (v : ℕ) → Either t → Safely Either (join B R t v)
  unfolding join
  join-EitherWay t v (b, c) =
      Safely-bind (stop_clock_no_coarsen-IsConsistent B R i held L b t c) λ t1 c1.
        Safely-if (v == 0) (safely (b, c1)) (
          Safely-bind (waits b t1 c1) λ t2 c2.
            let t3 = commit_and_update_memory B R t2 in
            let c3 = commits true t2 c2 in
            let asleep = R.sleep t3.world in
            Safely-bind
              (run_at (λ w. R.join w (R.thread_index_of t3.world v) t3.thread_index) true
                (set_world B R t3 asleep)
                (rw c3.index
                  (L.join asleep (R.thread_index_of t3.world v) (L.sleep t3.world ∙ c3.holding)))
                (IsConsistent-world B R i held L true t3 asleep (L.sleep t3.world) c3))
              λ t4 c4.
                Safely-bind
                  (add_ticks-IsConsistent B R i held L true t4 (fast_forward_clock B R t4) c4)
                  λ t5 c5.
                    let t6 = set_world B R t5 (R.wake t5.world) in
                    put_and_start-EitherWay true (commit_and_update_memory B R t6) (
                      commits true t6 (
                        IsConsistent-world B R i held L true t5 (R.wake t5.world) (L.wake t5.world)
                          c5)))

  pub cancel-EitherWay : (t : Thread W) (v : ℕ) → Either t → Safely Either (cancel B R t v)
  unfolding cancel
  cancel-EitherWay t v (b, c) =
      Safely-bind (stop_clock_no_coarsen-IsConsistent B R i held L b t c) λ t1 c1.
        Safely-bind (waits b t1 c1) λ t2 c2.
          let t3 = commit_and_update_memory B R t2 in
          let child = R.thread_index_of t3.world v in
          let killed = R.kill_thread t3.world child in
          Safely-bind
            (run-IsConsistent B R i held L true (λ w. R.cancel w child) (set_world B R t3 killed)
              (L.cancel killed child)
              (IsConsistent-world B R i held L true t3 killed (L.kill_thread t3.world child)
                (commits true t2 c2)))
            λ t4 c4. put_and_start-EitherWay true t4 c4

  pub barrier_wait-EitherWay :
      (t : Thread W) (barrier : ℕ) → Either t → Safely Either (barrier_wait B R t barrier)
  unfolding barrier_wait
  barrier_wait-EitherWay t barrier (b, c) =
      Safely-bind (stop_clock-IsConsistent B R i held L b t 0 c) λ t1 c1.
        Safely-bind (put_token-IsConsistent B R i held L b t1 c1) λ t2 c2.
          Safely-bind
            (run_at (λ w. R.barrier_wait w barrier t2.thread_index) false t2
              (rw c2.index (L.barrier_wait t2.world barrier c2.holding)) c2)
            λ t3 c3. starts t3 (false, c3)
