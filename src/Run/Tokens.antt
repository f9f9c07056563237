-- ===== src/Run/Tokens.antt =====
-- What the run loop needs of the token, and the state of a thread that keeps to it.
pub mod Handing
use consequence.Base.{
  ℕ, ◌+◌, ◌%◌, ◌^◌, ◌≤◌, ◌&&◌, ◌≡◌, refl, sym, ◌∙◌, arith, Bool, true, false, not, none, some,
  Option, ltb, ◌==◌, Outcome, inl, inr, if◌then◌else◌, Bool-cases, Safely, safely, safely_outside,
  safely_waiting, safely_exited, Safely-bind, Safely-if, Safely-cases,
}
use consequence.Run.{
  Build, Runtime, Thread, static_or, min_allowable_tx_size, max_allowable_tx_size,
  tx_size_after_token_transfer, xmin, is_positive, fits_level, single_active, in_coarsened_tx,
  fast_forward_clock, run, end_tx_coarsening, reset_tx_coarsening, use_tx_coarsening, add_ticks,
  add_round_robin_ticks, monitor, wait_token, stop_clock, start_clock, stop_clock_no_coarsen,
  release_token, put_token, put_token_no_fast_forward,
}

-- A call after which the thread holds the token if and only if it did before.
abbrev pub IsQuiet {κ} : {W : Type 0} {A : Type κ} → (W → Bool) → W → (A → W) → Outcome A → Type κ
IsQuiet held w after m = Safely (λ a. held (after a) ≡ held w) m

abbrev pub world_itself : {W : Type 0} → W → W
world_itself w = w

abbrev pub world_of : {W A : Type 0} → A × W → W
world_of r = r.1

-- How the operations that thread `i` calls treat the token, where `held` says that it has it: getting
-- and putting it, the operations that wait without it, and all others, which leave it alone. One
-- that waits without the token gives it back, and only the holder may call it.
pub record TokenLaws {W : Type 0} (R : Runtime W) (i : ℕ) (held : W → Bool) : Type 0 where
  pub get_token : (w : W) → held w ≡ false → Safely (λ w'. held w' ≡ true) (R.get_token w i)
  pub put_token :
      (w : W) (b : Bool) → held w ≡ true → Safely (λ w'. held w' ≡ false) (R.put_token w i b)
  pub wait_on_lock :
      (w : W) (m : ℕ) → held w ≡ true → Safely (λ w'. held w' ≡ false) (R.wait_on_lock w m i)
  pub cond_wait :
      (w : W) (c m : ℕ) → held w ≡ true → Safely (λ w'. held w' ≡ false) (R.cond_wait w i c m)
  pub barrier_wait :
      (w : W) (b : ℕ) → held w ≡ false → Safely (λ w'. held w' ≡ false) (R.barrier_wait w b i)
  pub join : (w : W) (c : ℕ) → held w ≡ true → Safely (λ w'. held w' ≡ true) (R.join w c i)
  pub lock_acquire : (w : W) (m : ℕ) → IsQuiet held w world_of (R.lock_acquire w m i)
  pub lock_release : (w : W) (m : ℕ) → IsQuiet held w world_itself (R.lock_release w m i)
  pub lock_waiters_count : (w : W) (m : ℕ) → Safely (λ n. Unit {0}) (R.lock_waiters_count w m)
  pub cond_signal : (w : W) (c : ℕ) → IsQuiet held w world_itself (R.cond_signal w i c)
  pub cond_broadcast : (w : W) (c : ℕ) → IsQuiet held w world_itself (R.cond_broadcast w i c)
  pub cancel : (w : W) (c : ℕ) → IsQuiet held w world_itself (R.cancel w c)
  pub get_thread : (w : W) (f a : ℕ) (b : Bool) → IsQuiet held w world_of (R.get_thread w f a b)
  pub spawn_thread : (w : W) (f a e : ℕ) → IsQuiet held w world_of (R.spawn_thread w f a i e)
  pub add_ticks : (w : W) (n : ℕ) → IsQuiet held w world_itself (R.add_ticks w n)
  pub stop_with_id : (w : W) (n : ℕ) → IsQuiet held w world_itself (R.stop_with_id w n)
  pub stop_with_id_no_notify :
      (w : W) (n : ℕ) → IsQuiet held w world_itself (R.stop_with_id_no_notify w n)
  pub start : (w : W) → IsQuiet held w world_itself (R.start w)
  pub start_no_notify : (w : W) → IsQuiet held w world_itself (R.start_no_notify w)
  pub end_coarsened_tx : (w : W) → IsQuiet held w world_itself (R.end_coarsened_tx w)
  pub lock_init : (w : W) (m : ℕ) → held (R.lock_init w m) ≡ held w
  pub cond_init : (w : W) (c : ℕ) → held (R.cond_init w c) ≡ held w
  pub barrier_init : (w : W) (b n : ℕ) → held (R.barrier_init w b n) ≡ held w
  pub register_thread : (w : W) (p : ℕ) → held (R.register_thread w i p) ≡ held w
  pub commit : (w : W) → held (R.commit w) ≡ held w
  pub sleep : (w : W) → held (R.sleep w) ≡ held w
  pub wake : (w : W) → held (R.wake w) ≡ held w
  pub kill_thread : (w : W) (c : ℕ) → held (R.kill_thread w c) ≡ held w

-- Thread `i` holds the token, or not, and its variable `_token_holding` says which; the coarsening
-- level is between the least and the greatest size allowed.
pub record IsConsistent {W : Type 0} (B : Build) (i : ℕ) (held : W → Bool) (b : Bool) (t : Thread W)
    : Type 0 where
  pub index : t.thread_index ≡ i
  pub holding : held t.world ≡ b
  pub says : t.token_holding ≡ b
  pub least : min_allowable_tx_size B ≤ t.coarsening_level
  pub most : t.coarsening_level ≤ max_allowable_tx_size B

sizes-ordered :
    (s : Option ℕ)
    → (static_or s 20000 ≤ static_or s 50000) × (static_or s 50000 ≤ static_or s 500000)
sizes-ordered none = (omega arith, omega arith)
sizes-ordered (some size) = (omega arith, omega arith)

module _ {W : Type 0} (B : Build) (R : Runtime W) (i : ℕ) (held : W → Bool) (L : TokenLaws R i held)
    (b : Bool) where
  abbrev Consistent : Thread W → Type 0
  Consistent t = IsConsistent B i held b t

  -- Another world in which the thread holds the token just as before.
  pub IsConsistent-world :
      (t : Thread W) (w : W)
      → held w ≡ held t.world
      → Consistent t
      → Consistent (record t { world = w })
  IsConsistent-world t w same c = record {
    index = c.index;
    holding = same ∙ c.holding;
    says = c.says;
    least = c.least;
    most = c.most;
  }

  pub run-IsConsistent :
      (f : W → Outcome W) (t : Thread W)
      → IsQuiet held t.world world_itself (f t.world)
      → Consistent t
      → Safely Consistent (run B R f t)
  unfolding run
  run-IsConsistent f t quiet c = Safely-bind quiet λ w same. safely (IsConsistent-world t w same c)

  pub add_ticks-IsConsistent :
      (t : Thread W) (n : ℕ) → Consistent t → Safely Consistent (add_ticks B R t n)
  unfolding add_ticks
  add_ticks-IsConsistent t n c = run-IsConsistent (λ w. R.add_ticks w n) t (L.add_ticks t.world n) c

  pub add_round_robin_ticks-IsConsistent :
      (t : Thread W) (n : ℕ) → Consistent t → Safely Consistent (add_round_robin_ticks B R t n)
  unfolding add_round_robin_ticks
  add_round_robin_ticks-IsConsistent t n c =
      Safely-if B.token_order_round_robin (add_ticks-IsConsistent t n c) (safely c)

  pub stop_clock-IsConsistent :
      (t : Thread W) (id : ℕ) → Consistent t → Safely Consistent (stop_clock B R t id)
  unfolding stop_clock
  stop_clock-IsConsistent t id c =
      Safely-if (in_coarsened_tx B R t)
        (run-IsConsistent (λ w. R.stop_with_id_no_notify w id) t
          (L.stop_with_id_no_notify t.world id) c)
        (run-IsConsistent (λ w. R.stop_with_id w id) t (L.stop_with_id t.world id) c)

  pub start_clock-IsConsistent :
      (t : Thread W) → Consistent t → Safely Consistent (start_clock B R t)
  unfolding start_clock
  start_clock-IsConsistent t c =
      Safely-if (in_coarsened_tx B R t)
        (run-IsConsistent R.start_no_notify t (L.start_no_notify t.world) c)
        (run-IsConsistent R.start t (L.start t.world) c)

  -- The other variables do not matter.
  pub IsConsistent-vars :
      (t : Thread W) (locks counter consecutive : ℕ) (monitors : Bool) (sleeps : ℕ) (asleep : Bool)
      → Consistent t
      → Consistent (record t {
        lock_count = locks;
        coarsening_counter = counter;
        consecutively_coarsened = consecutive;
        monitor_next = monitors;
        sleep_count = sleeps;
        is_sleeping = asleep;
      })
  IsConsistent-vars t locks counter consecutive monitors sleeps asleep c = record {
    index = c.index;
    holding = c.holding;
    says = c.says;
    least = c.least;
    most = c.most;
  }

  -- With another level that is between the bounds.
  IsConsistent-level :
      (t : Thread W) (level : ℕ) (monitors : Bool)
      → min_allowable_tx_size B ≤ level
      → level ≤ max_allowable_tx_size B
      → Consistent t
      → Consistent (record t { coarsening_level = level; monitor_next = monitors })
  IsConsistent-level t level monitors least most c = record {
    index = c.index;
    holding = c.holding;
    says = c.says;
    least = least;
    most = most;
  }

  pub end_tx_coarsening-IsConsistent :
      (t : Thread W) → Consistent t → Safely Consistent (end_tx_coarsening B R t)
  unfolding end_tx_coarsening
  end_tx_coarsening-IsConsistent t c = Safely-if (not B.use_tx_coarsening) (safely c) (
      Safely-bind
        (Safely-if (in_coarsened_tx B R t)
          (run-IsConsistent R.end_coarsened_tx t (L.end_coarsened_tx t.world) c) (safely c))
        λ t1 c1.
          safely (
            IsConsistent-vars t1 t1.lock_count 0 0 t1.monitor_next t1.sleep_count t1.is_sleeping
              c1))

  pub reset_tx_coarsening-IsConsistent :
      (t : Thread W) → Consistent t → Safely Consistent (reset_tx_coarsening B R t)
  unfolding reset_tx_coarsening
  reset_tx_coarsening-IsConsistent t c =
      let sizes = sizes-ordered B.static_tx_size in
      let least = min_allowable_tx_size B in
      Safely-if (not B.use_tx_coarsening) (safely c) (
        end_tx_coarsening-IsConsistent (record t { monitor_next = false; coarsening_level = least })
          (IsConsistent-level t least false (omega arith) (omega arith) c))

  pub stop_clock_no_coarsen-IsConsistent :
      (t : Thread W) → Consistent t → Safely Consistent (stop_clock_no_coarsen B R t)
  unfolding stop_clock_no_coarsen
  stop_clock_no_coarsen-IsConsistent t c =
      Safely-bind (stop_clock-IsConsistent t 0 c) end_tx_coarsening-IsConsistent

  pub use_tx_coarsening-IsConsistent :
      (t : Thread W) (id : ℕ)
      → Consistent t
      → Safely (λ r. Consistent r.1) (use_tx_coarsening B R t id)
  unfolding use_tx_coarsening
  use_tx_coarsening-IsConsistent t id c =
      let next_tx = R.estimate_next_tx t.world id in
      let positive = is_positive t.coarsening_counter in
      Safely-if (not B.use_tx_coarsening) (safely c) (
        Safely-if
          (ltb next_tx (2 ^ 63) && fits_level t.coarsening_counter next_tx t.coarsening_level)
          (safely (
            IsConsistent-vars t t.lock_count
              ((t.coarsening_counter + R.last_tx_size t.world) % 2 ^ 32)
              ((t.consecutively_coarsened + 1) % 2 ^ 32) t.monitor_next t.sleep_count t.is_sleeping
              c))
          (Safely-if (single_active B R t && positive)
            (Safely-bind (end_tx_coarsening-IsConsistent t c) λ t1 c1. safely c1)
            (Safely-if positive
              (safely (
                IsConsistent-vars t t.lock_count t.coarsening_counter t.consecutively_coarsened true
                  t.sleep_count t.is_sleeping c))
              (safely c))))

  pub monitor-IsConsistent : (t : Thread W) → Consistent t → Consistent (monitor B R t)
  unfolding monitor
  monitor-IsConsistent t c =
      let sizes = sizes-ordered B.static_tx_size in
      let least = c.least in
      elim (Bool-cases t.monitor_next) [
        | inr e ↦ rw e (IsConsistent-level t t.coarsening_level false (omega arith) c.most c)
        | inl e ↦ elim (Bool-cases (R.last_token_putter t.world == t.thread_index)) [
          | inr e2 ↦
              rw (e, e2)
                (IsConsistent-level t (tx_size_after_token_transfer B) false (omega arith)
                  (omega arith) c)
          | inl e2 ↦
              rw (e, e2)
                (IsConsistent-level t
                  (xmin (t.coarsening_level + t.coarsening_level) (max_allowable_tx_size B)) false
                  (ground arith) (ground arith) c)
        ]
      ]
