-- ===== src/Interposition/Programs.antt =====
-- What a program does to the run loop by the calls that libdthread.cpp of thread_lib interposes.
use consequence.Base.{
  ℕ, ◌≡◌, refl, sym, subst, ◌∙◌, ◌≤◌, Bool, true, false, if◌then◌else◌, List, [], ◌∷◌, Outcome, ok,
  ◌>>=◌, Safely, safely, Safely-bind, bind-same, bind_assoc, Bool-cases, inl, inr, ◌++◌, bug,
  out_of_bounds, out_of_fuel, exited,
}
use consequence.Run.{Build, Runtime, Thread, min_allowable_tx_size, max_allowable_tx_size}
use consequence.Run.Operations.{child_register}
use consequence.Run.Tokens.{TokenLaws, IsConsistent}
use consequence.Run.Calls.{
  Call, calls_mutex_init, calls_mutex_lock, calls_mutex_unlock, calls_mutex_lock_simple,
  calls_mutex_unlock_simple, calls_cond_init, calls_cond_wait, calls_cond_signal,
  calls_cond_broadcast, calls_barrier_init, calls_barrier_wait, calls_spawn, calls_join,
  calls_cancel, perform, perform_all, perform_all-IsConsistent,
}
use consequence.Interposition.{
  Program, pthread_mutex_init, pthread_mutex_lock, pthread_mutex_trylock, pthread_mutex_unlock,
  pthread_create, pthread_join, pthread_cancel, pthread_cond_init, pthread_cond_broadcast,
  pthread_cond_signal, pthread_cond_wait, pthread_barrier_init, pthread_barrier_wait, no_effect,
}

-- a call of a program, with its arguments
pub data PthreadCall : Type 0 where
  inits_mutex : ℕ → PthreadCall
  locks : ℕ → PthreadCall
  tries_lock : ℕ → PthreadCall
  unlocks : ℕ → PthreadCall
  creates : ℕ → ℕ → ℕ → PthreadCall
  joins : ℕ → PthreadCall
  cancels : ℕ → PthreadCall
  inits_cond : ℕ → PthreadCall
  broadcasts : ℕ → PthreadCall
  signals : ℕ → PthreadCall
  waits : ℕ → ℕ → PthreadCall
  inits_barrier : ℕ → ℕ → PthreadCall
  waits_at_barrier : ℕ → PthreadCall
  yields : PthreadCall

module _ {W : Type 0} (B : Build) (R : Runtime W) (simple_locks : Bool) (rounds : ℕ) where
  abbrev returning : Outcome (ℕ × Program W) → Outcome (Program W)
  returning m = do (result, p) ← m; ok p

  -- what the library does at a call
  abbrev pub interpose : Program W → PthreadCall → Outcome (Program W)
  interpose p (inits_mutex m) = returning (pthread_mutex_init B R simple_locks rounds p m)
  interpose p (locks m) = returning (pthread_mutex_lock B R simple_locks rounds p m)
  interpose p (tries_lock m) = returning (pthread_mutex_trylock B R simple_locks rounds p m)
  interpose p (unlocks m) = returning (pthread_mutex_unlock B R simple_locks rounds p m)
  interpose p (creates f a e) = returning (pthread_create B R simple_locks rounds p f a e)
  interpose p (joins t) = returning (pthread_join B R simple_locks rounds p t)
  interpose p (cancels t) = returning (pthread_cancel B R simple_locks rounds p t)
  interpose p (inits_cond c) = pthread_cond_init B R simple_locks rounds p c
  interpose p (broadcasts c) = pthread_cond_broadcast B R simple_locks rounds p c
  interpose p (signals c) = pthread_cond_signal B R simple_locks rounds p c
  interpose p (waits c m) = pthread_cond_wait B R simple_locks rounds p c m
  interpose p (inits_barrier b n) = returning (pthread_barrier_init B R simple_locks rounds p b n)
  interpose p (waits_at_barrier b) = returning (pthread_barrier_wait B R simple_locks rounds p b)
  interpose p yields = returning (no_effect B R simple_locks rounds p)

  abbrev pub interpose_all : Program W → List PthreadCall → Outcome (Program W)
  interpose_all p [] = ok p
  interpose_all p (call ∷ calls) = do p1 ← interpose p call; interpose_all p1 calls

  -- the calls of the run loop that a call of the program makes
  abbrev pub run_calls : PthreadCall → List Call
  run_calls (inits_mutex m) = calls_mutex_init m ∷ []
  run_calls (locks m) =
      (if simple_locks then calls_mutex_lock_simple m else calls_mutex_lock m) ∷ []
  run_calls (tries_lock m) = []
  run_calls (unlocks m) =
      (if simple_locks then calls_mutex_unlock_simple m else calls_mutex_unlock m) ∷ []
  run_calls (creates f a e) = calls_spawn f a e ∷ []
  run_calls (joins t) = calls_join t ∷ []
  run_calls (cancels t) = calls_cancel t ∷ []
  run_calls (inits_cond c) = calls_cond_init c ∷ []
  run_calls (broadcasts c) = calls_cond_broadcast c ∷ []
  run_calls (signals c) = calls_cond_signal c ∷ []
  run_calls (waits c m) = calls_cond_wait c m ∷ []
  run_calls (inits_barrier b n) = calls_barrier_init b n ∷ []
  run_calls (waits_at_barrier b) = calls_barrier_wait b ∷ []
  run_calls yields = []

  abbrev pub running : Thread W → Program W
  running t = record { initialized = true; thread = t }

  -- one call of the run loop, in a function that returns a result and in one that does not
  one_call :
      (m : Outcome (Thread W))
      → returning (m >>= λ t. ok (0, running t)) ≡ ((m >>= λ t. ok t) >>= λ t. ok (running t))
  one_call (ok t) = refl
  one_call bug = refl
  one_call out_of_bounds = refl
  one_call out_of_fuel = refl
  one_call exited = refl

  one_call_always :
      (m : Outcome (Thread W))
      → (m >>= λ t. ok (running t)) ≡ ((m >>= λ t. ok t) >>= λ t. ok (running t))
  one_call_always (ok t) = refl
  one_call_always bug = refl
  one_call_always out_of_bounds = refl
  one_call_always out_of_fuel = refl
  one_call_always exited = refl

  -- In an initialized library, a call is its calls of the run loop.
  interpose-run_calls :
      (t : Thread W) (call : PthreadCall)
      → interpose (running t) call
        ≡ (perform_all B R rounds t (run_calls call) >>= λ t1. ok (running t1))
  unfolding pthread_mutex_init pthread_mutex_lock pthread_mutex_trylock pthread_mutex_unlock
      pthread_create pthread_join pthread_cancel pthread_cond_init pthread_cond_broadcast
      pthread_cond_signal pthread_cond_wait pthread_barrier_init pthread_barrier_wait no_effect
  interpose-run_calls t (inits_mutex m) = one_call _
  interpose-run_calls t (locks m) = elim (Bool-cases simple_locks) [
    | inl simple ↦ rw simple (one_call _)
    | inr full ↦ rw full (one_call _)
  ]
  interpose-run_calls t (tries_lock m) = refl
  interpose-run_calls t (unlocks m) = elim (Bool-cases simple_locks) [
    | inl simple ↦ rw simple (one_call _)
    | inr full ↦ rw full (one_call _)
  ]
  interpose-run_calls t (creates f a e) = one_call _
  interpose-run_calls t (joins v) = one_call _
  interpose-run_calls t (cancels v) = one_call _
  interpose-run_calls t (inits_cond c) = one_call_always _
  interpose-run_calls t (broadcasts c) = one_call_always _
  interpose-run_calls t (signals c) = one_call_always _
  interpose-run_calls t (waits c m) = one_call_always _
  interpose-run_calls t (inits_barrier b n) = one_call _
  interpose-run_calls t (waits_at_barrier b) = one_call _
  interpose-run_calls t yields = refl

  abbrev pub all_run_calls : List PthreadCall → List Call
  all_run_calls [] = []
  all_run_calls (call ∷ calls) = run_calls call ++ all_run_calls calls

  perform_all-append :
      (t : Thread W) (xs ys : List Call)
      → perform_all B R rounds t (xs ++ ys)
        ≡ (perform_all B R rounds t xs >>= λ t1. perform_all B R rounds t1 ys)
  perform_all-append t [] ys = refl
  perform_all-append t (x ∷ xs) ys =
      bind-same (perform B R rounds t x) (λ t1. perform_all-append t1 xs ys)
      ∙ sym (bind_assoc (perform B R rounds t x) _ _)

  interpose_all-perform_all :
      (t : Thread W) (calls : List PthreadCall)
      → interpose_all (running t) calls
        ≡ (perform_all B R rounds t (all_run_calls calls) >>= λ t1. ok (running t1))
  interpose_all-perform_all t [] = refl
  interpose_all-perform_all t (call ∷ calls) =
      rw (interpose-run_calls t call, perform_all-append t (run_calls call) (all_run_calls calls))
        (bind_assoc (perform_all B R rounds t (run_calls call)) _ _
          ∙ bind-same (perform_all B R rounds t (run_calls call))
              (λ t1. interpose_all-perform_all t1 calls)
          ∙ sym (bind_assoc (perform_all B R rounds t (run_calls call)) _ _))

  module _ (i : ℕ) (held : W → Bool) (L : TokenLaws R i held) where
    pub interpose_all-IsConsistent :
        (t : Thread W) (parentindex : ℕ) (calls : List PthreadCall)
        → held t.world ≡ false
        → min_allowable_tx_size B ≤ t.coarsening_level
        → t.coarsening_level ≤ max_allowable_tx_size B
        → Safely
            (λ p. (p.initialized ≡ true) × IsConsistent B i held p.thread.token_holding p.thread)
            (do t1 ← child_register B R t parentindex i; interpose_all (running t1) calls)
    interpose_all-IsConsistent t parentindex calls h least most =
        subst (Safely _)
          (bind_assoc (child_register B R t parentindex i) _ _
            ∙ sym (
                bind-same (child_register B R t parentindex i)
                  (λ t1. interpose_all-perform_all t1 calls)))
          (Safely-bind
            (perform_all-IsConsistent B R rounds i held L t parentindex (all_run_calls calls) h
              least most)
            λ t2 c. safely (refl, c))
