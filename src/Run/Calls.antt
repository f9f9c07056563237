-- ===== src/Run/Calls.antt =====
-- Sequences of the calls that a program's thread makes of xrun.h.
use consequence.Base.{
  ℕ, ◌≡◌, refl, sym, ◌∙◌, Bool, false, ◌≤◌, List, [], ◌∷◌, Outcome, ok, ◌>>=◌, Safely, safely,
  Safely-bind, Safely-mono,
}
use consequence.Run.{Build, Runtime, Thread, min_allowable_tx_size, max_allowable_tx_size}
use consequence.Run.Mutexes.{mutex_lock, mutex_unlock, mutex_lock_simple, mutex_unlock_simple}
use consequence.Run.Operations.{
  spawn, join, cancel, cond_init, barrier_init, mutex_init, sigstop_handle, barrier_wait, cond_wait,
  cond_broadcast, cond_signal, child_register,
}
use consequence.Run.Tokens.{TokenLaws, IsConsistent}
use consequence.Run.Holding.{EitherWay, mutex_lock-EitherWay}
use consequence.Run.Holding.Unlocks.{
  mutex_unlock-EitherWay, mutex_lock_simple-EitherWay, mutex_unlock_simple-EitherWay,
}
use consequence.Run.Handling.{
  with_token-EitherWay, spawn-EitherWay, join-EitherWay, cancel-EitherWay, barrier_wait-EitherWay,
  child_register-IsConsistent,
}
use consequence.Run.Handling.Conds.{
  cond_wait-EitherWay, cond_broadcast-EitherWay, cond_signal-EitherWay,
}

-- a call, with its arguments
pub data Call : Type 0 where
  calls_mutex_init : ℕ → Call
  calls_mutex_lock : ℕ → Call
  calls_mutex_unlock : ℕ → Call
  calls_mutex_lock_simple : ℕ → Call
  calls_mutex_unlock_simple : ℕ → Call
  calls_cond_init : ℕ → Call
  calls_cond_wait : ℕ → ℕ → Call
  calls_cond_signal : ℕ → Call
  calls_cond_broadcast : ℕ → Call
  calls_barrier_init : ℕ → ℕ → Call
  calls_barrier_wait : ℕ → Call
  calls_spawn : ℕ → ℕ → ℕ → Call
  calls_join : ℕ → Call
  calls_cancel : ℕ → Call
  is_signalled : Call

module _ {W : Type 0} (B : Build) (R : Runtime W) (rounds : ℕ) where
  -- What a thread does at a call, where it tries to lock a mutex `rounds` times.
  abbrev pub perform : Thread W → Call → Outcome (Thread W)
  perform t (calls_mutex_init m) = mutex_init B R t m
  perform t (calls_mutex_lock m) = mutex_lock B R rounds t m
  perform t (calls_mutex_unlock m) = mutex_unlock B R t m
  perform t (calls_mutex_lock_simple m) = mutex_lock_simple B R t m
  perform t (calls_mutex_unlock_simple m) = mutex_unlock_simple B R t m
  perform t (calls_cond_init c) = cond_init B R t c
  perform t (calls_cond_wait c m) = cond_wait B R rounds t c m
  perform t (calls_cond_signal c) = cond_signal B R t c
  perform t (calls_cond_broadcast c) = cond_broadcast B R t c
  perform t (calls_barrier_init b n) = barrier_init B R t b n
  perform t (calls_barrier_wait b) = barrier_wait B R t b
  perform t (calls_spawn f a e) = do (tid, t1) ← spawn B R t f a e; ok t1
  perform t (calls_join v) = join B R t v
  perform t (calls_cancel v) = cancel B R t v
  perform t is_signalled = sigstop_handle B R t

  abbrev pub perform_all : Thread W → List Call → Outcome (Thread W)
  perform_all t [] = ok t
  perform_all t (call ∷ calls) = do t1 ← perform t call; perform_all t1 calls

  module _ (i : ℕ) (held : W → Bool) (L : TokenLaws R i held) where
    perform-EitherWay :
        (t : Thread W) (call : Call)
        → EitherWay B R i held L t
        → Safely (EitherWay B R i held L) (perform t call)
    unfolding mutex_init cond_init barrier_init sigstop_handle
    perform-EitherWay t (calls_mutex_init m) =
        with_token-EitherWay B R i held L t (λ w. R.lock_init w m) (λ w. L.lock_init w m)
    perform-EitherWay t (calls_mutex_lock m) = mutex_lock-EitherWay B R i held L rounds t m
    perform-EitherWay t (calls_mutex_unlock m) = mutex_unlock-EitherWay B R i held L t m
    perform-EitherWay t (calls_mutex_lock_simple m) = mutex_lock_simple-EitherWay B R i held L t m
    perform-EitherWay t (calls_mutex_unlock_simple m) =
        mutex_unlock_simple-EitherWay B R i held L t m
    perform-EitherWay t (calls_cond_init c) =
        with_token-EitherWay B R i held L t (λ w. R.cond_init w c) (λ w. L.cond_init w c)
    perform-EitherWay t (calls_cond_wait c m) = cond_wait-EitherWay B R i held L rounds t c m
    perform-EitherWay t (calls_cond_signal c) = cond_signal-EitherWay B R i held L t c
    perform-EitherWay t (calls_cond_broadcast c) = cond_broadcast-EitherWay B R i held L t c
    perform-EitherWay t (calls_barrier_init b n) =
        with_token-EitherWay B R i held L t (λ w. R.barrier_init w b n) (λ w. L.barrier_init w b n)
    perform-EitherWay t (calls_barrier_wait b) = barrier_wait-EitherWay B R i held L t b
    perform-EitherWay t (calls_spawn f a e) =
        λ h. Safely-bind (spawn-EitherWay B R i held L t f a e h) λ r h1. safely h1
    perform-EitherWay t (calls_join v) = join-EitherWay B R i held L t v
    perform-EitherWay t (calls_cancel v) = cancel-EitherWay B R i held L t v
    perform-EitherWay t is_signalled = with_token-EitherWay B R i held L t (λ w. w) (λ w. refl)

    perform_all-EitherWay :
        (calls : List Call) (t : Thread W)
        → EitherWay B R i held L t
        → Safely (EitherWay B R i held L) (perform_all t calls)
    perform_all-EitherWay [] t h = safely h
    perform_all-EitherWay (call ∷ calls) t h =
        Safely-bind (perform-EitherWay t call h) (perform_all-EitherWay calls)

    -- A thread registers, without the token and with a coarsening level within its bounds, and then
    -- makes any calls of the operations on mutexes, condition variables, barriers and threads, and
    -- handles signals. If what it calls treats the token as `TokenLaws` says, no assertion fails, such
    -- as that a thread puts only a token that it holds; and whenever all calls have returned,
    -- `_token_holding` says whether the thread holds the token, and the coarsening level is between
    -- the least and the greatest size allowed.
    pub perform_all-IsConsistent :
        (t : Thread W) (parentindex : ℕ) (calls : List Call)
        → held t.world ≡ false
        → min_allowable_tx_size B ≤ t.coarsening_level
        → t.coarsening_level ≤ max_allowable_tx_size B
        → Safely
            (λ t'. IsConsistent B i held t'.token_holding t')
            (do t1 ← child_register B R t parentindex i; perform_all t1 calls)
    perform_all-IsConsistent t parentindex calls h least most =
        Safely-bind (child_register-IsConsistent B R i held L t parentindex h least most) λ t1 c1.
          Safely-mono (perform_all-EitherWay calls t1 (false, c1)) λ t2 (b, c2). record {
            index = c2.index;
            holding = c2.holding ∙ sym c2.says;
            says = refl;
            least = c2.least;
            most = c2.most;
          }
