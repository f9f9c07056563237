-- ===== src/Interposition/Tests.antt =====
-- The theorems on libdthread.cpp of thread_lib, over the small runtime of the run loop's tests.
use consequence.Base.{ℕ, ◌<◌, ◌≡◌, refl, arith, true, false, [], ◌∷◌, All, ◌>>=◌, Safely, Returns}
use consequence.Memory.{Bytes}
use consequence.Run.Tests.{runtime, build, thread, holds, runtime-TokenLaws}
use consequence.Run.Operations.{child_register}
use consequence.Run.Tokens.{IsConsistent}
use consequence.Interposition.Programs.{
  interpose_all, interpose_all-IsConsistent, locks, unlocks, waits, creates, joins, yields, running,
}
use consequence.Interposition.Buffers.{touched_indices, touched_indices-Reaches, Reaches}

touched_indices-Reaches_example :
    Returns
      (λ is. All (λ k. k < 5000) is × ((j : ℕ) → j < 5000 → Reaches is j))
      (touched_indices 5000)
touched_indices-Reaches_example = touched_indices-Reaches 5000 (omega arith) (omega arith)

-- a read of the system that finds nothing to read
abbrev reads_nothing : Bytes → ℕ → ℕ → ℕ → ℕ × Bytes
reads_nothing m fd buf count = (0, m)

interpose_all-IsConsistent_example :
    Safely
      (λ p. (p.initialized ≡ true) × IsConsistent build 1 (holds 1) p.thread.token_holding p.thread)
      (do
        t1 ← child_register build runtime thread 0 1
        interpose_all build runtime false 4
            (running build runtime false 4 t1)
            (locks 7 ∷ waits 8 7 ∷ unlocks 7 ∷ creates 30 31 32 ∷ yields ∷ joins 5 ∷ []))
interpose_all-IsConsistent_example =
    interpose_all-IsConsistent build runtime false 4 1 (holds 1) runtime-TokenLaws thread 0
      (locks 7 ∷ waits 8 7 ∷ unlocks 7 ∷ creates 30 31 32 ∷ yields ∷ joins 5 ∷ []) refl
      (omega arith) (omega arith)
