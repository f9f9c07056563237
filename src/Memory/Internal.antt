-- ===== src/Memory/Internal.antt =====
-- thread_lib/include/internalheap.h: the heap for the run-time's own use, over one piece of shared
-- memory, with the heap of the heap layers in between as a parameter. The lock is left out: a function
-- under it is one step.
use consequence.Base.{
  ℕ, ◌+◌, ◌*◌, ◌≡◌, refl, Bool, true, false, ◌==◌, if◌then◌else◌, Outcome, ok, exited, ◌>>=◌, ◌>>◌,
  bug_on, Returns, returns,
}
use consequence.Memory.{Source, map_failed, page_size}

-- `INTERNALHEAP_SIZE`
abbrev pub internalheap_size : ℕ
internalheap_size = 1048576 * 30

-- `class SourceInternalHeap`, with what `mmap` does to the state of the system
pub record SourceInternal (W : Type 0) : Type 0 where
  pub already_malloced : Bool
  pub world : W

module _ {W : Type 0} (mmap : W → ℕ → ℕ × W) where
  -- `malloc`
  unfoldable pub source_malloc : SourceInternal W → ℕ → Outcome (ℕ × SourceInternal W)
  source_malloc s sz =
      if s.already_malloced
      then ok (0, s)
      else (let (start, world) = mmap s.world (internalheap_size + page_size) in
          if start == 0
          then exited
          else ok (start, record { already_malloced = true; world = world }))

  -- `free`
  unfoldable pub source_free : SourceInternal W → ℕ → Outcome (SourceInternal W)
  source_free s addr = ok s

  abbrev pub internal_source : Source (SourceInternal W)
  internal_source = record { malloc = source_malloc; free = source_free }

-- `class InternalHeap`, over the heap that it is built from
module _ {H : Type 0} (S : Source H) where
  -- `malloc`
  unfoldable pub internal_malloc : H → ℕ → Outcome (ℕ × H)
  internal_malloc h sz = do (ptr, h1) ← S.malloc h sz; bug_on (ptr == 0); ok (ptr, h1)

  -- `free`
  unfoldable pub internal_free : H → ℕ → Outcome H
  internal_free h ptr = S.free h ptr

  -- Of `initialize`, the first allocation.
  unfoldable pub internal_initialize : H → Outcome H
  unfolding internal_malloc
  internal_initialize h = do (ptr, h1) ← internal_malloc h 8; ok h1

-- Where `mmap` fails, the address MAP_FAILED is handed out as the one piece of memory, and any later
-- call returns NULL.
pub source_malloc-map_failed :
    {W : Type 0} (mmap : W → ℕ → ℕ × W) (world failed : W) (sz later : ℕ)
    → mmap world (internalheap_size + page_size) ≡ (map_failed, failed)
    → Returns
        (λ r. (r.0 ≡ map_failed) × (source_malloc mmap r.1 later ≡ ok (0, r.1)))
        (source_malloc mmap (record { already_malloced = false; world = world }) sz)
unfolding source_malloc
source_malloc-map_failed mmap world failed sz later fails = rw fails (returns (refl, refl))
