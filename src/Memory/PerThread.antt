-- ===== src/Memory/PerThread.antt =====
-- Of thread_lib/include/warpheap.h, class PPHeap, one heap for each thread index modulo the number of
-- heaps, and of xadaptheap.h the calls that it passes on. The heaps inside, of the heap layers, are a
-- record of operations; they share the source of their memory. A heap's lock is left out: a function
-- under its lock is one step.
use consequence.Base.{
  ℕ, ℤ, pos, negsuc, ltb, store, Outcome, ok, out_of_bounds, ◌>>=◌, ◌>>◌, in_range,
}
use consequence.Memory.{Bytes, num_heaps}

-- what all heaps share: the state of their source, and the bytes of the memory
pub record Shared (S : Type 0) : Type 0 where
  pub source : S
  pub bytes : Bytes

-- `TheHeapType`, with `T` for the state of one heap
pub record HeapType (T S : Type 0) : Type 0 where
  pub malloc : T → Shared S → ℕ → Outcome (ℕ × T × Shared S)
  pub free : T → Shared S → ℕ → Outcome (T × Shared S)
  pub get_size : T → Shared S → ℕ → Outcome ℕ

-- `class PPHeap`: a heap that it is itself, and its array of heaps
pub record Heaps (T S : Type 0) : Type 0 where
  pub itself : T
  pub heap : ℕ → T
  pub shared : Shared S

-- an `int` as the index of a heap
unfoldable pub heap_index : ℤ → Outcome ℕ
heap_index (pos i) = in_range (ltb i num_heaps) >> ok i
heap_index (negsuc i) = out_of_bounds

module _ {T S : Type 0} (K : HeapType T S) where
  -- `malloc`
  unfoldable pub malloc_from : Heaps T S → ℤ → ℕ → Outcome (ℕ × Heaps T S)
  unfolding heap_index
  malloc_from h ind sz = do
    i ← heap_index ind
    (ptr, one, shared) ← K.malloc (h.heap i) h.shared sz
    ok (ptr, record h { heap = store h.heap i one; shared = shared })

  -- `free`
  unfoldable pub free_to : Heaps T S → ℤ → ℕ → Outcome (Heaps T S)
  unfolding heap_index
  free_to h ind ptr = do
    i ← heap_index ind
    (one, shared) ← K.free (h.heap i) h.shared ptr
    ok (record h { heap = store h.heap i one; shared = shared })

  -- `getSize`, which it has from the heap that it is
  unfoldable pub size_of : Heaps T S → ℕ → Outcome ℕ
  size_of h ptr = K.get_size h.itself h.shared ptr
