-- ===== src/Memory/Allocation.antt =====
-- The functions of thread_lib/include/xmemory.h that allocate, and those of conseq_malloc.h, which
-- programs call in place of the C library's.
pub mod Contents
pub mod Realloc
pub mod Calloc
pub mod Simple
use consequence.Base.{
  ℕ, zero, suc, ◌+◌, ◌-◌, ◌*◌, ◌%◌, u64, ℤ, pos, negsuc, Bool, ltb, ◌==◌, if◌then◌else◌, Outcome,
  ok, ◌>>=◌, ◌>>◌, in_range,
}
use consequence.Memory.{num_heaps, memset, memcpy}
use consequence.Memory.PerThread.{Shared, HeapType, Heaps, malloc_from, free_to, size_of}

-- `_pheap` and `_heapid` of `class xmemory`
pub record Xmemory (T S : Type 0) : Type 0 where
  pub heaps : Heaps T S
  pub heap_id : ℤ

-- "id % xdefines::NUM_HEAPS", with the sign of `id`
unfoldable pub heap_id_of : ℤ → ℤ
heap_id_of (pos n) = pos (n % num_heaps)
heap_id_of (negsuc n) = let r = (n + 1) % num_heaps in if r == 0 then pos 0 else negsuc (r - 1)

module _ {T S : Type 0} where
  -- Of `setThreadIndex`, the heap that the thread uses.
  unfoldable pub set_thread_heap : Xmemory T S → ℤ → Xmemory T S
  unfolding heap_id_of
  set_thread_heap m id = record m { heap_id = heap_id_of id }

  -- the bytes of the memory are written
  abbrev pub with_bytes : Xmemory T S → (ℕ → ℕ) → Xmemory T S
  with_bytes m bytes = record m {
    heaps = record (m.heaps) { shared = record (m.heaps.shared) { bytes = bytes } };
  }

module _ {T S : Type 0} (K : HeapType T S) where
  -- `xmemory::malloc`
  unfoldable pub malloc : Xmemory T S → ℕ → Outcome (ℕ × Xmemory T S)
  malloc m sz = do
    (ptr, heaps) ← malloc_from K m.heaps m.heap_id sz
    ok (ptr, record m { heaps = heaps })

  -- `xmemory::free`
  unfoldable pub free : Xmemory T S → ℕ → Outcome (Xmemory T S)
  free m ptr = do heaps ← free_to K m.heaps m.heap_id ptr; ok (record m { heaps = heaps })

  -- `xmemory::getSize`
  unfoldable pub get_size : Xmemory T S → ℕ → Outcome ℕ
  get_size m ptr = size_of K m.heaps ptr

  -- Of `xmemory::realloc`, the copy into the new object.
  unfoldable pub copy_object : Xmemory T S → ℕ → ℕ → ℕ → Outcome (Xmemory T S)
  copy_object m newptr ptr count =
      if newptr == 0
      then ok m
      else (do bytes ← memcpy m.heaps.shared.bytes newptr ptr count; ok (with_bytes m bytes))

  -- `xmemory::realloc`
  unfoldable pub realloc_object : Xmemory T S → ℕ → ℕ → Outcome (ℕ × Xmemory T S)
  unfolding get_size malloc copy_object free
  realloc_object m ptr sz = do
    s ← get_size m ptr
    (newptr, m1) ← malloc m sz
    m2 ← copy_object m1 newptr ptr (if ltb s sz then s else sz)
    m3 ← free m2 ptr
    ok (newptr, m3)

  -- `conseq_malloc::calloc`
  unfoldable pub calloc : Xmemory T S → ℕ → ℕ → Outcome (ℕ × Xmemory T S)
  unfolding malloc
  calloc m nmemb sz = do
    (ptr, m1) ← malloc m (u64 (nmemb * sz))
    bytes ← memset m1.heaps.shared.bytes ptr 0 (u64 (nmemb * sz))
    ok (ptr, with_bytes m1 bytes)

  -- `conseq_malloc::realloc`
  unfoldable pub realloc : Xmemory T S → ℕ → ℕ → Outcome (ℕ × Xmemory T S)
  unfolding malloc free realloc_object
  realloc m ptr sz =
      if ptr == 0
      then malloc m sz
      else if sz == 0
      then (do m1 ← free m ptr; ok (0, m1))
      else realloc_object m ptr sz
