-- ===== src/Interposition/Allocating.antt =====
-- The functions of thread_lib/source/libdthread.cpp that allocate: before the library is initialized
-- they map memory, after it they use the heap.
use consequence.Base.{ℕ, ◌*◌, u64, Bool, ◌==◌, if◌then◌else◌, Outcome, ok, ◌>>=◌, ◌>>◌, bug_on}
use consequence.Memory.{memset}
use consequence.Memory.PerThread.{HeapType}
use consequence.Memory.Allocation.{Xmemory, with_bytes}
use consequence.Memory.Allocation as Allocation

-- `initialized`, the heap, and what `mmap` changes
pub record Process (T S W : Type 0) : Type 0 where
  pub initialized : Bool
  pub memory : Xmemory T S
  pub world : W

module _ {T S W : Type 0} (K : HeapType T S) (mmap : W → ℕ → ℕ × W) where
  -- an address from `mmap`
  abbrev map_memory : Process T S W → ℕ → ℕ × Process T S W
  map_memory p sz = let (ptr, world) = mmap p.world sz in (ptr, record p { world = world })

  -- bytes of the memory are cleared
  abbrev clear_bytes : Process T S W → ℕ → ℕ → Outcome (Process T S W)
  clear_bytes p ptr count = do
    bytes ← memset p.memory.heaps.shared.bytes ptr 0 count
    ok (record p { memory = with_bytes p.memory bytes })

  -- `malloc`
  unfoldable pub malloc : Process T S W → ℕ → Outcome (ℕ × Process T S W)
  malloc p sz = do
    (ptr, p1) ←
        (if p.initialized
          then (do
            (ptr, memory) ← Allocation.malloc K p.memory sz
            ok (ptr, record p { memory = memory }))
          else ok (map_memory p sz))
    bug_on (ptr == 0)
    ok (ptr, p1)

  -- `calloc`
  unfoldable pub calloc : Process T S W → ℕ → ℕ → Outcome (ℕ × Process T S W)
  calloc p nmemb sz = do
    (ptr, p1) ←
        (if p.initialized
          then (do
            (ptr, memory) ← Allocation.calloc K p.memory nmemb sz
            ok (ptr, record p { memory = memory }))
          else (do
            let (ptr, p1) = map_memory p (u64 (sz * nmemb))
            p2 ← clear_bytes p1 ptr (u64 (sz * nmemb))
            ok (ptr, p2)))
    bug_on (ptr == 0)
    p3 ← clear_bytes p1 ptr (u64 (sz * nmemb))
    ok (ptr, p3)

  -- `free`
  unfoldable pub free : Process T S W → ℕ → Outcome (Process T S W)
  free p ptr =
      if p.initialized
      then (do memory ← Allocation.free K p.memory ptr; ok (record p { memory = memory }))
      else ok p

  -- `memalign`
  unfoldable pub memalign : Process T S W → ℕ → ℕ → Outcome (ℕ × Process T S W)
  memalign p boundary size = ok (0, p)

  -- `malloc_usable_size`
  unfoldable pub malloc_usable_size : Process T S W → ℕ → Outcome ℕ
  malloc_usable_size p ptr = if p.initialized then Allocation.get_size K p.memory ptr else ok 0

  -- `realloc`
  unfoldable pub realloc : Process T S W → ℕ → ℕ → Outcome (ℕ × Process T S W)
  realloc p ptr sz =
      if p.initialized
      then (do
        (newptr, memory) ← Allocation.realloc K p.memory ptr sz
        ok (newptr, record p { memory = memory }))
      else ok (0, p)
