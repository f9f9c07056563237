-- ===== src/Memory/Allocation/Calloc.antt =====
-- calloc of thread_lib/include/conseq_malloc.h, over a heap that keeps objects.
use consequence.Base.{
  ℕ, ◌+◌, ◌*◌, ◌%◌, ◌^◌, ◌≤◌, ◌<◌, ◌≡◌, arith, ok, Returns, returns, Returns-bind, u64, ◌>>=◌,
}
use consequence.Memory.{num_heaps, memset}
use consequence.Memory.PerThread.{HeapType, Heaps}
use consequence.Memory.Allocation.{Xmemory, with_bytes, calloc}
use consequence.Memory.Allocation.Contents.{Kept, KeepsObjects, bytes_of, memset-SameBytes}
use consequence.Memory.Allocation.Realloc.{at_heap, GaveAt, gave_at, malloc-GaveAt, Kept-write}

module _ {T S : Type 0} (Live : Heaps T S → ℕ → ℕ → Type 0) (K : HeapType T S)
    (Room : Heaps T S → ℕ → ℕ → Type 0) (laws : KeepsObjects Live K Room) where
  -- there is a new object of `count` bytes that are 0, and the others are as they were
  pub record Zeroed (h : Heaps T S) (count : ℕ) (r : ℕ × Xmemory T S) : Type 0 where
    pub size : ℕ
    pub enough : count ≤ size
    pub live : Live r.1.heaps r.0 size
    pub zero_bytes : (j : ℕ) → j < count → bytes_of r.1.heaps (r.0 + j) ≡ 0
    pub others : (q k : ℕ) → Live h q k → Kept Live h r.1.heaps q k

  memset-Zeroed :
      (h : Heaps T S) (i count : ℕ) (r : ℕ × Xmemory T S)
      → GaveAt Live K Room laws h i count r
      → Returns
          (Zeroed h count)
          (do bytes ← memset r.1.heaps.shared.bytes r.0 0 count; ok (r.0, with_bytes r.1 bytes))
  memset-Zeroed h i count _ (gave_at {new} {h1} g) =
      let enough = g.enough in
      Returns-bind (memset-SameBytes (bytes_of h1) new 0 count g.some_place)
        λ bytes (here, elsewhere). returns record {
          size = g.size;
          enough = enough;
          live = laws.write_keeps h1 new g.size bytes g.live;
          zero_bytes = here;
          others = Kept-write Live K Room laws h h1 count new g count bytes (omega arith) elsewhere;
        }

  -- Where the thread's heap has room for the product of the two arguments modulo 2 ^ 64: calloc
  -- returns an object of at least as many bytes as that, all of these are 0, and all other objects
  -- stay, and their bytes.
  pub calloc-Zeroed :
      (h : Heaps T S) (i nmemb sz : ℕ)
      → i < num_heaps
      → Room h i ((nmemb * sz) % 2 ^ 64)
      → Returns
          (Zeroed h ((nmemb * sz) % 2 ^ 64))
          (calloc K (at_heap Live K Room laws h i) nmemb sz)
  unfolding calloc
  calloc-Zeroed h i nmemb sz valid room =
      Returns-bind (malloc-GaveAt Live K Room laws h i (u64 (nmemb * sz)) valid room)
        (memset-Zeroed h i (u64 (nmemb * sz)))
