-- ===== src/Memory/Allocation/Simple.antt =====
-- The heap of thread_lib/include/xheap.h, with the headers of warpheap.h, as the heaps inside of
-- class PPHeap: it keeps objects as realloc and calloc need.
use consequence.Base.{
  ℕ, ◌+◌, ◌-◌, ◌%◌, ◌^◌, ◌≤◌, ◌<◌, ◌≡◌, refl, ◌∙◌, arith, false, ◌==◌, pos, ok, Returns, returns,
  Returns-bind, ◌>>=◌, lt→ltb, store,
}
use consequence.Memory.{num_heaps, page_size, page_align}
use consequence.Memory.Bump.{Heap, bump_source, free, sanity_check}
use consequence.Memory.Bump.Tiles.{HasUsed, page_align_lem}
use consequence.Memory.Headers.{Header, header_size, new_header, Headed, get_size, get_object}
use consequence.Memory.Headers as Headers
use consequence.Memory.Headers.Sizes.{get_size-kept, Behind, malloc-Behind}
use consequence.Memory.PerThread.{HeapType, Heaps, malloc_from, free_to, size_of, heap_index}
use consequence.Memory.Allocation.Contents.{bytes_of, Kept, Gave, KeepsObjects}

-- one heap inside, which keeps nothing of its own
abbrev pub simple_heap : HeapType (Unit {0}) (Headed Heap)
simple_heap = record {
  malloc = λ t s sz. do
    (ptr, h) ← Headers.malloc bump_source s.source sz
    ok (ptr, t, record s { source = h });
  free = λ t s ptr. do
    h ← Headers.free bump_source s.source ptr
    ok (t, record s { source = h });
  get_size = λ t s ptr. get_size s.source ptr;
}

abbrev pub SimpleHeaps : Type 0
SimpleHeaps = Heaps (Unit {0}) (Headed Heap)

module _ (base size : ℕ) (whole : base % page_size ≡ 0) (positive : 0 < base) where
  -- an object of `n` bytes at `p`: its header, and its place below the heap's position
  pub record IsObject (s : Headed Heap) (p n : ℕ) : Type 0 where
    pub used : ℕ
    pub heap : HasUsed base size used s.source
    pub block : ℕ
    pub at : p ≡ block + header_size
    pub after_null : 0 < block
    pub below : p + n ≤ base + used
    pub header : s.headers block ≡ new_header n

  abbrev pub Alive : SimpleHeaps → ℕ → ℕ → Type 0
  Alive h p n = IsObject h.shared.source p n

  -- room for one more object
  pub record HasRoom (h : SimpleHeaps) (i sz : ℕ) : Type 0 where
    pub used : ℕ
    pub heap : HasUsed base size used h.shared.source.source
    pub small : sz + header_size + (page_size - 1) < 2 ^ 64
    pub room : used + page_align (sz + header_size) ≤ size

  size_lem : (h : SimpleHeaps) (p n : ℕ) → Alive h p n → size_of simple_heap h p ≡ ok n
  unfolding size_of
  size_lem h p n o =
      let in_space = o.heap.in_space in
      let at = o.at in
      let below = o.below in
      let fits = o.heap.fits in
      rw at (get_size-kept h.shared.source o.block n (omega arith) o.header)

  free_keeps :
      (h : SimpleHeaps) (i p n : ℕ)
      → i < num_heaps
      → Alive h p n
      → Returns
          (λ h1. (q k : ℕ) → Alive h q k → (q == p) ≡ false → Kept Alive h h1 q k)
          (free_to simple_heap h (pos i) p)
  unfolding free_to heap_index Headers.free free sanity_check
  free_keeps h i p n valid o =
      rw (lt→ltb i num_heaps valid, o.heap.magic)
        (returns λ q k alive apart. (alive, λ j under. refl))

  -- an object that was there before a new one
  IsObject-Behind :
      (s : Headed Heap) (used sz q k : ℕ) (r : ℕ × Headed Heap)
      → HasUsed base size used s.source
      → sz + header_size + (page_size - 1) < 2 ^ 64
      → Behind base size whole positive used sz s r
      → IsObject s q k
      → IsObject r.1 q k × (q + k ≤ base + used)
  IsObject-Behind s used sz q k r v small b o =
      let position = v.position in
      let position' = o.heap.position in
      let below = o.below in
      let at = o.at in
      let aligned = page_align_lem (sz + header_size) small in
      (
        record {
          used = used + page_align (sz + header_size);
          heap = b.more;
          block = o.block;
          at = at;
          after_null = o.after_null;
          below = omega arith;
          header = b.others o.block (omega arith) ∙ o.header;
        },
        omega arith,
      )

  -- the new object, in whatever is around the heap
  Behind-Gave :
      (h h1 : SimpleHeaps) (i sz p : ℕ) (o : HasRoom h i sz)
      → Behind base size whole positive o.used sz h.shared.source (p, h1.shared.source)
      → bytes_of h1 ≡ bytes_of h
      → Gave Alive h sz (p, h1)
  Behind-Gave h h1 i sz p o b same =
      let at = b.at in
      let small = o.small in
      let aligned = page_align_lem (sz + header_size) small in
      let in_space = o.heap.in_space in
      let older = λ (q k : ℕ) (alive : Alive h q k).
        IsObject-Behind h.shared.source o.used sz q k (p, h1.shared.source) o.heap small b alive in
      record {
        some_place = omega arith;
        size = sz;
        enough = omega arith;
        live = record {
          used = o.used + page_align (sz + header_size);
          heap = b.more;
          block = base + o.used;
          at = at;
          after_null = omega arith;
          below = omega arith;
          header = b.header;
        };
        kept = λ q k alive. ((older q k alive).0, λ j under. rw same refl);
        other = λ q k alive. let below = (older q k alive).1 in ground arith;
        beside = λ q k j alive under. let below = (older q k alive).1 in ground arith;
      }

  malloc_gives :
      (h : SimpleHeaps) (i sz : ℕ)
      → i < num_heaps
      → HasRoom h i sz
      → Returns (Gave Alive h sz) (malloc_from simple_heap h (pos i) sz)
  unfolding malloc_from heap_index
  malloc_gives h i sz valid o = rw (lt→ltb i num_heaps valid) (
      Returns-bind
        {P = λ r.
          Behind base size whole positive o.used sz h.shared.source (r.0, r.2.source)
          × (r.2.bytes ≡ bytes_of h)}
        (Returns-bind
          (malloc-Behind base size whole positive o.used sz h.shared.source o.heap o.small o.room)
          λ (p, s1) b. returns (b, refl))
        λ (p, t, s1) (b, same).
          returns
            (Behind-Gave h (record h { heap = store h.heap i t; shared = s1 }) i sz p o b same))

  pub simple_heap-KeepsObjects : KeepsObjects Alive simple_heap HasRoom
  simple_heap-KeepsObjects = record {
    malloc_gives = malloc_gives;
    free_keeps = free_keeps;
    size_lem = size_lem;
    write_keeps = λ h p n bytes o. o;
    not_null = λ h p n o. let at = o.at in omega arith;
  }
