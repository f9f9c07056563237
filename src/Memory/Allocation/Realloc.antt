-- ===== src/Memory/Allocation/Realloc.antt =====
-- realloc and calloc of thread_lib/include/conseq_malloc.h, over a heap that keeps objects.
use consequence.Base.{
  ℕ, ◌+◌, ◌≤◌, ◌<◌, ◌≡◌, ◌∙◌, arith, false, ltb, ◌==◌, if◌then◌else◌, pos, ok, Returns, returns,
  Returns-bind, ◌>>=◌,
}
use consequence.Memory.{Bytes, within, num_heaps}
use consequence.Memory.PerThread.{HeapType, Heaps}
use consequence.Memory.Allocation.{
  Xmemory, malloc, free, get_size, copy_object, realloc_object, realloc,
}
use consequence.Memory.Allocation.Contents.{
  bytes_of, set_bytes, Kept, Gave, KeepsObjects, memcpy-SameBytes, within_mono,
}

module _ {T S : Type 0} (Live : Heaps T S → ℕ → ℕ → Type 0) (K : HeapType T S)
    (Room : Heaps T S → ℕ → ℕ → Type 0) (laws : KeepsObjects Live K Room) where
  -- the memory of a thread that uses heap `i`
  abbrev pub at_heap : Heaps T S → ℕ → Xmemory T S
  at_heap h i = record { heaps = h; heap_id = pos i }

  -- the object of `n` bytes at `p` has become one of `sz` bytes, and the others are as they were
  pub record Moved (h : Heaps T S) (p n sz : ℕ) (r : ℕ × Xmemory T S) : Type 0 where
    pub size : ℕ
    pub enough : sz ≤ size
    pub live : Live r.1.heaps r.0 size
    pub content : (j : ℕ) → j < n → j < sz → bytes_of r.1.heaps (r.0 + j) ≡ bytes_of h (p + j)
    pub others : (q k : ℕ) → Live h q k → (q == p) ≡ false → Kept Live h r.1.heaps q k

  -- bytes outside an object are not those written into it
  pub Kept-write :
      (h h1 : Heaps T S) (sz new : ℕ) (g : Gave Live h sz (new, h1)) (count : ℕ) (bytes : Bytes)
      → count ≤ sz
      → ((a : ℕ) → within new count a ≡ false → bytes a ≡ bytes_of h1 a)
      → (q k : ℕ) → Live h q k
      → Kept Live h (set_bytes h1 bytes) q k
  Kept-write h h1 sz new g count bytes small outside q k live =
      let enough = g.enough in
      (
        laws.write_keeps h1 q k bytes (g.kept q k live).0,
        λ j under.
            outside (q + j)
              (within_mono new count g.size (q + j) (omega arith) (g.beside q k j live under))
            ∙ (g.kept q k live).1 j under,
      )

  -- `malloc` gave an object to the thread
  pub data GaveAt (h : Heaps T S) (i sz : ℕ) : ℕ × Xmemory T S → Type 0 where
    gave_at :
        {new : ℕ} {h1 : Heaps T S} → Gave Live h sz (new, h1) → GaveAt h i sz (new, at_heap h1 i)

  pub malloc-GaveAt :
      (h : Heaps T S) (i sz : ℕ)
      → i < num_heaps
      → Room h i sz
      → Returns (GaveAt h i sz) (malloc K (at_heap h i) sz)
  unfolding malloc
  malloc-GaveAt h i sz valid room =
      Returns-bind (laws.malloc_gives h i sz valid room) λ (new, h1) g. returns (gave_at g)

  CopyCount : (n sz : ℕ) → Type 0
  CopyCount n sz =
      ((if ltb n sz then n else sz) ≤ sz)
      × ((j : ℕ) → j < n → j < sz → j < (if ltb n sz then n else sz))

  CopyCount_lem : (n sz : ℕ) → CopyCount n sz
  unfolding CopyCount
  CopyCount_lem n sz = (ground arith, λ j a b. ground arith)

  -- the old object's bytes are in the new one, and no others are written
  data CopiedAt (h h1 : Heaps T S) (i p n sz new : ℕ) : Xmemory T S → Type 0 where
    copied_at :
        {bytes : Bytes}
        → ((j : ℕ) → j < n → j < sz → bytes (new + j) ≡ bytes_of h (p + j))
        → ((a : ℕ) → within new sz a ≡ false → bytes a ≡ bytes_of h1 a)
        → CopiedAt h h1 i p n sz new (at_heap (set_bytes h1 bytes) i)

  copy_object-CopiedAt :
      (h h1 : Heaps T S) (i p n sz new : ℕ)
      → Live h p n
      → Gave Live h sz (new, h1)
      → Returns
          (CopiedAt h h1 i p n sz new)
          (copy_object K (at_heap h1 i) new p (if ltb n sz then n else sz))
  unfolding copy_object CopyCount
  copy_object-CopiedAt h h1 i p n sz new live g =
      let new_pos = g.some_place in
      let new_some : (new == 0) ≡ false = ground arith in
      let count = CopyCount_lem n sz in
      let old = g.kept p n live in
      rw new_some (
        Returns-bind (memcpy-SameBytes (bytes_of h1) new p _ new_pos (laws.not_null h p n live))
          λ bytes (here, elsewhere). returns (
            copied_at (λ j a b. here j (count.1 j a b) ∙ old.1 j a)
              (λ a outside. elsewhere a (within_mono new _ sz a count.0 outside))))

  -- the old object's end, once its bytes are in the new one
  free-Moved :
      (h h1 : Heaps T S) (i p n sz new : ℕ) (m2 : Xmemory T S)
      → i < num_heaps
      → Live h p n
      → Gave Live h sz (new, h1)
      → CopiedAt h h1 i p n sz new m2
      → Returns (Moved h p n sz) (free K m2 p >>= λ m3. ok (new, m3))
  unfolding free
  free-Moved h h1 i p n sz new m2 valid live g (copied_at {bytes} content outside) =
      let before = Kept-write h h1 sz new g sz bytes (omega arith) outside in
      let enough = g.enough in
      let fresh = g.other p n live in
      let fresh' : (new == p) ≡ false = ground arith in
      let new_live = laws.write_keeps h1 new g.size bytes g.live in
      Returns-bind
        {P = λ m3.
          (q k : ℕ)
          → Live (set_bytes h1 bytes) q k
          → (q == p) ≡ false
          → Kept Live (set_bytes h1 bytes) m3.heaps q k}
        (Returns-bind (laws.free_keeps (set_bytes h1 bytes) i p n valid (before p n live).0)
          λ h3 kept. returns kept)
        λ m3 kept. returns record {
          size = g.size;
          enough = enough;
          live = (kept new g.size new_live fresh').0;
          content = λ j a b. (kept new g.size new_live fresh').1 j (omega arith) ∙ content j a b;
          others = λ q k alive apart.
              let wrote = before q k alive in
              let after = kept q k wrote.0 apart in
              (after.0, λ j under. after.1 j under ∙ wrote.1 j under);
        }

  copy-free-Moved :
      (h : Heaps T S) (i p n sz : ℕ)
      → i < num_heaps
      → Live h p n
      → (r : ℕ × Xmemory T S) → GaveAt h i sz r
      → Returns (Moved h p n sz) (do
        m2 ← copy_object K r.1 r.0 p (if ltb n sz then n else sz)
        m3 ← free K m2 p
        ok (r.0, m3))
  copy-free-Moved h i p n sz valid live _ (gave_at g) =
      Returns-bind (copy_object-CopiedAt h _ i p n sz _ live g)
        λ m2 copied. free-Moved h _ i p n sz _ m2 valid live g copied

  -- Where an object of `n` bytes is alive and the thread's heap has room for `sz` bytes, not 0:
  -- realloc returns an object of at least `sz` bytes that begins with what the old one did, as far
  -- as both go, and all other objects stay, and their bytes.
  pub realloc-Moved :
      (h : Heaps T S) (i p n sz : ℕ)
      → i < num_heaps
      → Live h p n
      → 0 < sz
      → Room h i sz
      → Returns (Moved h p n sz) (realloc K (at_heap h i) p sz)
  unfolding realloc realloc_object get_size
  realloc-Moved h i p n sz valid live positive room =
      let p_pos = laws.not_null h p n live in
      let p_some : (p == 0) ≡ false = ground arith in
      let sz_some : (sz == 0) ≡ false = ground arith in
      rw (p_some, sz_some, laws.size_lem h p n live)
        (Returns-bind (malloc-GaveAt h i sz valid room) (copy-free-Moved h i p n sz valid live))
