-- ===== src/Memory/Allocation/Contents.antt =====
-- What realloc and calloc of thread_lib/include/conseq_malloc.h do to the objects in the heap, over
-- any heap inside that keeps objects as the interface here says.
use consequence.Base.{
  ℕ, ◌+◌, ◌-◌, ◌≤◌, ◌<◌, ◌≡◌, refl, arith, true, false, not, ◌==◌, pos, ok, Returns, returns, ◌&&◌,
  ◌||◌,
}
use consequence.Memory.{Bytes, within, num_heaps, memset, memcpy}
use consequence.Memory.PerThread.{HeapType, Heaps, malloc_from, free_to, size_of}

-- The `n` bytes at `p` are the same in both memories.
abbrev pub SameBytes : Bytes → Bytes → ℕ → ℕ → Type 0
SameBytes old new p n = (j : ℕ) → j < n → new (p + j) ≡ old (p + j)

module _ {T S : Type 0} where
  abbrev pub bytes_of : Heaps T S → Bytes
  bytes_of h = h.shared.bytes

  abbrev pub set_bytes : Heaps T S → Bytes → Heaps T S
  set_bytes h bytes = record h { shared = record (h.shared) { bytes = bytes } }

  module _ (Live : Heaps T S → ℕ → ℕ → Type 0) where
    -- An object stays alive, and its bytes stay.
    abbrev pub Kept : Heaps T S → Heaps T S → ℕ → ℕ → Type 0
    Kept old new p n = Live new p n × SameBytes (bytes_of old) (bytes_of new) p n

    -- `malloc` gave an object of at least `sz` bytes, beside all others.
    pub record Gave (h : Heaps T S) (sz : ℕ) (r : ℕ × Heaps T S) : Type 0 where
      pub some_place : 0 < r.0
      pub size : ℕ
      pub enough : sz ≤ size
      pub live : Live r.1 r.0 size
      pub kept : (q k : ℕ) → Live h q k → Kept h r.1 q k
      pub other : (q k : ℕ) → Live h q k → (q == r.0) ≡ false
      pub beside : (q k j : ℕ) → Live h q k → j < k → within r.0 size (q + j) ≡ false

    -- What the functions need of the heaps inside, where `Live h p n` says that an object of `n` bytes
    -- is at `p`, and `Room h i sz` that heap `i` has room for `sz` bytes.
    pub record KeepsObjects (K : HeapType T S) (Room : Heaps T S → ℕ → ℕ → Type 0) : Type 0 where
      pub malloc_gives :
          (h : Heaps T S) (i sz : ℕ)
          → i < num_heaps
          → Room h i sz
          → Returns (Gave h sz) (malloc_from K h (pos i) sz)
      pub free_keeps :
          (h : Heaps T S) (i p n : ℕ)
          → i < num_heaps
          → Live h p n
          → Returns
              (λ h1. (q k : ℕ) → Live h q k → (q == p) ≡ false → Kept h h1 q k)
              (free_to K h (pos i) p)
      pub size_lem : (h : Heaps T S) (p n : ℕ) → Live h p n → size_of K h p ≡ ok n
      pub write_keeps :
          (h : Heaps T S) (p n : ℕ) (bytes : Bytes) → Live h p n → Live (set_bytes h bytes) p n
      pub not_null : (h : Heaps T S) (p n : ℕ) → Live h p n → 0 < p

-- A copy from one object to another: the bytes are there, and others stay.
pub memcpy-SameBytes :
    (m : Bytes) (dest src count : ℕ)
    → 0 < dest
    → 0 < src
    → Returns
        (λ m1.
          ((j : ℕ) → j < count → m1 (dest + j) ≡ m (src + j))
          × ((a : ℕ) → within dest count a ≡ false → m1 a ≡ m a))
        (memcpy m dest src count)
unfolding memcpy
memcpy-SameBytes m dest src count d s =
    let somewhere : (count == 0 || (not (dest == 0) && not (src == 0))) ≡ true = ground arith in
    rw somewhere (
      returns (
        λ j under.
            let inside : within dest count (dest + j) ≡ true = ground arith in
            let back : dest + j - dest ≡ j = omega arith in rw (inside, back) refl,
        λ a outside. rw outside refl,
      ))

pub memset-SameBytes :
    (m : Bytes) (ptr value count : ℕ)
    → 0 < ptr
    → Returns
        (λ m1.
          ((j : ℕ) → j < count → m1 (ptr + j) ≡ value)
          × ((a : ℕ) → within ptr count a ≡ false → m1 a ≡ m a))
        (memset m ptr value count)
unfolding memset
memset-SameBytes m ptr value count d =
    let somewhere : (count == 0 || not (ptr == 0)) ≡ true = ground arith in
    rw somewhere (
      returns (
        λ j under. let inside : within ptr count (ptr + j) ≡ true = ground arith in rw inside refl,
        λ a outside. rw outside refl,
      ))

pub within_mono :
    (p count size a : ℕ) → count ≤ size → within p size a ≡ false → within p count a ≡ false
within_mono p count size a h outside = ground arith
