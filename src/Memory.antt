-- ===== src/Memory.antt =====
-- thread_lib/include: the memory of the run-time. Here are the constants of xdefines.h, and what the
-- files below share: machine words, the bytes of the memory with the functions of string.h on them, and
-- what one layer of the heap asks of the layer under it. A call of `abort` is as a failed assertion, and
-- a call that reads or writes through NULL is as an access outside an array.
pub mod Bump
pub mod Headers
pub mod PerThread
pub mod Allocation
pub mod Regions
pub mod Pages
pub mod Atomics
pub mod Internal
pub mod Tests
use consequence.Base.{
  ℕ, ◌+◌, ◌-◌, ◌*◌, ◌/◌, ◌^◌, u64, Bool, ◌&&◌, ◌||◌, not, ltb, leb, ◌==◌, if◌then◌else◌, List, [],
  ◌∷◌, Outcome, ok, ◌>>=◌, ◌>>◌, in_range,
}

-- `xdefines::PageSize`
abbrev pub page_size : ℕ
page_size = 4096

-- `xdefines::NUM_HEAPS`
abbrev pub num_heaps : ℕ
num_heaps = 32

-- `MAGIC` of class objectHeader, and the magic number of class xheap
abbrev pub magic_number : ℕ
magic_number = 0xCAFE_BABE

-- `MAP_FAILED`, what `mmap` returns when it fails
abbrev pub map_failed : ℕ
map_failed = 2 ^ 64 - 1

-- "PageSize * ((sz + PageSize - 1) / PageSize)" on `size_t`
unfoldable pub page_align : ℕ → ℕ
page_align sz = page_size * (u64 (sz + (page_size - 1)) / page_size)

-- the bytes of the memory, by their addresses
abbrev pub Bytes : Type 0
Bytes = ℕ → ℕ

-- is the byte at `a` one of the `count` bytes at `start`?
abbrev pub within : ℕ → ℕ → ℕ → Bool
within start count a = leb start a && ltb a (start + count)

-- `memset(ptr, value, count)`
unfoldable pub memset : Bytes → ℕ → ℕ → ℕ → Outcome Bytes
memset m ptr value count =
    in_range (count == 0 || not (ptr == 0)) >> ok λ a. if within ptr count a then value else m a

-- `memcpy(dest, src, count)`
unfoldable pub memcpy : Bytes → ℕ → ℕ → ℕ → Outcome Bytes
memcpy m dest src count =
    in_range (count == 0 || (not (dest == 0) && not (src == 0)))
    >> ok λ a. if within dest count a then m (src + (a - dest)) else m a

-- A layer of the heap, with `H` for its state and that of the layers under it.
pub record Source (H : Type 0) : Type 0 where
  pub malloc : H → ℕ → Outcome (ℕ × H)
  pub free : H → ℕ → Outcome H

-- Calls of `malloc` one after the other, and what they return.
unfoldable pub malloc_all : {H : Type 0} → Source H → H → List ℕ → Outcome (List ℕ × H)
malloc_all S h [] = ok ([], h)
malloc_all S h (sz ∷ rest) = do
  (p, h1) ← S.malloc h sz
  (ps, h2) ← malloc_all S h1 rest
  ok (p ∷ ps, h2)
