-- ===== src/Memory/Bump.antt =====
-- thread_lib/include/xheap.h: the heap at the bottom, which hands out the pages of a region one after
-- the other and takes none back. The lock around `malloc` is left out: a call is one step.
pub mod Tiles
use consequence.Base.{
  ℕ, zero, suc, ◌+◌, ◌-◌, u64, ltb, not, ◌==◌, if◌then◌else◌, List, [], ◌∷◌, Outcome, ok, exited,
  ◌>>=◌, ◌>>◌, bug_on,
}
use consequence.Memory.{magic_number, page_align, Source}

-- `class xheap`, with what its page of metadata holds
pub record Heap : Type 0 where
  pub start : ℕ
  pub end_address : ℕ
  pub position : ℕ
  pub remaining : ℕ
  pub magic : ℕ

-- the constructor, where `base` and `size` are the region's
unfoldable pub new_heap : ℕ → ℕ → Heap
new_heap base size = record {
  start = base;
  end_address = u64 (base + size);
  position = base;
  remaining = size;
  magic = magic_number;
}

-- `sanityCheck`
unfoldable pub sanity_check : Heap → Outcome (Unit {0})
sanity_check h = bug_on (not (h.magic == magic_number))

-- `getend`
unfoldable pub getend : Heap → ℕ
getend h = h.position

-- `malloc`
unfoldable pub malloc : Heap → ℕ → Outcome (ℕ × Heap)
unfolding sanity_check
malloc h sz =
    sanity_check h
    >> (let aligned = page_align sz in
        if ltb h.remaining aligned
        then exited
        else ok (
          h.position,
          record h { remaining = h.remaining - aligned; position = u64 (h.position + aligned) },
        ))

-- `free`
unfoldable pub free : Heap → ℕ → Outcome Heap
unfolding sanity_check
free h ptr = sanity_check h >> ok h

-- `getSize`
unfoldable pub get_size : Heap → ℕ → Outcome ℕ
unfolding sanity_check
get_size h ptr = sanity_check h >> ok 0

-- the heap, for the layer above it
abbrev pub bump_source : Source Heap
bump_source = record { malloc = malloc; free = free }
