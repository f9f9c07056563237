-- ===== src/Memory/Regions/Both.antt =====
-- thread_lib/include/xmemory.h: the versioned memory of the program, which is the region of its heap
-- and that of its globals, and the bounds of the globals in xglobals.h. What the heap's region does
-- passes through class xoneheap of xoneheap.h.
use Prim.Native.Nat.{bit_and}
use consequence.Base.{ℕ, ◌+◌, ◌-◌, ◌^◌, u64, Bool, if◌then◌else◌, Outcome, ok, ◌>>=◌}
use consequence.Memory.{page_size}
use consequence.Memory.Regions.{
  Conversion, Region, in_range_of, set_thread_index, mem_write, open_protection, begin,
  update_region, checkandcommit, commit_parallel, partial_update, sleep_region, wake_region,
  deferred_start, deferred_end, set_local_version_tag, get_partial_unique_pages,
}

-- `PAGE_ALIGN_DOWN` and `PAGE_ALIGN_UP`
unfoldable pub page_align_down : ℕ → ℕ
page_align_down x = bit_and x (2 ^ 64 - page_size)

unfoldable pub page_align_up : ℕ → ℕ
page_align_up x = bit_and (u64 (x + (page_size - 1))) (2 ^ 64 - page_size)

-- `GLOBALS_SIZE`, from the addresses `__data_start` and `_end`
unfoldable pub globals_size : ℕ → ℕ → ℕ
unfolding page_align_down page_align_up
globals_size data_start end_address =
    u64 (page_align_up (u64 (end_address + (2 ^ 64 - 1))) + (2 ^ 64 - page_align_down data_start))

-- `_pheap` and `_globals` of `class xmemory`
pub record Memories (C : Type 0) : Type 0 where
  pub pheap : Region C
  pub globals : Region C

module _ {C : Type 0} where
  abbrev on_both : (Region C → Region C) → Memories C → Memories C
  on_both f m = record { pheap = f m.pheap; globals = f m.globals }

  -- `inHeapRange` and `inGlobalsRange`
  unfoldable pub in_heap_range : Memories C → ℕ → Bool
  in_heap_range m addr = in_range_of m.pheap addr

  unfoldable pub in_globals_range : Memories C → ℕ → Bool
  in_globals_range m addr = in_range_of m.globals addr

  -- `mem_write`, on the words of the memory
  unfoldable pub write_word : Memories C → (ℕ → ℕ) → ℕ → ℕ → (ℕ → ℕ)
  write_word m words dest val =
      if in_range_of m.pheap dest
      then mem_write m.pheap words dest val
      else if in_range_of m.globals dest
      then mem_write m.globals words dest val
      else words

  -- Of `setThreadIndex`, what the regions keep.
  unfoldable pub set_thread_index_of_both : Memories C → ℕ → Memories C
  set_thread_index_of_both m id = on_both (λ r. set_thread_index r id) m

module _ {C : Type 0} (V : Conversion C) where
  -- `openProtection`
  unfoldable pub open_both : Memories C → Memories C
  open_both m = on_both (open_protection V) m

  -- `begin`
  unfoldable pub begin_both : Memories C → Memories C
  begin_both m = on_both (begin V) m

  -- `update`
  unfoldable pub update_both : Memories C → Memories C
  update_both m = on_both (update_region V) m

  -- `partialUpdate`
  unfoldable pub partial_update_both : Memories C → Memories C
  partial_update_both m = on_both (partial_update V) m

  -- `sleep` and `wake`
  unfoldable pub sleep : Memories C → Memories C
  sleep m = on_both (sleep_region V) m

  unfoldable pub wake : Memories C → Memories C
  wake m = on_both (wake_region V) m

  -- `commit`
  unfoldable pub commit : Memories C → Memories C
  commit m = on_both (checkandcommit V) m

  -- `commit_deferred_start` and `commit_deferred_end`
  unfoldable pub commit_deferred_start : Memories C → Memories C
  commit_deferred_start m = on_both (deferred_start V) m

  unfoldable pub commit_deferred_end : Memories C → Memories C
  commit_deferred_end m = on_both (deferred_end V) m

  -- `set_local_version_tag`
  unfoldable pub set_version_tags : Bool → Memories C → ℕ → Memories C
  set_version_tags use_tagging m tag = on_both (λ r. set_local_version_tag V use_tagging r tag) m

  -- `commit_parallel`
  unfoldable pub commit_both_parallel : (C → C) → ℕ → Memories C → ℕ → ℕ → Outcome (Memories C)
  commit_both_parallel others looks m heap_version globals_version = do
    pheap ← commit_parallel V others looks m.pheap heap_version
    globals ← commit_parallel V others looks m.globals globals_version
    ok (record { pheap = pheap; globals = globals })

  -- a count over both regions
  abbrev count_both : (C → ℕ) → Memories C → ℕ
  count_both f m = f m.pheap.snap_memory + f m.globals.snap_memory

  -- `get_dirty_pages`, `get_updated_pages`, `get_merged_pages` and `get_logical_pages`
  unfoldable pub get_dirty_pages : Memories C → ℕ
  get_dirty_pages m = count_both V.get_dirty_page_count m

  unfoldable pub get_updated_pages : Memories C → ℕ
  get_updated_pages m = count_both V.get_updated_page_count m

  unfoldable pub get_merged_pages : Memories C → ℕ
  get_merged_pages m = count_both V.get_merged_page_count m

  unfoldable pub get_logical_pages : Memories C → ℕ
  get_logical_pages m = count_both V.get_logical_page_count m

  -- `get_dirty_pages_heap` and `get_dirty_pages_globals`
  unfoldable pub get_dirty_pages_heap : Memories C → ℕ
  get_dirty_pages_heap m = V.get_dirty_page_count m.pheap.snap_memory

  unfoldable pub get_dirty_pages_globals : Memories C → ℕ
  get_dirty_pages_globals m = V.get_dirty_page_count m.globals.snap_memory

  -- `get_partial_unique_pages`
  unfoldable pub get_partial_unique_pages_of_both : Memories C → ℕ × Memories C
  get_partial_unique_pages_of_both m =
      let (heap_pages, pheap) = get_partial_unique_pages V m.pheap in
      let (globals_pages, globals) = get_partial_unique_pages V m.globals in
      (heap_pages + globals_pages, record { pheap = pheap; globals = globals })
