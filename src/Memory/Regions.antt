-- ===== src/Memory/Regions.antt =====
-- thread_lib/include/xpersist.h: a region of the memory that each thread has its own version of. The
-- library that keeps the versions, conversion, is a record of operations on its segment. The file's
-- name and the random number in it are left out.
pub mod Both
pub mod Versions
pub mod Masks
use consequence.Base.{
  ℕ, zero, suc, ◌+◌, ◌-◌, ◌*◌, ◌^◌, u64, Bool, true, false, ◌&&◌, not, ltb, leb, ◌==◌,
  if◌then◌else◌, Option, none, some, store, Outcome, ok, bug, out_of_fuel, ◌>>=◌, ◌>>◌, bug_on,
}
use consequence.Memory.{Bytes, page_size, within}

-- The conversion library, with `C` for a segment and the versions of it.
pub record Conversion (C : Type 0) : Type 0 where
  -- makes a segment, NULL where it cannot, from the bytes of the memory, the size and the address
  pub checkout_create : Bytes → ℕ → ℕ → Option C × Bytes
  pub segment : C → ℕ
  pub commit_and_update : C → C
  pub commit_and_update_deferred_start : C → C
  pub commit_and_update_deferred_end : C → C
  pub update : C → C
  pub partial_background_update : C → C
  pub sleep : C → C
  pub wake : C → C
  pub get_committed_version_num : C → ℕ
  pub get_current_version_num : C → ℕ
  pub get_linearized_version_num : C → ℕ
  pub get_dirty_page_count : C → ℕ
  pub get_updated_page_count : C → ℕ
  pub get_merged_page_count : C → ℕ
  pub get_logical_page_count : C → ℕ
  pub get_partial_updated_unique_pages : C → ℕ
  pub set_partial_updated_unique_pages : C → ℕ → C
  pub set_version_tag : C → ℕ → C

-- `class xpersist`, where `size` is "NElts * sizeof(Type)"
pub record Region (C : Type 0) : Type 0 where
  pub size : ℕ
  pub snap_memory : C
  pub segment_start : ℕ
  pub is_protected : Bool
  pub trans : ℕ
  pub thread_index : ℕ

module _ {C : Type 0} where
  -- `base`
  abbrev pub base_of : Region C → ℕ
  base_of r = r.segment_start

  -- `inRange`
  unfoldable pub in_range_of : Region C → ℕ → Bool
  in_range_of r addr = leb (base_of r) addr && ltb addr (u64 (base_of r + r.size))

  -- `setThreadIndex`
  unfoldable pub set_thread_index : Region C → ℕ → Region C
  set_thread_index r index = record r { thread_index = index }

  -- `getPageStart`
  unfoldable pub get_page_start : Region C → ℕ → ℕ
  get_page_start r page_no = u64 (base_of r + page_no * page_size)

  -- `mem_write`, on the words of the memory
  unfoldable pub mem_write : Region C → (ℕ → ℕ) → ℕ → ℕ → (ℕ → ℕ)
  mem_write r words addr val =
      let offset = u64 (addr + (2 ^ 64 - base_of r)) in
      store words (u64 (r.segment_start + offset)) val

module _ {C : Type 0} (V : Conversion C) where
  -- The constructor; `tmp` is a copy of what stands at `startaddr`, and the fields that it does not set
  -- are 0.
  unfoldable pub new_region : Bytes → ℕ → ℕ → ℕ → Outcome (Region C × Bytes)
  new_region m size startaddr startsize =
      (if ltb 0 startsize then bug_on (ltb size startsize) else ok tt)
      >> (let tmp = λ (j : ℕ). m (startaddr + j) in
          let made = V.checkout_create m size startaddr in
          let m1 = if startaddr == 0 then made.1 else λ a.
          if within startaddr startsize a then tmp (a - startaddr) else made.1 a in
          elim (made.0) as (λ o. Outcome (Region C × Bytes)) [
            | none ↦ bug
            | some snap ↦ ok (
              record {
                size = size;
                snap_memory = snap;
                segment_start = V.segment snap;
                is_protected = false;
                trans = 0;
                thread_index = 0;
              },
              m1,
            )
          ])

  -- a call of the library on the segment
  abbrev on_segment : (C → C) → Region C → Region C
  on_segment f r = record r { snap_memory = f r.snap_memory }

  -- `openProtection`
  unfoldable pub open_protection : Region C → Region C
  open_protection r = record r {
    snap_memory = V.commit_and_update r.snap_memory;
    is_protected = true;
    trans = 0;
  }

  -- `begin`
  unfoldable pub begin : Region C → Region C
  begin r = on_segment V.update r

  -- `update`
  unfoldable pub update_region : Region C → Region C
  update_region r = on_segment V.update r

  -- `checkandcommit`
  unfoldable pub checkandcommit : Region C → Region C
  checkandcommit r = on_segment V.commit_and_update r

  -- The loop of `commit_parallel`, where `others` is what the other threads do meanwhile.
  unfoldable pub wait_for_version : (C → C) → ℕ → C → ℕ → Outcome C
  wait_for_version others zero snap version = out_of_fuel
  wait_for_version others (suc looks) snap version =
      let seen = others snap in
      elim (ltb (V.get_linearized_version_num seen) version) [
        | true ↦ wait_for_version others looks seen version
        | false ↦ ok seen
      ]

  -- `commit_parallel`
  unfoldable pub commit_parallel : (C → C) → ℕ → Region C → ℕ → Outcome (Region C)
  unfolding wait_for_version
  commit_parallel others looks r version = do
    snap ← wait_for_version others looks r.snap_memory version
    ok (record r { snap_memory = V.commit_and_update snap })

  -- `partialUpdate`
  unfoldable pub partial_update : Region C → Region C
  partial_update r = on_segment V.partial_background_update r

  -- `sleep` and `wake`
  unfoldable pub sleep_region : Region C → Region C
  sleep_region r = on_segment V.sleep r

  unfoldable pub wake_region : Region C → Region C
  wake_region r = on_segment V.wake r

  -- `commit_deferred_start` and `commit_deferred_end`
  unfoldable pub deferred_start : Region C → Region C
  deferred_start r = on_segment V.commit_and_update_deferred_start r

  unfoldable pub deferred_end : Region C → Region C
  deferred_end r = on_segment V.commit_and_update_deferred_end r

  -- `set_local_version_tag`, in a build with `USE_TAGGING` or without
  unfoldable pub set_local_version_tag : Bool → Region C → ℕ → Region C
  set_local_version_tag use_tagging r tag =
      if use_tagging then on_segment (λ c. V.set_version_tag c tag) r else r

  -- `get_current_version` and `get_local_version`
  unfoldable pub get_current_version : Region C → ℕ
  get_current_version r = V.get_committed_version_num r.snap_memory

  unfoldable pub get_local_version : Region C → ℕ
  get_local_version r = V.get_current_version_num r.snap_memory

  -- `get_partial_unique_pages`, which starts to count anew
  unfoldable pub get_partial_unique_pages : Region C → ℕ × Region C
  get_partial_unique_pages r = (
    V.get_partial_updated_unique_pages r.snap_memory,
    on_segment (λ c. V.set_partial_updated_unique_pages c 0) r,
  )
