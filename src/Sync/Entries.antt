-- ===== src/Sync/Entries.antt =====
-- How determ.h finds the entry of a lock, a condition variable or a barrier, through the word at the
-- variable's address, and how an entry is made and given back. Words are those of the versioned
-- memory; entries come from the internal heap. The number of an entry is kept in a build that prints the
-- schedule, and is left out.
use consequence.Base.{
  ℕ, ◌≡◌, refl, ◌∙◌, false, ◌==◌, if◌then◌else◌, store, store_self, store_ne, Outcome, ok, ◌>>=◌,
  Returns, returns,
}
use consequence.Memory.{Source}
use consequence.Memory.Internal.{internal_malloc, internal_free}
use consequence.Memory.Regions.Both.{Memories, write_word, in_heap_range, in_globals_range}

-- `getSyncEntry` and `setSyncEntry`
unfoldable pub get_sync_entry : (ℕ → ℕ) → ℕ → ℕ
get_sync_entry words entry = words entry

unfoldable pub set_sync_entry : (ℕ → ℕ) → ℕ → ℕ → (ℕ → ℕ)
set_sync_entry words origentry newentry = store words origentry newentry

-- `clearSyncEntry`: "*dest = NULL", and then a write of NULL through `xmemory` to `*dest`
unfoldable pub clear_sync_entry : {C : Type 0} → Memories C → (ℕ → ℕ) → ℕ → (ℕ → ℕ)
clear_sync_entry m words origentry =
    let words1 = store words origentry 0 in write_word m words1 (words1 origentry) 0

module _ {H : Type 0} (S : Source H) where
  -- `allocSyncEntry`
  unfoldable pub alloc_sync_entry : H → ℕ → Outcome (ℕ × H)
  unfolding internal_malloc
  alloc_sync_entry h size = internal_malloc S h size

  -- `freeSyncEntry`
  unfoldable pub free_sync_entry : H → ℕ → Outcome H
  unfolding internal_free
  free_sync_entry h ptr = if ptr == 0 then ok h else internal_free S h ptr

  -- `lock_destroy`, and the destroy function of condition variables up to its mutex
  unfoldable pub lock_destroy : {C : Type 0} → Memories C → (ℕ → ℕ) → H → ℕ → Outcome ((ℕ → ℕ) × H)
  unfolding get_sync_entry clear_sync_entry free_sync_entry
  lock_destroy m words h mutex = do
    let entry = get_sync_entry words mutex
    let words1 = clear_sync_entry m words mutex
    h1 ← free_sync_entry h entry
    ok (words1, h1)

-- Where NULL is in neither region, what `clearSyncEntry` writes through `xmemory` changes nothing: the
-- word at the variable is cleared as the thread itself sees it, and no other word.
pub clear_sync_entry-store :
    {C : Type 0} (m : Memories C) (words : ℕ → ℕ) (origentry : ℕ)
    → in_heap_range m 0 ≡ false
    → in_globals_range m 0 ≡ false
    → clear_sync_entry m words origentry ≡ store words origentry 0
unfolding clear_sync_entry write_word in_heap_range in_globals_range
clear_sync_entry-store m words origentry not_heap not_globals =
    rw (store_self words origentry 0, not_heap, not_globals) refl

-- Where NULL is in neither region and the internal heap can take the entry back: destroying a lock
-- frees the entry that was set for its mutex, and the mutex has none any more, while other variables
-- keep theirs.
pub lock_destroy-set_sync_entry :
    {H C : Type 0} (S : Source H) (m : Memories C) (words : ℕ → ℕ) (h freed : H) (mutex entry : ℕ)
    → in_heap_range m 0 ≡ false
    → in_globals_range m 0 ≡ false
    → (entry == 0) ≡ false
    → S.free h entry ≡ ok freed
    → Returns
        (λ r.
          (r.1 ≡ freed)
          × (get_sync_entry r.0 mutex ≡ 0)
          × ((other : ℕ)
              → (mutex == other) ≡ false
              → get_sync_entry r.0 other ≡ get_sync_entry words other))
        (lock_destroy S m (set_sync_entry words mutex entry) h mutex)
unfolding lock_destroy set_sync_entry get_sync_entry free_sync_entry internal_free
lock_destroy-set_sync_entry S m words h freed mutex entry not_heap not_globals some_entry frees =
    let written = store words mutex entry in
    rw
      (
        store_self words mutex entry,
        some_entry,
        frees,
        clear_sync_entry-store m written mutex not_heap not_globals,
      )
      (returns (
        refl,
        store_self written mutex 0,
        λ other apart.
            store_ne written mutex other 0 apart ∙ store_ne words mutex other entry apart,
      ))
