-- ===== src/Memory/Pages.antt =====
-- thread_lib/include/xbitmap.h and xpageentry.h: the bit maps of shared pages and the entries of
-- private ones, both handed out by counting up. The memory for them is an address that is given, as if
-- `mmap` had returned it.
use consequence.Base.{
  ℕ, zero, suc, ◌+◌, ◌-◌, ◌*◌, ◌/◌, ◌≤◌, ◌<◌, ◌≡◌, refl, arith, true, ltb, ◌==◌, if◌then◌else◌,
  store, List, [], ◌∷◌, Outcome, ok, bug, ◌>>=◌, ◌>>◌, bug_on, Returns, returns, Returns-bind,
}
use consequence.Memory.{page_size, within}

-- `BITMAP_SIZE_PER_PAGE` and `INITIAL_PAGES`
abbrev pub bitmap_size_per_page : ℕ
bitmap_size_per_page = 4096

abbrev pub initial_pages : ℕ
initial_pages = 81920

-- `class xbitmap`, with the versions as a function of the index
pub record Bitmap : Type 0 where
  pub total : ℕ
  pub cur : ℕ
  pub version_start : ℕ
  pub versions : ℕ → ℕ
  pub page_start : ℕ

-- `initialize`, with the address of the memory, which is 0 in every byte
unfoldable pub new_bitmap : ℕ → Bitmap
new_bitmap ptr = record {
  total = initial_pages;
  cur = 1;
  version_start = ptr + 4;
  versions = λ index. 0;
  page_start = ptr + 2 * page_size;
}

-- `get`
unfoldable pub get_bitmap : Bitmap → Outcome (ℕ × Bitmap)
get_bitmap b = if ltb (b.cur + 1) b.total then ok (b.cur, record b { cur = b.cur + 1 }) else bug

-- `getAddress`
unfoldable pub get_address : Bitmap → ℕ → ℕ
get_address b index = b.page_start + index * bitmap_size_per_page

-- where `_versionStart[index]` is, an `int`
unfoldable pub version_address : Bitmap → ℕ → ℕ
version_address b index = b.version_start + index * 4

-- `setVersion` and `getVersion`
unfoldable pub set_version : Bitmap → ℕ → ℕ → Bitmap
set_version b index version = record b { versions = store b.versions index version }

unfoldable pub get_version : Bitmap → ℕ → Outcome ℕ
get_version b index = bug_on (index == 0) >> ok (b.versions index)

-- `cleanup`
unfoldable pub cleanup_bitmaps : Bitmap → Bitmap
cleanup_bitmaps b = record b { cur = 1 }

-- `PAGE_ENTRY_NUM`
abbrev pub page_entry_num : ℕ
page_entry_num = 800000

-- `class xpageentry`, less the address of its entries
pub record PageEntries : Type 0 where
  pub total_entries : ℕ
  pub next_entry : ℕ

-- `initialize`
unfoldable pub new_page_entries : PageEntries
new_page_entries = record { total_entries = page_entry_num; next_entry = 0 }

-- `alloc`, which returns the index of the entry
unfoldable pub alloc : PageEntries → Outcome (ℕ × PageEntries)
alloc e =
    if ltb e.next_entry e.total_entries
    then ok (e.next_entry, record e { next_entry = e.next_entry + 1 })
    else bug

-- `cleanup`
unfoldable pub cleanup_entries : PageEntries → PageEntries
cleanup_entries e = record e { next_entry = 0 }

module _ {S : Type 0} (take : S → Outcome (ℕ × S)) where
  -- a number of calls one after the other, and what they return
  unfoldable pub take_all : ℕ → S → Outcome (List ℕ × S)
  take_all zero s = ok ([], s)
  take_all (suc n) s = do (i, s1) ← take s; (is, s2) ← take_all n s1; ok (i ∷ is, s2)

-- `n` numbers from `i` on
abbrev pub count_from : ℕ → ℕ → List ℕ
count_from zero i = []
count_from (suc n) i = i ∷ count_from n (suc i)

take_bitmaps :
    (n : ℕ) (b : Bitmap)
    → b.cur + n < b.total
    → Returns (λ r. r.0 ≡ count_from n b.cur) (take_all get_bitmap n b)
unfolding take_all get_bitmap
take_bitmaps zero b room = returns refl
take_bitmaps (suc n) b room =
    let enough : ltb (b.cur + 1) b.total ≡ true = ground arith in
    let next : b.cur + 1 ≡ suc b.cur = omega arith in
    rw enough (
      Returns-bind (take_bitmaps n (record b { cur = b.cur + 1 }) (omega arith))
        λ (is, _) are. returns (rw (are, next) refl))

take_entries :
    (n : ℕ) (e : PageEntries)
    → e.next_entry + n ≤ e.total_entries
    → Returns (λ r. r.0 ≡ count_from n e.next_entry) (take_all alloc n e)
unfolding take_all alloc
take_entries zero e room = returns refl
take_entries (suc n) e room =
    let enough : ltb e.next_entry e.total_entries ≡ true = ground arith in
    let next : e.next_entry + 1 ≡ suc e.next_entry = omega arith in
    rw enough (
      Returns-bind (take_entries n (record e { next_entry = e.next_entry + 1 }) (omega arith))
        λ (is, _) are. returns (rw (are, next) refl))

-- After `initialize`, and as well after `cleanup` at any later time, up to 800000 page entries are
-- handed out, the first ones in their order, each of them once.
pub alloc-cleanup :
    (n next : ℕ)
    → n ≤ page_entry_num
    → Returns (λ r. r.0 ≡ count_from n 0) (take_all alloc n new_page_entries)
      × Returns
          (λ r. r.0 ≡ count_from n 0)
          (take_all alloc n (cleanup_entries (record new_page_entries { next_entry = next })))
unfolding new_page_entries cleanup_entries
alloc-cleanup n next few = (
  take_entries n (record { total_entries = page_entry_num; next_entry = 0 }) (omega arith),
  take_entries n (record { total_entries = page_entry_num; next_entry = 0 }) (omega arith),
)

-- After `initialize`, up to 81918 bit maps are handed out, from index 1 on in their order, each once.
pub get_bitmap-initialize :
    (ptr n : ℕ)
    → n + 1 < initial_pages
    → Returns (λ r. r.0 ≡ count_from n 1) (take_all get_bitmap n (new_bitmap ptr))
unfolding new_bitmap
get_bitmap-initialize ptr n few = take_bitmaps n (new_bitmap ptr) (omega arith)

-- From index 3071 on, below 81920, the version of a bit map is kept inside the bit map of another
-- index, or the same one's, which is in use.
pub version_address-overlap :
    (ptr index : ℕ)
    → 3071 ≤ index
    → index < initial_pages
    → within
        (get_address (new_bitmap ptr) ((index + 1) / 1024 - 2))
        bitmap_size_per_page
        (version_address (new_bitmap ptr) index)
      ≡ true
unfolding new_bitmap get_address version_address
version_address-overlap ptr index low high = ground arith
