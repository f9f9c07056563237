-- ===== src/Memory/Headers.antt =====
-- thread_lib/include/objectheader.h, and class NewSourceHeap of warpheap.h: an object stands behind a
-- header with its size, in a block of the heap below. `ALIGN_TO_PAGE` is 0 in the source.
pub mod Sizes
use consequence.Base.{
  ℕ, ◌+◌, ◌-◌, ◌%◌, ◌^◌, u64, Bool, ltb, not, ◌==◌, if◌then◌else◌, Outcome, ok, ◌>>=◌, ◌>>◌, bug_on,
  store,
}
use consequence.Memory.{magic_number, Source}

-- `class objectHeader`
pub record Header : Type 0 where
  pub magic : ℕ
  pub object_size : ℕ

-- `sizeof(objectHeader)`
abbrev pub header_size : ℕ
header_size = 16

-- the constructor
abbrev pub new_header : ℕ → Header
new_header sz = record { magic = magic_number; object_size = sz }

-- `verifyMagic`
abbrev pub verify_magic : Header → Bool
verify_magic o = o.magic == magic_number

-- `sanityCheck`, `getSize` and `isValidObject`
unfoldable pub sanity_check : Header → Outcome (Unit {0})
sanity_check o = bug_on (not (o.magic == magic_number))

unfoldable pub header_get_size : Header → Outcome ℕ
unfolding sanity_check
header_get_size o = sanity_check o >> ok o.object_size

unfoldable pub is_valid_object : Header → Outcome Bool
unfolding sanity_check
is_valid_object o = sanity_check o >> ok (o.object_size % 8 == 0)

-- `class NewSourceHeap`, with the headers that are in its blocks
pub record Headed (H : Type 0) : Type 0 where
  pub source : H
  pub headers : ℕ → Header

-- `getObject` and `getPointer`
abbrev pub get_object : ℕ → ℕ
get_object ptr = u64 (ptr + (2 ^ 64 - header_size))

abbrev pub get_pointer : ℕ → ℕ
get_pointer o = u64 (o + header_size)

module _ {H : Type 0} where
  -- `getSize`, which prints a message for an object of no bytes
  unfoldable pub get_size : Headed H → ℕ → Outcome ℕ
  unfolding header_get_size
  get_size h ptr = header_get_size (h.headers (get_object ptr))

  module _ (S : Source H) where
    -- `malloc`
    unfoldable pub malloc : Headed H → ℕ → Outcome (ℕ × Headed H)
    unfolding get_size
    malloc h sz = do
      (ptr, source) ← S.malloc h.source (u64 (sz + header_size))
      let h1 = record h { source = source; headers = store h.headers ptr (new_header sz) }
      (if ptr == 0 then ok (0, record h { source = source }) else (do
        size ← get_size h1 (get_pointer ptr)
        bug_on (ltb size sz)
        ok (get_pointer ptr, h1)))

    -- `free`
    unfoldable pub free : Headed H → ℕ → Outcome (Headed H)
    free h ptr = do source ← S.free h.source (get_object ptr); ok (record h { source = source })

    -- the heap with headers, for the layer above it
    abbrev pub headed_source : Source (Headed H)
    headed_source = record { malloc = malloc; free = free }
