-- ===== src/Memory/Headers/Sizes.antt =====
-- What class NewSourceHeap of warpheap.h promises: an object's size is the one that was asked for, and
-- an object goes back to the heap below as the block it came in.
use consequence.Base.{
  ℕ, ◌+◌, ◌-◌, ◌%◌, ◌^◌, ◌≤◌, ◌<◌, ◌≡◌, refl, arith, false, ltb, ◌==◌, List, [], ◌∷◌, All, ok,
  Returns, returns, Returns-bind, Returns-mono, Returns-value, Returns-ok, u64, store, store_self,
  store_ne, ◌>>=◌, ◌∙◌,
}
use consequence.Memory.{page_size, page_align, malloc_all, Source}
use consequence.Memory.Bump.{Heap, new_heap, bump_source}
use consequence.Memory.Bump.Tiles.{HasUsed, malloc-HasUsed, new_heap-HasUsed, page_align_lem}
use consequence.Memory.Headers.{
  Header, header_size, new_header, header_get_size, sanity_check, Headed, get_object, get_pointer,
  get_size, malloc, free, headed_source,
}

get_object-get_pointer : (o : ℕ) → o + header_size < 2 ^ 64 → get_object (get_pointer o) ≡ o
get_object-get_pointer o h = omega arith

module _ {H : Type 0} (S : Source H) where
  -- A block at `ptr` of the heap below, behind its header.
  malloc-headed :
      (h : Headed H) (sz ptr : ℕ) (source : H)
      → S.malloc h.source (u64 (sz + header_size)) ≡ ok (ptr, source)
      → 0 < ptr
      → ptr + header_size < 2 ^ 64
      → malloc S h sz
        ≡ ok (
          ptr + header_size,
          record { source = source; headers = store h.headers ptr (new_header sz) },
        )
  unfolding malloc get_size header_get_size sanity_check
  malloc-headed h sz ptr source e some_place space =
      let not_null : (ptr == 0) ≡ false = ground arith in
      let pointer : get_pointer ptr ≡ ptr + header_size = omega arith in
      let enough : ltb sz sz ≡ false = ground arith in
      rw
        (
          e,
          not_null,
          get_object-get_pointer ptr space,
          store_self h.headers ptr (new_header sz),
          enough,
          pointer,
        )
        refl

  -- Where the heap below returns a block that is not NULL and whose header ends below 2 ^ 64: the
  -- object stands behind that header, `getSize` gives the size that was asked for, and `free` hands
  -- the heap below the address that it returned.
  pub malloc-get_size-free :
      (h : Headed H) (sz ptr : ℕ) (source : H)
      → S.malloc h.source (u64 (sz + header_size)) ≡ ok (ptr, source)
      → 0 < ptr
      → ptr + header_size < 2 ^ 64
      → Returns
          (λ r.
            (r.0 ≡ ptr + header_size)
            × (get_size r.1 r.0 ≡ ok sz)
            × (free S r.1 r.0
                ≡ (S.free source ptr >>= λ freed. ok (record (r.1) { source = freed }))))
          (malloc S h sz)
  unfolding get_size header_get_size sanity_check free
  malloc-get_size-free h sz ptr source e some_place space =
      let pointer : ptr + header_size ≡ get_pointer ptr = omega arith in
      rw (malloc-headed h sz ptr source e some_place space) (
        returns (
          refl,
          rw (pointer, get_object-get_pointer ptr space, store_self h.headers ptr (new_header sz))
              refl,
          rw (pointer, get_object-get_pointer ptr space) refl,
        ))

-- Objects of these sizes, one behind the other from `lo` to `hi`, each behind its header on pages
-- of its own, where `getSize` gives each its size.
abbrev pub Objects : Headed Heap → ℕ → ℕ → List ℕ → List ℕ → Type 0
Objects h lo hi [] [] = lo ≤ hi
Objects h lo hi (sz ∷ szs) (p ∷ ps) =
    (lo + header_size ≤ p)
    × (p % page_size ≡ header_size)
    × (get_size h p ≡ ok sz)
    × Objects h (p + sz) hi szs ps
Objects h lo hi [] (p ∷ ps) = ⊥
Objects h lo hi (sz ∷ szs) [] = ⊥

abbrev pub headed_total : List ℕ → ℕ
headed_total [] = 0
headed_total (sz ∷ rest) = page_align (sz + header_size) + headed_total rest

-- an object keeps its size where the headers below its own block stay
pub get_size-kept :
    (h : Headed Heap) (o sz : ℕ)
    → o + header_size < 2 ^ 64
    → h.headers o ≡ new_header sz
    → get_size h (o + header_size) ≡ ok sz
unfolding get_size header_get_size sanity_check
get_size-kept h o sz space e =
    let pointer : o + header_size ≡ get_pointer o = omega arith in
    rw (pointer, get_object-get_pointer o space, e) refl

module _ (base size : ℕ) (whole : base % page_size ≡ 0) (positive : 0 < base) where
  -- the heap after a `malloc` of `sz` bytes behind `used` ones
  pub record Behind (used sz : ℕ) (h : Headed Heap) (r : ℕ × Headed Heap) : Type 0 where
    pub at : r.0 ≡ base + used + header_size
    pub more : HasUsed base size (used + page_align (sz + header_size)) r.1.source
    pub header : r.1.headers (base + used) ≡ new_header sz
    pub others : (a : ℕ) → a < base + used → r.1.headers a ≡ h.headers a

  pub malloc-Behind :
      (used sz : ℕ) (h : Headed Heap)
      → HasUsed base size used h.source
      → sz + header_size + (page_size - 1) < 2 ^ 64
      → used + page_align (sz + header_size) ≤ size
      → Returns (Behind used sz h) (malloc bump_source h sz)
  malloc-Behind used sz h v small room =
      let in_space = v.in_space in
      let aligned = page_align_lem (sz + header_size) small in
      let word : u64 (sz + header_size) ≡ sz + header_size = omega arith in
      let below =
        Returns-value (malloc-HasUsed base size used h.source (sz + header_size) v room) in
      let at = below.2.0 in
      Returns-ok
        (malloc-headed bump_source h sz below.0.0 below.0.1 (rw word below.1) (omega arith)
          (omega arith))
        record {
          at = omega arith;
          more = below.2.1;
          header = rw at (store_self h.headers (base + used) (new_header sz));
          others =
              λ a under. rw at (store_ne h.headers (base + used) a (new_header sz) (ground arith));
        }

  abbrev Holds : ℕ → ℕ → List ℕ → Headed Heap → List ℕ × Headed Heap → Type 0
  Holds lo used szs h r =
      Objects r.1 lo (base + size) szs r.0
      × ((a : ℕ) → a < base + used → r.1.headers a ≡ h.headers a)

  malloc_all-Holds :
      (szs : List ℕ) (lo used : ℕ) (h : Headed Heap)
      → HasUsed base size used h.source
      → lo ≤ base + used
      → used % page_size ≡ 0
      → All (λ sz. sz + header_size + (page_size - 1) < 2 ^ 64) szs
      → used + headed_total szs ≤ size
      → Returns (Holds lo used szs h) (malloc_all (headed_source bump_source) h szs)
  unfolding malloc_all
  malloc_all-Holds [] lo used h v before pages small room =
      let fits = v.fits in returns (omega arith, λ a _. refl)
  malloc_all-Holds (sz ∷ rest) lo used h v before pages small room =
      let in_space = v.in_space in
      let aligned = page_align_lem (sz + header_size) small.0 in
      Returns-bind (malloc-Behind used sz h v small.0 (omega arith)) λ (p, h1) b.
        let at = b.at in
        Returns-bind
          (malloc_all-Holds rest (p + sz) (used + page_align (sz + header_size)) h1 b.more
            (omega arith) (omega arith) small.1 (omega arith))
          λ (ps, h2) (objects, kept). returns (
            (
              omega arith,
              omega arith,
              rw at (
                  get_size-kept h2 (base + used) sz (omega arith)
                    (kept (base + used) (omega arith) ∙ b.header)),
              objects,
            ),
            λ a under. kept a (omega arith) ∙ b.others a under,
          )

  -- Over a new heap of whole pages that does not start at NULL and ends below 2 ^ 64, whatever
  -- objects are asked for that it has room for, with the size of each and its header rounded up to
  -- pages: `malloc` returns each of them, one behind the other in the region, each behind a header
  -- and on pages of its own, and after all the calls `getSize` gives the size that each was asked for.
  pub malloc_all-Objects :
      (headers : ℕ → Header) (szs : List ℕ)
      → base + size < 2 ^ 64
      → All (λ sz. sz + header_size + (page_size - 1) < 2 ^ 64) szs
      → headed_total szs ≤ size
      → Returns
          (λ r. Objects r.1 base (base + size) szs r.0)
          (malloc_all
            (headed_source bump_source)
            (record { source = new_heap base size; headers = headers })
            szs)
  malloc_all-Objects headers szs space small room =
      Returns-mono
        (malloc_all-Holds szs base 0 (record { source = new_heap base size; headers = headers })
          (new_heap-HasUsed base size space) (omega arith) refl small (omega arith))
        λ r (objects, _). objects
