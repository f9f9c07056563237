-- ===== src/Memory/Bump/Tiles.antt =====
-- The blocks that `malloc` of xheap.h hands out lie one behind the other in the region.
use consequence.Base.{
  ℕ, ◌+◌, ◌-◌, ◌%◌, ◌^◌, ◌≤◌, ◌<◌, ◌≡◌, refl, sym, subst, arith, true, false, ltb, ◌==◌, List, [],
  ◌∷◌, All, exited, Returns, returns, Returns-bind, Returns-mono, lt→ltb,
}
use consequence.Memory.{page_size, page_align, magic_number, malloc_all}
use consequence.Memory.Bump.{Heap, new_heap, sanity_check, malloc, bump_source}

-- the size of a block for `sz` bytes: the least number of pages that has room for them
pub page_align_lem :
    (sz : ℕ)
    → sz + (page_size - 1) < 2 ^ 64
    → (sz ≤ page_align sz) × (page_align sz < sz + page_size) × (page_align sz % page_size ≡ 0)
unfolding page_align
page_align_lem sz h = omega arith

-- The heap is as the constructor left it, but for blocks of `used` bytes.
pub record HasUsed (base size used : ℕ) (h : Heap) : Type 0 where
  pub fits : used ≤ size
  pub in_space : base + size < 2 ^ 64
  pub position : h.position ≡ base + used
  pub remaining : h.remaining ≡ size - used
  pub magic : (h.magic == magic_number) ≡ true

pub new_heap-HasUsed :
    (base size : ℕ) → base + size < 2 ^ 64 → HasUsed base size 0 (new_heap base size)
unfolding new_heap
new_heap-HasUsed base size h = record {
  fits = omega arith;
  in_space = h;
  position = omega arith;
  remaining = omega arith;
  magic = refl;
}

-- where the blocks of these sizes stand, behind `at`
abbrev pub tile : ℕ → List ℕ → List ℕ
tile at [] = []
tile at (sz ∷ rest) = at ∷ tile (at + page_align sz) rest

abbrev pub total : List ℕ → ℕ
total [] = 0
total (sz ∷ rest) = page_align sz + total rest

module _ (base size : ℕ) where
  -- Where the region has room for the pages, `malloc` hands out those behind the blocks.
  pub malloc-HasUsed :
      (used : ℕ) (h : Heap) (sz : ℕ)
      → HasUsed base size used h
      → used + page_align sz ≤ size
      → Returns
          (λ r. (r.0 ≡ base + used) × HasUsed base size (used + page_align sz) r.1)
          (malloc h sz)
  unfolding malloc sanity_check
  malloc-HasUsed used h sz v room =
      let fits = v.fits in
      let in_space = v.in_space in
      let position = v.position in
      let remaining = v.remaining in
      rw (v.magic, enough)
        (returns (
          position,
          record {
            fits = room;
            in_space = in_space;
            position = omega arith;
            remaining = omega arith;
            magic = v.magic;
          },
        ))
    where
      enough : ltb h.remaining (page_align sz) ≡ false
      enough = let remaining = v.remaining in let fits = v.fits in ground arith

  -- Where it has not, the program exits.
  pub malloc_exhausted :
      (used : ℕ) (h : Heap) (sz : ℕ)
      → HasUsed base size used h
      → size < used + page_align sz
      → malloc h sz ≡ exited
  unfolding malloc sanity_check
  malloc_exhausted used h sz v full =
      let remaining = v.remaining in
      let fits = v.fits in rw (v.magic, lt→ltb h.remaining (page_align sz) (omega arith)) refl

  pub malloc_all_lem :
      (szs : List ℕ) (used : ℕ) (h : Heap)
      → HasUsed base size used h
      → used + total szs ≤ size
      → Returns
          (λ r. (r.0 ≡ tile (base + used) szs) × HasUsed base size (used + total szs) r.1)
          (malloc_all bump_source h szs)
  unfolding malloc_all
  malloc_all_lem [] used h v room =
      returns (refl, subst (λ n. HasUsed base size n h) (omega arith) v)
  malloc_all_lem (sz ∷ rest) used h v room =
      Returns-bind (malloc-HasUsed used h sz v (omega arith)) λ (p, h1) (at, v1).
        Returns-bind (malloc_all_lem rest (used + page_align sz) h1 v1 (omega arith))
          λ (ps, h2) (are, v2).
            returns (rw (at, are, shift) refl, subst (λ n. HasUsed base size n h2) (omega arith) v2)
    where
      shift : base + (used + page_align sz) ≡ base + used + page_align sz
      shift = omega arith

-- Blocks of at least these sizes, one behind the other from `lo` to `hi`, each on a page of its own.
abbrev pub Stacked : ℕ → ℕ → List ℕ → List ℕ → Type 0
Stacked lo hi [] [] = lo ≤ hi
Stacked lo hi (sz ∷ szs) (p ∷ ps) = (lo ≤ p) × (p % page_size ≡ 0) × Stacked (p + sz) hi szs ps
Stacked lo hi [] (p ∷ ps) = ⊥
Stacked lo hi (sz ∷ szs) [] = ⊥

tile-Stacked :
    (lo at hi : ℕ) (szs : List ℕ)
    → lo ≤ at
    → at % page_size ≡ 0
    → at + total szs ≤ hi
    → All (λ sz. sz + (page_size - 1) < 2 ^ 64) szs
    → Stacked lo hi szs (tile at szs)
tile-Stacked lo at hi [] before whole room small = omega arith
tile-Stacked lo at hi (sz ∷ rest) before whole room small =
    let aligned = page_align_lem sz small.0 in
    (
      before,
      whole,
      tile-Stacked (at + sz) (at + page_align sz) hi rest (omega arith) (omega arith) (omega arith)
          small.1,
    )

-- In a new heap of whole pages below 2 ^ 64, whatever blocks are asked for that it has room for, with
-- the size of each rounded up to pages: `malloc` returns each of them, one behind the other in the
-- region, each on pages of its own.
pub malloc_all-Stacked :
    (base size : ℕ) (szs : List ℕ)
    → base + size < 2 ^ 64
    → base % page_size ≡ 0
    → All (λ sz. sz + (page_size - 1) < 2 ^ 64) szs
    → total szs ≤ size
    → Returns
        (λ r. Stacked base (base + size) szs r.0)
        (malloc_all bump_source (new_heap base size) szs)
malloc_all-Stacked base size szs space whole small room =
    Returns-mono (malloc_all_lem base size szs 0 _ (new_heap-HasUsed base size space) (omega arith))
      λ r (are, _). subst (Stacked base (base + size) szs) (sym are) (
        subst (λ at. Stacked base (base + size) szs (tile at szs)) (omega arith)
          (tile-Stacked base base (base + size) szs (omega arith) whole (omega arith) small))

page_align_overflow :
    (huge : ℕ) → huge < 2 ^ 64 → 2 ^ 64 ≤ huge + (page_size - 1) → page_align huge ≡ 0
unfolding page_align
page_align_overflow huge below over = omega arith

-- A request for less than a page less than 2 ^ 64 bytes is not refused: the heap, wherever it stands
-- with as much room as the next block needs, returns the address of that next block, and keeps no
-- room for it.
pub malloc_all_overflow :
    (base size used : ℕ) (h : Heap) (huge sz : ℕ)
    → HasUsed base size used h
    → huge < 2 ^ 64
    → 2 ^ 64 ≤ huge + (page_size - 1)
    → used + page_align sz ≤ size
    → Returns
        (λ r. r.0 ≡ (base + used) ∷ (base + used) ∷ [])
        (malloc_all bump_source h (huge ∷ sz ∷ []))
malloc_all_overflow base size used h huge sz v below over room =
    let none_kept = page_align_overflow huge below over in
    Returns-mono (malloc_all_lem base size (huge ∷ sz ∷ []) used h v (omega arith))
      λ r (are, _). rw (are, none_kept, same) refl
  where
    same : base + used + 0 ≡ base + used
    same = omega arith
