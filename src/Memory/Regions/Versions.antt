-- ===== src/Memory/Regions/Versions.antt =====
-- How the regions of the memory of thread_lib behave: what the constructor leaves in place, how long
-- a parallel commit waits, and where a write goes.
use consequence.Base.{
  ℕ, zero, suc, ◌+◌, ◌-◌, ◌^◌, ◌≤◌, ◌<◌, ◌≡◌, refl, arith, true, false, ltb, ◌==◌, ◌||◌,
  if◌then◌else◌, some, store, Returns, returns, Returns-bind, u64, inl, inr, Bool-cases,
}
use consequence.Memory.{Bytes, within}
use consequence.Memory.Regions.{
  Conversion, Region, new_region, in_range_of, mem_write, wait_for_version, commit_parallel,
}
use consequence.Memory.Regions.Both.{
  Memories, write_word, commit_both_parallel, in_heap_range, in_globals_range,
}

-- what was copied aside is back in its place
put_back :
    (m m1 : Bytes) (start count a : ℕ)
    → within start count a ≡ true
    → (if within start count a then m (start + (a - start)) else m1 a) ≡ m a
put_back m m1 start count a inside =
    let back : start + (a - start) ≡ a = ground arith in rw (inside, back) refl

module _ {C : Type 0} (V : Conversion C) where
  -- Where the program's globals fit into the region and conversion makes a segment: the constructor
  -- returns, and whatever conversion did to the memory, the globals hold what they held.
  pub new_region-contents :
      (m : Bytes) (size startaddr startsize : ℕ) (snap : C)
      → 0 < startaddr
      → startsize ≤ size
      → (V.checkout_create m size startaddr).0 ≡ some snap
      → Returns
          (λ r.
            (r.0.snap_memory ≡ snap)
            × ((a : ℕ) → within startaddr startsize a ≡ true → r.1 a ≡ m a))
          (new_region V m size startaddr startsize)
  unfolding new_region
  new_region-contents m size startaddr startsize snap positive fits made =
      let enough : ltb size startsize ≡ false = ground arith in
      let given : (startaddr == 0) ≡ false = ground arith in
      rw (made, given, enough)
        (elim (Bool-cases (ltb 0 startsize)) [
          | inl some_bytes ↦ rw some_bytes (returns (refl, put_back m _ startaddr startsize))
          | inr no_bytes ↦ rw no_bytes (returns (refl, put_back m _ startaddr startsize))
        ])

  -- the segment after some looks at it
  abbrev pub after : (C → C) → ℕ → C → C
  after others zero snap = snap
  after others (suc n) snap = after others n (others snap)

  -- a version no lower than this one has been committed
  abbrev pub Committed : ℕ → C → Type 0
  Committed version snap =
      (seen : C) × (version ≤ V.get_linearized_version_num seen) × (snap ≡ V.commit_and_update seen)

  wait_for_version-Reached :
      (others : C → C) (looks n : ℕ) (snap : C) (version : ℕ)
      → n < looks
      → version ≤ V.get_linearized_version_num (after others (suc n) snap)
      → Returns
          (λ c. version ≤ V.get_linearized_version_num c)
          (wait_for_version V others looks snap version)
  unfolding wait_for_version
  wait_for_version-Reached others zero n snap version more reached = absurd (omega arith)
  wait_for_version-Reached others (suc looks) zero snap version more reached =
      let there : ltb (V.get_linearized_version_num (others snap)) version ≡ false = ground arith in
      rw (there, wait_for_version) (returns reached)
  wait_for_version-Reached others (suc looks) (suc n) snap version more reached =
      elim (Bool-cases (ltb (V.get_linearized_version_num (others snap)) version)) [
        | inl early ↦
            rw (early, wait_for_version)
              (wait_for_version-Reached others looks n (others snap) version (omega arith) reached)
        | inr there ↦ rw (there, wait_for_version) (returns (ground arith))
      ]

  -- If the others linearize the awaited version of the heap within the looks that a thread takes at
  -- it, and that of the globals too: a parallel commit returns, and it has committed both regions as
  -- they were at versions no lower than those awaited.
  pub commit_both_parallel-Reached :
      (others : C → C) (looks n k : ℕ) (m : Memories C) (heap_version globals_version : ℕ)
      → n < looks
      → k < looks
      → heap_version ≤ V.get_linearized_version_num (after others (suc n) m.pheap.snap_memory)
      → globals_version ≤ V.get_linearized_version_num (after others (suc k) m.globals.snap_memory)
      → Returns
          (λ m1.
            Committed heap_version m1.pheap.snap_memory
            × Committed globals_version m1.globals.snap_memory)
          (commit_both_parallel V others looks m heap_version globals_version)
  unfolding commit_both_parallel commit_parallel
  commit_both_parallel-Reached others looks n k m heap_version globals_version a b heap_there
        globals_there =
      Returns-bind
        (Returns-bind
          (wait_for_version-Reached others looks n m.pheap.snap_memory heap_version a heap_there)
          λ c late. returns (c, late, refl))
        λ pheap p.
          Returns-bind
            (Returns-bind
              (wait_for_version-Reached others looks k m.globals.snap_memory globals_version b
                globals_there)
              λ c late. returns (c, late, refl))
            λ globals q. returns (p, q)

-- An address in a region: a write to it through the region is a write to the memory.
mem_write-store :
    {C : Type 0} (r : Region C) (words : ℕ → ℕ) (addr val : ℕ)
    → addr < 2 ^ 64
    → r.segment_start < 2 ^ 64
    → mem_write r words addr val ≡ store words addr val
unfolding mem_write
mem_write-store r words addr val a s =
    let back : u64 (r.segment_start + u64 (addr + (2 ^ 64 - r.segment_start))) ≡ addr =
      omega arith in
    rw back refl

-- A write of a word changes the memory at its address and nowhere else if the address is in the heap
-- or in the globals, and otherwise it changes nothing.
pub write_word-store :
    {C : Type 0} (m : Memories C) (words : ℕ → ℕ) (dest val : ℕ)
    → dest < 2 ^ 64
    → m.pheap.segment_start < 2 ^ 64
    → m.globals.segment_start < 2 ^ 64
    → write_word m words dest val
      ≡ (if in_heap_range m dest || in_globals_range m dest then store words dest val else words)
unfolding write_word in_heap_range in_globals_range
write_word-store m words dest val d a b = elim (Bool-cases (in_range_of m.pheap dest)) [
  | inl heap ↦ rw heap (mem_write-store m.pheap words dest val d a)
  | inr not_heap ↦ elim (Bool-cases (in_range_of m.globals dest)) [
    | inl globals ↦ rw (not_heap, globals) (mem_write-store m.globals words dest val d b)
    | inr neither ↦ rw (not_heap, neither) refl
  ]
]
