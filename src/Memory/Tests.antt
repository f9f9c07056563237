-- ===== src/Memory/Tests.antt =====
-- A heap of ten pages from address 4096 on, and the theorems on the memory of thread_lib in it.
use consequence.Base.{true, ℕ, ◌+◌, ◌-◌, ◌%◌, ◌^◌, ◌≡◌, refl, arith, [], ◌∷◌, Returns, some}
use consequence.Memory.{page_align, magic_number, malloc_all}
use consequence.Memory.Bump.{Heap, new_heap, bump_source}
use consequence.Memory.Bump.Tiles.{HasUsed, malloc_all_overflow}
use consequence.Memory.Headers.{new_header, headed_source}
use consequence.Memory.Headers.Sizes.{Objects, malloc_all-Objects}
use consequence.Memory.Allocation.{realloc, calloc}
use consequence.Memory.Allocation.Contents.{KeepsObjects}
use consequence.Memory.Allocation.Realloc.{Moved, at_heap, realloc-Moved}
use consequence.Memory.Allocation.Calloc.{Zeroed, calloc-Zeroed}
use consequence.Memory.Allocation.Simple.{
  SimpleHeaps, simple_heap, Alive, HasRoom, simple_heap-KeepsObjects,
}
use consequence.Memory.Regions.{Conversion, Region}
use consequence.Memory.Regions.Both.{commit_both_parallel}
use consequence.Memory.Regions.Versions.{Committed, commit_both_parallel-Reached}

-- two objects, the second on two pages
malloc_all-Objects_example :
    Returns
      (λ r. Objects r.1 4096 45056 (100 ∷ 5000 ∷ []) r.0)
      (malloc_all
        (headed_source bump_source)
        (record { source = new_heap 4096 40960; headers = λ a. new_header 0 })
        (100 ∷ 5000 ∷ []))
unfolding page_align
malloc_all-Objects_example =
    malloc_all-Objects 4096 40960 refl (omega arith) (λ a. new_header 0) (100 ∷ 5000 ∷ [])
      (omega arith) (omega arith, (omega arith, tt)) (omega arith)

-- one page is in use
abbrev one_page : Heap
one_page = record {
  start = 4096;
  end_address = 45056;
  position = 8192;
  remaining = 36864;
  magic = magic_number;
}

one_page-HasUsed : HasUsed 4096 40960 4096 one_page
one_page-HasUsed = record {
  fits = omega arith;
  in_space = omega arith;
  position = refl;
  remaining = refl;
  magic = refl;
}

malloc_all_overflow_example :
    Returns
      (λ r. r.0 ≡ 8192 ∷ 8192 ∷ [])
      (malloc_all bump_source one_page ((2 ^ 64 - 1) ∷ 4096 ∷ []))
unfolding page_align
malloc_all_overflow_example =
    malloc_all_overflow 4096 40960 4096 one_page (2 ^ 64 - 1) 4096 one_page-HasUsed (omega arith)
      (omega arith) (omega arith)

-- an object of 100 bytes is on it
abbrev one_object : SimpleHeaps
one_object = record {
  itself = tt;
  heap = λ i. tt;
  shared = record {
    source = record { source = one_page; headers = λ a. new_header 100 };
    bytes = λ a. a % 251;
  };
}

one_object-Alive : Alive 4096 40960 refl (omega arith) one_object 4112 100
one_object-Alive = record {
  used = 4096;
  heap = one_page-HasUsed;
  block = 4096;
  at = refl;
  after_null = omega arith;
  below = omega arith;
  header = refl;
}

one_object-HasRoom : HasRoom 4096 40960 refl (omega arith) one_object 5 300
unfolding page_align
one_object-HasRoom = record {
  used = 4096;
  heap = one_page-HasUsed;
  small = omega arith;
  room = omega arith;
}

abbrev LiveHere : SimpleHeaps → ℕ → ℕ → Type 0
LiveHere = Alive 4096 40960 refl (omega arith)

abbrev RoomHere : SimpleHeaps → ℕ → ℕ → Type 0
RoomHere = HasRoom 4096 40960 refl (omega arith)

simple_heap-KeepsObjects_example : KeepsObjects LiveHere simple_heap RoomHere
simple_heap-KeepsObjects_example = simple_heap-KeepsObjects 4096 40960 refl (omega arith)

abbrev laws_here : KeepsObjects LiveHere simple_heap RoomHere
laws_here = simple_heap-KeepsObjects 4096 40960 refl (omega arith)

realloc-Moved_example :
    Returns
      (Moved LiveHere simple_heap RoomHere laws_here one_object 4112 100 300)
      (realloc simple_heap (at_heap LiveHere simple_heap RoomHere laws_here one_object 5) 4112 300)
realloc-Moved_example =
    realloc-Moved LiveHere simple_heap RoomHere laws_here one_object 5 4112 100 300 (omega arith)
      one_object-Alive (omega arith) one_object-HasRoom

-- 2 ^ 63 objects of two bytes and one more of 300
calloc-Zeroed_example : Returns (Zeroed LiveHere simple_heap RoomHere laws_here one_object 300) (
    calloc simple_heap
      (at_heap LiveHere simple_heap RoomHere laws_here one_object 5)
      (2 ^ 63 + 150)
      2)
calloc-Zeroed_example =
    calloc-Zeroed LiveHere simple_heap RoomHere laws_here one_object 5 (2 ^ 63 + 150) 2
      (omega arith) one_object-HasRoom

-- a segment that is only its version; the others make the next one at each look
abbrev counting : Conversion ℕ
counting = record {
  checkout_create = λ m size start. (some 0, m);
  segment = λ c. 4096;
  commit_and_update = λ c. c + 1;
  commit_and_update_deferred_start = λ c. c;
  commit_and_update_deferred_end = λ c. c + 1;
  update = λ c. c;
  partial_background_update = λ c. c;
  sleep = λ c. c;
  wake = λ c. c;
  get_committed_version_num = λ c. c;
  get_current_version_num = λ c. c;
  get_linearized_version_num = λ c. c;
  get_dirty_page_count = λ c. 0;
  get_updated_page_count = λ c. 0;
  get_merged_page_count = λ c. 0;
  get_logical_page_count = λ c. 0;
  get_partial_updated_unique_pages = λ c. 0;
  set_partial_updated_unique_pages = λ c n. c;
  set_version_tag = λ c n. c;
}

abbrev region_at : ℕ → Region ℕ
region_at start = record {
  size = 40960;
  snap_memory = 7;
  segment_start = start;
  is_protected = true;
  trans = 0;
  thread_index = 2;
}

commit_both_parallel-Reached_example :
    Returns
      (λ m1.
        Committed counting 9 m1.pheap.snap_memory × Committed counting 10 m1.globals.snap_memory)
      (commit_both_parallel counting
        (λ c. c + 1)
        5
        (record { pheap = region_at 4096; globals = region_at 65536 })
        9
        10)
commit_both_parallel-Reached_example =
    commit_both_parallel-Reached counting (λ c. c + 1) 5 1 2
      (record { pheap = region_at 4096; globals = region_at 65536 }) 9 10 (omega arith)
      (omega arith) (omega arith) (omega arith)
