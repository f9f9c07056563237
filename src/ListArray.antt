-- ===== src/ListArray.antt =====
-- logical_clock/module/listarray.h: a doubly linked list of array indices, which the kernel module
-- keeps of its active threads. A pointer is the source's `int16_t`: an index, the mark `NULL` (-1)
-- or the mark `DEAD` (4097) of an entry that is not in the list. An index outside `entries` ends the
-- run as `out_of_bounds`.
pub mod Chain
pub mod Insert
pub mod Remove
pub mod Loops
pub mod Refine
pub mod Tests
use consequence.Base.{
  ℕ, zero, suc, ◌+◌, ◌-◌, ℤ, pos, negsuc, ◌==ℤ◌, is_nonneg, Bool, true, false, ◌&&◌, not, ltb, leb,
  update, if◌then◌else◌, Outcome, ok, out_of_bounds, out_of_fuel, ◌>>=◌, ◌>>◌, bug_on, in_range,
}

abbrev pub listarray_max_size : ℕ
listarray_max_size = 4096

abbrev pub entry_null : ℤ
entry_null = negsuc 0

abbrev pub entry_dead : ℤ
entry_dead = pos 4097

-- `struct listarray_entry`
pub record Entry : Type 0 where
  pub next : ℤ
  pub prev : ℤ

-- `struct listarray`
pub record ListArray : Type 0 where
  pub entries : ℕ → Entry
  pub head : ℤ
  pub tail : ℤ
  pub count : ℕ
  pub max_index : ℕ

-- `listarray_getentry(la, index)`, read
unfoldable pub getentry : ListArray → ℤ → Outcome Entry
getentry la (pos i) = in_range (ltb i listarray_max_size) >> ok (la.entries i)
getentry la (negsuc i) = out_of_bounds

-- `listarray_getentry(la, index).next = v`
unfoldable pub set_next : ListArray → ℤ → ℤ → Outcome ListArray
unfolding getentry
set_next la (pos i) v = do
  e ← getentry la (pos i)
  ok (record la { entries = update la.entries i (record e { next = v }) })
set_next la (negsuc i) v = out_of_bounds

-- `listarray_getentry(la, index).prev = v`
unfoldable pub set_prev : ListArray → ℤ → ℤ → Outcome ListArray
unfolding getentry
set_prev la (pos i) v = do
  e ← getentry la (pos i)
  ok (record la { entries = update la.entries i (record e { prev = v }) })
set_prev la (negsuc i) v = out_of_bounds

-- The loop of `listarray_init` over `i`, with the rounds that are left.
init_loop : ℕ → ℕ → (ℕ → Entry) → ℕ → Entry
init_loop zero i f = f
init_loop (suc rounds) i f =
    init_loop rounds (i + 1) (update f i (record { next = entry_dead; prev = entry_dead }))

unfoldable pub init : ListArray → ListArray
unfolding init_loop
init la = record {
  entries = init_loop listarray_max_size 0 la.entries;
  head = entry_null;
  tail = entry_null;
  count = 0;
  max_index = 0;
}

unfoldable pub insert : ListArray → ℕ → Outcome ListArray
unfolding getentry set_next set_prev
insert la index = do
  e ← getentry la (pos index)
  bug_on (not (e.next ==ℤ entry_dead && e.prev ==ℤ entry_dead))
  linked ←
      (if la.tail ==ℤ entry_null
        then set_prev (record la { head = pos index; tail = pos index }) (pos index) entry_null
        else do
          la1 ← set_next la la.tail (pos index)
          la2 ← set_prev la1 (pos index) la1.tail
          ok (record la2 { tail = pos index }))
  ended ← set_next linked (pos index) entry_null
  let counted = record ended { count = ended.count + 1 }
  ok (if ltb counted.max_index index then record counted { max_index = index } else counted)

-- The four cases of `listarray_remove`, before the entry is marked as dead.
unlink : ListArray → ℕ → Entry → Outcome ListArray
unfolding getentry set_next set_prev
unlink la index e =
    if e.prev ==ℤ entry_null && e.next ==ℤ entry_null
    then ok (record la { head = entry_null; tail = entry_null })
    else if e.prev ==ℤ entry_null
    then set_prev (record la { head = e.next }) e.next entry_null
    else if e.next ==ℤ entry_null
    then set_next (record la { tail = e.prev }) e.prev entry_null
    else do
      la1 ← set_next la e.prev e.next
      e1 ← getentry la1 (pos index)
      set_prev la1 e1.next e1.prev

unfoldable pub remove : ListArray → ℕ → Outcome ListArray
unfolding unlink
remove la index = do
  bug_on (leb la.count 0)
  e ← getentry la (pos index)
  unlinked ← unlink la index e
  la1 ← set_next unlinked (pos index) entry_dead
  la2 ← set_prev la1 (pos index) entry_dead
  ok (record la2 { count = la2.count - 1 })

unfoldable pub in_list : ListArray → ℕ → Outcome Bool
unfolding getentry
in_list la index = do
  e ← getentry la (pos index)
  ok (not (e.next ==ℤ entry_dead) && not (e.prev ==ℤ entry_dead))

-- `listarray_foreach`: the body at each index from `i` on, along the `next` pointers.
unfoldable pub foreach_from {ℓ} :
    {S : Type ℓ} → ℕ → ListArray → (S → ℕ → Outcome S) → ℤ → S → Outcome S
foreach_from fuel la body (negsuc zero) s = ok s
foreach_from fuel la body (negsuc (suc i)) s = out_of_bounds
foreach_from zero la body (pos i) s = out_of_fuel
foreach_from (suc fuel) la body (pos i) s = do
  s' ← body s i
  e ← getentry la (pos i)
  foreach_from fuel la body e.next s'

-- `listarray_max_size + 1` rounds pass through a list that visits no index twice.
unfoldable pub foreach {ℓ} : {S : Type ℓ} → ListArray → (S → ℕ → Outcome S) → S → Outcome S
unfolding foreach_from
foreach la body s = foreach_from (listarray_max_size + 1) la body la.head s

-- `listarray_foreach_allelements`: the body at every index from `i` up, for `rounds` indices.
unfoldable pub each_index {ℓ} : {S : Type ℓ} → ℕ → ℕ → (S → ℕ → Outcome S) → S → Outcome S
each_index zero i body s = ok s
each_index (suc rounds) i body s = do s' ← body s i; each_index rounds (i + 1) body s'

unfoldable pub foreach_allelements {ℓ} :
    {S : Type ℓ} → ListArray → (S → ℕ → Outcome S) → S → Outcome S
unfolding each_index
foreach_allelements la body s = each_index (la.max_index + 1) 0 body s
