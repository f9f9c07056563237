-- ===== src/CircularList.antt =====
-- thread_lib/include/list.h: circular doubly linked lists of entries, the queues of the locks and the
-- condition variables. A pointer is an address, 0 for NULL; `head` is what the head pointer holds. An
-- access through NULL ends the run as `out_of_bounds`.
pub mod Ring
pub mod Tests
use consequence.Base.{
  ℕ, zero, suc, Bool, true, false, ◌&&◌, not, ◌==◌, if◌then◌else◌, store, Outcome, ok, bug,
  out_of_bounds, ◌>>=◌, ◌>>◌, bug_on, in_range,
}

-- `struct Entry`
pub record Links : Type 0 where
  pub prev : ℕ
  pub next : ℕ

abbrev pub Memory : Type 0
Memory = ℕ → Links

-- `p->prev` and `p->next`, read
unfoldable pub links_at : Memory → ℕ → Outcome Links
links_at m p = in_range (not (p == 0)) >> ok (m p)

-- `p->prev = v`, and `p->next = v`
unfoldable pub write_prev : Memory → ℕ → ℕ → Outcome Memory
write_prev m p v =
    in_range (not (p == 0)) >> ok (store m p (record { prev = v; next = (m p).next }))

unfoldable pub write_next : Memory → ℕ → ℕ → Outcome Memory
write_next m p v =
    in_range (not (p == 0)) >> ok (store m p (record { prev = (m p).prev; next = v }))

-- `isEmpty`
unfoldable pub is_empty : ℕ → Bool
is_empty head = head == 0

-- `nextEntry`
unfoldable pub next_entry : Memory → ℕ → Outcome ℕ
unfolding links_at
next_entry m current = do e ← links_at m current; ok e.next

-- `insertTail`: the memory, and what the head pointer holds after it
unfoldable pub insert_tail : Memory → ℕ → ℕ → Outcome (Memory × ℕ)
unfolding links_at write_prev write_next
insert_tail m entry head =
    if head == 0
    then (do m1 ← write_prev m entry entry; m2 ← write_next m1 entry entry; ok (m2, entry))
    else do
      header ← links_at m head
      let tail = header.prev
      m1 ← write_next m tail entry
      m2 ← write_prev m1 head entry
      m3 ← write_prev m2 entry tail
      m4 ← write_next m3 entry head
      ok (m4, head)

-- `insertNext`
unfoldable pub insert_next : Memory → ℕ → ℕ → Outcome Memory
unfolding links_at write_prev write_next
insert_next m entry prev = do
  e ← links_at m prev
  let next = e.next
  m1 ← write_prev m next entry
  m2 ← write_prev m1 entry prev
  m3 ← write_next m2 entry next
  write_next m3 prev entry

-- `insertHead`, which puts the entry behind the first one
unfoldable pub insert_head : Memory → ℕ → ℕ → Outcome Memory
unfolding links_at write_prev write_next
insert_head m entry head = do
  header ← links_at m head
  let next = header.next
  m1 ← write_next m head entry
  m2 ← write_prev m1 next entry
  m3 ← write_prev m2 entry head
  write_next m3 entry next

-- `moveWholeList`: the memory, and what the source's head pointer holds after it
unfoldable pub move_whole_list : Memory → ℕ → ℕ → Outcome (Memory × ℕ)
unfolding links_at write_prev write_next
move_whole_list m prev src = if src == 0 then ok (m, 0) else do
  bug_on (prev == 0)
  e ← links_at m prev
  let next = e.next
  srchead ← links_at m src
  let srctail = srchead.prev
  m1 ← write_prev m next srctail
  m2 ← write_prev m1 src prev
  m3 ← write_next m2 srctail next
  m4 ← write_next m3 prev src
  ok (m4, 0)

-- `removeEntry`: the memory, and what the head pointer holds after it
unfoldable pub remove_entry : Memory → ℕ → ℕ → Outcome (Memory × ℕ)
unfolding links_at write_prev write_next
remove_entry m entry head = do
  bug_on (head == 0)
  e ← links_at m entry
  if e.prev == entry && e.next == entry then ok (m, 0) else do
    m1 ← write_next m e.prev e.next
    m2 ← write_prev m1 e.next e.prev
    ok (m2, if head == entry then e.next else head)

-- `removeHeadEntry`: the memory, the head pointer, and the entry or NULL
unfoldable pub remove_head_entry : Memory → ℕ → Outcome (Memory × ℕ × ℕ)
unfolding remove_entry
remove_head_entry m head =
    if head == 0
    then ok (m, head, 0)
    else do (m1, head1) ← remove_entry m head head; ok (m1, head1, head)

-- `getHeadEntry`
unfoldable pub get_head_entry : ℕ → ℕ
get_head_entry head = if head == 0 then 0 else head
