-- ===== src/ListArray/Insert.antt =====
-- `listarray_init` makes the empty list, and `listarray_insert` appends an index.
use consequence.Base.{
  update, ℕ, zero, suc, ◌+◌, ◌≤◌, ◌<◌, pos, ◌≡◌, refl, false, List, [], ◌∷◌, ◌++◌, sym, ◌∙◌,
  All-mono, ne_of_mem, ==_sym, All-has, Distinct-snoc, Returns-mono, arith, ◌==◌, lt→ltb,
  length-append, not-mem-append, All-append, ◌∈◌, ◌∉◌, bug, Returns, returns,
}
use consequence.ListArray.{
  Entry, ListArray, entry_null, listarray_max_size, init_loop, init, getentry, set_next, set_prev,
  insert,
}
use consequence.ListArray.Chain.{
  first, last, Linked, IsDead, Holds, last-append, first-append, Linked-frame, Linked-append, final,
  last-final, final-mem, Linked-renext, member-lt, member-IsLive,
}

init_loop-dead :
    (rounds i : ℕ) (f : ℕ → Entry) (j : ℕ)
    → ((k : ℕ) → k < i → IsDead (f k))
    → j < i + rounds
    → IsDead (init_loop rounds i f j)
unfolding init_loop
init_loop-dead zero i f j h lt = h j (omega arith)
init_loop-dead (suc rounds) i f j h lt =
    init_loop-dead rounds (i + 1) _ j (λ k q. ground (arith, h k)) (omega arith)

-- `listarray_init` leaves the empty list.
pub init-Holds : (la : ListArray) → Holds (init la) []
unfolding init
init-Holds la = record {
  head = refl;
  tail = refl;
  linked = tt;
  distinct = tt;
  bounded = tt;
  reached = tt;
  count = refl;
  dead = λ i lt o. init_loop-dead 4096 0 la.entries i (λ k q. elim q [ ]) (omega arith);
}

-- The record that `listarray_insert` leaves, before it is known what it stands for.
record Inserted (la : ListArray) (x : ℕ) (la' : ListArray) : Type 0 where
  tail : la'.tail ≡ pos x
  count : la'.count ≡ la.count + 1
  reached : (la.max_index ≤ la'.max_index) × (x ≤ la'.max_index)
  next : (la'.entries x).next ≡ entry_null

insert_empty :
    (la : ListArray) (x : ℕ)
    → x < listarray_max_size
    → IsDead (la.entries x)
    → la.tail ≡ entry_null
    → Returns
        (λ la'.
          Inserted la x la'
          × (la'.head ≡ pos x)
          × ((la'.entries x).prev ≡ entry_null)
          × ((j : ℕ) → (x == j) ≡ false → la'.entries j ≡ la.entries j))
        (insert la x)
unfolding insert getentry set_prev set_next
insert_empty la x lt (dn, dp) e =
    rw (lt→ltb x 4096 lt, dn, dp, e)
      (returns (ground arith, ground arith, ground arith, ground arith))

insert_nonempty :
    (la : ListArray) (x w : ℕ)
    → x < listarray_max_size
    → w < listarray_max_size
    → (x == w) ≡ false
    → IsDead (la.entries x)
    → la.tail ≡ pos w
    → Returns
        (λ la'.
          Inserted la x la'
          × (la'.head ≡ la.head)
          × ((la'.entries x).prev ≡ pos w)
          × ((j : ℕ)
              → (x == j) ≡ false
              → la'.entries j ≡ update la.entries w (record (la.entries w) { next = pos x }) j))
        (insert la x)
unfolding insert getentry set_prev set_next
insert_nonempty la x w lt lw ne (dn, dp) e =
    rw (lt→ltb x 4096 lt, dn, dp, e)
      (rw (lt→ltb w 4096 lw, dn, dp)
        (returns (ground arith, ground arith, ground arith, ground arith)))

-- The new last entry, behind the links of `xs` and with the indices that were dead.
module _ {la la' : ListArray} {x : ℕ} (xs : List ℕ) (h : Holds la xs) (lt : x < listarray_max_size)
    (out : x ∉ xs) (i : Inserted la x la') (prev : (la'.entries x).prev ≡ last entry_null xs)
    (head : la'.head ≡ first (pos x) xs) (linked : Linked la'.entries entry_null (pos x) xs)
    (others : (j : ℕ)
      → j < listarray_max_size
      → j ∉ xs ++ x ∷ []
      → la'.entries j ≡ la.entries j) where
  appended-Holds : Holds la' (xs ++ x ∷ [])
  appended-Holds = record {
    head = head ∙ sym (first-append entry_null xs (x ∷ []));
    tail = i.tail ∙ sym (last-append entry_null xs x);
    linked = Linked-append la'.entries entry_null entry_null xs (x ∷ []) linked (prev, i.next, tt);
    distinct = Distinct-snoc xs x h.distinct out;
    bounded = All-append (λ j. j < listarray_max_size) xs (x ∷ []) h.bounded (lt, tt);
    reached =
        All-append (λ j. j ≤ la'.max_index) xs (x ∷ [])
          (All-mono (λ j. j ≤ la.max_index) (λ j. j ≤ la'.max_index) xs
            (λ j q. omega (arith, i.reached)) h.reached)
          (i.reached.1, tt);
    count = omega (arith, i.count, h.count, length-append xs (x ∷ []));
    dead = λ j q o. rw (others j q o) (h.dead j q (not-mem-append j xs (x ∷ []) o).0);
  }

-- Inserting an index below the array size that is not in the list returns, and appends it.
pub insert-Holds :
    (la : ListArray) (xs : List ℕ) (x : ℕ)
    → Holds la xs
    → x < listarray_max_size
    → x ∉ xs
    → Returns (λ la'. Holds la' (xs ++ x ∷ [])) (insert la x)
insert-Holds la [] x h lt out =
    Returns-mono (insert_empty la x lt (h.dead x lt out) h.tail)
      λ la' r. appended-Holds [] h lt out r.0 r.2 r.1 tt (λ j q o. r.3 j (ground arith))
insert-Holds la (y ∷ ys) x h lt out =
    let w = final y ys in
    let inside = final-mem y ys in
    Returns-mono
      (insert_nonempty la x w lt (All-has (λ j. j < listarray_max_size) w (y ∷ ys) h.bounded inside)
        (==_sym x w ∙ ne_of_mem w x (y ∷ ys) inside out) (h.dead x lt out)
        (h.tail ∙ last-final y ys))
      λ la' r.
        appended-Holds (y ∷ ys) h lt out r.0 (r.2 ∙ sym (last-final y ys)) (r.1 ∙ h.head)
          (Linked-frame entry_null (pos x) (y ∷ ys)
            (Linked-renext la.entries entry_null entry_null (pos x) y ys h.distinct h.linked)
            (λ j m. r.3 j (==_sym x j ∙ ne_of_mem j x (y ∷ ys) m out)))
          (λ j q o.
            let apart = not-mem-append j (y ∷ ys) (x ∷ []) o in
            r.3 j (ground (arith, apart.1)) ∙ rw (ne_of_mem w j (y ∷ ys) inside apart.0))

-- Inserting an index that is in the list already stops at the `BUG_ON`.
pub insert-bug : (la : ListArray) (xs : List ℕ) (x : ℕ) → Holds la xs → x ∈ xs → insert la x ≡ bug
unfolding insert getentry
insert-bug la xs x h m = rw (lt→ltb x 4096 (member-lt h x m), (member-IsLive h x m).0)
