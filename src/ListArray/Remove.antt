-- ===== src/ListArray/Remove.antt =====
-- `listarray_remove` takes an index out of the list. For an index that is not in the list it reads
-- outside the array.
use consequence.Base.{
  update, ℕ, ◌-◌, ◌≤◌, ◌<◌, ℤ, pos, ◌≡◌, refl, sym, ap, ◌∙◌, false, List, [], ◌∷◌, ◌++◌, arith,
  Bool-cases, inl, inr, leb, ◌==◌, ==_sym, ==_iff, lt→ltb, has, has-append, length, ◌∈◌, ◌∉◌, ok,
  bug, out_of_bounds, Returns, returns, Returns-mono, Split, split, erase, length-erase, has-erase,
  All-erase, Distinct-erase, Apart, Distinct-Apart, ne_of_mem, mem-self, not-mem-append,
  if◌then◌else◌,
}
use consequence.ListArray.{
  Entry, ListArray, entry_null, listarray_max_size, getentry, set_next, set_prev, remove, in_list,
}
use consequence.ListArray.Chain.{
  first, last, Linked, IsDead, Holds, Linked-frame, Linked-append, Linked-left, Linked-right,
  Linked-reprev, final, last-final, final-mem, Linked-renext, member-lt, member-IsLive,
  first-append, last_append,
}

-- What `listarray_remove` leaves: the entry is dead, and every other entry is as in `g`.
record Removed (la : ListArray) (x : ℕ) (g : ℕ → Entry) (head tail : ℤ) (la' : ListArray)
    : Type 0 where
  head_is : la'.head ≡ head
  tail_is : la'.tail ≡ tail
  count : la'.count ≡ la.count - 1
  max_index : la'.max_index ≡ la.max_index
  gone : IsDead (la'.entries x)
  others : (j : ℕ) → (x == j) ≡ false → la'.entries j ≡ g j

module _ (la : ListArray) (x : ℕ) (some_left : 0 < la.count) (lt : x < listarray_max_size) where
  positive : leb la.count 0 ≡ false
  positive = ground arith

  remove_single :
      (la.entries x).prev ≡ entry_null
      → (la.entries x).next ≡ entry_null
      → Returns (Removed la x la.entries entry_null entry_null) (remove la x)
  unfolding remove getentry set_next set_prev
  remove_single ep en = rw (positive, lt→ltb x 4096 lt, ep, en) (returns (ground arith))

  remove_first :
      (c : ℕ)
      → c < listarray_max_size
      → (x == c) ≡ false
      → (la.entries x).prev ≡ entry_null
      → (la.entries x).next ≡ pos c
      → Returns
          (Removed la x
            (update la.entries c (record (la.entries c) { prev = entry_null }))
            (pos c)
            la.tail)
          (remove la x)
  unfolding remove getentry set_next set_prev
  remove_first c lc ne ep en =
      rw (positive, lt→ltb x 4096 lt, ep, en) (rw (lt→ltb c 4096 lc) (returns (ground arith)))

  remove_last :
      (w : ℕ)
      → w < listarray_max_size
      → (x == w) ≡ false
      → (la.entries x).prev ≡ pos w
      → (la.entries x).next ≡ entry_null
      → Returns
          (Removed la x
            (update la.entries w (record (la.entries w) { next = entry_null }))
            la.head
            (pos w))
          (remove la x)
  unfolding remove getentry set_next set_prev
  remove_last w lw ne ep en =
      rw (positive, lt→ltb x 4096 lt, ep, en) (rw (lt→ltb w 4096 lw) (returns (ground arith)))

  abbrev joined : ℕ → ℕ → ℕ → Entry
  joined w c =
      update (update la.entries w (record (la.entries w) { next = pos c })) c
        (record (la.entries c) { prev = pos w })

  remove_middle :
      (w c : ℕ)
      → w < listarray_max_size
      → c < listarray_max_size
      → (w == x) ≡ false
      → (x == c) ≡ false
      → (w == c) ≡ false
      → (la.entries x).prev ≡ pos w
      → (la.entries x).next ≡ pos c
      → Returns (Removed la x (joined w c) la.head la.tail) (remove la x)
  unfolding remove getentry set_next set_prev
  remove_middle w c lw lc ne ne' ne'' ep en =
      rw (positive, lt→ltb x 4096 lt, ep, en)
        (rw (lt→ltb w 4096 lw, ne, ep, en) (rw (lt→ltb c 4096 lc) (returns (ground arith))))

-- What is left of a list once `x` is out, given the links on both sides of it.
module _ {la la' : ListArray} {x : ℕ} {xs : List ℕ} {g : ℕ → Entry} {hd tl : ℤ} (h : Holds la xs)
    (m : x ∈ xs) (bs cs : List ℕ) (erased : erase x xs ≡ bs ++ cs) (r : Removed la x g hd tl la')
    (hd_is : hd ≡ first (first entry_null cs) bs) (tl_is : tl ≡ last (last entry_null bs) cs)
    (left : Linked g entry_null (first entry_null cs) bs)
    (right : Linked g (last entry_null bs) entry_null cs)
    (untouched : (j : ℕ) → (x == j) ≡ false → j ∉ bs ++ cs → g j ≡ la.entries j) where
  off : (j : ℕ) → j ∈ bs ++ cs → (x == j) ≡ false
  off j i = ground (arith, has-erase x j xs h.distinct, ap (has j) erased)

  erased-Holds : Holds la' (erase x xs)
  erased-Holds = record {
    head = r.head_is ∙ hd_is ∙ rw (erased, first-append entry_null bs cs);
    tail = r.tail_is ∙ tl_is ∙ rw (erased, last_append entry_null bs cs);
    linked = rw erased (
        Linked-frame entry_null entry_null (bs ++ cs)
          (Linked-append g entry_null entry_null bs cs left right) (λ j i. r.others j (off j i)));
    distinct = Distinct-erase x xs h.distinct;
    bounded = All-erase (λ i. i < listarray_max_size) x xs h.bounded;
    reached = rw r.max_index (All-erase (λ i. i ≤ la.max_index) x xs h.reached);
    count = omega (arith, r.count, h.count, length-erase x xs m);
    dead = λ j q o. elim (Bool-cases (x == j)) [
      | inl e ↦ rw (← (==_iff x j).0 e) r.gone
      | inr e ↦
          rw (r.others j e, untouched j e (rw (← erased) o))
            (h.dead j q (ground (arith, has-erase x j xs h.distinct)))
    ];
  }

-- `xs` is `bs ++ x ∷ cs`, with its links on both sides of `x`.
record Around (la : ListArray) (x : ℕ) (xs bs cs : List ℕ) : Type 0 where
  joined : xs ≡ bs ++ x ∷ cs
  erased : erase x xs ≡ bs ++ cs
  left : Linked la.entries entry_null (pos x) bs
  prev : (la.entries x).prev ≡ last entry_null bs
  next : (la.entries x).next ≡ first entry_null cs
  right : Linked la.entries (pos x) entry_null cs
  parts : Apart bs (x ∷ cs)

around :
    {la : ListArray} {x : ℕ} {xs : List ℕ}
    → Holds la xs
    → (s : Split x xs) → Around la x xs s.before s.behind
around {la} {x} h s = record {
  joined = s.joined;
  erased = s.erased;
  left = Linked-left la.entries entry_null entry_null s.before (x ∷ s.behind) links;
  prev = rest.0;
  next = rest.1;
  right = rest.2;
  parts = Distinct-Apart s.before (x ∷ s.behind) (rw s.joined at h.distinct);
}
  where
    links : Linked la.entries entry_null entry_null (s.before ++ x ∷ s.behind)
    links = rw s.joined at h.linked

    rest : Linked la.entries (last entry_null s.before) entry_null (x ∷ s.behind)
    rest = Linked-right la.entries entry_null entry_null s.before (x ∷ s.behind) links

nonempty : {la : ListArray} (x : ℕ) (xs : List ℕ) → Holds la xs → x ∈ xs → 0 < la.count
nonempty x xs h m = omega (arith, h.count, length-erase x xs m)

ne-head : (a b : ℕ) (xs : List ℕ) → a ∉ b ∷ xs → (a == b) ≡ false
ne-head a b xs o = ground arith

module _ {la : ListArray} {x : ℕ} {xs : List ℕ} (h : Holds la xs) (m : x ∈ xs) where
  module _ {bs cs : List ℕ} (a : Around la x xs bs cs) where
    before-lt : (j : ℕ) → j ∈ bs → j < listarray_max_size
    before-lt j i = member-lt h j (rw a.joined (ground (arith, has-append j bs (x ∷ cs))))

    behind-lt : (j : ℕ) → j ∈ cs → j < listarray_max_size
    behind-lt j i = member-lt h j (rw a.joined (ground (arith, has-append j bs (x ∷ cs))))

    ne-before : (j : ℕ) → j ∈ bs → (x == j) ≡ false
    ne-before j i = ground (arith, a.parts.apart j i)

    ne-behind : (j : ℕ) → j ∈ cs → (x == j) ≡ false
    ne-behind j i = ==_sym x j ∙ ne_of_mem j x cs i a.parts.right.0

    before-behind : (i j : ℕ) → i ∈ bs → j ∈ cs → (i == j) ≡ false
    before-behind i j p q = ==_sym i j ∙ ne_of_mem j i cs q (ground (arith, a.parts.apart i p))

  remove-Around :
      (bs cs : List ℕ)
      → Around la x xs bs cs
      → Returns (λ la'. Holds la' (erase x xs)) (remove la x)
  remove-Around [] [] a =
      Returns-mono (remove_single la x (nonempty x xs h m) (member-lt h x m) a.prev a.next)
        λ la' o. erased-Holds h m [] [] a.erased o refl refl tt tt (λ _ _ _. refl)
  remove-Around [] (c ∷ cs) a =
      let c_in = mem-self c cs in
      Returns-mono
        (remove_first la x (nonempty x xs h m) (member-lt h x m) c (behind-lt a c c_in)
          (ne-behind a c c_in) a.prev a.next)
        λ la' o.
          erased-Holds h m [] (c ∷ cs) a.erased o refl (h.tail ∙ ap (last entry_null) a.joined) tt
            (Linked-reprev la.entries (pos x) entry_null entry_null c cs a.parts.right.1.0 a.right)
            (λ j e q. rw (==_sym c j ∙ ne-head j c cs q))
  remove-Around (b ∷ bs) [] a =
      let w = final b bs in
      let w_in = final-mem b bs in
      let last_is = last-final b bs in
      Returns-mono
        (remove_last la x (nonempty x xs h m) (member-lt h x m) w (before-lt a w w_in)
          (ne-before a w w_in) (a.prev ∙ last_is) a.next)
        λ la' o.
          erased-Holds h m (b ∷ bs) [] a.erased o (h.head ∙ ap (first entry_null) a.joined)
            (sym last_is)
            (Linked-renext la.entries entry_null (pos x) entry_null b bs a.parts.left a.left) tt
            (λ j e q. rw (ne_of_mem w j (b ∷ bs) w_in (not-mem-append j (b ∷ bs) [] q).0))
  remove-Around (b ∷ bs) (c ∷ cs) a =
      let w = final b bs in
      let w_in = final-mem b bs in
      let c_in = mem-self c cs in
      let last_is = last-final b bs in
      Returns-mono
        (remove_middle la x (nonempty x xs h m) (member-lt h x m) w c (before-lt a w w_in)
          (behind-lt a c c_in) (==_sym w x ∙ ne-before a w w_in) (ne-behind a c c_in)
          (before-behind a w c w_in c_in) (a.prev ∙ last_is) a.next)
        λ la' o.
          erased-Holds h m (b ∷ bs) (c ∷ cs) a.erased o (h.head ∙ ap (first entry_null) a.joined)
            (h.tail ∙ ap (last entry_null) a.joined ∙ last_append entry_null (b ∷ bs) (x ∷ c ∷ cs))
            (Linked-frame entry_null (pos c) (b ∷ bs)
              (Linked-renext la.entries entry_null (pos x) (pos c) b bs a.parts.left a.left)
              (λ i p. rw (==_sym c i ∙ before-behind a i c p c_in)))
            (Linked-frame (last (pos b) bs) entry_null (c ∷ cs)
              (Linked-reprev la.entries (pos x) (last (pos b) bs) entry_null c cs a.parts.right.1.0
                a.right)
              (λ i p. rw (last_is, before-behind a w i w_in p)))
            (λ j e q.
              let off_both = not-mem-append j (b ∷ bs) (c ∷ cs) q in
              rw (==_sym c j ∙ ne-head j c cs off_both.1, ne_of_mem w j (b ∷ bs) w_in off_both.0))

-- Removing an index of the list returns, takes it out and leaves the others in their order.
pub remove-Holds :
    (la : ListArray) (xs : List ℕ) (x : ℕ)
    → Holds la xs
    → x ∈ xs
    → Returns (λ la'. Holds la' (erase x xs)) (remove la x)
remove-Holds la xs x h m = let s = split x xs m in remove-Around h m s.before s.behind (around h s)

-- Removing an index below the array size that is not in the list stops at the `BUG_ON` if the list
-- is empty; otherwise it goes on to `entries[DEAD]`, which lies outside the array.
pub remove_absent :
    (la : ListArray) (xs : List ℕ) (x : ℕ)
    → Holds la xs
    → x < listarray_max_size
    → x ∉ xs
    → remove la x ≡ (if length xs == 0 then bug else out_of_bounds)
unfolding remove getentry set_next
remove_absent la [] x h lt o = rw h.count
remove_absent la (y ∷ ys) x h lt o =
    let (dn, dp) = h.dead x lt o in
    let filled : leb la.count 0 ≡ false = ground (arith, h.count) in
    rw (filled, lt→ltb x 4096 lt, dn, dp) (ground arith)

-- For an index below the array size, `listarray_in_list` returns whether it is in the list.
pub in_list-has :
    (la : ListArray) (xs : List ℕ) (x : ℕ)
    → Holds la xs
    → x < listarray_max_size
    → in_list la x ≡ ok (has x xs)
unfolding in_list getentry
in_list-has la xs x h lt = elim (Bool-cases (has x xs)) [
  | inl m ↦ let (n, p) = member-IsLive h x m in rw (lt→ltb x 4096 lt, n, p, m)
  | inr o ↦ let (n, _) = h.dead x lt o in rw (lt→ltb x 4096 lt, n, o)
]
