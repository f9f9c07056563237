-- ===== src/CircularList/Ring.antt =====
-- Which sequence of entries a circular list holds, and that `insertTail` and `removeHeadEntry` make it
-- a queue.
use consequence.Base.{
  ℕ, ◌≡◌, refl, ap, ◌∙◌, List, [], ◌∷◌, ◌++◌, arith, false, ◌==◌, ==_refl, ==_sym, ne_of_mem, ◌∈◌,
  ◌∉◌, Distinct, Distinct-snoc, has-append, store, store_self, store_ne, ok, Returns, returns,
}
use consequence.CircularList.{
  Links, Memory, links_at, write_prev, write_next, insert_tail, remove_entry, remove_head_entry,
}

-- the first address of `xs`, or `stop`
abbrev first : ℕ → List ℕ → ℕ
first stop [] = stop
first stop (x ∷ xs) = x

-- the last address of `xs`, or `prev`
abbrev last : ℕ → List ℕ → ℕ
last prev [] = prev
last prev (x ∷ xs) = last x xs

-- The entries of `xs` are linked in order, behind `prev` and before `stop`.
abbrev Chain : Memory → ℕ → ℕ → List ℕ → Type 0
Chain m prev stop [] = Unit
Chain m prev stop (x ∷ xs) = ((m x).prev ≡ prev) × ((m x).next ≡ first stop xs) × Chain m x stop xs

-- The head pointer holds the first of the entries `xs`, which are linked in a ring.
pub record IsRing (m : Memory) (head : ℕ) (xs : List ℕ) : Type 0 where
  pub starts : head ≡ first 0 xs
  pub chain : Chain m (last 0 xs) (first 0 xs) xs
  pub distinct : Distinct xs
  pub no_null : 0 ∉ xs

last-append : (p : ℕ) (xs : List ℕ) (x : ℕ) → last p (xs ++ x ∷ []) ≡ x
last-append p [] x = refl
last-append p (y ∷ xs) x = last-append y xs x

last-mem : (x : ℕ) (xs : List ℕ) → last x xs ∈ x ∷ xs
last-mem x [] = ground arith
last-mem x (y ∷ xs) = ground (arith, last-mem y xs)

module _ (m m' : Memory) where
  Chain-frame :
      (p s : ℕ) (xs : List ℕ) → Chain m p s xs → ((i : ℕ) → i ∈ xs → m' i ≡ m i) → Chain m' p s xs
  Chain-frame p s [] l same = tt
  Chain-frame p s (x ∷ xs) l same =
      let at = same x (ground arith) in
      (
        ap (λ (e : Links). e.prev) at ∙ l.0,
        ap (λ (e : Links). e.next) at ∙ l.1,
        Chain-frame x s xs l.2 λ i h. same i (ground arith),
      )

  -- Another entry behind the last one.
  Chain-stop :
      (p s s' x : ℕ) (xs : List ℕ)
      → Distinct (x ∷ xs)
      → Chain m p s (x ∷ xs)
      → ((i : ℕ) → i ∈ x ∷ xs → (i == last x xs) ≡ false → m' i ≡ m i)
      → (m' (last x xs)).prev ≡ (m (last x xs)).prev
      → (m' (last x xs)).next ≡ s'
      → Chain m' p s' (x ∷ xs)
  Chain-stop p s s' x [] d l same prev next = (prev ∙ l.0, next, tt)
  Chain-stop p s s' x (y ∷ ys) d l same prev next =
      let other : (x == last y ys) ≡ false =
        ==_sym x (last y ys) ∙ ne_of_mem (last y ys) x (y ∷ ys) (last-mem y ys) d.0 in
      let at = same x (ground arith) other in
      (
        ap (λ (e : Links). e.prev) at ∙ l.0,
        ap (λ (e : Links). e.next) at ∙ l.1,
        Chain-stop x s s' y ys d.1 l.2 (λ i h. same i (ground arith)) prev next,
      )

  -- Another entry before the first one.
  Chain-start :
      (p p' s x : ℕ) (xs : List ℕ)
      → x ∉ xs
      → Chain m p s (x ∷ xs)
      → ((i : ℕ) → (i == x) ≡ false → m' i ≡ m i)
      → (m' x).prev ≡ p'
      → (m' x).next ≡ (m x).next
      → Chain m' p' s (x ∷ xs)
  Chain-start p p' s x xs out l same prev next =
      (prev, next ∙ l.1, Chain-frame x s xs l.2 λ i h. same i (ground arith))

Chain-append :
    (m : Memory) (p s : ℕ) (xs ys : List ℕ)
    → Chain m p (first s ys) xs
    → Chain m (last p xs) s ys
    → Chain m p s (xs ++ ys)
Chain-append m p s [] ys lx ly = ly
Chain-append m p s (x ∷ []) ys lx ly = (lx.0, lx.1, ly)
Chain-append m p s (x ∷ y ∷ xs) ys lx ly = (lx.0, lx.1, Chain-append m x s (y ∷ xs) ys lx.2 ly)

-- What `insertTail` leaves in memory, for a list that is not empty.
abbrev linked_in : Memory → ℕ → ℕ → ℕ → Memory
linked_in m entry head tail =
    let m1 = store m tail (record { prev = (m tail).prev; next = entry }) in
    let m2 = store m1 head (record { prev = entry; next = (m1 head).next }) in
    let m3 = store m2 entry (record { prev = tail; next = (m2 entry).next }) in
    store m3 entry (record { prev = (m3 entry).prev; next = head })

nonzero : (x : ℕ) (xs : List ℕ) → x ∈ xs → 0 ∉ xs → (x == 0) ≡ false
nonzero x xs m o = ne_of_mem x 0 xs m o

insert_tail-run :
    (m : Memory) (entry x : ℕ) (ys : List ℕ)
    → IsRing m x (x ∷ ys)
    → (entry == 0) ≡ false
    → insert_tail m entry x ≡ ok (linked_in m entry x (last x ys), x)
unfolding insert_tail links_at write_prev write_next
insert_tail-run m entry x ys r e = rw (
  nonzero x (x ∷ ys) (ground arith) r.no_null,
  r.chain.0,
  nonzero (last x ys) (x ∷ ys) (last-mem x ys) r.no_null,
  e,
)

module _ (m : Memory) (entry x : ℕ) (ys : List ℕ) (out : entry ∉ x ∷ ys)
    (some : (entry == 0) ≡ false) (r : IsRing m x (x ∷ ys)) where
  abbrev t : ℕ
  t = last x ys

  abbrev m1 : Memory
  m1 = store m t (record { prev = (m t).prev; next = entry })

  abbrev m2 : Memory
  m2 = store m1 x (record { prev = entry; next = (m1 x).next })

  step1 : Chain m1 t entry (x ∷ ys)
  step1 =
      Chain-stop m m1 t x entry x ys r.distinct r.chain (λ i h o. store_ne m t i _ (==_sym t i ∙ o))
        (ap (λ (e : Links). e.prev) (store_self m t _))
        (ap (λ (e : Links). e.next) (store_self m t _))

  step2 : Chain m2 entry entry (x ∷ ys)
  step2 =
      Chain-start m1 m2 t entry entry x ys r.distinct.0 step1
        (λ i o. store_ne m1 x i _ (==_sym x i ∙ o)) (ap (λ (e : Links). e.prev) (store_self m1 x _))
        (ap (λ (e : Links). e.next) (store_self m1 x _))

  elsewhere : (i : ℕ) → i ∈ x ∷ ys → linked_in m entry x t i ≡ m2 i
  elsewhere i h =
      let o = ==_sym entry i ∙ ne_of_mem i entry (x ∷ ys) h out in
      store_ne _ entry i _ o ∙ store_ne m2 entry i _ o

  linked_in-Chain : Chain (linked_in m entry x t) entry x (x ∷ ys ++ entry ∷ [])
  linked_in-Chain =
      Chain-append (linked_in m entry x t) entry x (x ∷ ys) (entry ∷ [])
        (Chain-frame m2 (linked_in m entry x t) entry entry (x ∷ ys) step2 elsewhere)
        (
          ap (λ (e : Links). e.prev) (store_self _ entry _)
              ∙ ap (λ (e : Links). e.prev) (store_self m2 entry _),
          ap (λ (e : Links). e.next) (store_self _ entry _),
          tt,
        )

  linked_in-IsRing : IsRing (linked_in m entry x t) x (x ∷ ys ++ entry ∷ [])
  linked_in-IsRing = record {
    starts = refl;
    chain = rw (last-append x ys entry) linked_in-Chain;
    distinct = Distinct-snoc (x ∷ ys) entry r.distinct out;
    no_null = ground (arith, has-append 0 (x ∷ ys) (entry ∷ []), r.no_null);
  }

single-IsRing :
    (m : Memory) (entry : ℕ)
    → (entry == 0) ≡ false
    → (m entry).prev ≡ entry
    → (m entry).next ≡ entry
    → IsRing m entry (entry ∷ [])
single-IsRing m entry e p n = record {
  starts = refl;
  chain = (p, n, tt);
  distinct = ground arith;
  no_null = ground (arith, ==_sym entry 0);
}

-- `insertTail` of an entry that is not NULL and not in the ring returns, and appends it.
pub insert_tail-IsRing :
    (m : Memory) (entry head : ℕ) (xs : List ℕ)
    → IsRing m head xs
    → entry ∉ xs
    → (entry == 0) ≡ false
    → Returns (λ r. IsRing r.0 r.1 (xs ++ entry ∷ [])) (insert_tail m entry head)
unfolding insert_tail links_at write_prev write_next
insert_tail-IsRing m entry head [] r out e =
    rw (r.starts, e)
      (returns (
        single-IsRing _ entry e
          (ap (λ (e : Links). e.prev) (store_self _ entry _)
            ∙ ap (λ (e : Links). e.prev) (store_self m entry _))
          (ap (λ (e : Links). e.next) (store_self _ entry _))))
insert_tail-IsRing m entry head (x ∷ ys) r out e =
    let at_x : IsRing m x (x ∷ ys) = record {
      starts = refl;
      chain = r.chain;
      distinct = r.distinct;
      no_null = r.no_null;
    } in
    rw (r.starts, insert_tail-run m entry x ys at_x e)
      (returns (linked_in-IsRing m entry x ys out e at_x))

module _ (m : Memory) (x y : ℕ) (zs : List ℕ) (r : IsRing m x (x ∷ y ∷ zs)) where
  abbrev n1 : Memory
  n1 = store m (last y zs) (record { prev = (m (last y zs)).prev; next = y })

  abbrev n2 : Memory
  n2 = store n1 y (record { prev = last y zs; next = (n1 y).next })

  unstep1 : Chain n1 x y (y ∷ zs)
  unstep1 =
      Chain-stop m n1 x x y y zs r.distinct.1 r.chain.2
        (λ i h o. store_ne m (last y zs) i _ (==_sym (last y zs) i ∙ o))
        (ap (λ (e : Links). e.prev) (store_self m (last y zs) _))
        (ap (λ (e : Links). e.next) (store_self m (last y zs) _))

  unlinked-IsRing : IsRing n2 y (y ∷ zs)
  unlinked-IsRing = record {
    starts = refl;
    chain =
        Chain-start n1 n2 x (last y zs) y y zs r.distinct.1.0 unstep1
          (λ i o. store_ne n1 y i _ (==_sym y i ∙ o))
          (ap (λ (e : Links). e.prev) (store_self n1 y _))
          (ap (λ (e : Links). e.next) (store_self n1 y _));
    distinct = r.distinct.1;
    no_null = ground (arith, r.no_null);
  }

-- `removeHeadEntry` of a ring that is not empty returns its first entry, and leaves the others.
pub remove_head_entry-IsRing :
    (m : Memory) (head x : ℕ) (xs : List ℕ)
    → IsRing m head (x ∷ xs)
    → Returns (λ r. IsRing r.0 r.1 xs × (r.2 ≡ x)) (remove_head_entry m head)
unfolding remove_head_entry remove_entry links_at write_prev write_next
remove_head_entry-IsRing m head x [] r =
    rw (r.starts, nonzero x (x ∷ []) (ground arith) r.no_null, r.chain.0, r.chain.1, ==_refl x)
      (returns (record { starts = refl; chain = tt; distinct = tt; no_null = refl }, refl))
remove_head_entry-IsRing m head x (y ∷ zs) r =
    let at_x : IsRing m x (x ∷ y ∷ zs) = record {
      starts = refl;
      chain = r.chain;
      distinct = r.distinct;
      no_null = r.no_null;
    } in
    let inside = last-mem y zs in
    let away : 0 ∉ y ∷ zs = ground (arith, r.no_null) in
    rw
      (
        r.starts,
        nonzero x (x ∷ y ∷ zs) (ground arith) r.no_null,
        r.chain.0,
        r.chain.1,
        ne_of_mem (last y zs) x (y ∷ zs) inside r.distinct.0,
        nonzero (last y zs) (y ∷ zs) inside away,
        nonzero y (y ∷ zs) (ground arith) away,
        ==_refl x,
      )
      (returns (unlinked-IsRing m x y zs at_x, refl))
