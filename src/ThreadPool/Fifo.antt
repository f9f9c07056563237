-- ===== src/ThreadPool/Fifo.antt =====
-- The pool of thread_pool.h hands out the thread that has been in it longest, or one that has never
-- run.
use consequence.Base.{
  ℕ, ◌≡◌, refl, sym, ◌∙◌, arith, false, ◌==◌, ==_sym, store, store_self, store_ne, List, [], ◌∷◌,
  ◌++◌, ◌∈◌, ◌∉◌, Distinct, Distinct-snoc, ne_of_mem,
}
use consequence.ThreadPool.{Pool, link_entry, unlink_tail}

-- From `entry` towards the head, the list has these entries, and before the first of them comes `back`.
abbrev pub Linked : Pool → ℕ → ℕ → List ℕ → Type 0
Linked p entry back [] = (entry ≡ 0) × (p.head ≡ back)
Linked p entry back (x ∷ xs) =
    (entry ≡ x) × ((x == 0) ≡ false) × (p.next x ≡ back) × Linked p (p.prev x) x xs

-- Linked lists agree where the links of their entries do, and the head.
pub Linked-frame :
    (p q : Pool) (entry back : ℕ) (xs : List ℕ)
    → p.head ≡ q.head
    → ((x : ℕ) → x ∈ xs → (q.next x ≡ p.next x) × (q.prev x ≡ p.prev x))
    → Linked p entry back xs
    → Linked q entry back xs
Linked-frame p q entry back [] h same l = (l.0, sym h ∙ l.1)
Linked-frame p q entry back (x ∷ xs) h same l =
    let here = same x (ground arith) in
    (
      l.0,
      l.1,
      here.0 ∙ l.2,
      rw here.1 (Linked-frame p q (p.prev x) x xs h (λ y m. same y (ground arith)) l.3),
    )

-- The head is the entry that came last.
head-mem :
    (p : Pool) (entry back x : ℕ) (xs : List ℕ)
    → Linked p entry back (x ∷ xs)
    → (p.head ∈ x ∷ xs) × ((p.head == 0) ≡ false)
head-mem p entry back x [] (at, some_entry, links, ends) = rw ends.1 (ground arith, some_entry)
head-mem p entry back x (y ∷ ys) (at, some_entry, links, rest) =
    let r = head-mem p (p.prev x) x y ys rest in (ground arith, r.1)

-- The list that a new entry is linked into, behind its head.
abbrev linked : Pool → ℕ → Pool
linked p e = record p {
  next = store (store p.next e 0) e p.head;
  prev = store (store p.prev e 0) p.head e;
  head = e;
}

linked-next : (p : Pool) (e x : ℕ) → (e == x) ≡ false → (linked p e).next x ≡ p.next x
linked-next p e x ne = store_ne (store p.next e 0) e x p.head ne ∙ store_ne p.next e x 0 ne

linked-prev :
    (p : Pool) (e x : ℕ) → (e == x) ≡ false → (p.head == x) ≡ false → (linked p e).prev x ≡ p.prev x
linked-prev p e x ne other = store_ne (store p.prev e 0) p.head x e other ∙ store_ne p.prev e x 0 ne

linked-Linked :
    (p : Pool) (e entry back x : ℕ) (xs : List ℕ)
    → Linked p entry back (x ∷ xs)
    → Distinct (x ∷ xs)
    → e ∉ x ∷ xs
    → (e == 0) ≡ false
    → Linked (linked p e) entry back ((x ∷ xs) ++ e ∷ [])
linked-Linked p e entry back x [] (at, some_entry, links, ends) d o ne =
    let other : (e == x) ≡ false = ground arith in
    let first : (p.head == e) ≡ false = rw ends.1 (ground arith) in
    let own : (linked p e).prev x ≡ e = rw (← ends.1) (store_self (store p.prev e 0) p.head e) in
    (
      at,
      some_entry,
      linked-next p e x other ∙ links,
      (
        own,
        ne,
        store_self (store p.next e 0) e p.head ∙ ends.1,
        (store_ne (store p.prev e 0) p.head e e first ∙ store_self p.prev e 0, refl),
      ),
    )
linked-Linked p e entry back x (y ∷ ys) (at, some_entry, links, rest) d o ne =
    let other : (e == x) ≡ false = ground arith in
    let last = (head-mem p (p.prev x) x y ys rest).0 in
    let not_last : (p.head == x) ≡ false = ne_of_mem p.head x (y ∷ ys) last d.0 in
    (
      at,
      some_entry,
      linked-next p e x other ∙ links,
      rw (linked-prev p e x other not_last)
          (linked-Linked p e (p.prev x) x y ys rest d.1 (ground arith) ne),
    )

link_entry-linked : (p : Pool) (e : ℕ) → (p.head == 0) ≡ false → link_entry p e ≡ linked p e
unfolding link_entry
link_entry-linked p e some_head = rw some_head refl

-- The pool has these entries, the one that has been in it longest first.
pub record IsPool (p : Pool) (xs : List ℕ) : Type 0 where
  pub links : Linked p p.tail 0 xs
  pub distinct : Distinct xs

link_entry-first :
    (p : Pool) (e : ℕ)
    → p.head ≡ 0
    → link_entry p e
      ≡ record p { next = store p.next e 0; prev = store p.prev e 0; head = e; tail = e }
unfolding link_entry
link_entry-first p e no_head = rw no_head refl

pub link_entry-IsPool :
    (p : Pool) (e : ℕ) (xs : List ℕ)
    → IsPool p xs
    → e ∉ xs
    → (e == 0) ≡ false
    → IsPool (link_entry p e) (xs ++ e ∷ [])
link_entry-IsPool p e [] h o ne = rw (link_entry-first p e h.links.1) (record {
  links = (refl, ne, store_self p.next e 0, (store_self p.prev e 0, refl));
  distinct = (refl, tt);
})
link_entry-IsPool p e (x ∷ xs) h o ne =
    rw (link_entry-linked p e (head-mem p p.tail 0 x xs h.links).1) (record {
      links = linked-Linked p e p.tail 0 x xs h.links h.distinct o ne;
      distinct = Distinct-snoc (x ∷ xs) e h.distinct o;
    })

unlink_tail-last :
    (p : Pool) (x : ℕ) → p.tail ≡ x → p.prev x ≡ 0 → unlink_tail p ≡ record p { tail = 0; head = 0 }
unfolding unlink_tail
unlink_tail-last p x at before = rw (at, before) refl

unlink_tail-more :
    (p : Pool) (x y : ℕ)
    → p.tail ≡ x
    → p.prev x ≡ y
    → (y == 0) ≡ false
    → unlink_tail p ≡ record p { tail = y; next = store p.next y 0 }
unfolding unlink_tail
unlink_tail-more p x y at before some_y = rw (at, before, some_y) refl

pub unlink_tail-IsPool :
    (p : Pool) (x : ℕ) (xs : List ℕ) → IsPool p (x ∷ xs) → IsPool (unlink_tail p) xs
unlink_tail-IsPool p x [] h =
    rw (unlink_tail-last p x h.links.0 h.links.3.0) (record { links = (refl, refl); distinct = tt })
unlink_tail-IsPool p x (y ∷ ys) h =
    let (at, some_entry, next_x, (before, some_y, next_y, rest)) = h.links in
    let d = h.distinct.1 in
    rw (unlink_tail-more p x y at before some_y) (record {
      links = (
        refl,
        some_y,
        store_self p.next y 0,
        Linked-frame p (record p { tail = y; next = store p.next y 0 }) (p.prev y) y ys refl
            (λ z m. (store_ne p.next y z 0 (==_sym y z ∙ ne_of_mem z y ys m d.0), refl)) rest,
      );
      distinct = d;
    })
