-- ===== src/ListArray/Chain.antt =====
-- What a `struct listarray` stands for: the indices that its pointers run through, in order.
use consequence.Base.{
  update, ℕ, ◌≤◌, ◌<◌, ℤ, pos, ◌==ℤ◌, All-has, ◌≡◌, refl, false, List, [], ◌∷◌, ◌++◌, ◌∙◌, arith,
  ne_of_mem, Bool-cases, ==_iff, inl, inr, ◌==◌, length, All, ◌∈◌, ◌∉◌, Distinct,
}
use consequence.ListArray.{Entry, ListArray, entry_null, entry_dead, listarray_max_size}

-- the first pointer of `xs`, or `stop`
abbrev pub first : ℤ → List ℕ → ℤ
first stop [] = stop
first stop (x ∷ xs) = pos x

-- the last pointer of `xs`, or `prev`
abbrev pub last : ℤ → List ℕ → ℤ
last prev [] = prev
last prev (x ∷ xs) = last (pos x) xs

-- The entries of `xs` are linked in order, behind `prev` and before `stop`.
abbrev pub Linked : (ℕ → Entry) → ℤ → ℤ → List ℕ → Type 0
Linked f prev stop [] = Unit
Linked f prev stop (x ∷ xs) =
    ((f x).prev ≡ prev) × ((f x).next ≡ first stop xs) × Linked f (pos x) stop xs

abbrev pub IsDead : Entry → Type 0
IsDead e = (e.next ≡ entry_dead) × (e.prev ≡ entry_dead)

-- The array holds the list `xs`: every index in it is linked, every other index is dead.
pub record Holds (la : ListArray) (xs : List ℕ) : Type 0 where
  pub head : la.head ≡ first entry_null xs
  pub tail : la.tail ≡ last entry_null xs
  pub linked : Linked la.entries entry_null entry_null xs
  pub distinct : Distinct xs
  pub bounded : All (λ x. x < listarray_max_size) xs
  pub reached : All (λ x. x ≤ la.max_index) xs
  pub count : la.count ≡ length xs
  pub dead : (i : ℕ) → i < listarray_max_size → i ∉ xs → IsDead (la.entries i)

pub last-append : (p : ℤ) (xs : List ℕ) (x : ℕ) → last p (xs ++ x ∷ []) ≡ pos x
last-append p [] x = refl
last-append p (y ∷ xs) x = last-append (pos y) xs x

pub first-append : (s : ℤ) (xs ys : List ℕ) → first s (xs ++ ys) ≡ first (first s ys) xs
first-append s [] ys = refl
first-append s (x ∷ xs) ys = refl

pub last_append : (p : ℤ) (xs ys : List ℕ) → last p (xs ++ ys) ≡ last (last p xs) ys
last_append p [] ys = refl
last_append p (x ∷ xs) ys = last_append (pos x) xs ys

module _ {f g : ℕ → Entry} where
  -- The links of `xs` survive a change elsewhere.
  pub Linked-frame :
      (p s : ℤ) (xs : List ℕ) → Linked f p s xs → ((i : ℕ) → i ∈ xs → g i ≡ f i) → Linked g p s xs
  Linked-frame p s [] l same = tt
  Linked-frame p s (x ∷ xs) l same = (
    ground (arith, same x),
    ground (arith, same x),
    Linked-frame (pos x) s xs l.2 λ i h. same i (ground arith),
  )

module _ (f : ℕ → Entry) where
  pub Linked-append :
      (p s : ℤ) (xs ys : List ℕ)
      → Linked f p (first s ys) xs
      → Linked f (last p xs) s ys
      → Linked f p s (xs ++ ys)
  Linked-append p s [] ys lx ly = ly
  Linked-append p s (x ∷ xs) ys lx ly =
      (lx.0, rw (first-append s xs ys) lx.1, Linked-append (pos x) s xs ys lx.2 ly)

  pub Linked-left :
      (p s : ℤ) (xs ys : List ℕ) → Linked f p s (xs ++ ys) → Linked f p (first s ys) xs
  Linked-left p s [] ys l = tt
  Linked-left p s (x ∷ xs) ys l = (l.0, l.1 ∙ first-append s xs ys, Linked-left (pos x) s xs ys l.2)

  pub Linked-right :
      (p s : ℤ) (xs ys : List ℕ) → Linked f p s (xs ++ ys) → Linked f (last p xs) s ys
  Linked-right p s [] ys l = l
  Linked-right p s (x ∷ xs) ys l = Linked-right (pos x) s xs ys l.2

  -- A new `prev` for the first entry.
  pub Linked-reprev :
      (p p' s : ℤ) (y : ℕ) (ys : List ℕ)
      → y ∉ ys
      → Linked f p s (y ∷ ys)
      → Linked (update f y (record (f y) { prev = p' })) p' s (y ∷ ys)
  Linked-reprev p p' s y ys out l =
      (ground arith, ground arith, Linked-frame (pos y) s ys l.2 λ i h. ground arith)

-- the last index of `x ∷ xs`
abbrev pub final : ℕ → List ℕ → ℕ
final x [] = x
final x (y ∷ ys) = final y ys

pub last-final : (x : ℕ) (xs : List ℕ) → last (pos x) xs ≡ pos (final x xs)
last-final x [] = refl
last-final x (y ∷ ys) = last-final y ys

pub final-mem : (x : ℕ) (xs : List ℕ) → final x xs ∈ x ∷ xs
final-mem x [] = ground arith
final-mem x (y ∷ ys) = ground (arith, final-mem y ys)

-- A new `next` for the last entry.
pub Linked-renext :
    (f : ℕ → Entry) (p s s' : ℤ) (x : ℕ) (xs : List ℕ)
    → Distinct (x ∷ xs)
    → Linked f p s (x ∷ xs)
    → Linked (update f (final x xs) (record (f (final x xs)) { next = s' })) p s' (x ∷ xs)
Linked-renext f p s s' x [] d l = (ground arith, ground arith, tt)
Linked-renext f p s s' x (y ∷ ys) d l =
    let other = ne_of_mem (final y ys) x (y ∷ ys) (final-mem y ys) d.0 in
    (rw other l.0, rw other l.1, Linked-renext f (pos x) s s' y ys d.1 l.2)

-- Both pointers of the entry are other than `DEAD`.
abbrev pub IsLive : Entry → Type 0
IsLive e = ((e.next ==ℤ entry_dead) ≡ false) × ((e.prev ==ℤ entry_dead) ≡ false)

first-ne-dead :
    (s : ℤ) (xs : List ℕ)
    → (s ==ℤ entry_dead) ≡ false
    → All (λ x. x < listarray_max_size) xs
    → (first s xs ==ℤ entry_dead) ≡ false
first-ne-dead s [] hs b = hs
first-ne-dead s (x ∷ xs) hs b = ground arith

Linked-IsLive :
    (f : ℕ → Entry) (p s : ℤ) (xs : List ℕ) (x : ℕ)
    → Linked f p s xs
    → All (λ i. i < listarray_max_size) xs
    → (p ==ℤ entry_dead) ≡ false
    → (s ==ℤ entry_dead) ≡ false
    → x ∈ xs
    → IsLive (f x)
Linked-IsLive f p s [] x l b hp hs m = cc
Linked-IsLive f p s (y ∷ ys) x l b hp hs m = elim (Bool-cases (x == y)) [
  | inl e ↦ rw ((==_iff x y).0 e) (rw l.1 (first-ne-dead s ys hs b.1), rw l.0 hp)
  | inr e ↦ Linked-IsLive f (pos y) s ys x l.2 b.1 (ground arith) hs (ground arith)
]

module _ {la : ListArray} {xs : List ℕ} (h : Holds la xs) where
  -- An index of the list is below the size of the array, and its entry is linked.
  pub member-lt : (x : ℕ) → x ∈ xs → x < listarray_max_size
  member-lt x m = All-has (λ i. i < listarray_max_size) x xs h.bounded m

  pub member-IsLive : (x : ℕ) → x ∈ xs → IsLive (la.entries x)
  member-IsLive x m =
      Linked-IsLive la.entries entry_null entry_null xs x h.linked h.bounded refl refl m
