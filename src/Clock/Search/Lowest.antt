-- ===== src/Clock/Search/Lowest.antt =====
-- The search loops find the lowest clock, ties going to the lower thread, and both forms of the
-- loop, over the active threads and over all entries, find the same.
use consequence.Base.{
  ℕ, zero, suc, ◌+◌, ◌≤◌, ◌≡◌, refl, ◌∙◌, ap, sym, ℤ, pos, negsuc, List, [], ◌∷◌, arith, Bool, true,
  false, ◌&&◌, ◌||◌, Bool-cases, inl, inr, ◌==◌, has, ◌∈◌, All-has, ok, Returns, returns,
  Returns-unique, Returns-value, Returns-mono, Returns-bind,
}
use consequence.ListArray.Chain.{Holds}
use consequence.ListArray.Loops.{fold, range, range-mem, foreach-fold, foreach_allelements-fold}
use consequence.Clock.State.{Context, Group, no_tid, clock_is_lower}
use consequence.Clock.Search.{beats, consider, is_candidate, over_threads, search_for_lowest}

-- `__clock_is_lower` is a strict order, and two threads that are not ordered are the same.
module _ (g : Group) where
  pub clock_is_lower_irrefl : (i : ℕ) → clock_is_lower g i i ≡ false
  unfolding clock_is_lower
  clock_is_lower_irrefl i = ground arith

  pub clock_is_lower_step :
      (i x m : ℕ)
      → clock_is_lower g x m ≡ true
      → clock_is_lower g i m ≡ false
      → clock_is_lower g i x ≡ false
  unfolding clock_is_lower
  clock_is_lower_step i x m h k = ground arith

  pub clock_is_lower_unique :
      (a b : ℕ) → clock_is_lower g a b ≡ false → clock_is_lower g b a ≡ false → a ≡ b
  unfolding clock_is_lower
  clock_is_lower_unique a b h k = ground arith

-- `r` is the thread of `set` that no other of them has a lower clock than, or -1 if there is none.
abbrev pub IsLowest : Group → (ℕ → Bool) → ℤ → Type 0
IsLowest g set (pos m) = (set m ≡ true) × ((i : ℕ) → set i ≡ true → clock_is_lower g i m ≡ false)
IsLowest g set (negsuc zero) = (i : ℕ) → set i ≡ false
IsLowest g set (negsuc (suc _)) = ⊥

module _ (g : Group) where
  IsLowest-ext : (r : ℤ) {s t : ℕ → Bool} → ((i : ℕ) → s i ≡ t i) → IsLowest g s r → IsLowest g t r
  IsLowest-ext (pos m) e h = (sym (e m) ∙ h.0, λ i q. h.1 i (e i ∙ q))
  IsLowest-ext (negsuc zero) e h = λ i. sym (e i) ∙ h i
  IsLowest-ext (negsuc (suc _)) e h = h

  -- At most one thread is the lowest.
  pub IsLowest-unique : (s : ℕ → Bool) (r r' : ℤ) → IsLowest g s r → IsLowest g s r' → r ≡ r'
  IsLowest-unique s (pos a) (pos b) h k =
      ap pos (clock_is_lower_unique g a b (k.1 a h.0) (h.1 b k.0))
  IsLowest-unique s (pos a) (negsuc zero) h k = cc (k a, h.0)
  IsLowest-unique s (negsuc zero) (pos b) h k = cc (h b, k.0)
  IsLowest-unique s (negsuc zero) (negsuc zero) h k = refl
  IsLowest-unique s (negsuc (suc _)) r' h k = absurd h
  IsLowest-unique s (pos a) (negsuc (suc _)) h k = absurd k
  IsLowest-unique s (negsuc zero) (negsuc (suc _)) h k = absurd k

  abbrev with_one : (ℕ → Bool) → (ℕ → Bool) → ℕ → ℕ → Bool
  with_one test set x i = set i || (i == x) && test i

  consider-IsLowest :
      (test set : ℕ → Bool) (min_tid : ℤ) (x : ℕ)
      → IsLowest g set min_tid
      → Returns (IsLowest g (with_one test set x)) (consider g test min_tid x)
  unfolding beats
  consider-IsLowest test set (pos m) x h = elim (Bool-cases (test x && clock_is_lower g x m)) [
    | inl e ↦ rw e (returns (ground arith, λ i q. won i (ground arith) q))
    | inr e ↦ rw e (returns (ground (arith, h.0), λ i q. lost i e q))
  ]
    where
      won :
          (i : ℕ)
          → clock_is_lower g x m ≡ true
          → with_one test set x i ≡ true
          → clock_is_lower g i x ≡ false
      won i low q = elim (Bool-cases (set i)) [
        | inl old ↦ clock_is_lower_step g i x m low (h.1 i old)
        | inr new ↦ let same : i ≡ x = ground arith in rw same (clock_is_lower_irrefl g x)
      ]

      lost :
          (i : ℕ)
          → (test x && clock_is_lower g x m) ≡ false
          → with_one test set x i ≡ true
          → clock_is_lower g i m ≡ false
      lost i e q = elim (Bool-cases (set i)) [
        | inl old ↦ h.1 i old
        | inr new ↦ let same : i ≡ x = ground arith in rw same (ground arith)
      ]
  consider-IsLowest test set (negsuc zero) x h = elim (Bool-cases (test x)) [
    | inl e ↦ rw e (
        returns (
          ground arith,
          λ i q. let same : i ≡ x = ground (arith, h i) in rw same (clock_is_lower_irrefl g x),
        ))
    | inr e ↦ rw e (returns (λ i. ground (arith, h i)))
  ]
  consider-IsLowest test set (negsuc (suc _)) x h = absurd h

  -- those of `xs` that pass the test, and those of `set`
  abbrev among : List ℕ → (ℕ → Bool) → (ℕ → Bool) → ℕ → Bool
  among xs test set i = has i xs && test i || set i

  fold-IsLowest :
      (test : ℕ → Bool) (xs : List ℕ) (set : ℕ → Bool) (min_tid : ℤ)
      → IsLowest g set min_tid
      → Returns (IsLowest g (among xs test set)) (fold (consider g test) xs min_tid)
  unfolding fold
  fold-IsLowest test [] set min_tid h = returns h
  fold-IsLowest test (x ∷ xs) set min_tid h =
      Returns-bind (consider-IsLowest test set min_tid x h) λ low k.
        Returns-mono (fold-IsLowest test xs (with_one test set x) low k)
          λ r q. IsLowest-ext r (λ i. ground arith) q

-- the threads of the list that pass the test
abbrev pub passing : List ℕ → (ℕ → Bool) → ℕ → Bool
passing xs test i = has i xs && test i

module _ (g : Group) (test : ℕ → Bool) where
  pub fold_lem :
      (xs : List ℕ) → Returns (IsLowest g (passing xs test)) (fold (consider g test) xs no_tid)
  fold_lem xs =
      Returns-mono (fold-IsLowest g test xs (λ i. false) no_tid (λ i. refl))
        λ r q. IsLowest-ext g r (λ i. ground arith) q

  -- A search over the active threads, outside an interrupt.
  pub over_threads-active :
      (c : Context) {xs : List ℕ} (h : Holds g.active_threads xs)
      → c.nmi ≡ false
      → Returns (IsLowest g (passing xs test)) (over_threads c g (consider g test) no_tid)
  unfolding over_threads
  over_threads-active c {xs} h e = rw (e, foreach-fold (consider g test) h no_tid) (fold_lem xs)

  -- A search over all entries, in an interrupt.
  pub over_threads-all :
      (c : Context)
      → c.nmi ≡ true
      → Returns
          (IsLowest g (passing (range 0 (g.active_threads.max_index + 1)) test))
          (over_threads c g (consider g test) no_tid)
  unfolding over_threads
  over_threads-all c e =
      rw (e, foreach_allelements-fold (consider g test) g.active_threads no_tid)
        (fold_lem (range 0 (g.active_threads.max_index + 1)))

  widened :
      {xs : List ℕ} (h : Holds g.active_threads xs)
      → ((i : ℕ) → test i ≡ true → i ∈ xs)
      → (i : ℕ) → passing (range 0 (g.active_threads.max_index + 1)) test i ≡ test i
  widened {xs} h all i = elim (Bool-cases (test i)) [
    | inl t ↦
        let below = All-has (λ j. j ≤ g.active_threads.max_index) i xs h.reached (all i t) in
        rw (t, range-mem 0 (g.active_threads.max_index + 1) i (omega arith) (omega arith))
    | inr f ↦ ground arith
  ]

  -- Where a thread that passes is active, the two loops find the same.
  over_threads-same :
      (c : Context) {xs : List ℕ} (h : Holds g.active_threads xs)
      → ((i : ℕ) → test i ≡ true → i ∈ xs)
      → Returns (IsLowest g test) (over_threads c g (consider g test) no_tid)
  over_threads-same c {xs} h all = elim (Bool-cases c.nmi) [
    | inl e ↦ Returns-mono (over_threads-all c e) λ r q. IsLowest-ext g r (λ i. widened h all i) q
    | inr e ↦
        Returns-mono (over_threads-active c h e)
          λ r q. IsLowest-ext g r (λ i. ground (arith, all i)) q
  ]

-- `__search_for_lowest` outside an interrupt returns the lowest of the active threads that are
-- initialized and not marked inactive, ties going to the lower thread, and -1 if there is none.
pub search_for_lowest-IsLowest :
    (c : Context) (g : Group) (xs : List ℕ)
    → Holds g.active_threads xs
    → c.nmi ≡ false
    → Returns (IsLowest g (passing xs (is_candidate g))) (search_for_lowest c g)
unfolding search_for_lowest
search_for_lowest-IsLowest c g xs h e = over_threads-active g (is_candidate g) c h e

-- The same as an equation, for the client that knows the lowest thread.
pub search_for_lowest_lem :
    (c : Context) (g : Group) (xs : List ℕ) (low : ℤ)
    → Holds g.active_threads xs
    → c.nmi ≡ false
    → IsLowest g (passing xs (is_candidate g)) low
    → search_for_lowest c g ≡ ok low
search_for_lowest_lem c g xs low h e l =
    Returns-unique (λ x y. IsLowest-unique g (passing xs (is_candidate g)) x y)
      (search_for_lowest-IsLowest c g xs h e) l

-- A search in an interrupt, which may not follow the links of the list, finds what a search outside
-- one finds, and that is the lowest thread of all that are initialized and not marked inactive (-1
-- if there is none), as long as every such thread is in the list.
pub search_for_lowest-nmi :
    (c : Context) (g : Group) (xs : List ℕ)
    → Holds g.active_threads xs
    → ((i : ℕ) → is_candidate g i ≡ true → i ∈ xs)
    → (nmi : Bool)
    → Returns (IsLowest g (is_candidate g)) (search_for_lowest c g)
      × (search_for_lowest (record c { nmi = nmi }) g ≡ search_for_lowest c g)
unfolding search_for_lowest
search_for_lowest-nmi c g xs h all nmi =
    let found = over_threads-same g (is_candidate g) c h all in
    let (low, e, p) = Returns-value found in
    (
      found,
      Returns-unique (λ x y. IsLowest-unique g (is_candidate g) x y)
            (over_threads-same g (is_candidate g) (record c { nmi = nmi }) h all) p
          ∙ sym e,
    )
