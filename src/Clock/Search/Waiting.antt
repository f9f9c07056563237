-- ===== src/Clock/Search/Waiting.antt =====
-- `__search_for_lowest_waiting`: which thread it reports, and what it makes of the entries of
-- `thread_arr` that it never sets.
use consequence.Base.{
  true, ==_iff, sym, out_of_bounds, ◌≤◌, ℕ, ◌<◌, ◌≡◌, ◌∙◌, refl, ℤ, pos, negsuc, List, [], ◌∷◌,
  arith, false, ◌&&◌, ◌||◌, Bool-cases, inl, inr, ltb, lt→ltb, ◌==◌, update, if◌then◌else◌, has,
  ◌∈◌, All, All-has, Outcome, ok, ◌>>◌, in_range, Returns, returns, Returns-mono, Returns-bind,
  Returns-value,
}
use consequence.ListArray.Chain.{Holds}
use consequence.ListArray.Loops.{fold, foreach-fold}
use consequence.Clock.State.{Context, Group, no_tid}
use consequence.Clock.Search.{
  thread_arr_size, is_candidate, mark_waiting, low_if_marked, search_for_lowest_waiting,
}
use consequence.Clock.Search.Lowest.{IsLowest, passing, search_for_lowest_lem}

abbrev body : Group → (ℕ → ℕ) → ℕ → Outcome (ℕ → ℕ)
body g thread_arr i =
    if (g.clocks i).waiting
    then (in_range (ltb i thread_arr_size) >> ok (update thread_arr i 1))
    else ok thread_arr

-- The array has 1 at the waiting threads of `xs`, and elsewhere what it had.
Marked : Group → List ℕ → (ℕ → ℕ) → (ℕ → ℕ) → Type 0
Marked g xs old new = (i : ℕ) → new i ≡ (if has i xs && (g.clocks i).waiting then 1 else old i)

module _ (g : Group) where
  body-Marked :
      (x : ℕ) (old : ℕ → ℕ) → x < thread_arr_size → Returns (Marked g (x ∷ []) old) (body g old x)
  unfolding Marked
  body-Marked x old lt = elim (Bool-cases (g.clocks x).waiting) [
    | inl w ↦ rw (w, lt→ltb x 128 lt) (returns (λ i. ground arith))
    | inr w ↦ rw w (returns (λ i. ground arith))
  ]

  fold-Marked :
      (xs : List ℕ) (old : ℕ → ℕ)
      → All (λ i. i < thread_arr_size) xs
      → Returns (Marked g xs old) (fold (body g) xs old)
  unfolding fold Marked
  fold-Marked [] old b = returns (λ i. refl)
  fold-Marked (x ∷ xs) old b =
      Returns-bind (body-Marked x old b.0)
        λ mid k. Returns-mono (fold-Marked xs mid b.1) λ new q i. ground (arith, k i, q i)

-- What the search reports of the lowest thread: the thread, if it waits or the stack had 1 in its
-- place of `thread_arr`, and -1 otherwise.
abbrev pub reported : Group → (ℕ → ℕ) → ℤ → ℤ
reported g stack (pos low) = if (g.clocks low).waiting || stack low == 1 then pos low else no_tid
reported g stack (negsuc _) = no_tid

module _ (g : Group) (xs : List ℕ) where
  low_if_marked-reported :
      (old new : ℕ → ℕ) (low : ℤ)
      → Marked g xs old new
      → All (λ i. i < thread_arr_size) xs
      → IsLowest g (passing xs (is_candidate g)) low
      → low_if_marked new low ≡ ok (reported g old low)
  unfolding Marked low_if_marked
  low_if_marked-reported old new (pos m) k b l =
      let inside : m ∈ xs = ground (arith, l.0) in
      rw (lt→ltb m 128 (All-has (λ i. i < thread_arr_size) m xs b inside), k m, inside)
        (elim (Bool-cases (g.clocks m).waiting) [ inl w ↦ rw w | inr w ↦ rw w ])
  low_if_marked-reported old new (negsuc _) k b l = refl

-- Among active threads below 128, outside an interrupt, the search returns the lowest thread if
-- that waits or the stack had 1 in its place of `thread_arr`, and -1 otherwise.
pub search_for_lowest_waiting_lem :
    (c : Context) (g : Group) (xs : List ℕ) (low : ℤ)
    → Holds g.active_threads xs
    → c.nmi ≡ false
    → All (λ i. i < thread_arr_size) xs
    → IsLowest g (passing xs (is_candidate g)) low
    → search_for_lowest_waiting c g ≡ ok (reported g c.stack low)
unfolding search_for_lowest_waiting mark_waiting
search_for_lowest_waiting_lem c g xs low h e b l =
    let (arr, q, k) = Returns-value (fold-Marked g xs c.stack b) in
    rw (foreach-fold (body g) h c.stack, q, search_for_lowest_lem c g xs low h e l)
      (low_if_marked-reported g xs c.stack arr low k b l)

pub search_for_lowest_waiting_undetermined :
    (c : Context) (g : Group) (xs : List ℕ) (m : ℕ)
    → Holds g.active_threads xs
    → c.nmi ≡ false
    → All (λ i. i < thread_arr_size) xs
    → IsLowest g (passing xs (is_candidate g)) (pos m)
    → (g.clocks m).waiting ≡ false
    → (search_for_lowest_waiting (record c { stack = λ i. 0 }) g ≡ ok no_tid)
      × (search_for_lowest_waiting (record c { stack = λ i. 1 }) g ≡ ok (pos m))
search_for_lowest_waiting_undetermined c g xs m h e b l w = (
  search_for_lowest_waiting_lem (record c { stack = λ i. 0 }) g xs (pos m) h e b l ∙ rw w,
  search_for_lowest_waiting_lem (record c { stack = λ i. 1 }) g xs (pos m) h e b l ∙ rw w,
)

module _ (g : Group) (i : ℕ) (waits : (g.clocks i).waiting ≡ true) (beyond : 128 ≤ i) where
  fold-overflow : (xs : List ℕ) (old : ℕ → ℕ) → i ∈ xs → fold (body g) xs old ≡ out_of_bounds
  unfolding fold
  fold-overflow [] old m = cc
  fold-overflow (x ∷ xs) old m = elim (Bool-cases (i == x)) [
    | inl e ↦
        let same : x ≡ i = sym ((==_iff i x).0 e) in
        let outside : ltb i 128 ≡ false = ground arith in rw (same, waits, outside)
    | inr o ↦
        let rest : i ∈ xs = ground arith in
        elim (Bool-cases (g.clocks x).waiting) [
          | inl w ↦ elim (Bool-cases (ltb x 128)) [
            | inl lt ↦ rw (w, lt) (fold-overflow xs (update old x 1) rest)
            | inr ge ↦ rw (w, ge)
          ]
          | inr w ↦ rw w (fold-overflow xs old rest)
        ]
  ]

-- If an active thread from 128 up waits, the search writes outside `thread_arr`.
pub search_for_lowest_waiting_overflow :
    (c : Context) (g : Group) (xs : List ℕ) (i : ℕ)
    → Holds g.active_threads xs
    → i ∈ xs
    → (g.clocks i).waiting ≡ true
    → thread_arr_size ≤ i
    → search_for_lowest_waiting c g ≡ out_of_bounds
unfolding search_for_lowest_waiting mark_waiting
search_for_lowest_waiting_overflow c g xs i h m waits beyond =
    rw (foreach-fold (body g) h c.stack, fold-overflow g i waits beyond xs c.stack m)
