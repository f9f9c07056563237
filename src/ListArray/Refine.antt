-- ===== src/ListArray/Refine.antt =====
-- The array of listarray.h against an abstract sequence of indices: what each operation promises,
-- and that any run of operations does just that.
use consequence.Base.{
  ℕ, ◌<◌, List, [], ◌∷◌, ◌++◌, All, inl, inr, Bool-cases, if◌then◌else◌, ◌==◌, length, has, erase,
  Outcome, ok, bug, out_of_bounds, ◌>>=◌, Returns, returns,
}
use consequence.ListArray.{ListArray, listarray_max_size, init, insert, remove}
use consequence.ListArray.Chain.{Holds}
use consequence.ListArray.Insert.{init-Holds, insert-Holds, insert-bug}
use consequence.ListArray.Remove.{remove-Holds, remove_absent}

pub data Op : Type 0 where
  put : ℕ → Op
  drop : ℕ → Op

abbrev pub index : Op → ℕ
index (put x) = x
index (drop x) = x

abbrev pub perform : Op → ListArray → Outcome ListArray
perform (put x) la = insert la x
perform (drop x) la = remove la x

-- The operation on a sequence of indices.
unfoldable pub promise : Op → List ℕ → Outcome (List ℕ)
promise (put x) xs = if has x xs then bug else ok (xs ++ x ∷ [])
promise (drop x) xs =
    if has x xs then ok (erase x xs) else if length xs == 0 then bug else out_of_bounds

pub run : List Op → ListArray → Outcome ListArray
run [] la = ok la
run (o ∷ os) la = perform o la >>= run os

unfoldable pub promises : List Op → List ℕ → Outcome (List ℕ)
unfolding promise
promises [] xs = ok xs
promises (o ∷ os) xs = promise o xs >>= promises os

-- The run ends as the promise does, and with a value that holds the promised sequence.
pub data Keeps : Outcome ListArray → Outcome (List ℕ) → Type 0 where
  kept : {la : ListArray} {xs : List ℕ} → Holds la xs → Keeps (ok la) (ok xs)
  stopped : Keeps bug bug
  overrun : Keeps out_of_bounds out_of_bounds

Returns-Keeps :
    {m : Outcome ListArray} {xs : List ℕ} → Returns (λ la. Holds la xs) m → Keeps m (ok xs)
Returns-Keeps (returns h) = kept h

Keeps-bind :
    {m : Outcome ListArray} {p : Outcome (List ℕ)} {f : ListArray → Outcome ListArray}
    {q : List ℕ → Outcome (List ℕ)}
    → Keeps m p
    → ((la : ListArray) (xs : List ℕ) → Holds la xs → Keeps (f la) (q xs))
    → Keeps (m >>= f) (p >>= q)
Keeps-bind (kept h) next = next _ _ h
Keeps-bind stopped next = stopped
Keeps-bind overrun next = overrun

-- Each operation keeps its promise, on every branch.
pub perform-Keeps :
    (o : Op) (la : ListArray) (xs : List ℕ)
    → Holds la xs
    → index o < listarray_max_size
    → Keeps (perform o la) (promise o xs)
unfolding promise
perform-Keeps (put x) la xs h lt = elim (Bool-cases (has x xs)) [
  | inl m ↦ rw (m, insert-bug la xs x h m) stopped
  | inr o ↦ rw o (Returns-Keeps (insert-Holds la xs x h lt o))
]
perform-Keeps (drop x) la xs h lt = elim (Bool-cases (has x xs)) [
  | inl m ↦ rw m (Returns-Keeps (remove-Holds la xs x h m))
  | inr o ↦
      rw (o, remove_absent la xs x h lt o)
        (elim (Bool-cases (length xs == 0)) [ inl e ↦ rw e stopped | inr e ↦ rw e overrun ])
]

run-Keeps :
    (os : List Op) (la : ListArray) (xs : List ℕ)
    → Holds la xs
    → All (λ o. index o < listarray_max_size) os
    → Keeps (run os la) (promises os xs)
unfolding run promises
run-Keeps [] la xs h b = kept h
run-Keeps (o ∷ os) la xs h b =
    Keeps-bind (perform-Keeps o la xs h b.0) λ la' xs' h'. run-Keeps os la' xs' h' b.1

-- Any sequence of inserts and removes of indices below the array size, on a list that
-- `listarray_init` has made, ends as the abstract sequence of indices says: with an array that
-- holds the promised sequence, at a `BUG_ON` or outside the array.
pub run-init-Keeps :
    (os : List Op) (la : ListArray)
    → All (λ o. index o < listarray_max_size) os
    → Keeps (run os (init la)) (promises os [])
run-init-Keeps os la b = run-Keeps os (init la) [] (init-Holds la) b
