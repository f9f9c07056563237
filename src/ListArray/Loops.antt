-- ===== src/ListArray/Loops.antt =====
-- `listarray_foreach` runs its body over the indices of the list in order, and
-- `listarray_foreach_allelements` over all indices up to `max_index`.
use consequence.Base.{
  Bool-cases, inl, inr, ◌==◌, ◌∈◌, ◌≤◌, ℕ, zero, suc, ◌+◌, ◌<◌, ℤ, pos, ◌≡◌, refl, ap, ◌∙◌, List,
  [], ◌∷◌, arith, lt→ltb, length, All, length-le-bound, Outcome, ok, ◌>>=◌, bind-same,
}
use consequence.ListArray.{
  ListArray, entry_null, listarray_max_size, getentry, foreach_from, foreach, each_index,
  foreach_allelements,
}
use consequence.ListArray.Chain.{first, Linked, Holds}

-- the body at each number of a list
unfoldable pub fold {ℓ} : {S : Type ℓ} → (S → ℕ → Outcome S) → List ℕ → S → Outcome S
fold body [] s = ok s
fold body (x ∷ xs) s = body s x >>= fold body xs

-- `n` numbers from `i` up
abbrev pub range : ℕ → ℕ → List ℕ
range i zero = []
range i (suc n) = i ∷ range (i + 1) n

pub range-mem : (i n j : ℕ) → i ≤ j → j < i + n → j ∈ range i n
range-mem i zero j le lt = absurd (omega arith)
range-mem i (suc n) j le lt = elim (Bool-cases (j == i)) [
  | inl e ↦ rw e
  | inr e ↦ rw e (range-mem (i + 1) n j (ground arith) (omega arith))
]

module _ {ℓ} {S : Type ℓ} (body : S → ℕ → Outcome S) where
  foreach_from-fold :
      (la : ListArray) (fuel : ℕ) (p : ℤ) (xs : List ℕ) (s : S)
      → Linked la.entries p entry_null xs
      → All (λ x. x < listarray_max_size) xs
      → length xs < fuel
      → foreach_from fuel la body (first entry_null xs) s ≡ fold body xs s
  unfolding foreach_from fold getentry
  foreach_from-fold la zero p [] s l b h = absurd (omega arith)
  foreach_from-fold la (suc fuel) p [] s l b h = refl
  foreach_from-fold la zero p (x ∷ xs) s l b h = absurd (omega arith)
  foreach_from-fold la (suc fuel) p (x ∷ xs) s l b h = bind-same (body s x) λ s'.
      rw (lt→ltb x 4096 b.0, l.1) (foreach_from-fold la fuel (pos x) xs s' l.2 b.1 (omega arith))

  -- `listarray_foreach` over an array that holds `xs` is the fold of its body over `xs` in order: it
  -- never runs out of its fuel and its own accesses stay in range.
  pub foreach-fold :
      {la : ListArray} {xs : List ℕ} (h : Holds la xs) (s : S) → foreach la body s ≡ fold body xs s
  unfolding foreach
  foreach-fold {la} {xs} h s =
      ap (λ p. foreach_from 4097 la body p s) h.head
      ∙ foreach_from-fold la 4097 entry_null xs s h.linked h.bounded
          (omega (arith, length-le-bound 4096 xs h.distinct h.bounded))

  pub each_index-fold : (n i : ℕ) (s : S) → each_index n i body s ≡ fold body (range i n) s
  unfolding each_index fold
  each_index-fold zero i s = refl
  each_index-fold (suc n) i s = bind-same (body s i) (each_index-fold n (i + 1))

  pub foreach_allelements-fold :
      (la : ListArray) (s : S)
      → foreach_allelements la body s ≡ fold body (range 0 (la.max_index + 1)) s
  unfolding foreach_allelements
  foreach_allelements-fold la s = each_index-fold (la.max_index + 1) 0 s
