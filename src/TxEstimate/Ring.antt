-- ===== src/TxEstimate/Ring.antt =====
-- The observations of tx_estimate.h: which entry they go to, and that the last ten are kept.
use consequence.Base.{
  ℕ, zero, suc, ◌+◌, ◌%◌, ◌^◌, ◌≤◌, ◌<◌, ◌≡◌, refl, ◌∙◌, ap, u64, false, Bool-cases, inl, inr, ◌==◌,
  ==_refl, update, List, [], ◌∷◌, length, arith,
}
use consequence.TxEstimate.{Estimate, Estimator, total_entries, get_entry, add_observation}

-- Every identifier has an entry, and only the identifier 0 has the first one.
pub get_entry_range :
    (identifier : ℕ)
    → (get_entry identifier < total_entries) × ((get_entry identifier == 0) ≡ (identifier == 0))
unfolding get_entry
get_entry_range identifier = elim (Bool-cases (identifier == 0)) [
  | inl e ↦ rw e (omega arith, refl)
  | inr e ↦ rw e (ground arith, ground arith)
]

-- the `k`-th number of a list
abbrev pub get : List ℕ → ℕ → ℕ
get [] k = 0
get (x ∷ xs) zero = x
get (x ∷ xs) (suc k) = get xs k

-- a run of observations of one identifier
pub observe : (ℕ → ℕ → ℕ) → Estimator → ℕ → List ℕ → Estimator
observe average txe identifier [] = txe
observe average txe identifier (x ∷ xs) =
    observe average (add_observation average txe identifier x) identifier xs

elsewhere : (a b j : ℕ) → a ≡ b → (b % 10 == j) ≡ false → (a % 10 == j) ≡ false
elsewhere a b j same e = rw same e

next_slot : (c k : ℕ) → (c + suc k) % 10 ≡ (c + 1 + k) % 10
next_slot c k = omega arith

module _ (average : ℕ → ℕ → ℕ) (identifier : ℕ) where
  abbrev pub entry_of : Estimator → Estimate
  entry_of txe = txe.entries (get_entry identifier)

  counter-add :
      (txe : Estimator) (x : ℕ)
      → (entry_of (add_observation average txe identifier x)).counter
        ≡ u64 ((entry_of txe).counter + 1)
  unfolding add_observation
  counter-add txe x = rw (==_refl (get_entry identifier))

  observations-add :
      (txe : Estimator) (x j : ℕ)
      → (entry_of (add_observation average txe identifier x)).observations j
        ≡ update (entry_of txe).observations ((entry_of txe).counter % 10) x j
  unfolding add_observation
  observations-add txe x j = rw (==_refl (get_entry identifier))

  counted :
      (txe : Estimator) (x n : ℕ)
      → (entry_of txe).counter + suc n < 2 ^ 64
      → (entry_of (add_observation average txe identifier x)).counter ≡ (entry_of txe).counter + 1
  counted txe x n small = counter-add txe x ∙ omega arith

  -- What the run does not write stays.
  observe-other :
      (xs : List ℕ) (txe : Estimator) (c j : ℕ)
      → (entry_of txe).counter ≡ c
      → c + length xs < 2 ^ 64
      → ((i : ℕ) → i < length xs → ((c + i) % 10 == j) ≡ false)
      → (entry_of (observe average txe identifier xs)).observations j
        ≡ (entry_of txe).observations j
  unfolding observe
  observe-other [] txe c j at small off = refl
  observe-other (x ∷ xs) txe c j at small off =
      let first : (c % 10 == j) ≡ false =
        elsewhere c (c + 0) j (omega arith) (off 0 (omega arith)) in
      observe-other xs (add_observation average txe identifier x) (c + 1) j
        (counted txe x (length xs) (omega (arith, at)) ∙ omega (arith, at)) (omega arith)
        (λ i lt. elsewhere (c + 1 + i) (c + suc i) j (omega arith) (off (suc i) (omega arith)))
      ∙ observations-add txe x j
      ∙ rw (at, first)

  counter-observe :
      (xs : List ℕ) (txe : Estimator) (c : ℕ)
      → (entry_of txe).counter ≡ c
      → c + length xs < 2 ^ 64
      → (entry_of (observe average txe identifier xs)).counter ≡ c + length xs
  unfolding observe
  counter-observe [] txe c at small = at ∙ omega arith
  counter-observe (x ∷ xs) txe c at small =
      counter-observe xs (add_observation average txe identifier x) (c + 1)
        (counted txe x (length xs) (omega (arith, at)) ∙ omega (arith, at)) (omega arith)
      ∙ omega arith

  observations-observe :
      (xs : List ℕ) (txe : Estimator) (c k : ℕ)
      → (entry_of txe).counter ≡ c
      → c + length xs < 2 ^ 64
      → k < length xs
      → length xs ≤ k + 10
      → (entry_of (observe average txe identifier xs)).observations ((c + k) % 10) ≡ get xs k
  unfolding observe
  observations-observe [] txe c k at small lt recent = absurd (omega arith)
  observations-observe (x ∷ xs) txe c zero at small lt recent =
      observe-other xs (add_observation average txe identifier x) (c + 1) ((c + 0) % 10)
        (counted txe x (length xs) (omega (arith, at)) ∙ omega (arith, at)) (omega arith)
        (λ i lt. ground arith)
      ∙ observations-add txe x ((c + 0) % 10)
      ∙ rw at (ground arith)
  observations-observe (x ∷ xs) txe c (suc k) at small lt recent =
      ap
        (λ j.
          (entry_of (
              observe average (add_observation average txe identifier x) identifier
                xs)).observations
            j)
        (next_slot c k)
      ∙ observations-observe xs (add_observation average txe identifier x) (c + 1) k
          (counted txe x (length xs) (omega (arith, at)) ∙ omega (arith, at)) (omega arith)
          (omega arith) (omega arith)

  -- After a run of observations of one identifier, whose counter stays below 2 ^ 64, the counter has
  -- gone up by their number, and each of the last ten of them lies in the ring at its own number
  -- modulo 10.
  pub observe_keeps :
      (xs : List ℕ) (txe : Estimator) (k : ℕ)
      → (entry_of txe).counter + length xs < 2 ^ 64
      → k < length xs
      → length xs ≤ k + 10
      → ((entry_of (observe average txe identifier xs)).counter
          ≡ (entry_of txe).counter + length xs)
        × ((entry_of (observe average txe identifier xs)).observations
              (((entry_of txe).counter + k) % 10)
            ≡ get xs k)
  observe_keeps xs txe k small lt recent =
      (counter-observe xs txe _ refl small, observations-observe xs txe _ k refl small lt recent)
