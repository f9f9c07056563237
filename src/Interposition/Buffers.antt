-- ===== src/Interposition/Buffers.antt =====
-- `write` and `read` of thread_lib/source/libdthread.cpp, which touch every page of the buffer before the
-- call of the system's functions. Addresses are modulo 2 ^ 64.
use consequence.Base.{
  ℕ, zero, suc, ◌+◌, ◌-◌, ◌^◌, ◌≤◌, ◌<◌, ◌≡◌, refl, arith, u64, true, false, ltb, if◌then◌else◌,
  store, List, [], ◌∷◌, ◌++◌, All, Outcome, ok, out_of_fuel, ◌>>=◌, Returns, returns, Returns-bind,
  Bool-cases, inl, inr, ◌⊎◌,
}
use consequence.Memory.{Bytes, page_size}

-- The loop over the pages, from index `i` on: the indices that it touches.
unfoldable pub page_indices : ℕ → ℕ → ℕ → Outcome (List ℕ)
page_indices zero i count = if ltb i count then out_of_fuel else ok []
page_indices (suc rounds) i count = elim (ltb i count) [
  | true ↦ (do rest ← page_indices rounds (u64 (i + page_size)) count; ok (i ∷ rest))
  | false ↦ ok []
]

-- all that is touched, the last byte of the buffer too
unfoldable pub touched_indices : ℕ → Outcome (List ℕ)
unfolding page_indices
touched_indices count = do
  pages ← page_indices count 0 count
  ok (pages ++ u64 (count + (2 ^ 64 - 1)) ∷ [])

-- `write`, where `real_write` is the system's, with what it returns
unfoldable pub write : {W : Type 0} → (W → ℕ → ℕ → ℕ → ℕ × W) → W → ℕ → ℕ → ℕ → Outcome (ℕ × W)
unfolding touched_indices
write real_write w fd buf count = do touched ← touched_indices count; ok (real_write w fd buf count)

-- a 0 in each of these places
abbrev pub clear_all : Bytes → ℕ → List ℕ → Bytes
clear_all m start [] = m
clear_all m start (i ∷ is) = clear_all (store m (u64 (start + i)) 0) start is

-- `read`, where `real_read` is the system's, with what it returns and the bytes after it
unfoldable pub read : (Bytes → ℕ → ℕ → ℕ → ℕ × Bytes) → Bytes → ℕ → ℕ → ℕ → Outcome (ℕ × Bytes)
unfolding touched_indices
read real_read m fd buf count = do
  touched ← touched_indices count
  ok (real_read (clear_all m buf touched) fd buf count)

-- one of these is at `j`, or before it by less than a page
abbrev pub Reaches : List ℕ → ℕ → Type 0
Reaches [] j = ⊥
Reaches (i ∷ is) j = ((i ≤ j) × (j < i + page_size)) ⊎ Reaches is j

abbrev TouchesFrom : ℕ → ℕ → List ℕ → Type 0
TouchesFrom i count is = All (λ k. k < count) is × ((j : ℕ) → i ≤ j → j < count → Reaches is j)

page_indices-TouchesFrom :
    (rounds i count : ℕ)
    → count ≤ i + rounds
    → count + page_size < 2 ^ 64
    → Returns (TouchesFrom i count) (page_indices rounds i count)
unfolding page_indices
page_indices-TouchesFrom zero i count enough space =
    let past : ltb i count ≡ false = ground arith in
    rw past (returns (tt, λ j a b. absurd (omega arith)))
page_indices-TouchesFrom (suc rounds) i count enough space = elim (Bool-cases (ltb i count)) [
  | inl inside ↦
      let under : i < count = ground arith in
      let next : u64 (i + page_size) ≡ i + page_size = omega arith in
      rw (inside, page_indices, next)
        (Returns-bind (page_indices-TouchesFrom rounds (i + page_size) count (omega arith) space)
          λ rest (within, reached). returns (
            (under, within),
            λ j a b. elim (Bool-cases (ltb j (i + page_size))) [
              | inl near ↦ inl (a, ground arith)
              | inr far ↦ inr (reached j (ground arith) b)
            ],
          ))
  | inr past ↦ rw (past, page_indices) (returns (tt, λ j a b. absurd (ground arith)))
]

All-touched :
    (count : ℕ) (is : List ℕ) (last : ℕ)
    → All (λ k. k < count) is
    → last < count
    → All (λ k. k < count) (is ++ last ∷ [])
All-touched count [] last h l = (l, tt)
All-touched count (i ∷ is) last h l = (h.0, All-touched count is last h.1 l)

Reaches-append : (is js : List ℕ) (j : ℕ) → Reaches is j → Reaches (is ++ js) j
Reaches-append [] js j h = absurd h
Reaches-append (i ∷ is) js j (inl here) = inl here
Reaches-append (i ∷ is) js j (inr there) = inr (Reaches-append is js j there)

Reaches-within :
    (count : ℕ) (is : List ℕ)
    → All (λ k. k < count) is × ((j : ℕ) → 0 ≤ j → j < count → Reaches is j)
    → 0 < count
    → count + page_size < 2 ^ 64
    → All (λ k. k < count) (is ++ u64 (count + (2 ^ 64 - 1)) ∷ [])
      × ((j : ℕ) → j < count → Reaches (is ++ u64 (count + (2 ^ 64 - 1)) ∷ []) j)
Reaches-within count is (within, reached) some_bytes space = (
  All-touched count is _ within (omega arith),
  λ j under. Reaches-append is _ j (reached j (omega arith) under),
)

-- For a buffer of some bytes, fewer than 2 ^ 64 less a page: the loop ends, all that `read` and `write`
-- touch is in the buffer, and every byte of it is at one that is touched, or behind one by less than
-- a page.
pub touched_indices-Reaches :
    (count : ℕ)
    → 0 < count
    → count + page_size < 2 ^ 64
    → Returns
        (λ is. All (λ k. k < count) is × ((j : ℕ) → j < count → Reaches is j))
        (touched_indices count)
unfolding touched_indices
touched_indices-Reaches count some_bytes space =
    Returns-bind (page_indices-TouchesFrom count 0 count (omega arith) space)
      λ is h. returns (Reaches-within count is h some_bytes space)

-- A `read` of no bytes into a buffer returns what the system's `read` does with the byte before the
-- buffer set to 0.
pub read-before_buffer :
    (real_read : Bytes → ℕ → ℕ → ℕ → ℕ × Bytes) (m : Bytes) (fd buf : ℕ)
    → 0 < buf
    → buf < 2 ^ 64
    → read real_read m fd buf 0 ≡ ok (real_read (store m (buf - 1) 0) fd buf 0)
unfolding read touched_indices page_indices
read-before_buffer real_read m fd buf positive space =
    let before : u64 (buf + u64 (0 + (2 ^ 64 - 1))) ≡ buf - 1 = omega arith in rw before refl
