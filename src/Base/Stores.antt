-- ===== src/Base/Stores.antt =====
-- Writes to an array or a memory, as a function.
use consequence.Base.Tests.{◌==◌, ==_refl, ==_iff, Bool-cases, if◌then◌else◌}
use mathlib.Core.Path.{◌≡◌}
use mathlib.Core.Logic.{inl, inr}
use mathlib.Core.Bool.{false}
use Prim.Native.Nat.{ℕ}

-- One place of an array or a memory gets a new value. Shut, so that a chain of writes stays readable; its
-- two laws say what is read.
unfoldable pub store {ℓ} : {A : Type ℓ} → (ℕ → A) → ℕ → A → ℕ → A
store f i a j = if i == j then a else f j

pub store_self {ℓ} : {A : Type ℓ} (f : ℕ → A) (i : ℕ) (a : A) → store f i a i ≡ a
unfolding store
store_self f i a = rw (==_refl i)

pub store_ne {ℓ} :
    {A : Type ℓ} (f : ℕ → A) (i j : ℕ) (a : A) → (i == j) ≡ false → store f i a j ≡ f j
unfolding store
store_ne f i j a h = rw h

-- What holds of the new value at its place, and of the old ones elsewhere, holds of what is read.
pub store_cases {ℓ κ} :
    {A : Type ℓ} (P : A → Type κ) (f : ℕ → A) (i j : ℕ) (a : A)
    → (i ≡ j → P a)
    → ((i == j) ≡ false → P (f j))
    → P (store f i a j)
unfolding store
store_cases P f i j a here there = elim (Bool-cases (i == j)) [
  | inl same ↦ rw same (here ((==_iff i j).0 same))
  | inr other ↦ rw other (there other)
]
