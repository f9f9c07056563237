-- ===== src/Base/Lists.antt =====
-- Lists measured by native numbers, membership as a Boolean test, and predicates by recursion.
use Prim.Native.Nat.{ℕ, zero, suc, ◌+◌, ◌≤◌, ◌<◌}
use mathlib.Core.Path.{◌≡◌, refl, ap, sym}
use mathlib.Core.Bool.{Bool, true, false, ◌||◌, ◌&&◌, not}
use mathlib.Core.List.{List, [], ◌∷◌, ◌++◌}
use native.Mathlib.Omega.{arith}
use consequence.Base.Tests.{◌==◌, ==_iff, Bool-cases, if◌then◌else◌}
use mathlib.Core.Logic.{inl, inr}

abbrev pub length {ℓ} : {A : Type ℓ} → List A → ℕ
length [] = 0
length (x ∷ xs) = suc (length xs)

pub length-append {ℓ} : {A : Type ℓ} (xs ys : List A) → length (xs ++ ys) ≡ length xs + length ys
length-append [] ys = omega arith
length-append (x ∷ xs) ys = omega (arith, length-append xs ys)

abbrev pub All {ℓ κ} : {A : Type ℓ} → (A → Type κ) → List A → Type κ
All P [] = Unit
All P (x ∷ xs) = P x × All P xs

-- is `a` one of the numbers?
abbrev pub has : ℕ → List ℕ → Bool
has a [] = false
has a (x ∷ xs) = (a == x) || has a xs

infix 40 ◌∈◌ ◌∉◌
abbrev pub ◌∈◌ : ℕ → List ℕ → Type 0
a ∈ xs = has a xs ≡ true

abbrev pub ◌∉◌ : ℕ → List ℕ → Type 0
a ∉ xs = has a xs ≡ false

abbrev pub Distinct : List ℕ → Type 0
Distinct [] = Unit
Distinct (x ∷ xs) = (x ∉ xs) × Distinct xs

pub has-append : (a : ℕ) (xs ys : List ℕ) → has a (xs ++ ys) ≡ (has a xs || has a ys)
has-append a [] ys = refl
has-append a (x ∷ xs) ys = ground (arith, has-append a xs ys)

module _ {κ} (P : ℕ → Type κ) where
  pub All-append : (xs ys : List ℕ) → All P xs → All P ys → All P (xs ++ ys)
  All-append [] ys hx hy = hy
  All-append (x ∷ xs) ys hx hy = (hx.0, All-append xs ys hx.1 hy)

  pub All-append_left : (xs ys : List ℕ) → All P (xs ++ ys) → All P xs
  All-append_left [] ys h = tt
  All-append_left (x ∷ xs) ys h = (h.0, All-append_left xs ys h.1)

  pub All-append_right : (xs ys : List ℕ) → All P (xs ++ ys) → All P ys
  All-append_right [] ys h = h
  All-append_right (x ∷ xs) ys h = All-append_right xs ys h.1

pub All-mono {κ κ'} :
    (P : ℕ → Type κ) (Q : ℕ → Type κ') (xs : List ℕ) → ((x : ℕ) → P x → Q x) → All P xs → All Q xs
All-mono P Q [] f h = tt
All-mono P Q (x ∷ xs) f h = (f x h.0, All-mono P Q xs f h.1)

pub Distinct-snoc : (xs : List ℕ) (x : ℕ) → Distinct xs → x ∉ xs → Distinct (xs ++ x ∷ [])
Distinct-snoc [] x d o = (refl, tt)
Distinct-snoc (y ∷ ys) x d o =
    (ground (arith, has-append y ys (x ∷ [])), Distinct-snoc ys x d.1 (ground arith))

pub mem-self : (x : ℕ) (xs : List ℕ) → x ∈ x ∷ xs
mem-self x xs = ground arith

pub ne_of_mem : (a b : ℕ) (xs : List ℕ) → a ∈ xs → b ∉ xs → (a == b) ≡ false
ne_of_mem a b [] m o = cc
ne_of_mem a b (x ∷ xs) m o = ground (arith, ne_of_mem a b xs)

pub All-has : (P : ℕ → Type 0) (x : ℕ) (xs : List ℕ) → All P xs → x ∈ xs → P x
All-has P x [] h m = cc
All-has P x (y ∷ ys) h m = elim (Bool-cases (x == y)) [
  | inl e ↦ rw ((==_iff x y).0 e) h.0
  | inr e ↦ All-has P x ys h.1 (ground arith)
]

-- What is in neither part of a list.
pub not-mem-append : (a : ℕ) (xs ys : List ℕ) → a ∉ xs ++ ys → (a ∉ xs) × (a ∉ ys)
not-mem-append a xs ys o = ground (arith, has-append a xs ys)

-- The list without the first `a`.
abbrev pub erase : ℕ → List ℕ → List ℕ
erase a [] = []
erase a (x ∷ xs) = if a == x then xs else x ∷ erase a xs

pub length-erase : (a : ℕ) (xs : List ℕ) → a ∈ xs → suc (length (erase a xs)) ≡ length xs
length-erase a [] m = cc
length-erase a (x ∷ xs) m = ground (arith, length-erase a xs)

-- In a list with no index twice, erasing takes out that index and no other.
pub has-erase :
    (a b : ℕ) (xs : List ℕ) → Distinct xs → has b (erase a xs) ≡ (not (a == b) && has b xs)
has-erase a b [] d = ground arith
has-erase a b (x ∷ xs) d = ground (arith, has-erase a b xs)

pub All-erase {κ} : (P : ℕ → Type κ) (a : ℕ) (xs : List ℕ) → All P xs → All P (erase a xs)
All-erase P a [] h = tt
All-erase P a (x ∷ xs) h = elim (Bool-cases (a == x)) [
  | inl e ↦ rw e h.1
  | inr e ↦ rw e (h.0, All-erase P a xs h.1)
]

pub Distinct-erase : (a : ℕ) (xs : List ℕ) → Distinct xs → Distinct (erase a xs)
Distinct-erase a [] d = tt
Distinct-erase a (x ∷ xs) d = elim (Bool-cases (a == x)) [
  | inl e ↦ rw e d.1
  | inr e ↦ rw e (ground (arith, has-erase a x xs d.1), Distinct-erase a xs d.1)
]

lt_pred : (n : ℕ) (xs : List ℕ) → n ∉ xs → All (λ x. x < suc n) xs → All (λ x. x < n) xs
lt_pred n [] o h = tt
lt_pred n (x ∷ xs) o h = (ground arith, lt_pred n xs (ground arith) h.1)

-- Distinct numbers below `n` are at most `n`.
pub length-le-bound : (n : ℕ) (xs : List ℕ) → Distinct xs → All (λ x. x < n) xs → length xs ≤ n
length-le-bound zero [] d h = omega arith
length-le-bound zero (x ∷ xs) d h = absurd (omega arith)
length-le-bound (suc n) xs d h = elim (Bool-cases (has n xs)) [
  | inl m ↦
      let le = length-le-bound n (erase n xs) (Distinct-erase n xs d) (
        lt_pred n (erase n xs) (ground (arith, has-erase n n xs d))
          (All-erase (λ x. x < suc n) n xs h)) in
      omega (arith, length-erase n xs m)
  | inr o ↦ omega (arith, length-le-bound n xs d (lt_pred n xs o h))
]

-- The lists before and behind a member.
pub record Split (a : ℕ) (xs : List ℕ) : Type 0 where
  pub before : List ℕ
  pub behind : List ℕ
  pub joined : xs ≡ before ++ a ∷ behind
  pub erased : erase a xs ≡ before ++ behind

pub split : (a : ℕ) (xs : List ℕ) → a ∈ xs → Split a xs
split a [] m = cc
split a (x ∷ xs) m = elim (Bool-cases (a == x)) [
  | inl e ↦ record {
    before = [];
    behind = xs;
    joined = ap (λ n. n ∷ xs) (sym ((==_iff a x).0 e));
    erased = rw e;
  }
  | inr e ↦
      let r = split a xs (ground arith) in
      record {
        before = x ∷ r.before;
        behind = r.behind;
        joined = ap (λ l. x ∷ l) r.joined;
        erased = rw e (ap (λ l. x ∷ l) r.erased);
      }
]

-- Two lists with no index twice, and none in both.
pub record Apart (xs ys : List ℕ) : Type 0 where
  pub left : Distinct xs
  pub right : Distinct ys
  pub apart : (i : ℕ) → i ∈ xs → i ∉ ys

pub Distinct-Apart : (xs ys : List ℕ) → Distinct (xs ++ ys) → Apart xs ys
Distinct-Apart [] ys d = record { left = tt; right = d; apart = λ i m. cc }
Distinct-Apart (x ∷ xs) ys d =
    let r = Distinct-Apart xs ys d.1 in
    let o = not-mem-append x xs ys d.0 in
    record {
      left = (o.0, r.left);
      right = r.right;
      apart = λ i m. elim (Bool-cases (i == x)) [
        | inl e ↦ rw ((==_iff i x).0 e) o.1
        | inr e ↦ r.apart i (ground arith)
      ];
    }
