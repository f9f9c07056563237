-- ===== src/Base/Outcomes.antt =====
-- How a run of code ends: with a value, at a failed `BUG_ON`, at an access outside an array, in a loop
-- that is run on fuel without fuel, or at a call of `exit`.
use mathlib.Core.Path.{◌≡◌, refl, ap}
use mathlib.Core.Bool.{Bool, true, false}
use consequence.Base.Tests.{if◌then◌else◌}

pub data Outcome {ℓ} (A : Type ℓ) : Type ℓ where
  ok : A → Outcome A
  bug : Outcome A
  out_of_bounds : Outcome A
  out_of_fuel : Outcome A
  exited : Outcome A

infixl 5 ◌>>=◌ ◌>>◌
abbrev pub ◌>>=◌ {ℓ κ} : {A : Type ℓ} {B : Type κ} → Outcome A → (A → Outcome B) → Outcome B
ok a >>= f = f a
bug >>= f = bug
out_of_bounds >>= f = out_of_bounds
out_of_fuel >>= f = out_of_fuel
exited >>= f = exited

abbrev pub ◌>>◌ {ℓ} : {B : Type ℓ} → Outcome (Unit {0}) → Outcome B → Outcome B
m >> k = m >>= λ _. k

-- `BUG_ON(b)`
abbrev pub bug_on : Bool → Outcome (Unit {0})
bug_on true = bug
bug_on false = ok tt

-- an array access is in range
abbrev pub in_range : Bool → Outcome (Unit {0})
in_range true = ok tt
in_range false = out_of_bounds

-- The run returns, and its value has the property.
pub data Returns {ℓ κ} {A : Type ℓ} (P : A → Type κ) : Outcome A → Type (ℓ ⊔ κ) where
  returns : {a : A} → P a → Returns P (ok a)

module _ {ℓ κ} {A : Type ℓ} {P : A → Type κ} where
  pub Returns-bind {ℓ' κ'} :
      {B : Type ℓ'} {Q : B → Type κ'} {m : Outcome A} {f : A → Outcome B}
      → Returns P m
      → ((a : A) → P a → Returns Q (f a))
      → Returns Q (m >>= f)
  Returns-bind (returns p) next = next _ p

  pub Returns-mono {κ'} :
      {Q : A → Type κ'} {m : Outcome A} → Returns P m → ((a : A) → P a → Q a) → Returns Q m
  Returns-mono (returns p) weaken = returns (weaken _ p)

  pub Returns-value : {m : Outcome A} → Returns P m → (a : A) × (m ≡ ok a) × P a
  Returns-value (returns p) = (_, refl, p)

  pub Returns-ok : {m : Outcome A} {a : A} → m ≡ ok a → P a → Returns P m
  Returns-ok e p = rw e (returns p)

-- Two continuations that agree give the same run.
pub bind-same {ℓ κ} :
    {A : Type ℓ} {B : Type κ} (m : Outcome A) {f g : A → Outcome B}
    → ((a : A) → f a ≡ g a)
    → (m >>= f) ≡ (m >>= g)
bind-same (ok a) h = h a
bind-same bug h = refl
bind-same out_of_bounds h = refl
bind-same out_of_fuel h = refl
bind-same exited h = refl

pub bind_assoc {ℓ κ ℓ'} :
    {A : Type ℓ} {B : Type κ} {C : Type ℓ'} (m : Outcome A) (f : A → Outcome B) (g : B → Outcome C)
    → ((m >>= f) >>= g) ≡ (m >>= λ a. f a >>= g)
bind_assoc (ok a) f g = refl
bind_assoc bug f g = refl
bind_assoc out_of_bounds f g = refl
bind_assoc out_of_fuel f g = refl
bind_assoc exited f g = refl

-- Where a property fits one value only, a run that returns with it returns that value.
pub Returns-unique {ℓ κ} :
    {A : Type ℓ} {P : A → Type κ} {m : Outcome A} {a : A}
    → ((x y : A) → P x → P y → x ≡ y)
    → Returns P m
    → P a
    → m ≡ ok a
Returns-unique one (returns p) q = ap ok (one _ _ p q)

-- The run fails no assertion, and if it returns, its value has the property. It may be cut short by
-- an `exit`, or still wait when its fuel ends.
pub data Safely {ℓ κ} {A : Type ℓ} (P : A → Type κ) : Outcome A → Type (ℓ ⊔ κ) where
  safely : {a : A} → P a → Safely P (ok a)
  safely_outside : Safely P out_of_bounds
  safely_waiting : Safely P out_of_fuel
  safely_exited : Safely P exited

module _ {ℓ κ} {A : Type ℓ} {P : A → Type κ} where
  pub Safely-bind {ℓ' κ'} :
      {B : Type ℓ'} {Q : B → Type κ'} {m : Outcome A} {f : A → Outcome B}
      → Safely P m
      → ((a : A) → P a → Safely Q (f a))
      → Safely Q (m >>= f)
  Safely-bind (safely p) next = next _ p
  Safely-bind safely_outside next = safely_outside
  Safely-bind safely_waiting next = safely_waiting
  Safely-bind safely_exited next = safely_exited

  pub Safely-mono {κ'} :
      {Q : A → Type κ'} {m : Outcome A} → Safely P m → ((a : A) → P a → Q a) → Safely Q m
  Safely-mono (safely p) weaken = safely (weaken _ p)
  Safely-mono safely_outside weaken = safely_outside
  Safely-mono safely_waiting weaken = safely_waiting
  Safely-mono safely_exited weaken = safely_exited

  pub Safely-if :
      (b : Bool) {m n : Outcome A} → Safely P m → Safely P n → Safely P (if b then m else n)
  Safely-if true p q = p
  Safely-if false p q = q

  -- the same, where each branch may use which it is
  pub Safely-cases :
      (b : Bool) {m n : Outcome A}
      → (b ≡ true → Safely P m)
      → (b ≡ false → Safely P n)
      → Safely P (if b then m else n)
  Safely-cases true p q = p refl
  Safely-cases false p q = q refl
