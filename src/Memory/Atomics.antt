-- ===== src/Memory/Atomics.antt =====
-- thread_lib/include/xatomic.h: atomic operations on an `unsigned long`, less `atomic_set`. All but
-- `exchange` use instructions on 32 bits, so they change its lower half and return that as an `int`,
-- which is its 32-bit pattern here.
use consequence.Base.{ℕ, ◌+◌, ◌-◌, ◌*◌, ◌/◌, ◌%◌, ◌^◌, ◌<◌, ◌≡◌, refl, arith}

-- the lower half of the word, and the word with another one
abbrev pub low_half : ℕ → ℕ
low_half obj = obj % 2 ^ 32

abbrev pub with_low_half : ℕ → ℕ → ℕ
with_low_half obj low = obj / 2 ^ 32 * 2 ^ 32 + low % 2 ^ 32

-- `exchange`: the value that it returns, and the new one
unfoldable pub exchange : ℕ → ℕ → ℕ × ℕ
exchange oldval newval = (oldval, newval)

-- `add`, with the pattern of an `int`
unfoldable pub add : ℕ → ℕ → ℕ
add i obj = with_low_half obj (low_half obj + i)

-- `increment` and `decrement`
unfoldable pub increment : ℕ → ℕ
increment obj = with_low_half obj (low_half obj + 1)

unfoldable pub decrement : ℕ → ℕ
decrement obj = with_low_half obj (low_half obj + (2 ^ 32 - 1))

-- `increment_and_return` and `decrement_and_return`, by an exchange and an addition
unfoldable pub increment_and_return : ℕ → ℕ × ℕ
increment_and_return obj = (low_half obj, with_low_half obj (low_half obj + 1))

unfoldable pub decrement_and_return : ℕ → ℕ × ℕ
decrement_and_return obj = (low_half obj, with_low_half obj (low_half obj + (2 ^ 32 - 1)))

-- `atomic_read`
unfoldable pub atomic_read : ℕ → ℕ
atomic_read obj = low_half obj

-- On a word below 2 ^ 64, the two increments and the two decrements do the same, and each undoes the
-- other; those that return a value return the one before.
pub decrement-increment :
    (obj : ℕ)
    → obj < 2 ^ 64
    → (decrement (increment obj) ≡ obj)
      × (increment (decrement obj) ≡ obj)
      × (increment_and_return obj ≡ (atomic_read obj, increment obj))
      × (decrement_and_return obj ≡ (atomic_read obj, decrement obj))
unfolding increment decrement increment_and_return decrement_and_return atomic_read
decrement-increment obj h = (omega arith, omega arith, refl, refl)

-- Where the lower half of a word is all ones, `increment` takes 2 ^ 32 - 1 off it.
pub increment_carry : (obj : ℕ) → obj % 2 ^ 32 ≡ 2 ^ 32 - 1 → increment obj + (2 ^ 32 - 1) ≡ obj
unfolding increment
increment_carry obj h = omega arith
