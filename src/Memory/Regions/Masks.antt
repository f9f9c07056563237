-- ===== src/Memory/Regions/Masks.antt =====
-- The bounds of the globals in thread_lib/include/xglobals.h, which masks round to whole pages.
use Prim.Native.Nat.{min, digits, bit_and-bitwise}
use consequence.Base.{
  ℕ, zero, suc, ◌+◌, ◌-◌, ◌*◌, ◌/◌, ◌%◌, ◌^◌, ◌≤◌, ◌<◌, ◌==◌, false, ◌≡◌, ◌≢◌, refl, arith, u64,
}
use consequence.Memory.{page_size}
use consequence.Memory.Regions.Both.{page_align_down, page_align_up, globals_size}

abbrev pow2 : ℕ → ℕ
pow2 zero = 1
pow2 (suc k) = 2 * pow2 k

-- `j` zeros below `k` ones
abbrev mask : ℕ → ℕ → ℕ
mask zero k = pow2 k - 1
mask (suc j) k = 2 * mask j k

abbrev and_with : ℕ → ℕ → ℕ → ℕ
and_with n a b = digits (λ b. zero) min n a b

pow2_pos : (k : ℕ) → 0 < pow2 k
pow2_pos zero = omega arith
pow2_pos (suc k) = omega (arith, pow2_pos k)

and_ones : (k n a : ℕ) → a ≤ n → a < pow2 k → and_with n a (mask zero k) ≡ a
and_ones k zero zero p q = refl
and_ones k zero (suc a) p q = absurd (omega arith)
and_ones k (suc n) zero p q = refl
and_ones zero (suc n) (suc a) p q = absurd (omega arith)
and_ones (suc k) (suc n) (suc a) p q =
    let positive = pow2_pos k in
    let half : (2 * pow2 k - 1) / 2 ≡ pow2 k - 1 = omega arith in
    let odd : (2 * pow2 k - 1) % 2 ≡ 1 = omega arith in
    rw (half, odd, and_ones k n (suc a / 2) (omega arith) (omega arith)) (omega arith)

-- What is below `a` by less than `p`, and a multiple of `p`.
record RoundedTo (p a r : ℕ) : Type 0 where
  pub times : ℕ
  pub multiple : r ≡ times * p
  pub below : r ≤ a
  pub near : a < r + p

zero-RoundedTo : (p : ℕ) → 0 < p → RoundedTo p 0 0
zero-RoundedTo p h = record {
  times = 0;
  multiple = omega arith;
  below = omega arith;
  near = omega arith;
}

double-RoundedTo :
    (p a half r digit : ℕ)
    → RoundedTo p half r
    → half * 2 ≤ a
    → a < half * 2 + 2
    → digit ≡ 0
    → RoundedTo (2 * p) a (r * 2 + digit)
double-RoundedTo p a half r digit h lo hi none =
    let multiple = h.multiple in
    let below = h.below in
    let near = h.near in
    record { times = h.times; multiple = grind arith; below = omega arith; near = omega arith }

and_mask :
    (j k n a : ℕ) → a ≤ n → a < pow2 j * pow2 k → RoundedTo (pow2 j) a (and_with n a (mask j k))
and_mask zero k n a p q =
    rw (and_ones k n a p (omega arith))
      record { times = a; multiple = omega arith; below = omega arith; near = omega arith }
and_mask (suc j) k zero zero p q = zero-RoundedTo (pow2 (suc j)) (pow2_pos (suc j))
and_mask (suc j) k (suc n) zero p q = zero-RoundedTo (pow2 (suc j)) (pow2_pos (suc j))
and_mask (suc j) k zero (suc a) p q = absurd (omega arith)
and_mask (suc j) k (suc n) (suc a) p q =
    let half : 2 * mask j k / 2 ≡ mask j k = omega arith in
    let even : 2 * mask j k % 2 ≡ 0 = omega arith in
    let apart : 2 * pow2 j * pow2 k ≡ 2 * (pow2 j * pow2 k) = grind arith in
    rw (half, even)
      (double-RoundedTo (pow2 j) (suc a) (suc a / 2) _ _
        (and_mask j k n (suc a / 2) (omega arith) (omega arith)) (omega arith) (omega arith)
        (omega arith))

-- 2 ^ 64 - 4096 is twelve zeros below fifty-two ones.
abbrev page_mask : ℕ
page_mask = 2 ^ 64 - page_size

page_align_down-RoundedTo : (x : ℕ) → x < 2 ^ 64 → RoundedTo page_size x (page_align_down x)
unfolding page_align_down
page_align_down-RoundedTo x h =
    rw (bit_and-bitwise x page_mask) (and_mask 12 52 x x (omega arith) h)

globals_size-pages :
    (data_start end_address : ℕ)
    → 0 < end_address
    → end_address + page_size < 2 ^ 64
    → globals_size data_start end_address
      ≡ u64
          (page_align_down (end_address + (page_size - 2)) + (2 ^ 64 - page_align_down data_start))
unfolding globals_size page_align_up page_align_down
globals_size-pages data_start end_address positive space =
    let last : u64 (u64 (end_address + (2 ^ 64 - 1)) + (page_size - 1))
        ≡ end_address + (page_size - 2) =
      omega arith in
    rw last refl

-- Where the globals start below their end, the page above it is below 2 ^ 64, and the last of their
-- bytes is not the first of a page: the region that the macros name for them is of whole pages, starts
-- at or below their start, by less than a page, and ends at or above their end, by less than a page.
pub globals_size-covers :
    (data_start end_address : ℕ)
    → data_start < end_address
    → end_address + page_size < 2 ^ 64
    → (end_address % page_size == 1) ≡ false
    → (page_align_down data_start % page_size ≡ 0)
      × (page_align_down data_start ≤ data_start)
      × (data_start < page_align_down data_start + page_size)
      × (globals_size data_start end_address % page_size ≡ 0)
      × (end_address ≤ page_align_down data_start + globals_size data_start end_address)
      × (page_align_down data_start + globals_size data_start end_address < end_address + page_size)
globals_size-covers data_start end_address before space inside =
    let size = globals_size-pages data_start end_address (omega arith) space in
    let low = page_align_down-RoundedTo data_start (omega arith) in
    let high = page_align_down-RoundedTo (end_address + (page_size - 2)) (omega arith) in
    let low1 = low.multiple in
    let low2 = low.below in
    let low3 = low.near in
    let high1 = high.multiple in
    let high2 = high.below in
    let high3 = high.near in
    let odd : end_address % page_size ≢ 1 = λ e. absurd (ground arith) in
    (omega arith, omega arith, omega arith, omega arith, omega arith, omega arith)

-- Where the last byte of the globals is the first of a page, that byte is left out: the region ends
-- where it stands.
pub globals_size_short :
    (data_start end_address : ℕ)
    → data_start < end_address
    → end_address + page_size < 2 ^ 64
    → end_address % page_size ≡ 1
    → page_align_down data_start + globals_size data_start end_address ≡ end_address - 1
globals_size_short data_start end_address before space edge =
    let size = globals_size-pages data_start end_address (omega arith) space in
    let low = page_align_down-RoundedTo data_start (omega arith) in
    let high = page_align_down-RoundedTo (end_address + (page_size - 2)) (omega arith) in
    let low1 = low.multiple in
    let low2 = low.below in
    let low3 = low.near in
    let high1 = high.multiple in let high2 = high.below in let high3 = high.near in omega arith
