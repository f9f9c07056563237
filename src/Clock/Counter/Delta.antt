-- ===== src/Clock/Counter/Delta.antt =====
-- How `logical_clock_read_clock_and_update` works out what the counter has counted.
use consequence.Base.{ℕ, ◌+◌, ◌-◌, ◌*◌, ◌%◌, ◌^◌, ◌<◌, ◌≤◌, ◌≡◌, arith, u64}
use consequence.Clock.Counter.{counter_delta}

-- The shifts by 16 leave the difference of the low 48 bits, in the high bits.
shifted :
    (new prev d : ℕ)
    → (prev + d) % 2 ^ 48 ≡ new % 2 ^ 48
    → d < 2 ^ 47
    → u64 (u64 (new * 2 ^ 16) + 2 ^ 64 - u64 (prev * 2 ^ 16)) ≡ d * 2 ^ 16
shifted new prev d e lt = omega arith

-- If the low 48 bits of the new count are `d` ahead of those of the old one, modulo 2 ^ 48, and `d`
-- is below 2 ^ 47, then the two shifts give the difference `d`.
pub counter_delta-eq :
    (new prev d : ℕ) → (prev + d) % 2 ^ 48 ≡ new % 2 ^ 48 → d < 2 ^ 47 → counter_delta new prev ≡ d
unfolding counter_delta
counter_delta-eq new prev d e lt = rw (shifted new prev d e lt) (ground arith)

shifted_back :
    (new prev d : ℕ)
    → (new + d) % 2 ^ 48 ≡ prev % 2 ^ 48
    → 0 < d
    → d ≤ 2 ^ 47
    → u64 (u64 (new * 2 ^ 16) + 2 ^ 64 - u64 (prev * 2 ^ 16)) ≡ 2 ^ 64 - d * 2 ^ 16
shifted_back new prev d e ahead le = omega arith

-- If the low 48 bits of the new count are `d` behind those of the old one, modulo 2 ^ 48, and `d` is
-- from 1 to 2 ^ 47, then the two shifts give the 64-bit pattern of -d.
pub counter_delta-neg :
    (new prev d : ℕ)
    → (new + d) % 2 ^ 48 ≡ prev % 2 ^ 48
    → 0 < d
    → d ≤ 2 ^ 47
    → counter_delta new prev ≡ 2 ^ 64 - d
unfolding counter_delta
counter_delta-neg new prev d e ahead le = rw (shifted_back new prev d e ahead le) (ground arith)
