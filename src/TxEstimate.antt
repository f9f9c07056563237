-- ===== src/TxEstimate.antt =====
-- logical_clock/lib/tx_estimate.h: estimates of how long a transaction will be, by the identifier of
-- the lock or the call that ends it. The floating-point average and what `abs` gives at the least
-- `int`, which C leaves undefined, are parameters.
pub mod Ring
use consequence.Base.{
  ℕ, zero, suc, ◌+◌, ◌-◌, ◌*◌, ◌/◌, ◌%◌, ◌^◌, u64, Bool, true, false, ltb, ◌==◌, update,
  if◌then◌else◌,
}
use Prim.Native.Nat.{bit_and}

abbrev pub min_observations : ℕ
min_observations = 10

abbrev pub total_observations : ℕ
total_observations = 10

abbrev pub total_entries : ℕ
total_entries = 32

-- `struct tx_estimate`
pub record Estimate : Type 0 where
  pub ewma : ℕ
  pub observations : ℕ → ℕ
  pub counter : ℕ

-- `struct tx_estimator`
pub record Estimator : Type 0 where
  pub entries : ℕ → Estimate

-- `tx_estimate_init`
unfoldable pub estimate_init : Estimator
estimate_init = record { entries = λ i. record { ewma = 0; observations = λ j. 0; counter = 0 } }

-- The index of `__tx_get_entry`.
unfoldable pub get_entry : ℕ → ℕ
get_entry identifier =
    if identifier == 0
    then 0
    else bit_and (bit_and identifier 65280 / 2 ^ 8) (bit_and identifier 16711680 / 2 ^ 16)
        % (total_entries - 1)
      + 1

-- `tx_estimate_add_observation`, where `average ticks ewma` is the rounded weighted average
unfoldable pub add_observation : (ℕ → ℕ → ℕ) → Estimator → ℕ → ℕ → Estimator
unfolding get_entry
add_observation average txe identifier ticks =
    let tx = txe.entries (get_entry identifier) in
    record {
      entries = update txe.entries (get_entry identifier) (record {
        ewma = average ticks tx.ewma;
        observations = update tx.observations (tx.counter % total_observations) ticks;
        counter = u64 (tx.counter + 1);
      });
    }

-- `abs` of a 64-bit difference, of which an `int` keeps the low 32 bits; `least` is its value at the
-- least `int`.
unfoldable pub abs_int : ℕ → ℕ → ℕ
abs_int least x =
    let y = x % 2 ^ 32 in if ltb y (2 ^ 31) then y else if y == 2 ^ 31 then least else 2 ^ 32 - y

-- The loop of `tx_estimate_next_observation_guess` over `i`, with the rounds that are left.
unfoldable pub total_deviation : ℕ → Estimate → ℕ → ℕ → ℕ → ℕ
unfolding abs_int
total_deviation least tx zero i total = total
total_deviation least tx (suc rounds) i total =
    total_deviation least tx rounds (i + 1)
      (u64 (total + abs_int least (u64 (tx.observations i + 2 ^ 64 - tx.ewma))))

-- `tx_estimate_next_observation_guess`, as the 64-bit pattern of its result
unfoldable pub next_observation_guess : ℕ → Estimator → ℕ → ℕ
unfolding get_entry total_deviation
next_observation_guess least txe identifier =
    let tx = txe.entries (get_entry identifier) in
    let total = total_deviation least tx total_observations 0 0 in
    if ltb min_observations tx.counter
    then u64 (tx.ewma + total / total_observations)
    else 2 ^ 64 - 1
