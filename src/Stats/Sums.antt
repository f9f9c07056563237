-- ===== src/Stats/Sums.antt =====
-- What the times of stats.h of thread_lib add up to.
use consequence.Base.{
  ℕ, zero, suc, ◌+◌, ◌-◌, ◌^◌, ◌≤◌, ◌<◌, ◌≡◌, refl, sym, arith, u64, true, false, ltb, ◌==◌,
  store_self, store_ne, List, [], ◌∷◌, All, Outcome, ok, ◌>>=◌, Returns, returns, Returns-bind,
  Returns-mono, lt→ltb, length, inl, inr, Bool-cases, ap, ◌∙◌,
}
use consequence.Stats.{
  total_pids, Time, StatsStruct, CommitStats, microseconds, time_diff, as_int, at_pid,
  stats_pid_start, stats_pid_end, end_interval, stats_pid_aggregate, aggregate_first,
}

-- an interval and its length, where it is shorter than 2 ^ 31 microseconds
abbrev pub IsShort : Time × Time → Type 0
IsShort (start, end_time) =
    (microseconds start ≤ microseconds end_time)
    × (microseconds end_time < microseconds start + 2 ^ 31)

abbrev pub span : Time × Time → ℕ
span (start, end_time) = microseconds end_time - microseconds start

abbrev pub spans : List (Time × Time) → ℕ
spans [] = 0
spans (i ∷ is) = span i + spans is

-- one interval of a process
unfoldable pub measure_one : CommitStats → ℕ → Time × Time → Outcome CommitStats
measure_one s pid i = do
  s1 ← stats_pid_start s pid i.0
  (diff, s2) ← stats_pid_end s1 pid i.1
  ok s2

-- intervals of a process, each started and ended
unfoldable pub measure : CommitStats → ℕ → List (Time × Time) → Outcome CommitStats
measure s pid [] = ok s
measure s pid (i ∷ is) = do s1 ← measure_one s pid i; measure s1 pid is

time_diff-span :
    (start end_time : Time)
    → IsShort (start, end_time)
    → time_diff start end_time ≡ span (start, end_time)
unfolding time_diff
time_diff-span start end_time h = let order = h.0 in let short = h.1 in omega arith

-- what an interval adds to its process
pub record Added (s : CommitStats) (pid time ops : ℕ) (s' : CommitStats) : Type 0 where
  pub total_time : (s'.per_pid_stats pid).total_time ≡ (s.per_pid_stats pid).total_time + time
  pub total_ops : (s'.per_pid_stats pid).total_ops ≡ (s.per_pid_stats pid).total_ops + ops
  pub others : (q : ℕ) → (pid == q) ≡ false → s'.per_pid_stats q ≡ s.per_pid_stats q

interval-Added :
    (s : CommitStats) (pid : ℕ) (start end_time : Time)
    → pid < total_pids
    → IsShort (start, end_time)
    → (s.per_pid_stats pid).total_time + span (start, end_time) < 2 ^ 64
    → (s.per_pid_stats pid).total_ops + 1 < 2 ^ 64
    → Returns (Added s pid (span (start, end_time)) 1) (measure_one s pid (start, end_time))
unfolding measure_one stats_pid_start stats_pid_end at_pid end_interval
interval-Added s pid start end_time known short time ops =
    let started = record (s.per_pid_stats pid) { time_start = start } in
    let order = short.0 in
    let less = short.1 in
    let as_it_is : as_int (span (start, end_time)) ≡ span (start, end_time) = omega arith in
    let small : ltb (span (start, end_time)) (2 ^ 31) ≡ true = ground arith in
    rw
      (
        lt→ltb pid total_pids known,
        store_self s.per_pid_stats pid started,
        time_diff-span start end_time short,
        as_it_is,
        small,
      )
      (returns record {
        total_time = ap (λ (x : StatsStruct). x.total_time) (store_self _ pid _) ∙ omega arith;
        total_ops = ap (λ (x : StatsStruct). x.total_ops) (store_self _ pid _) ∙ omega arith;
        others = λ q apart. store_ne _ pid q _ apart ∙ store_ne s.per_pid_stats pid q _ apart;
      })

aggregate_first-outside :
    (n pid : ℕ) (p q : ℕ → StatsStruct)
    → n ≤ pid
    → ((i : ℕ) → (pid == i) ≡ false → q i ≡ p i)
    → aggregate_first n q ≡ aggregate_first n p
unfolding aggregate_first
aggregate_first-outside zero pid p q outside same = refl
aggregate_first-outside (suc n) pid p q outside same =
    rw (aggregate_first-outside n pid p q (omega arith) same, same n (ground arith)) refl

aggregate_first-inside :
    (n pid time : ℕ) (p q : ℕ → StatsStruct)
    → pid < n
    → (q pid).total_time ≡ (p pid).total_time + time
    → ((i : ℕ) → (pid == i) ≡ false → q i ≡ p i)
    → aggregate_first n q ≡ u64 (aggregate_first n p + time)
unfolding aggregate_first
aggregate_first-inside zero pid time p q inside more same = absurd (omega arith)
aggregate_first-inside (suc n) pid time p q inside more same = elim (Bool-cases (pid == n)) [
  | inl here ↦
      let at : pid ≡ n = ground arith in
      let before = aggregate_first-outside n pid p q (omega arith) same in
      let more' : (q n).total_time ≡ (p n).total_time + time = rw (sym at) more in omega arith
  | inr apart ↦
      let before = aggregate_first-inside n pid time p q (ground arith) more same in
      rw (same n apart) (omega arith)
]

measure-Added :
    (s : CommitStats) (pid : ℕ) (is : List (Time × Time))
    → pid < total_pids
    → All IsShort is
    → (s.per_pid_stats pid).total_time + spans is < 2 ^ 64
    → (s.per_pid_stats pid).total_ops + length is < 2 ^ 64
    → Returns (Added s pid (spans is) (length is)) (measure s pid is)
unfolding measure
measure-Added s pid [] known short time ops =
    returns record { total_time = omega arith; total_ops = omega arith; others = λ q _. refl }
measure-Added s pid ((start, end_time) ∷ is) known short time ops =
    Returns-bind (interval-Added s pid start end_time known short.0 (omega arith) (omega arith))
      λ s1 one.
        let time1 = one.total_time in
        let ops1 = one.total_ops in
        Returns-mono (measure-Added s1 pid is known short.1 (omega arith) (omega arith)) λ s2 rest.
          let time2 = rest.total_time in
          let ops2 = rest.total_ops in
          record {
            total_time = omega arith;
            total_ops = omega arith;
            others = λ q apart. rest.others q apart ∙ one.others q apart;
          }

-- For a process below 100000, and intervals each of less than 2 ^ 31 microseconds, whose times and
-- number, added to the process's, are below 2 ^ 64: when all have been started and ended, the
-- process's time has grown by the sum of their lengths and its count by their number, other
-- processes keep theirs, and the aggregate has grown by that sum, modulo 2 ^ 64.
pub measure-aggregate :
    (s : CommitStats) (pid : ℕ) (is : List (Time × Time))
    → pid < total_pids
    → All IsShort is
    → (s.per_pid_stats pid).total_time + spans is < 2 ^ 64
    → (s.per_pid_stats pid).total_ops + length is < 2 ^ 64
    → Returns
        (λ s'.
          Added s pid (spans is) (length is) s'
          × (stats_pid_aggregate s' ≡ u64 (stats_pid_aggregate s + spans is)))
        (measure s pid is)
unfolding stats_pid_aggregate
measure-aggregate s pid is known short time ops =
    Returns-mono (measure-Added s pid is known short time ops) λ s' added. (
      added,
      aggregate_first-inside total_pids pid (spans is) s.per_pid_stats s'.per_pid_stats known
          added.total_time added.others,
    )

-- An interval of 2 ^ 31 up to 2 ^ 32 microseconds takes from the process's total time what it lacks
-- to 2 ^ 32, if the total time is as much.
pub end_interval-long :
    (p : StatsStruct) (now : Time)
    → microseconds p.time_start + 2 ^ 31 ≤ microseconds now
    → microseconds now < microseconds p.time_start + 2 ^ 32
    → 2 ^ 31 ≤ p.total_time
    → p.total_time < 2 ^ 64
    → (end_interval p now).total_time + 2 ^ 32
      ≡ p.total_time + (microseconds now - microseconds p.time_start)
unfolding end_interval time_diff
end_interval-long p now long short old space =
    let difference : u64 (microseconds now + (2 ^ 64 - microseconds p.time_start))
        ≡ microseconds now - microseconds p.time_start =
      omega arith in
    let int : as_int (microseconds now - microseconds p.time_start)
        ≡ microseconds now - microseconds p.time_start =
      omega arith in
    let negative : ltb (microseconds now - microseconds p.time_start) (2 ^ 31) ≡ false =
      ground arith in
    rw (difference, int, negative) (omega arith)
