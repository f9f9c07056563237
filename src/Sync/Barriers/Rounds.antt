-- ===== src/Sync/Barriers/Rounds.antt =====
-- One round of a barrier.
use consequence.Base.{
  ℕ, ◌+◌, ◌<◌, ◌≡◌, refl, ◌%◌, ◌^◌, arith, true, false, ◌==◌, List, [], ◌∷◌, length, none, Returns,
  returns,
}
use consequence.Sync.{Determ, Services, is_token_holder, put_token}
use consequence.Sync.Barriers.{
  BarrierEntry, Pages, Versions, u16, barrier_init, next_version, arrive, leave_barrier,
}

-- Threads arrive with these pages, in order: the versions of each, and the barrier after them.
abbrev pub arrive_all : BarrierEntry → List Pages → List Versions × BarrierEntry
arrive_all barr [] = ([], barr)
arrive_all barr (pages ∷ rest) =
    let (versions, barr1) = arrive barr pages in
    let (others, barr2) = arrive_all barr1 rest in (versions ∷ others, barr2)

-- Each thread waits for the versions that the thread before it makes, the first one for `heap` and
-- `globals`, and makes a next version of what it has written.
abbrev pub Chained : ℕ → ℕ → List Pages → List Versions → Type 0
Chained heap globals [] [] = Unit
Chained heap globals [] (v ∷ vs) = ⊥
Chained heap globals (pages ∷ rest) [] = ⊥
Chained heap globals (pages ∷ rest) (v ∷ vs) =
    (v.heap_version ≡ heap)
    × (v.globals_version ≡ globals)
    × (v.our_heap_version ≡ next_version heap pages.dirty_heap)
    × (v.our_globals_version ≡ next_version globals pages.dirty_globals)
    × Chained v.our_heap_version v.our_globals_version rest vs

-- What the arrivals keep of the barrier, and count.
abbrev pub Counted : BarrierEntry → ℕ → BarrierEntry → Type 0
Counted barr n barr' =
    (barr'.counter ≡ barr.counter + n)
    × (barr'.maxthreads ≡ barr.maxthreads)
    × (barr'.threads ≡ barr.threads)
    × (barr'.arrival_phase ≡ barr.arrival_phase)

-- An arrival where the barrier's versions are `heap` and `globals`.
abbrev arrival : BarrierEntry → Pages → ℕ → ℕ → Versions × BarrierEntry
arrival barr pages heap globals = (
  record {
    heap_version = heap;
    globals_version = globals;
    our_heap_version = next_version heap pages.dirty_heap;
    our_globals_version = next_version globals pages.dirty_globals;
  },
  record barr {
    counter = barr.counter + 1;
    total_dirty = (barr.total_dirty + pages.dirty) % 2 ^ 32;
    heap_version = next_version heap pages.dirty_heap;
    globals_version = next_version globals pages.dirty_globals;
  },
)

arrive-later :
    (barr : BarrierEntry) (pages : Pages)
    → 0 < barr.counter
    → barr.counter + 1 < 2 ^ 16
    → arrive barr pages ≡ arrival barr pages barr.heap_version barr.globals_version
unfolding arrive
arrive-later barr pages came few =
    let counts : u16 (barr.counter + 1) ≡ barr.counter + 1 = omega arith in
    let later : (barr.counter + 1 == 1) ≡ false = ground arith in rw (counts, later) refl

arrive-first :
    (barr : BarrierEntry) (pages : Pages)
    → barr.counter ≡ 0
    → arrive barr pages ≡ arrival barr pages (u16 pages.heap_version) (u16 pages.globals_version)
unfolding arrive
arrive-first barr pages none_came = rw none_came refl

-- After the first arrival.
arrive_all-Chained :
    (ps : List Pages) (barr : BarrierEntry)
    → 0 < barr.counter
    → barr.counter + length ps < 2 ^ 16
    → Chained barr.heap_version barr.globals_version ps (arrive_all barr ps).0
      × Counted barr (length ps) (arrive_all barr ps).1
arrive_all-Chained [] barr came few = (tt, (omega arith, refl, refl, refl))
arrive_all-Chained (pages ∷ ps) barr came few =
    let barr1 = (arrival barr pages barr.heap_version barr.globals_version).1 in
    let r = arrive_all-Chained ps barr1 (omega arith) (omega arith) in
    rw (arrive-later barr pages came (omega arith))
      ((refl, refl, refl, refl, r.0), (omega (arith, r.1.0), r.1.1, r.1.2, r.1.3))

-- A barrier for as many threads as arrive, at least one and fewer than 2 ^ 16, that is as
-- `barrier_init` made it: each thread waits for the versions that the one before it makes, and makes
-- the next version of the heap and of the globals if it has written to them, starting at the first
-- thread's current versions, all modulo 2 ^ 16; and all are counted. When the last of them, who holds
-- the token, leaves, its run returns, the barrier is as `barrier_init` made it, and the token is free.
pub barrier_round :
    {S : Type 0} (V : Services S) (d : Determ S) (t : ℕ) (pages : Pages) (ps : List Pages)
    → length (pages ∷ ps) < 2 ^ 16
    → is_token_holder d t ≡ true
    → let r = arrive_all (barrier_init (length (pages ∷ ps))) (pages ∷ ps) in
      Chained (u16 pages.heap_version) (u16 pages.globals_version) (pages ∷ ps) r.0
      × (r.1.counter ≡ r.1.maxthreads)
      × Returns
          (λ (l : BarrierEntry × Determ S).
            (l.0 ≡ barrier_init (length (pages ∷ ps))) × (l.1.tokenpos ≡ none))
          (leave_barrier V d r.1 t)
unfolding barrier_init leave_barrier put_token is_token_holder
barrier_round V d t pages ps few holds =
    let start = barrier_init (length (pages ∷ ps)) in
    let first = arrival start pages (u16 pages.heap_version) (u16 pages.globals_version) in
    let r = arrive_all-Chained ps first.1 (omega arith) (omega arith) in
    rw (arrive-first start pages refl, holds)
      (
        (refl, refl, refl, refl, r.0),
        omega (arith, r.1.0, r.1.1),
        returns (rw (r.1.1, r.1.2, r.1.3) refl, refl),
      )
