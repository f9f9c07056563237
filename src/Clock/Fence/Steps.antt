-- ===== src/Clock/Fence/Steps.antt =====
-- The single steps at the end of a chunk: how many there are, and what the last one leaves.
use consequence.Base.{
  ℕ, zero, suc, ◌+◌, ◌-◌, ◌≤◌, ◌<◌, ◌^◌, ◌≡◌, refl, ap, Bool-cases, inl, inr, ◌∙◌, Bool, true,
  false, ltb, leb, ◌==◌, arith, u64, if◌then◌else◌,
}
use consequence.Clock.State.{store_self, Context, Group, tick_counter_is_running}
use consequence.Clock.Fence.{
  bounded_chunk_size, remaining_ticks, begin_bounded_memory_fence, on_single_step,
}

-- `n` single-step traps in a row
unfoldable pub steps : ℕ → Context → Group → Group
steps zero c g = g
steps (suc n) c g = steps n c (on_single_step c g true).0

-- Where the calling thread stands: the count, the clock, the fence flag and the signals.
pub record Stands (c : Context) (g : Group) (count ticks : ℕ) (fence : Bool) (signals : ℕ)
    : Type 0 where
  pub count_is : (g.clocks c.tid).count_ticks ≡ count
  pub ticks_is : (g.clocks c.tid).ticks ≡ ticks
  pub fence_is : (g.users c.tid).hit_bounded_fence ≡ fence
  pub signals_is : (g.tasks c.tid).signals ≡ signals

module _ (c : Context) (built : c.build.fence ≡ true) where
  -- A step with more than one step left.
  on_single_step-more :
      (g : Group) (n ticks signals : ℕ) (fence : Bool)
      → Stands c g (suc (suc (suc (suc n)))) ticks fence signals
      → Stands c (on_single_step c g true).0 (suc (suc (suc n))) (u64 (ticks + 1)) fence signals
  unfolding on_single_step
  on_single_step-more g n ticks signals fence s =
      let one_less : suc (suc (suc (suc n))) - 1 ≡ suc (suc (suc n)) = omega arith in
      let on : ltb 1 (suc (suc (suc (suc n)))) ≡ true = ground arith in
      let more : leb (suc (suc (suc n))) 2 ≡ false = ground arith in
      simp (store_self, built, s.count_is, s.ticks_is, one_less, on, more)
        (record {
          count_is = simp store_self;
          ticks_is = simp store_self;
          fence_is = s.fence_is;
          signals_is = s.signals_is;
        })

  -- The last step turns the counter off, sets the flag and sends the signal.
  on_single_step-last :
      (g : Group) (ticks signals : ℕ) (fence : Bool)
      → Stands c g 3 ticks fence signals
      → Stands c (on_single_step c g true).0 0 (u64 (ticks + 1)) true (suc signals)
  unfolding on_single_step
  on_single_step-last g ticks signals fence s =
      simp (store_self, built, s.count_is, s.ticks_is)
        (record {
          count_is = simp store_self;
          ticks_is = simp store_self;
          fence_is = simp store_self;
          signals_is = simp store_self (ap suc s.signals_is);
        })

module _ {c : Context} {g : Group} {count ticks signals : ℕ} {fence : Bool}
    (s : Stands c g count ticks fence signals) where
  Stands-same :
      {count' ticks' : ℕ} → count ≡ count' → ticks ≡ ticks' → Stands c g count' ticks' fence signals
  Stands-same e e' = record {
    count_is = s.count_is ∙ e;
    ticks_is = s.ticks_is ∙ e';
    fence_is = s.fence_is;
    signals_is = s.signals_is;
  }

module _ (c : Context) (built : c.build.fence ≡ true) where
  -- Some of the steps: the count goes down and the clock goes on.
  steps-more :
      (m r : ℕ) (g : Group) (n ticks signals : ℕ) (fence : Bool)
      → n ≡ m + r
      → ticks < 2 ^ 64
      → Stands c g (suc (suc (suc n))) ticks fence signals
      → Stands c (steps m c g) (suc (suc (suc r))) (u64 (ticks + m)) fence signals
  unfolding steps
  steps-more zero r g n ticks signals fence e lt s = Stands-same s (omega arith) (omega arith)
  steps-more (suc m) r g zero ticks signals fence e lt s = absurd (omega arith)
  steps-more (suc m) r g (suc n) ticks signals fence e lt s =
      Stands-same
        (steps-more m r (on_single_step c g true).0 n (u64 (ticks + 1)) signals fence (omega arith)
          (omega arith) (on_single_step-more c built g n ticks signals fence s))
        refl (omega arith)

  -- All of the steps: the counter is off, the flag is set and the signal sent.
  steps-last :
      (r : ℕ) (g : Group) (ticks signals : ℕ) (fence : Bool)
      → ticks < 2 ^ 64
      → Stands c g (suc (suc (suc r))) ticks fence signals
      → Stands c (steps (suc r) c g) 0 (u64 (ticks + suc r)) true (suc signals)
  unfolding steps
  steps-last zero g ticks signals fence lt s =
      Stands-same (on_single_step-last c built g ticks signals fence s) refl (omega arith)
  steps-last (suc r) g ticks signals fence lt s =
      Stands-same
        (steps-last r (on_single_step c g true).0 (u64 (ticks + 1)) signals fence (omega arith)
          (on_single_step-more c built g r ticks signals fence s))
        refl (omega arith)

  remaining_ticks-eq :
      (g : Group) (r : ℕ)
      → (g.clocks c.tid).chunk_ticks + suc r ≡ bounded_chunk_size
      → remaining_ticks g c.tid ≡ suc r
  unfolding remaining_ticks
  remaining_ticks-eq g r left = ground arith

  begin-Stands :
      (g : Group) (r ticks signals : ℕ) (fence : Bool)
      → (g.clocks c.tid).chunk_ticks + suc r ≡ bounded_chunk_size
      → tick_counter_is_running c g ≡ true
      → (g.clocks c.tid).ticks ≡ ticks
      → (g.users c.tid).hit_bounded_fence ≡ fence
      → (g.tasks c.tid).signals ≡ signals
      → Stands c (begin_bounded_memory_fence c g) (suc (suc (suc r))) ticks fence signals
  unfolding begin_bounded_memory_fence
  begin-Stands g r ticks signals fence left running t f s =
      let some_left : (suc r == 0) ≡ false = ground arith in
      elim (Bool-cases c.nmi) [
        | inl nmi ↦
            simp (built, remaining_ticks-eq g r left, running, nmi, some_left)
              (record {
                count_is = simp store_self (omega arith);
                ticks_is = simp store_self t;
                fence_is = f;
                signals_is = s;
              })
        | inr outside ↦
            simp (built, remaining_ticks-eq g r left, running, outside, some_left)
              (record {
                count_is = simp store_self (omega arith);
                ticks_is = simp store_self t;
                fence_is = f;
                signals_is = simp store_self s;
              })
      ]

  -- In a build with the bounded fence, where ticks are counted and `left` ticks, more than none, are
  -- to go in the chunk when the fence begins: after `m` single steps, `m` below `left`, the thread
  -- is still stepped, with `left - m` steps to go and its clock `m` ahead, modulo 2 ^ 64; after
  -- `left` steps the counter is off, the fence flag is set and one SIGUSR1 has been sent.
  pub fence_ends_chunk :
      (g : Group) (left m : ℕ)
      → (g.clocks c.tid).chunk_ticks + left ≡ bounded_chunk_size
      → 0 < left
      → m ≤ left
      → tick_counter_is_running c g ≡ true
      → (g.clocks c.tid).ticks < 2 ^ 64
      → Stands c
          (steps m c (begin_bounded_memory_fence c g))
          (if m == left then 0 else left - m + 2)
          (u64 ((g.clocks c.tid).ticks + m))
          (if m == left then true else (g.users c.tid).hit_bounded_fence)
          (if m == left then suc (g.tasks c.tid).signals else (g.tasks c.tid).signals)
  fence_ends_chunk g zero m e some_left le running lt = absurd (omega arith)
  fence_ends_chunk g (suc r) m e some_left le running lt =
      let start = begin-Stands g r _ _ _ e running refl refl refl in
      elim (Bool-cases (m == suc r)) [
        | inl all ↦
            let same : m ≡ suc r = ground arith in rw (all, same) (steps-last r _ _ _ _ lt start)
        | inr some ↦ rw some (
            Stands-same (steps-more m (r - m) _ r _ _ _ (ground arith) lt start) (ground arith)
              refl)
      ]
