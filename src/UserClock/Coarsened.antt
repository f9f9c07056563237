-- ===== src/UserClock/Coarsened.antt =====
-- Coarsened transactions of determ_clock.c: the ticks that are counted in user space.
use consequence.Base.{
  ℕ, ◌+◌, ◌-◌, ◌%◌, ◌^◌, ◌<◌, ◌≤◌, ◌≡◌, refl, ap, ◌∙◌, u64, arith, true, false, Bool-cases, inl,
  inr, ltb, ok, Returns, returns, Returns-bind, Returns-mono,
}
use consequence.UserClock.Lowest.{call-Returns}
use consequence.UserClock.{
  Kernel, Process, int32_arg, raw_delta, user_status, read, add_clock_ticks,
}
use consequence.UserClock.Transactions.{
  get_last_tx_size, end_coarsened_tx, start_no_notify, stop_with_id_no_notify,
}

-- The shifts by 16 leave the difference of the low 48 bits.
pub raw_delta-eq :
    (new last d : ℕ) → (last + d) % 2 ^ 48 ≡ new % 2 ^ 48 → d < 2 ^ 48 → raw_delta new last ≡ d
unfolding raw_delta
raw_delta-eq new last d e lt = omega arith

module _ {S : Type 0} (K : Kernel S) where
  -- the thread's next state, when the program has run to the state `s`
  abbrev pub at_state : Process S → S → Process S
  at_state p s = record p { state = s }

  -- A transaction inside a coarsened one starts at once.
  start_no_notify-in :
      (p : Process S)
      → p.info.in_coarsened_tx ≡ true
      → start_no_notify K p
        ≡ ok (record p {
          info = record p.info {
            last_clock_value = read K p;
            last_raw_perf = K.rdpmc p.state (user_status K p).hwc_idx;
          };
        })
  unfolding start_no_notify
  start_no_notify-in p e = rw e

  pub coarsened_tx_counts :
      (average : ℕ → ℕ → ℕ) (id : ℕ) (p : Process S) (s : S) (d : ℕ)
      → p.info.in_coarsened_tx ≡ true
      → (K.status s).ticks ≡ (K.status p.state).ticks
      → (K.rdpmc p.state (user_status K p).hwc_idx + d) % 2 ^ 48
        ≡ K.rdpmc s (K.status s).hwc_idx % 2 ^ 48
      → d < 2 ^ 48
      → Returns
          (λ p1.
            let p2 = stop_with_id_no_notify K average id (at_state p1 s) in
            (read K p2 ≡ u64 (read K p + d))
            × (get_last_tx_size K p2 ≡ d)
            × (p2.info.in_coarsened_tx ≡ true))
          (start_no_notify K p)
  unfolding stop_with_id_no_notify read get_last_tx_size
  coarsened_tx_counts average id p s d inside same e lt =
      let delta =
        raw_delta-eq (K.rdpmc s (K.status s).hwc_idx) (K.rdpmc p.state (user_status K p).hwc_idx) d
          e lt in
      rw (start_no_notify-in p inside) (
        returns (
          ap (λ x. u64 ((K.status s).ticks + u64 (p.info.coarsened_ticks_counter + x))) delta
              ∙ rw same (omega arith),
          ap
                (λ x. u64 (
                  u64 ((K.status s).ticks + u64 (p.info.coarsened_ticks_counter + x))
                  + 2 ^ 64
                  - u64 ((K.status p.state).ticks + p.info.coarsened_ticks_counter)))
                delta
              ∙ rw same (omega (arith, lt)),
          inside,
        ))

  -- The kernel adds the ticks to what the thread reads in its page.
  abbrev pub Adds : S → Type 0
  Adds s =
      (n : ℕ)
      → Returns (λ r. (r.1 ≡ true) × ((K.status r.0).ticks ≡ u64 ((K.status s).ticks + n)))
          (K.add_ticks s n)

  add_clock_ticks-Returns :
      (p : Process S) (n : ℕ)
      → Adds p.state
      → Returns
          (λ p'.
            (p'.info ≡ p.info)
            × ((K.status p'.state).ticks ≡ u64 ((K.status p.state).ticks + int32_arg n)))
          (add_clock_ticks K p n)
  unfolding add_clock_ticks
  add_clock_ticks-Returns p n adds =
      call-Returns K (λ s. (K.status s).ticks ≡ u64 ((K.status p.state).ticks + int32_arg n))
        (λ s. K.add_ticks s (int32_arg n)) p (adds (int32_arg n))

  end_coarsened_tx-ticks :
      (p : Process S)
      → Adds p.state
      → (K.status p.state).ticks < 2 ^ 64
      → Returns
          (λ p'.
            (read K p' ≡ u64 ((K.status p.state).ticks + int32_arg p.info.coarsened_ticks_counter))
            × (p'.info.in_coarsened_tx ≡ false))
          (end_coarsened_tx K p)
  unfolding end_coarsened_tx read
  end_coarsened_tx-ticks p adds small = elim (Bool-cases (ltb 0 p.info.coarsened_ticks_counter)) [
    | inl e ↦ rw e (
        Returns-bind (add_clock_ticks-Returns p _ adds)
          λ p1 k. returns (rw k.1 (ground arith), refl))
    | inr e ↦
        let none : p.info.coarsened_ticks_counter ≡ 0 = ground arith in
        rw e (returns (rw none (omega (arith, small)), refl))
  ]

  -- Where the kernel adds the ticks that it is told to what the thread reads, and less than 2 ^ 31
  -- ticks were counted in user space: `determ_task_clock_end_coarsened_tx` returns, the clock reads
  -- what it read before, and the coarsened transaction is over.
  pub end_coarsened_tx_keeps :
      (p : Process S)
      → Adds p.state
      → (K.status p.state).ticks < 2 ^ 64
      → p.info.coarsened_ticks_counter < 2 ^ 31
      → Returns
          (λ p'. (read K p' ≡ read K p) × (p'.info.in_coarsened_tx ≡ false))
          (end_coarsened_tx K p)
  unfolding read int32_arg
  end_coarsened_tx_keeps p adds small few =
      let same : int32_arg p.info.coarsened_ticks_counter ≡ p.info.coarsened_ticks_counter =
        ground arith in
      Returns-mono (end_coarsened_tx-ticks p adds small)
        λ p' k. (k.0 ∙ ap (λ n. u64 ((K.status p.state).ticks + n)) same, k.1)

  -- Where the kernel adds the ticks that it is told to what the thread reads, and from 2 ^ 31 to
  -- 2 ^ 32 - 1 ticks were counted in user space: `determ_task_clock_end_coarsened_tx` returns, and the
  -- clock reads 2 ^ 32 ticks less than before, modulo 2 ^ 64.
  pub end_coarsened_tx_truncates :
      (p : Process S)
      → Adds p.state
      → (K.status p.state).ticks < 2 ^ 64
      → 2 ^ 31 ≤ p.info.coarsened_ticks_counter
      → p.info.coarsened_ticks_counter < 2 ^ 32
      → Returns (λ p'. read K p' ≡ u64 (read K p + (2 ^ 64 - 2 ^ 32))) (end_coarsened_tx K p)
  unfolding read int32_arg
  end_coarsened_tx_truncates p adds small many few =
      let wrapped : int32_arg p.info.coarsened_ticks_counter
          ≡ p.info.coarsened_ticks_counter + (2 ^ 64 - 2 ^ 32) =
        ground arith in
      Returns-mono (end_coarsened_tx-ticks p adds small)
        λ p' k. k.0 ∙ ap (λ n. u64 ((K.status p.state).ticks + n)) wrapped ∙ omega arith
