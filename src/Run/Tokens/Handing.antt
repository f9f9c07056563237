-- ===== src/Run/Tokens/Handing.antt =====
-- Taking the token and putting it back.
use consequence.Base.{
  ℕ, ◌≡◌, refl, arith, Bool, true, false, ◌&&◌, not, Safely, safely, Safely-bind, Safely-if,
  Safely-cases,
}
use consequence.Run.{
  Build, Runtime, Thread, is_positive, fast_forward_clock, run, add_ticks, wait_token,
  release_token, put_token, put_token_no_fast_forward,
}
use consequence.Run.Tokens.{
  TokenLaws, IsConsistent, IsConsistent-world, end_tx_coarsening-IsConsistent, monitor-IsConsistent,
}

module _ {W : Type 0} (B : Build) (R : Runtime W) (i : ℕ) (held : W → Bool)
    (L : TokenLaws R i held) where
  abbrev Consistent : Bool → Thread W → Type 0
  Consistent b t = IsConsistent B i held b t

  -- The thread with a world in which it holds the token, or not, and its variable that says so.
  pub IsConsistent-token :
      (t : Thread W) (w : W) (b b' : Bool)
      → held w ≡ b'
      → Consistent b t
      → Consistent b' (record t { world = w; token_holding = b' })
  IsConsistent-token t w b b' h c = record {
    index = c.index;
    holding = h;
    says = refl;
    least = c.least;
    most = c.most;
  }

  -- The thread has taken the token, and its variable is behind.
  abbrev IsTaking : Thread W → Type 0
  IsTaking t = Consistent true (record t { token_holding = true })

  get_token-IsTaking :
      (t : Thread W)
      → Consistent false t
      → Safely IsTaking (run B R (λ w. R.get_token w t.thread_index) t)
  unfolding run
  get_token-IsTaking t c =
      let got : Safely (λ w. held w ≡ true) (R.get_token t.world t.thread_index) =
        rw c.index (L.get_token t.world c.holding) in
      Safely-bind got λ w h. safely (IsConsistent-token t w false true h c)

  add_ticks-IsTaking : (t : Thread W) (n : ℕ) → IsTaking t → Safely IsTaking (add_ticks B R t n)
  unfolding add_ticks run
  add_ticks-IsTaking t n c = Safely-bind (L.add_ticks t.world n) λ w same.
      safely (IsConsistent-world B R i held L true (record t { token_holding = true }) w same c)

  -- Afterwards the thread holds the token.
  pub wait_token-IsConsistent :
      (b : Bool) (t : Thread W) → Consistent b t → Safely (Consistent true) (wait_token B R t)
  unfolding wait_token
  wait_token-IsConsistent true t c =
      let says = c.says in Safely-cases t.token_holding (λ e. safely c) λ e. cc
  wait_token-IsConsistent false t c =
      let says = c.says in
      Safely-cases t.token_holding (λ e. cc)
        λ e. Safely-bind (get_token-IsTaking t c) λ t1 c1.
          Safely-bind (add_ticks-IsTaking t1 (fast_forward_clock B R t1) c1) λ t2 c2.
            safely (monitor-IsConsistent B R i held L true (record t2 { token_holding = true }) c2)

  release_token-IsConsistent :
      (b : Bool) (t : Thread W) (ff : Bool)
      → Consistent b t
      → Safely (Consistent false) (release_token B R t ff)
  unfolding release_token run
  release_token-IsConsistent false t ff c =
      let says = c.says in
      Safely-cases (not t.token_holding) (λ e. safely c) λ e. absurd (ground arith)
  release_token-IsConsistent true t ff c =
      let says = c.says in
      let put : Safely (λ w. held w ≡ false) (R.put_token t.world t.thread_index ff) =
        rw c.index (L.put_token t.world ff c.holding) in
      let gone : Safely (λ t'. Consistent false (record t' { token_holding = false }))
          (run B R (λ w. R.put_token w t.thread_index ff) t) =
        Safely-bind put λ w h. safely (IsConsistent-token t w true false h c) in
      Safely-cases (not t.token_holding) (λ e. absurd (ground arith))
        λ e. Safely-bind gone λ t1 c1. safely c1

  -- Afterwards the thread does not hold the token.
  pub put_token-IsConsistent :
      (b : Bool) (t : Thread W) → Consistent b t → Safely (Consistent false) (put_token B R t)
  unfolding put_token
  put_token-IsConsistent b t c =
      Safely-bind
        (Safely-if (B.use_tx_coarsening && is_positive t.coarsening_counter)
          (end_tx_coarsening-IsConsistent B R i held L b t c) (safely c))
        λ t1. release_token-IsConsistent b t1 true

  pub put_token_no_fast_forward-IsConsistent :
      (b : Bool) (t : Thread W)
      → Consistent b t
      → Safely (Consistent false) (put_token_no_fast_forward B R t)
  unfolding put_token_no_fast_forward
  put_token_no_fast_forward-IsConsistent b t = release_token-IsConsistent b t false
