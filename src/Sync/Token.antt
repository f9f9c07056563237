-- ===== src/Sync/Token.antt =====
-- The token of determ.h: one thread at most holds it, from where it takes it to where it puts it back.
use consequence.Base.{
  ℕ, ◌≡◌, refl, sym, ap, ◌∙◌, Bool, true, false, Bool-cases, inl, inr, ◌==◌, ==_refl, ==_sym,
  ==_iff, Option, none, some, Option-cases, bug, Returns, returns,
}
use consequence.Sync.{Determ, Services, is_token_holder, put_token, take_token}

module _ {S : Type 0} (V : Services S) where
  abbrev kept : Option (Bool × Determ S) → Bool
  kept none = false
  kept (some (b, _)) = b

  abbrev state_of : Determ S → Option (Bool × Determ S) → Determ S
  state_of d none = d
  state_of d (some (_, d')) = d'

  abbrev holding : Determ S → ℕ → Determ S
  holding d t = record d { tokenpos = some t; last_getter = t }

  -- A thread that keeps the token found it free, and no thread activated since.
  take_token-kept :
      (d d' : Determ S) (t n : ℕ)
      → take_token V d t n ≡ some (true, d')
      → (d.tokenpos ≡ none) × (d.activation_counter ≡ n) × (d' ≡ holding d t)
  unfolding take_token
  take_token-kept d d' t n e = elim (Option-cases d.tokenpos) [
    | inl free ↦ elim (Bool-cases (d.activation_counter == n)) [
      | inl same ↦
          let e' : some (true, holding d t) ≡ some (true, d') = sym (rw (free, same)) ∙ e in
          (free, (==_iff d.activation_counter n).0 same, sym (ap (state_of d) e'))
      | inr other ↦
          let e' : some (false, record d { tokenpos = none; clock = V.on_wakeup d.clock t })
              ≡ some (true, d') =
            sym (rw (free, other)) ∙ e in
          let wrong : false ≡ true = ap kept e' in absurd cc
    ]
    | inr (h, held) ↦
        let e' : none ≡ some (true, d') = sym (rw held) ∙ e in
        let wrong : false ≡ true = ap kept e' in absurd cc
  ]

  pub take_token_holds :
      (d d' : Determ S) (t u n m : ℕ) (b : Bool)
      → take_token V d t n ≡ some (true, d')
      → (u == t) ≡ false
      → (d.tokenpos ≡ none)
        × (d.activation_counter ≡ n)
        × (take_token V d' u m ≡ none)
        × (put_token V d' u b ≡ bug)
        × Returns (λ d''. d''.tokenpos ≡ none) (put_token V d' t b)
  unfolding take_token put_token is_token_holder
  take_token_holds d d' t u n m b e other =
      let (free, same, now) = take_token-kept d d' t n e in
      let not_mine : (t == u) ≡ false = ==_sym t u ∙ other in
      (free, same, rw now, rw (now, not_mine), rw (now, ==_refl t) (returns refl))
