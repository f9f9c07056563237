-- ===== src/Clock/Entry/Activate.antt =====
-- `task_clock_entry_activate_other`: a thread enters the active threads.
use consequence.Base.{
  ℕ, ◌+◌, ◌<◌, ◌≡◌, refl, ap, ◌∙◌, List, [], ◌∷◌, ◌++◌, arith, true, false, Bool-cases, inl, inr,
  u64, ◌||◌, if◌then◌else◌, ◌∉◌, Returns, returns, Returns-value,
}
use consequence.ListArray.{ListArray, listarray_max_size}
use consequence.ListArray.Chain.{Holds}
use consequence.ListArray.Insert.{insert-Holds}
use consequence.Clock.Notify.Settle.{ℤ-cases}
use consequence.Clock.State.{
  Context, ClockEntry, UserStatus, Group, store_self, set_clock, set_user, mark_as_active,
  reset_chunk_ticks, clear_entry_state_by_id, get_clock_ticks, clock_is_lower,
}
use consequence.Clock.Search.{is_candidate}
use consequence.Clock.Entry.{precedes_lowest, entry_activate_other}

-- Before the flag for user space is set: the entry of the activated thread.
module _ (c : Context) (g : Group) (id : ℕ) (la : ListArray) where
  abbrev started : ClockEntry
  started =
      let e = g.clocks id in
      if e.initialized
      then e
      else record e { base_ticks = u64 (get_clock_ticks g c.tid + 1); ticks = 0 }

  abbrev entered : Group
  entered =
      let g1 =
        clear_entry_state_by_id c id (set_clock g id (record started { initialized = true })) in
      reset_chunk_ticks
        (record (set_clock g1 id (record (g1.clocks id) { inactive = false })) {
          active_threads = la;
        })
        id

  entered-candidate : is_candidate entered id ≡ true
  unfolding reset_chunk_ticks clear_entry_state_by_id
  entered-candidate = simp store_self

  entered-awake : (entered.clocks id).waiting ≡ false
  unfolding reset_chunk_ticks clear_entry_state_by_id
  entered-awake = simp store_self

  entered-ticks : get_clock_ticks entered id ≡ (
      if (g.clocks id).initialized then get_clock_ticks g id else u64 (get_clock_ticks g c.tid + 1))
  unfolding reset_chunk_ticks clear_entry_state_by_id get_clock_ticks
  entered-ticks = elim (Bool-cases (g.clocks id).initialized) [
    | inl e ↦ simp (store_self, e)
    | inr e ↦ simp (store_self, e) (omega arith)
  ]

  entered-flag : (entered.users c.tid).activated_lowest ≡ (g.users c.tid).activated_lowest
  unfolding reset_chunk_ticks clear_entry_state_by_id
  entered-flag = ap (λ u. u.activated_lowest) (store_self g.users c.tid _)

  entered-active : entered.active_threads ≡ la
  unfolding reset_chunk_ticks
  entered-active = refl

precedes_lowest-set_user :
    (g : Group) (tid id : ℕ) (u : UserStatus)
    → precedes_lowest (set_user g tid u) id ≡ precedes_lowest g id
unfolding precedes_lowest clock_is_lower get_clock_ticks
precedes_lowest-set_user g tid id u = elim (ℤ-cases g.lowest_tid) [
  | inl (n, e) ↦ rw e
  | inr (n, e) ↦ rw e
]

-- A group in which thread `id` has entered the active threads, from `g`.
pub record HasEntered (c : Context) (g : Group) (xs : List ℕ) (id : ℕ) (g' : Group) : Type 0 where
  pub active : Holds g'.active_threads (xs ++ id ∷ [])
  pub candidate : is_candidate g' id ≡ true
  pub awake : (g'.clocks id).waiting ≡ false
  pub ticks : get_clock_ticks g' id ≡ (
      if (g.clocks id).initialized then get_clock_ticks g id else u64 (get_clock_ticks g c.tid + 1))
  pub flag :
      (g'.users c.tid).activated_lowest
      ≡ (precedes_lowest g' id || (g.users c.tid).activated_lowest)

set_user-ticks :
    (g : Group) (tid id : ℕ) (u : UserStatus)
    → get_clock_ticks (set_user g tid u) id ≡ get_clock_ticks g id
unfolding get_clock_ticks
set_user-ticks g tid id u = refl

-- For a thread below the array size that is not active, `task_clock_entry_activate_other` returns,
-- and the thread is last in the list, takes part in the search, does not wait, and keeps its clock
-- or, if it had none, starts one tick after the caller's, modulo 2 ^ 64. The caller's flag
-- `activated_lowest` is set if the thread precedes the group's lowest one, and kept otherwise.
pub entry_activate_other_lem :
    (c : Context) (g : Group) (xs : List ℕ) (id : ℕ)
    → Holds g.active_threads xs
    → id < listarray_max_size
    → id ∉ xs
    → Returns (HasEntered c g xs id) (entry_activate_other c g id)
unfolding entry_activate_other mark_as_active
entry_activate_other_lem c g xs id h lt out =
    let (la, e, k) = Returns-value (insert-Holds g.active_threads xs id h lt out) in
    let g3 = entered c g id la in
    let u = g3.users c.tid in
    let g4 = set_user g3 c.tid (record u { activated_lowest = true }) in
    elim (Bool-cases (precedes_lowest g3 id)) [
      | inl p ↦
          rw (e, p)
            (returns {a = g4} (record {
              active = rw (entered-active c g id la) k;
              candidate = entered-candidate c g id la;
              awake = entered-awake c g id la;
              ticks = set_user-ticks g3 c.tid id _ ∙ entered-ticks c g id la;
              flag =
                  ap (λ u. u.activated_lowest) (store_self g3.users c.tid _)
                  ∙ rw (
                    precedes_lowest-set_user g3 c.tid id (record u { activated_lowest = true }),
                    p,
                  );
            }))
      | inr p ↦
          rw (e, p)
            (returns {a = g3} (record {
              active = rw (entered-active c g id la) k;
              candidate = entered-candidate c g id la;
              awake = entered-awake c g id la;
              ticks = entered-ticks c g id la;
              flag = rw p (entered-flag c g id la);
            }))
    ]
