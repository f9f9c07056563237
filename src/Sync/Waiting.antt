-- ===== src/Sync/Waiting.antt =====
-- The operations of determ.h that wait, to their end: a thread gets the token, waits for its turn on a
-- lock or a condition variable, or joins another thread. What the others do between two looks at the
-- shared state is a parameter. The waits run on fuel.
use consequence.Base.{
  ℕ, zero, suc, Bool, true, false, not, if◌then◌else◌, none, some, Outcome, ok, out_of_fuel, ◌>>=◌,
  ◌>>◌, bug_on, store,
}
use consequence.Sync.{
  ThreadStatus, status_ready, status_exit, status_joining, status_cond_waiting, status_barr_waiting,
  status_others_need_to_wait, status_waiting_on_lock, status_on_deck, status_forking, Determ,
  Services, set_status, is_token_holder, put_token, take_token,
}
use consequence.Sync.Mutex.{wait_on_lock}
use consequence.Sync.CondVar.{cond_wait}

-- What the other threads do while one looks on, the thread's own clock when it asks whether it is the
-- lowest, and how often a thread spins before it goes on to wait.
pub record Waits (S : Type 0) : Type 0 where
  pub others : Determ S → Determ S
  pub is_lowest : S → ℕ → Outcome (Bool × S)
  pub is_lowest_wait : S → ℕ → Outcome S
  pub partial_update : Determ S → Determ S
  pub rounds : ℕ

-- `spin_counter<10000000`
abbrev pub max_spins : ℕ
max_spins = 10000000

abbrev pub is_ready : ThreadStatus → Bool
is_ready status_ready = true
is_ready status_exit = false
is_ready status_joining = false
is_ready status_cond_waiting = false
is_ready status_barr_waiting = false
is_ready status_others_need_to_wait = false
is_ready status_waiting_on_lock = false
is_ready status_on_deck = false
is_ready status_forking = false

abbrev pub has_exited : ThreadStatus → Bool
has_exited status_exit = true
has_exited status_ready = false
has_exited status_joining = false
has_exited status_cond_waiting = false
has_exited status_barr_waiting = false
has_exited status_others_need_to_wait = false
has_exited status_waiting_on_lock = false
has_exited status_on_deck = false
has_exited status_forking = false

module _ {S : Type 0} (V : Services S) (E : Waits S) where
  -- The first loop of `__getToken`: whether the thread is the lowest, and the activation counter
  -- that it read last.
  unfoldable pub spin_for_lowest : ℕ → Determ S → ℕ → ℕ → Outcome (Bool × ℕ × Determ S)
  spin_for_lowest zero d threadindex local_activation_counter =
      ok (false, local_activation_counter, d)
  spin_for_lowest (suc spins) d threadindex local_activation_counter = do
    let d1 = E.others d
    (is_lowest, clock) ← E.is_lowest d1.clock threadindex
    let d2 = E.others (record d1 { clock = clock })
    let d3 = E.partial_update d2
    elim is_lowest [
      | true ↦ ok (true, d2.activation_counter, d3)
      | false ↦ spin_for_lowest spins d3 threadindex d2.activation_counter
    ]

  -- From "getToken:" on: wait until the token has been released, and take it.
  unfoldable pub spin_for_token : ℕ → Determ S → ℕ → ℕ → Outcome (Bool × Determ S)
  unfolding take_token
  spin_for_token zero d threadindex local_activation_counter = out_of_fuel
  spin_for_token (suc looks) d threadindex local_activation_counter =
      let d1 = E.others d in
      elim (take_token V d1 threadindex local_activation_counter) [
        | some taken ↦ ok taken
        | none ↦ spin_for_token looks d1 threadindex local_activation_counter
      ]

  -- One round of `__getToken` from "startover:" on, and whether the token was kept.
  unfoldable pub try_token : Determ S → ℕ → Outcome (Bool × Determ S)
  unfolding spin_for_lowest spin_for_token
  try_token d threadindex = do
    (is_lowest, local_activation_counter, d1) ←
        spin_for_lowest max_spins d threadindex d.activation_counter
    d2 ←
        (if is_lowest then ok d1 else (do
          clock ← E.is_lowest_wait d1.clock threadindex
          ok (E.others (record d1 { clock = clock }))))
    spin_for_token E.rounds d2 threadindex local_activation_counter

  -- `getToken`
  unfoldable pub get_token : ℕ → Determ S → ℕ → Outcome (Determ S)
  unfolding try_token
  get_token zero d threadindex = out_of_fuel
  get_token (suc tries) d threadindex = do
    (kept, d1) ← try_token d threadindex
    elim kept [ true ↦ ok d1 | false ↦ get_token tries d1 threadindex ]

  -- Wait until the thread's status is `STATUS_READY`.
  unfoldable pub wait_until_ready : ℕ → Determ S → ℕ → Outcome (Determ S)
  wait_until_ready zero d threadindex = out_of_fuel
  wait_until_ready (suc looks) d threadindex =
      let d1 = E.others d in
      elim (is_ready (d1.status threadindex)) [
        | true ↦ ok (record d1 { clock = V.on_wakeup d1.clock threadindex })
        | false ↦ wait_until_ready looks d1 threadindex
      ]

  -- `wait_on_lock_and_release_token`
  unfoldable pub wait_on_lock_and_release_token : Determ S → ℕ → ℕ → Outcome (Determ S)
  unfolding wait_on_lock wait_until_ready
  wait_on_lock_and_release_token d mutex threadindex = do
    d1 ← wait_on_lock V d mutex threadindex
    wait_until_ready E.rounds d1 threadindex

  -- `cond_wait`
  unfoldable pub wait_on_cond : Determ S → ℕ → ℕ → ℕ → Outcome (Determ S)
  unfolding cond_wait wait_until_ready
  wait_on_cond d threadindex user_cond thelock = do
    d1 ← cond_wait V d threadindex user_cond thelock
    wait_until_ready E.rounds d1 threadindex

  -- The loop of `join`, while the joinee has not exited, and whether it was entered.
  unfoldable pub wait_for_exit : ℕ → Determ S → ℕ → ℕ → Outcome (Determ S)
  unfolding put_token
  wait_for_exit zero d guestindex myindex = out_of_fuel
  wait_for_exit (suc looks) d guestindex myindex = do
    let d1 = set_status d myindex status_joining
    d2 ← (if is_token_holder d1 myindex then put_token V d1 myindex true else ok d1)
    let d3 = E.others d2
    elim (has_exited (d3.status guestindex)) [
      | true ↦ ok d3
      | false ↦ wait_for_exit looks d3 guestindex myindex
    ]

  -- Of `join`, what is done where the joinee is still alive.
  unfoldable pub join_alive : Determ S → ℕ → ℕ → Outcome (Determ S)
  unfolding wait_for_exit get_token
  join_alive d guestindex myindex = do
    clock ← V.halt d.clock myindex
    d1 ←
        wait_for_exit E.rounds
          (record d {
            clock = clock;
            joinee_thread_index = store d.joinee_thread_index myindex guestindex;
          })
          guestindex myindex
    clock1 ← V.activate d1.clock myindex
    get_token E.rounds (set_status (record d1 { clock = clock1 }) myindex status_ready) myindex

  -- `join`, which asserts that the caller holds the token
  unfoldable pub join : Determ S → ℕ → ℕ → Outcome (Determ S)
  unfolding join_alive
  join d guestindex myindex =
      bug_on (not (is_token_holder d myindex))
      >> (if has_exited (d.status guestindex)
          then ok (set_status d myindex status_ready)
          else join_alive d guestindex myindex)
