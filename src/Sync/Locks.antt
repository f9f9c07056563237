-- ===== src/Sync/Locks.antt =====
-- Locks of determ.h: threads wait in the order in which they come, and a release hands the turn to the
-- first of them.
use consequence.Base.{
  ℕ, suc, ◌+◌, ◌-◌, ◌≡◌, refl, sym, ap, ◌∙◌, List, [], ◌∷◌, ◌++◌, arith, Bool, true, false, ltb,
  ◌==◌, ==_sym, has, length, length-append, ◌∉◌, store_self, store_ne, none, some, Returns, returns,
  Returns-bind, Returns-mono,
}
use consequence.CircularList.{Memory, get_head_entry}
use consequence.CircularList.Ring.{IsRing, insert_tail-IsRing, remove_head_entry-IsRing}
use consequence.Sync.{
  status_ready, status_on_deck, status_waiting_on_lock, LockEntry, Determ, Services, address,
  set_status, set_lock, is_token_holder, put_token, activate_thread,
}
use consequence.Sync.Mutex.{put_on_deck, wake_waiter, lock_release, wait_on_lock}

-- the entries of threads, as addresses
abbrev pub addresses : List ℕ → List ℕ
addresses [] = []
addresses (x ∷ xs) = address x ∷ addresses xs

pub addresses-append : (xs ys : List ℕ) → addresses (xs ++ ys) ≡ addresses xs ++ addresses ys
addresses-append [] ys = refl
addresses-append (x ∷ xs) ys = ap (λ zs. address x ∷ zs) (addresses-append xs ys)

pub has-addresses : (x : ℕ) (xs : List ℕ) → has (address x) (addresses xs) ≡ has x xs
has-addresses x [] = refl
has-addresses x (y ∷ ys) = ground (arith, has-addresses x ys)

get_head_entry-address : (h y : ℕ) → h ≡ address y → get_head_entry h ≡ address y
unfolding get_head_entry
get_head_entry-address h y e =
    let some_entry : (address y == 0) ≡ false = ground arith in rw (e, some_entry)

-- Threads `xs` wait on the lock, in that order.
pub record QueueOf {S : Type 0} (d : Determ S) (mutex : ℕ) (acquired : Bool) (xs : List ℕ)
    : Type 0 where
  pub entry : LockEntry
  pub found : d.locks mutex ≡ some entry
  pub acquired_is : entry.is_acquired ≡ acquired
  pub ring : IsRing d.memory entry.head (addresses xs)
  pub waiters_is : entry.waiters ≡ length xs

-- After a release of the lock that threads `xs` waited on: it is free, the first of them, if there is
-- one, is ready, the second is on deck, and the others wait on in their order.
pub data HandedOver {S : Type 0} (mutex : ℕ) : List ℕ → Determ S → Type 0 where
  to_none : {d' : Determ S} → QueueOf d' mutex false [] → HandedOver mutex [] d'
  to_only :
      {d' : Determ S} {x : ℕ}
      → QueueOf d' mutex false []
      → d'.status x ≡ status_ready
      → HandedOver mutex (x ∷ []) d'
  to_first :
      {d' : Determ S} {x y : ℕ} {ys : List ℕ}
      → QueueOf d' mutex false (y ∷ ys)
      → d'.status x ≡ status_ready
      → d'.status y ≡ status_on_deck
      → HandedOver mutex (x ∷ y ∷ ys) d'

module _ {S : Type 0} (V : Services S) where
  put_token-holder :
      (d : Determ S) (t : ℕ) (b : Bool)
      → is_token_holder d t ≡ true
      → Returns
          (λ d'.
            (d'.tokenpos ≡ none)
            × (d'.locks ≡ d.locks)
            × (d'.memory ≡ d.memory)
            × (d'.status ≡ d.status))
          (put_token V d t b)
  unfolding put_token
  put_token-holder d t b h = rw h (returns (refl, refl, refl, refl))

  abbrev queued : Determ S → ℕ → ℕ → LockEntry → Memory × ℕ → S → Determ S
  queued d mutex t entry r clock =
      let d1 =
        set_lock (record d { memory = r.0 }) mutex
          (record entry { head = r.1; waiters = entry.waiters + 1 }) in
      record (set_status d1 t status_waiting_on_lock) { clock = clock }

  -- Where threads `xs` wait on a lock, and the caller holds the token, is not one of them, and its
  -- clock can be halted: `wait_on_lock_and_release_token` gets to where the caller waits, with the
  -- caller last in the lock's queue, its status set, and the token released.
  pub wait_on_lock-QueueOf :
      (d : Determ S) (mutex t : ℕ) (acquired : Bool) (xs : List ℕ)
      → QueueOf d mutex acquired xs
      → t ∉ xs
      → is_token_holder d t ≡ true
      → Returns (λ s. Unit {0}) (V.halt d.clock t)
      → Returns
          (λ d'.
            QueueOf d' mutex acquired (xs ++ t ∷ [])
            × (d'.status t ≡ status_waiting_on_lock)
            × (d'.tokenpos ≡ none))
          (wait_on_lock V d mutex t)
  unfolding wait_on_lock is_token_holder
  wait_on_lock-QueueOf d mutex t acquired xs q out h halts = rw q.found (
      Returns-bind
        (insert_tail-IsRing d.memory (address t) q.entry.head (addresses xs) q.ring
          (has-addresses t xs ∙ out) (ground arith))
        λ r ring. Returns-bind halts λ clock u.
          Returns-mono (put_token-holder (queued d mutex t q.entry r clock) t true h)
            λ d' (free, locks, memory, status). (
              record {
                entry = record q.entry { head = r.1; waiters = q.entry.waiters + 1 };
                found = ap (λ f. f mutex) locks ∙ store_self d.locks mutex _;
                acquired_is = q.acquired_is;
                ring = rw (memory, addresses-append xs (t ∷ [])) ring;
                waiters_is = omega (arith, q.waiters_is, length-append xs (t ∷ []));
              },
              ap (λ f. f t) status ∙ store_self d.status t _,
              free,
            ))

  -- The lock once its first waiter has left the queue.
  abbrev left : Determ S → ℕ → LockEntry → Memory × ℕ × ℕ → Determ S
  left d mutex entry r =
      set_lock (record d { memory = r.0 }) mutex
        (record entry { waiters = entry.waiters - 1; head = r.1 })

  activate_thread-Returns :
      (d : Determ S) (t other : ℕ)
      → Returns (λ r. Unit {0}) (V.activate_other d.clock t other)
      → Returns
          (λ d'. (d'.locks ≡ d.locks) × (d'.memory ≡ d.memory) × (d'.status ≡ d.status))
          (activate_thread V d t other)
  unfolding activate_thread
  activate_thread-Returns d t other a = Returns-bind a λ r u. returns (refl, refl, refl)

  put_on_deck-next :
      (d : Determ S) (y : ℕ) (entry : LockEntry)
      → entry.head ≡ address y
      → ltb 0 entry.waiters ≡ true
      → put_on_deck V d entry ≡ set_status d y status_on_deck
  unfolding put_on_deck
  put_on_deck-next d y entry starts some_wait =
      rw (get_head_entry-address entry.head y starts, put_on_deck, some_wait)

  -- What the first thread leaves behind: its successor, if there is one, is put on deck.
  deck-HandedOver :
      (d : Determ S) (mutex x : ℕ) (xs : List ℕ) (entry : LockEntry)
      → d.locks mutex ≡ some entry
      → entry.is_acquired ≡ false
      → entry.waiters ≡ length xs
      → IsRing d.memory entry.head (addresses xs)
      → x ∉ xs
      → d.status x ≡ status_ready
      → HandedOver mutex (x ∷ xs) (put_on_deck V d entry)
  unfolding put_on_deck get_head_entry
  deck-HandedOver d mutex x [] entry found free count ring out ready = rw ring.starts (
      to_only
        (record {
          entry = entry;
          found = found;
          acquired_is = free;
          ring = ring;
          waiters_is = count;
        })
        ready)
  deck-HandedOver d mutex x (y ∷ ys) entry found free count ring out ready =
      let some_wait : ltb 0 entry.waiters ≡ true = ground (arith, count) in
      let other : (y == x) ≡ false = ground (arith, ==_sym y x) in
      rw (put_on_deck-next d y entry ring.starts some_wait) (
        to_first
          (record {
            entry = entry;
            found = found;
            acquired_is = free;
            ring = ring;
            waiters_is = count;
          })
          (store_ne d.status y x _ other ∙ ready) (store_self d.status y _))

  wake_waiter-HandedOver :
      (d : Determ S) (mutex t x : ℕ) (xs : List ℕ) (entry : LockEntry)
      → entry.is_acquired ≡ false
      → entry.waiters ≡ suc (length xs)
      → IsRing d.memory entry.head (addresses (x ∷ xs))
      → ((other : ℕ) → Returns (λ r. Unit {0}) (V.activate_other d.clock t other))
      → Returns (HandedOver mutex (x ∷ xs)) (wake_waiter V d mutex t entry)
  unfolding wake_waiter
  wake_waiter-HandedOver d mutex t x xs entry free count ring activates =
      Returns-bind (remove_head_entry-IsRing d.memory entry.head (address x) (addresses xs) ring)
        λ r (rest, same). rw same (
          Returns-bind (activate_thread-Returns (left d mutex entry r) t x (activates x))
            λ d1 (locks, memory, status). returns (
              deck-HandedOver (set_status d1 x status_ready) mutex x xs
                (record entry { waiters = entry.waiters - 1; head = r.1 })
                (ap (λ f. f mutex) locks ∙ store_self d.locks mutex _) free (omega (arith, count))
                (rw memory rest) (sym (has-addresses x xs) ∙ ring.distinct.0)
                (store_self d1.status x _)))

  pub lock_release-HandedOver :
      (d : Determ S) (mutex t : ℕ) (acquired : Bool) (xs : List ℕ)
      → QueueOf d mutex acquired xs
      → ((other : ℕ) → Returns (λ r. Unit {0}) (V.activate_other d.clock t other))
      → Returns (HandedOver mutex xs) (lock_release V d mutex t)
  unfolding lock_release
  lock_release-HandedOver d mutex t acquired [] q activates =
      rw (q.found, q.waiters_is)
        (returns (
          to_none (record {
            entry = record { is_acquired = false; waiters = 0; head = q.entry.head };
            found = store_self d.locks mutex _;
            acquired_is = refl;
            ring = q.ring;
            waiters_is = refl;
          })))
  lock_release-HandedOver d mutex t acquired (x ∷ xs) q activates =
      let some_wait : ltb 0 q.entry.waiters ≡ true = ground (arith, q.waiters_is) in
      let released = record q.entry { is_acquired = false } in
      rw (q.found, some_wait)
        (wake_waiter-HandedOver d mutex t x xs released refl q.waiters_is q.ring activates)
