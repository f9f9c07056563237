-- ===== src/ThreadPool/Handing.antt =====
-- Threads go into the pool of thread_pool.h and come out of it.
use consequence.Base.{
  ℕ, ◌+◌, ◌%◌, ◌^◌, ◌≤◌, ◌<◌, ◌≡◌, refl, sym, ap, ◌∙◌, arith, Bool, true, false, ltb, ◌==◌, ==_sym,
  ==_iff, if◌then◌else◌, store, store_self, store_ne, List, [], ◌∷◌, ◌++◌, ◌∈◌, ◌∉◌, Outcome,
  out_of_bounds, Returns, returns, Returns-bind, has-append, ne_of_mem, inl, inr, Bool-cases,
}
use consequence.ThreadPool.{
  EntryStatus, entry_waiting, entry_ready, entry_init, is_waiting, max_size, Pool, link_entry,
  add_thread_to_pool, unlink_tail, take_entry, get_thread,
}
use consequence.ThreadPool.Fifo.{Linked-frame, IsPool, link_entry-IsPool, unlink_tail-IsPool}

-- the status of an entry in the pool, and of one that has been taken from it
abbrev pub parked : Bool → EntryStatus
parked disabled = if disabled then entry_init else entry_waiting

abbrev pub woken : Bool → EntryStatus
woken disabled = if disabled then entry_init else entry_ready

-- Entries `xs` are in the pool, longest first, and parked; they are among the first `id_counter`
-- ones, and the others have never run.
pub record Keeps (disabled : Bool) (p : Pool) (xs : List ℕ) : Type 0 where
  pub pool : IsPool p xs
  pub members :
      (x : ℕ) → x ∈ xs → ((x == 0) ≡ false) × (x ≤ p.id_counter) × (p.status x ≡ parked disabled)
  pub fresh : (x : ℕ) → p.id_counter < x → p.status x ≡ entry_init
  pub few : p.id_counter < max_size

-- The links stay when anything else of the pool changes.
relinked :
    (p : Pool) (status : ℕ → EntryStatus) (run arg : ℕ → ℕ) (on_stack : ℕ → Bool) (ids : ℕ)
    (xs : List ℕ)
    → IsPool p xs
    → IsPool
        (record p {
          status = status;
          run_function = run;
          run_function_arg = arg;
          is_stack_allocated = on_stack;
          id_counter = ids;
        })
        xs
relinked p status run arg on_stack ids xs h = record {
  links =
      Linked-frame p
        (record p {
          status = status;
          run_function = run;
          run_function_arg = arg;
          is_stack_allocated = on_stack;
          id_counter = ids;
        })
        p.tail 0 xs refl (λ x m. (refl, refl)) h.links;
  distinct = h.distinct;
}

link_entry-keeps :
    (p : Pool) (e : ℕ)
    → ((link_entry p e).status ≡ p.status) × ((link_entry p e).id_counter ≡ p.id_counter)
unfolding link_entry
link_entry-keeps p e = elim (Bool-cases (p.head == 0)) [
  | inl h ↦ rw h (refl, refl)
  | inr h ↦ rw h (refl, refl)
]

unlink_tail-keeps :
    (p : Pool) → ((unlink_tail p).status ≡ p.status) × ((unlink_tail p).id_counter ≡ p.id_counter)
unfolding unlink_tail
unlink_tail-keeps p = elim (Bool-cases (p.prev p.tail == 0)) [
  | inl h ↦ rw h (refl, refl)
  | inr h ↦ rw h (refl, refl)
]

-- Where entries are in the pool, another one that has run, and is not in it, goes behind them all.
pub add_thread_to_pool-Keeps :
    (disabled : Bool) (p : Pool) (xs : List ℕ) (e : ℕ)
    → Keeps disabled p xs
    → e ∉ xs
    → 0 < e
    → e ≤ p.id_counter
    → Keeps disabled (add_thread_to_pool disabled p e) (xs ++ e ∷ [])
unfolding add_thread_to_pool
add_thread_to_pool-Keeps disabled p xs e k out some_entry ran =
    let p1 = link_entry p e in
    let same = link_entry-keeps p e in
    let status = store p1.status e (parked disabled) in
    record {
      pool =
          relinked p1 status p1.run_function p1.run_function_arg
            (store p1.is_stack_allocated e false) p1.id_counter (xs ++ e ∷ [])
            (link_entry-IsPool p e xs k.pool out (ground arith));
      members = λ x m. elim (Bool-cases (e == x)) [
        | inl same_entry ↦ (
          ground arith,
          omega (arith, same.1, (==_iff e x).0 same_entry),
          ap status (sym ((==_iff e x).0 same_entry)) ∙ store_self p1.status e (parked disabled),
        )
        | inr other ↦
            let was : x ∈ xs = ground (arith, has-append x xs (e ∷ []), ==_sym e x) in
            let r = k.members x was in
            (
              r.0,
              omega (arith, same.1, r.1),
              store_ne p1.status e x (parked disabled) other ∙ (ap (λ f. f x) same.0 ∙ r.2),
            )
      ];
      fresh = λ x h.
          store_ne p1.status e x (parked disabled) (ground (arith, same.1))
          ∙ (ap (λ f. f x) same.0 ∙ k.fresh x (omega (arith, same.1)));
      few = omega (arith, same.1, k.few);
    }

-- the entry that is handed out next, and those that stay in the pool
abbrev pub entry_to_run : List ℕ → ℕ → ℕ
entry_to_run [] id_counter = id_counter + 1
entry_to_run (x ∷ xs) id_counter = x

abbrev pub rest : List ℕ → List ℕ
rest [] = []
rest (x ∷ xs) = xs

-- its status before it is handed out, and after
abbrev before : Bool → List ℕ → EntryStatus
before disabled [] = entry_init
before disabled (x ∷ xs) = parked disabled

abbrev pub handed_out : Bool → List ℕ → EntryStatus
handed_out disabled [] = entry_init
handed_out disabled (x ∷ xs) = woken disabled

handed_out-before :
    (disabled : Bool) (xs : List ℕ)
    → (if is_waiting (before disabled xs) then entry_ready else entry_init) ≡ handed_out disabled xs
handed_out-before disabled [] = refl
handed_out-before true (x ∷ xs) = refl
handed_out-before false (x ∷ xs) = refl

take_entry-Keeps :
    (disabled : Bool) (p : Pool) (xs : List ℕ)
    → Keeps disabled p xs
    → (xs ≡ [] → p.id_counter < 255)
    → Returns
        (λ (r : ℕ × Pool).
          (r.0 ≡ entry_to_run xs p.id_counter)
          × ((r.0 == 0) ≡ false)
          × (r.0 ∉ rest xs)
          × (r.0 ≤ r.1.id_counter)
          × (r.1.status r.0 ≡ before disabled xs)
          × Keeps disabled r.1 (rest xs))
        (take_entry p)
unfolding take_entry
take_entry-Keeps disabled p [] k left =
    let below : ltb p.id_counter 255 ≡ true = ground (arith, left refl) in
    let none_waits : (p.tail == 0) ≡ true = rw k.pool.links.0 in
    rw (none_waits, below, k.fresh (p.id_counter + 1) (omega arith))
      (returns (
        refl,
        ground arith,
        refl,
        omega (arith, left refl),
        k.fresh (p.id_counter + 1) (omega arith),
        record {
          pool =
              relinked p p.status p.run_function p.run_function_arg p.is_stack_allocated
                ((p.id_counter + 1) % 2 ^ 32) [] k.pool;
          members = λ x m. cc;
          fresh = λ x h. k.fresh x (omega (arith, left refl));
          few = omega (arith, left refl);
        },
      ))
take_entry-Keeps disabled p (x ∷ xs) k left =
    let same = unlink_tail-keeps p in
    let own = k.members x (ground arith) in
    let ran : p.tail ≤ (unlink_tail p).id_counter = omega (arith, k.pool.links.0, same.1, own.1) in
    let some_waits : (p.tail == 0) ≡ false = rw k.pool.links.0 k.pool.links.1 in
    rw some_waits (
      returns (
        k.pool.links.0,
        some_waits,
        rw k.pool.links.0 k.pool.distinct.0,
        ran,
        ap (unlink_tail p).status k.pool.links.0 ∙ (ap (λ f. f x) same.0 ∙ own.2),
        record {
          pool = unlink_tail-IsPool p x xs k.pool;
          members = λ y m.
              let r = k.members y (ground arith) in
              (r.0, omega (arith, same.1, r.1), ap (λ f. f y) same.0 ∙ r.2);
          fresh = λ y h. ap (λ f. f y) same.0 ∙ k.fresh y (omega (arith, same.1));
          few = omega (arith, same.1, k.few);
        },
      ))

module _ {ℓ} {C : Type ℓ} (activate : C → ℕ → Outcome C) where
  -- Where entries are in the pool, or it is empty and fewer than 255 have been handed out, and any
  -- thread's clock can be activated: `get_thread` returns the entry that has been in the pool
  -- longest, or, if it is empty, the first that has never run. The entry's status says which, it is
  -- not among those that stay in the pool, and those stay in their order.
  pub get_thread-Keeps :
      (disabled : Bool) (p : Pool) (clock : C) (run arg : ℕ) (on_stack : Bool) (xs : List ℕ)
      → Keeps disabled p xs
      → (xs ≡ [] → p.id_counter < 255)
      → ((entry : ℕ) → Returns (λ c. Unit {0}) (activate clock entry))
      → Returns
          (λ (r : ℕ × Pool × C).
            (r.0 ≡ entry_to_run xs p.id_counter)
            × (r.0 ∉ rest xs)
            × (r.1.status r.0 ≡ handed_out disabled xs)
            × Keeps disabled r.1 (rest xs))
          (get_thread activate p clock run arg on_stack)
  unfolding get_thread
  get_thread-Keeps disabled p clock run arg on_stack xs k left activates =
      Returns-bind (take_entry-Keeps disabled p xs k left)
        λ (e, p1) (next, some_entry, out, ran, was, k1). rw some_entry (
          Returns-bind (activates e) λ c u.
            let status =
              store p1.status e (if is_waiting (p1.status e) then entry_ready else entry_init) in
            returns (
              next,
              out,
              store_self p1.status e _
                  ∙ (ap (λ s. if is_waiting s then entry_ready else entry_init) was
                      ∙ handed_out-before disabled xs),
              record {
                pool =
                    relinked p1 status (store p1.run_function e run)
                      (store p1.run_function_arg e arg) (store p1.is_stack_allocated e on_stack)
                      p1.id_counter (rest xs) k1.pool;
                members = λ x m.
                    let r = k1.members x m in
                    (
                      r.0,
                      r.1,
                      store_ne p1.status e x _ (==_sym e x ∙ ne_of_mem x e (rest xs) m out) ∙ r.2,
                    );
                fresh = λ x h. store_ne p1.status e x _ (ground arith) ∙ k1.fresh x h;
                few = k1.few;
              },
            ))

  pub get_thread_exhausted :
      (disabled : Bool) (p : Pool) (clock : C) (run arg : ℕ) (on_stack : Bool)
      → Keeps disabled p []
      → p.id_counter ≡ 255
      → get_thread activate p clock run arg on_stack ≡ out_of_bounds
  unfolding get_thread take_entry
  get_thread_exhausted disabled p clock run arg on_stack k all = rw (k.pool.links.0, all) refl
