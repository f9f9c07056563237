-- ===== src/Threads/Spawning.antt =====
-- What spawning a thread by xthread.cpp of thread_lib leaves for those who ask about it, and how a job's
-- result gets to who joins it.
use consequence.Base.{
  ℕ, ◌≡◌, refl, sym, ◌∙◌, arith, false, ◌==◌, if◌then◌else◌, store, store_self, store_ne, List, ◌∷◌,
  ok, inl, inr, Bool-cases, ==_iff, ap,
}
use consequence.ThreadPool.{is_init}
use consequence.Threads.{Status, Threads, fork_spawn, object_for, spawn, get_thread_index}

-- Each entry that has an object has one of its own, with the entry's index in it.
pub record HasObjects (s : Threads) : Type 0 where
  pub index :
      (e : ℕ) → (s.status_obj e == 0) ≡ false → (s.statuses (s.status_obj e)).thread_index ≡ e

-- No entry has its object at `fresh`.
abbrev pub IsFresh : Threads → ℕ → Type 0
IsFresh s fresh = ((fresh == 0) ≡ false) × ((e : ℕ) → (fresh == s.status_obj e) ≡ false)

-- what `spawn` leaves, whether the entry had an object or not, and whether its process is made or not
record Spawned (s : Threads) (tpe v : ℕ) (s' : Threads) : Type 0 where
  pub not_null : (v == 0) ≡ false
  pub its_own :
      (e : ℕ) → (tpe == e) ≡ false → (s.status_obj e == 0) ≡ false → (v == s.status_obj e) ≡ false
  pub object : s'.status_obj tpe ≡ v
  pub others : (e : ℕ) → (tpe == e) ≡ false → s'.status_obj e ≡ s.status_obj e
  pub statuses : s'.statuses ≡ store s.statuses v (record (s.statuses v) { thread_index = tpe })

fork_spawn-keeps :
    (s : Threads) (tpe : ℕ)
    → ((fork_spawn s tpe).0 ≡ s.status_obj tpe)
      × ((fork_spawn s tpe).1.status_obj ≡ s.status_obj)
      × ((fork_spawn s tpe).1.statuses ≡ s.statuses)
      × ((fork_spawn s tpe).1.processes
          ≡ (if is_init (s.pool.status tpe) then tpe ∷ s.processes else s.processes))
unfolding fork_spawn
fork_spawn-keeps s tpe = elim (Bool-cases (is_init (s.pool.status tpe))) [
  | inl new ↦ rw new (refl, refl, refl, refl)
  | inr parked ↦ rw parked (refl, refl, refl, refl)
]

own-index :
    (s : Threads) (tpe e : ℕ)
    → HasObjects s
    → (tpe == e) ≡ false
    → (s.status_obj tpe == 0) ≡ false
    → (s.status_obj e == 0) ≡ false
    → (s.status_obj tpe == s.status_obj e) ≡ false
own-index s tpe e h apart a b = elim (Bool-cases (s.status_obj tpe == s.status_obj e)) [
  | inl same ↦ absurd (
      let same_index : tpe ≡ e =
        (sym (h.index tpe a)
          ∙ ap (λ o. (s.statuses o).thread_index) ((==_iff _ _).0 same)
          ∙ h.index e b) in
      ground arith)
  | inr other ↦ other
]

Spawned-HasObjects :
    (s : Threads) (tpe v : ℕ) (s' : Threads)
    → HasObjects s
    → Spawned s tpe v s'
    → HasObjects s'
      × (get_thread_index s' v ≡ ok tpe)
      × (s'.status_obj tpe ≡ v)
      × ((e : ℕ) → (tpe == e) ≡ false → s'.status_obj e ≡ s.status_obj e)
unfolding get_thread_index
Spawned-HasObjects s tpe v s' h new = (
  record {
    index = λ e some_object. elim (Bool-cases (tpe == e)) [
      | inl same ↦
          let at : s'.status_obj e ≡ v =
            ap (λ n. s'.status_obj n) (sym ((==_iff tpe e).0 same)) ∙ new.object in
          rw
            (
              at,
              new.statuses,
              store_self s.statuses v (record (s.statuses v) { thread_index = tpe }),
            )
            ((==_iff tpe e).0 same)
      | inr apart ↦
          let old : (s.status_obj e == 0) ≡ false = rw (sym (new.others e apart)) some_object in
          rw
            (
              new.others e apart,
              new.statuses,
              store_ne s.statuses v (s.status_obj e) (record (s.statuses v) { thread_index = tpe })
                  (new.its_own e apart old),
            )
            (h.index e old)
    ];
  },
  rw
      (
        new.not_null,
        new.statuses,
        store_self s.statuses v (record (s.statuses v) { thread_index = tpe }),
      )
      refl,
  new.object,
  new.others,
)

-- the entry's index is written into the object at `v`
abbrev with_index : Threads → ℕ → ℕ → (ℕ → Status)
with_index s v tpe = store s.statuses v (record (s.statuses v) { thread_index = tpe })

module _ (s : Threads) (tpe fresh : ℕ) (h : HasObjects s) (new : IsFresh s fresh) where
  new_object-Spawned :
      (v : ℕ) (ps : List ℕ)
      → v ≡ fresh
      → Spawned s tpe v (record s {
        status_obj = store s.status_obj tpe fresh;
        statuses = with_index s fresh tpe;
        processes = ps;
      })
  new_object-Spawned v ps e = rw e record {
    not_null = new.0;
    its_own = λ e _ _. new.1 e;
    object = store_self s.status_obj tpe fresh;
    others = λ e apart. store_ne s.status_obj tpe e fresh apart;
    statuses = refl;
  }

  old_object-Spawned :
      (ps : List ℕ)
      → (s.status_obj tpe == 0) ≡ false
      → Spawned s tpe
          (s.status_obj tpe)
          (record s { statuses = with_index s (s.status_obj tpe) tpe; processes = ps })
  old_object-Spawned ps some_object = record {
    not_null = some_object;
    its_own = λ e apart b. own-index s tpe e h apart some_object b;
    object = refl;
    others = λ e _. refl;
    statuses = refl;
  }

  spawn-Spawned : Spawned s tpe (spawn s tpe fresh).0 (spawn s tpe fresh).1
  unfolding spawn object_for fork_spawn
  spawn-Spawned = elim (Bool-cases (s.status_obj tpe == 0)) [
    | inl without ↦ elim (Bool-cases (is_init (s.pool.status tpe))) [
      | inl init ↦ rw (without, init) (new_object-Spawned _ _ (store_self s.status_obj tpe fresh))
      | inr parked ↦
          rw (without, parked) (new_object-Spawned _ _ (store_self s.status_obj tpe fresh))
    ]
    | inr has_one ↦ elim (Bool-cases (is_init (s.pool.status tpe))) [
      | inl init ↦ rw (has_one, init) (old_object-Spawned _ has_one)
      | inr parked ↦ rw (has_one, parked) (old_object-Spawned _ has_one)
    ]
  ]

  -- Where each entry that has an object has one of its own with the entry's index in it, and `fresh`
  -- is no entry's: after `spawn` that is so again; it returns an object, from which
  -- `getThreadIndex` gives the index of the entry, and all other entries keep their objects.
  pub spawn-HasObjects :
      HasObjects (spawn s tpe fresh).1
      × (get_thread_index (spawn s tpe fresh).1 (spawn s tpe fresh).0 ≡ ok tpe)
      × ((spawn s tpe fresh).1.status_obj tpe ≡ (spawn s tpe fresh).0)
      × ((e : ℕ) → (tpe == e) ≡ false → (spawn s tpe fresh).1.status_obj e ≡ s.status_obj e)
  spawn-HasObjects = Spawned-HasObjects s tpe _ _ h spawn-Spawned
