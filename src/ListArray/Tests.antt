-- ===== src/ListArray/Tests.antt =====
-- Runs of the list array at concrete indices, and instances of its theorems.
use consequence.Base.{
  ℕ, ◌≡◌, refl, ◌+◌, ◌*◌, [], ◌∷◌, arith, pos, if◌then◌else◌, ◌==◌, Outcome, ok, bug, ◌>>=◌,
}
use consequence.ListArray.{
  Entry, ListArray, entry_null, entry_dead, init, insert, foreach, getentry,
}
use consequence.ListArray.Chain.{Holds}
use consequence.ListArray.Refine.{put, drop, run, promises, Keeps, run-init-Keeps}

-- memory before `listarray_init`
abbrev blank : ListArray
blank = record {
  entries = λ i. record { next = pos 0; prev = pos 0 };
  head = pos 0;
  tail = pos 0;
  count = 0;
  max_index = 0;
}

abbrev dead : Entry
dead = record { next = entry_dead; prev = entry_dead }

-- thread 3 is first, thread 5 second, thread 2 third
abbrev pub three : ListArray
three = record {
  entries = λ i.
      if i == 3
      then record { next = pos 5; prev = entry_null }
      else if i == 5
      then record { next = pos 2; prev = pos 3 }
      else if i == 2
      then record { next = entry_null; prev = pos 5 }
      else dead;
  head = pos 3;
  tail = pos 2;
  count = 3;
  max_index = 5;
}

pub three-Holds : Holds three (3 ∷ 5 ∷ 2 ∷ [])
three-Holds = record {
  head = refl;
  tail = refl;
  linked = (refl, refl, (refl, refl, (refl, refl, tt)));
  distinct = (refl, (refl, (refl, tt)));
  bounded = omega arith;
  reached = omega arith;
  count = refl;
  dead = λ i lt o. ground arith;
}

abbrev collect : ℕ → ℕ → Outcome ℕ
collect s i = ok (10 * s + i)

run-init-Keeps_example :
    Keeps
      (run (put 4 ∷ put 9 ∷ drop 4 ∷ []) (init blank))
      (promises (put 4 ∷ put 9 ∷ drop 4 ∷ []) [])
run-init-Keeps_example = run-init-Keeps (put 4 ∷ put 9 ∷ drop 4 ∷ []) blank (omega arith)

visits_in_order : foreach three collect 0 ≡ ok 352
unfolding foreach getentry
visits_in_order = refl

promised : promises (put 4 ∷ put 9 ∷ drop 4 ∷ []) [] ≡ ok (9 ∷ [])
unfolding promises
promised = refl

insert_twice : (insert blank 3 >>= λ la. insert la 3) ≡ bug
unfolding insert getentry
insert_twice = refl
