-- ===== src/CircularList/Tests.antt =====
-- A ring of two entries at the addresses 4 and 7, and the queue's theorems on it.
use consequence.Base.{refl, [], ◌∷◌, ◌==◌, if◌then◌else◌, Returns}
use consequence.CircularList.{Memory, insert_tail}
use consequence.CircularList.Ring.{IsRing, insert_tail-IsRing}

abbrev pub two : Memory
two = λ i. if i == 4 then record { prev = 7; next = 7 } else record { prev = 4; next = 4 }

pub two-IsRing : IsRing two 4 (4 ∷ 7 ∷ [])
two-IsRing = record {
  starts = refl;
  chain = (refl, refl, (refl, refl, tt));
  distinct = (refl, (refl, tt));
  no_null = refl;
}

insert_tail-IsRing_example : Returns (λ r. IsRing r.0 r.1 (4 ∷ 7 ∷ 9 ∷ [])) (insert_tail two 9 4)
insert_tail-IsRing_example = insert_tail-IsRing two 9 4 (4 ∷ 7 ∷ []) two-IsRing refl refl
