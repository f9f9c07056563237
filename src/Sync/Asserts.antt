-- ===== src/Sync/Asserts.antt =====
-- No assertion of list.h fails in what determ.h does to a queue.
use consequence.Base.{
  ℕ, zero, suc, ◌≡◌, Bool, true, false, ◌&&◌, not, ◌==◌, Option, none, some, Outcome, in_range,
  bug_on, ◌>>◌, Safely, safely, safely_outside, Safely-bind, Safely-if, Safely-cases,
}
use consequence.CircularList.{
  Memory, links_at, write_prev, write_next, insert_tail, remove_entry, remove_head_entry,
}
use consequence.Sync.{LockEntry, thread_at, deref}

-- a run that fails no assertion
abbrev pub NoBug {ℓ} : {A : Type ℓ} → Outcome A → Type ℓ
NoBug m = Safely (λ a. Unit {0}) m

in_range-Safely {ℓ κ} :
    {A : Type ℓ} {P : A → Type κ} (b : Bool) {m : Outcome A}
    → Safely P m
    → Safely P (in_range b >> m)
in_range-Safely true s = s
in_range-Safely false s = safely_outside

pub links_at-NoBug : (m : Memory) (p : ℕ) → NoBug (links_at m p)
unfolding links_at
links_at-NoBug m p = in_range-Safely (not (p == 0)) (safely tt)

write_prev-NoBug : (m : Memory) (p v : ℕ) → NoBug (write_prev m p v)
unfolding write_prev
write_prev-NoBug m p v = in_range-Safely (not (p == 0)) (safely tt)

write_next-NoBug : (m : Memory) (p v : ℕ) → NoBug (write_next m p v)
unfolding write_next
write_next-NoBug m p v = in_range-Safely (not (p == 0)) (safely tt)

pub insert_tail-NoBug : (m : Memory) (entry head : ℕ) → NoBug (insert_tail m entry head)
unfolding insert_tail
insert_tail-NoBug m entry head =
    Safely-if (head == 0)
      (Safely-bind (write_prev-NoBug m entry entry)
        λ m1 u1. Safely-bind (write_next-NoBug m1 entry entry) λ m2 u2. safely tt)
      (Safely-bind (links_at-NoBug m head) λ header u0.
        Safely-bind (write_next-NoBug m header.prev entry) λ m1 u1.
          Safely-bind (write_prev-NoBug m1 head entry) λ m2 u2.
            Safely-bind (write_prev-NoBug m2 entry header.prev)
              λ m3 u3. Safely-bind (write_next-NoBug m3 entry head) λ m4 u4. safely tt)

pub bug_on-Safely {ℓ κ} :
    {A : Type ℓ} {P : A → Type κ} (b : Bool) {m : Outcome A}
    → b ≡ false
    → Safely P m
    → Safely P (bug_on b >> m)
bug_on-Safely true e s = cc
bug_on-Safely false e s = s

remove_entry-NoBug :
    (m : Memory) (entry head : ℕ) → (head == 0) ≡ false → NoBug (remove_entry m entry head)
unfolding remove_entry
remove_entry-NoBug m entry head e = bug_on-Safely (head == 0) e (
    Safely-bind (links_at-NoBug m entry) λ links u.
      Safely-if (links.prev == entry && links.next == entry) (safely tt) (
        Safely-bind (write_next-NoBug m links.prev links.next)
          λ m1 u1. Safely-bind (write_prev-NoBug m1 links.next links.prev) λ m2 u2. safely tt))

pub remove_head_entry-NoBug : (m : Memory) (head : ℕ) → NoBug (remove_head_entry m head)
unfolding remove_head_entry
remove_head_entry-NoBug m head =
    Safely-cases (head == 0) (λ e. safely tt)
      λ e. Safely-bind (remove_entry-NoBug m head head e) λ r u. safely tt

pub deref-NoBug : (entry : Option LockEntry) → NoBug (deref entry)
deref-NoBug none = safely_outside
deref-NoBug (some entry) = safely tt

pub thread_at-NoBug : (p : ℕ) → NoBug (thread_at p)
thread_at-NoBug zero = safely_outside
thread_at-NoBug (suc t) = safely tt
