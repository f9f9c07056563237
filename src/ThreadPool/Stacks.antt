-- ===== src/ThreadPool/Stacks.antt =====
-- How thread_pool.h of thread_lib hands a new thread what its argument points to on the stack of its parent:
-- the parent's bytes are kept in the thread's entry, and put in their place in the thread's own memory
-- when it runs. An address that cannot be read raises a signal, whose handler jumps out of the copy.
use consequence.Base.{
  ℕ, ◌+◌, ◌-◌, ◌<◌, ◌≡◌, refl, arith, Bool, true, false, ◌==◌, if◌then◌else◌, Bool-cases, inl, inr,
}
use consequence.Memory.{Bytes, within}

-- `entry->stack_size`, as `save_parent_stack` sets it
abbrev pub stack_size : ℕ
stack_size = 300

-- the handler of SIGSEGV: `SIG_IGN`, `SIG_DFL`, the program's own, or the one of the thread pool
pub data Handler : Type 0 where
  sig_ign : Handler
  sig_dfl : Handler
  own_handler : ℕ → Handler
  thread_pool_handler : Handler

abbrev pub is_own : Handler → Bool
is_own sig_ign = false
is_own sig_dfl = false
is_own (own_handler h) = true
is_own thread_pool_handler = true

-- the fields of an entry that hold bytes of a stack
pub record SavedStack : Type 0 where
  pub stack_space : Bytes
  pub stack_start_addr : ℕ

-- `save_parent_stack`: the argument's first byte is read, and then all that are kept; `spoiled` is what
-- the space holds if the copy is cut short
unfoldable pub save_parent_stack :
    (ℕ → Bool) → Bytes → SavedStack → Bytes → Handler → ℕ → SavedStack × Handler
save_parent_stack all_readable m entry spoiled old_action arg = (
  (if all_readable arg
      then record { stack_space = λ j. m (arg + j); stack_start_addr = arg }
      else record { stack_space = spoiled; stack_start_addr = 0 }),
  (if is_own old_action then old_action else thread_pool_handler),
)

-- `copy_parent_stack`
unfoldable pub copy_parent_stack : SavedStack → Bytes → Bytes
copy_parent_stack entry m = if entry.stack_start_addr == 0 then m else λ a.
    if within entry.stack_start_addr stack_size a
    then entry.stack_space (a - entry.stack_start_addr)
    else m a

-- `park_thread`, once the thread runs again
unfoldable pub unpark : Bool → SavedStack → Bytes → Bytes
unfolding copy_parent_stack
unpark is_stack_allocated entry m = if is_stack_allocated then copy_parent_stack entry m else m

-- Where the bytes from the argument on can be read and it is not NULL: when the new thread runs with an
-- argument on its parent's stack, the first 300 bytes there are as they were in the parent's memory
-- when they were kept, and all others as in its own.
pub copy_parent_stack-save_parent_stack :
    (all_readable : ℕ → Bool) (parent own : Bytes) (entry : SavedStack) (spoiled : Bytes)
    (old_action : Handler) (arg a : ℕ)
    → all_readable arg ≡ true
    → 0 < arg
    → unpark true (save_parent_stack all_readable parent entry spoiled old_action arg).0 own a
      ≡ (if within arg stack_size a then parent a else own a)
unfolding unpark copy_parent_stack save_parent_stack
copy_parent_stack-save_parent_stack all_readable parent own entry spoiled old_action arg a readable
      positive =
    let some_arg : (arg == 0) ≡ false = ground arith in
    rw (readable, some_arg)
      (elim (Bool-cases (within arg stack_size a)) [
        | inl inside ↦ let back : arg + (a - arg) ≡ a = ground arith in rw (inside, back) refl
        | inr outside ↦ rw outside refl
      ])

-- Where the handler of the signal was the system's own or the signal was ignored, the handler of the thread
-- pool stays.
pub save_parent_stack_handler :
    (all_readable : ℕ → Bool) (m : Bytes) (entry : SavedStack) (spoiled : Bytes)
    (old_action : Handler) (arg : ℕ)
    → is_own old_action ≡ false
    → (save_parent_stack all_readable m entry spoiled old_action arg).1 ≡ thread_pool_handler
unfolding save_parent_stack
save_parent_stack_handler all_readable m entry spoiled old_action arg not_own = rw not_own refl
