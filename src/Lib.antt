-- ===== src/Lib.antt =====
-- Consequence runs multithreaded programs deterministically: threads synchronize in the order of
-- logical clocks. Its kernel module (src/logical_clock/module) keeps each thread's clock, which
-- the hardware's instruction counter drives, finds the thread whose clock is the lowest, and
-- tells or wakes it. A library in user space (src/logical_clock/lib) gives a thread its own view
-- of its clock. This development models the module, the library, and of the run-time
-- (src/thread_lib) the lists, the locks, the run loop, the memory and the calls of programs.
--
-- ListArray.antt is listarray.h: the doubly linked list of active threads inside an array. Its
-- functions keep their names, less the prefix `listarray_`; below it, Chain says which sequence
-- an array holds, Insert, Remove and Loops what each function does to it, and Refine compares
-- runs of functions with an abstract sequence.
--
-- Clock.antt is the clock. State is the group of threads (`struct task_clock_group_info`), with
-- the macros of utility.h; Search is search_entries.h; Notify is the part of clock_main.c that
-- determines the lowest thread and whom to wake; Fence is bounded_tso.c and bounded_tso.h;
-- Counter is logical_clock_instruction_counting.h; Entry has the handlers of clock_main.c that
-- the kernel calls, which use all the others. Functions keep their names, less leading
-- underscores and the prefixes `task_clock_` and `logical_clock_`.
--
-- UserClock.antt is determ_clock.c of the library, over the system calls as a record of
-- operations; Lowest is about waiting to be the lowest thread, Coarsened about the ticks that
-- are counted in user space, and Transactions has the functions that start and stop the clock.
-- Functions keep their names, less the prefix `determ_task_clock_`, with `_clock` behind the
-- names that the module has too. TxEstimate.antt is tx_estimate.h, the estimates of a
-- transaction's length that the library keeps; the floating-point average is a parameter.
--
-- CircularList.antt is src/thread_lib/include/list.h of the run-time: the rings of entries that
-- the queues of locks and condition variables are. Sync.antt is the token, the locks and the
-- condition variables of determ.h there, over the clock and the versioned memory as a record of
-- services; an operation that blocks is modelled up to where it does; below it, Mutex and
-- CondVar have the functions on locks and on condition variables, Waiting what blocks, to its
-- end, Barriers the barriers and cancellation, SimpleBarrier the other barrier that a build can
-- have, Entries how a variable's entry is found, Events the log of a thread's events, with
-- Ordered and Coarsening below it, and Token, Locks, Conds, Asserts and Holder the theorems.
-- Functions keep their names in snake case.
--
-- Run.antt is src/thread_lib/include/xrun.h, what a thread does at each call of a
-- synchronization operation, over determ.h, the clock, the memory and the thread pool as a
-- record of operations that have run to their end, with what the other threads did meanwhile.
-- Mutexes and Operations have the operations, Tokens what they need of the token and what they
-- keep true, Holding and Handling that each keeps it, Calls sequences of calls; FastForward is
-- about the clock at the token, Unlocking about a release that is not committed, and OverDeterm
-- puts the operations of Sync under the run loop. A mutex is tried a number of times that is an
-- argument.
--
-- ThreadPool.antt is src/thread_lib/include/thread_pool.h, the pool of parked threads; Fifo is
-- about its list, Handing about what goes in and comes out, and Stacks has the copy of the parent's
-- stack that a new thread's argument may point to.
--
-- Memory.antt and the files below it are the memory of src/thread_lib/include. Bump is xheap.h,
-- which hands out the pages of a region, and Bump/Tiles where its blocks lie; Headers is
-- objectheader.h with class NewSourceHeap of warpheap.h, and Headers/Sizes what sizes objects
-- have; PerThread is class PPHeap of warpheap.h; Allocation is the part of xmemory.h that
-- allocates, with conseq_malloc.h, and below it Contents says what is needed of the heaps inside,
-- Realloc and Calloc what becomes of the objects, and Simple that the heap of Bump and Headers
-- is such a heap. Regions is xpersist.h, over the conversion library as a record of operations;
-- Both is the part of xmemory.h that is about the two regions, with the bounds of xglobals.h;
-- Versions and Masks are the theorems. Internal is internalheap.h, Pages is xpageentry.h and
-- xbitmap.h, and Atomics is xatomic.h. Functions keep their names in snake case, with a word more
-- where two layers have the same one.
--
-- Interposition.antt is src/thread_lib/source/libdthread.cpp, the functions that programs call:
-- those of pthread over the run loop of Run, with sequences of calls in Programs; Allocating has
-- malloc and its like over Memory; Buffers has read and write. Threads.antt is
-- src/thread_lib/source/xthread.cpp: Spawning is about the objects that hold a thread's status,
-- Jobs about what a thread's process does. Stats.antt is stats.h, and Stats/Sums what times add
-- up to.
--
-- A call of the module is made in a context: the build flags, the calling thread, whether it is
-- in an interrupt, what the hardware counter reads, and what the stack holds where an array is
-- not initialised. The result is an `Outcome`: a value, a failed `BUG_ON` or assertion, an
-- access outside an array or through NULL, or a call of `exit`. Clocks and counts are natural
-- numbers below 2 ^ 64, with the wrap-around written out (`u64`). The loops over the list array
-- run on fuel, one round more than the array has entries; a list visits no entry twice. The loop
-- of `cond_broadcast` has one round more than there are threads. The waits for other threads,
-- and the attempts at the token and at a mutex, run on fuel that is an argument: how long they
-- take is up to the others, and a run without fuel is one that still waits. The loop over the
-- pages of a buffer has a round for each of its bytes; a thread's process has a number of jobs
-- that is an argument.
--
-- Not modelled: the module's and the run-time's own locks (a function under its lock is one
-- step), the page table walk and mapping of the user status page, the retry of a counter read
-- that an interrupt overtakes, printing, the set-up of the library's shared memory and fd, the
-- heaps of the Heap Layers library that src/thread_lib/include/heaplayers is a copy of, which
-- stand between Headers and PerThread and are parameters, and the rest of the run-time
-- (src/thread_lib).
mod Base
pub mod ListArray
pub mod Clock
pub mod TxEstimate
pub mod UserClock
pub mod CircularList
pub mod Sync
pub mod ThreadPool
pub mod Run
pub mod Memory
pub mod Interposition
pub mod Threads
pub mod Stats
