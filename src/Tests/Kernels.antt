-- ===== src/Tests/Kernels.antt =====
-- threads/thread.c and threads/synch.c on a machine of four threads.
use implso.Prelude.{
  ℕ, zero, suc, ◌≡◌, refl, true, false, List, [], ◌∷◌, Option, none, some, arith, ◌==◌,
  if◌then◌else◌,
}
use implso.Prelude.Run.{Returns}
use implso.Kernel.Queue.{has, empty, link}
use implso.Threads.Machine.{
  Status, running, ready, blocked, dying, is_running, is_ready, Thread, Semaphore, Machine, status,
  is,
}
use implso.Threads.Scheduler.{thread_yield, propagate_priority}
use implso.Threads.Scheduler.Queued.{IsQueued}
use implso.Threads.Scheduler.Switch.{IsScheduled, Switched}
use implso.Threads.Scheduler.Callers.{thread_yield_lem}
use implso.Threads.Scheduler.Donate.{HoldersAlive, AllDonated, AllDonatedBut, no_lock, held}
use implso.Threads.Scheduler.Propagate.{propagate_priority-AllDonated}
use implso.Threads.Synch.{sema_up, lock_release}
use implso.Threads.Synch.Semas.{AreBlocked, AfterUp, sema_up_lem}
use implso.Threads.Synch.Locks
use implso.Threads.Synch.{lock_try_acquire}
use implso.Threads.Synch.Try.{Tried, lock_try_acquire_lem}
use implso.Threads.Synch.Lower.{PrioritySet, set_priority_lem}
use implso.Threads.Scheduler.{set_priority}
use implso.Threads.Synch.Release.{Released, lock_release_lem}

abbrev pub thread : Status → ℕ → List ℕ → Option ℕ → Thread
thread s p donors lock = record {
  magic = true;
  user = false;
  tid = 1;
  status = s;
  priority = p;
  original_priority = p;
  wakeup_tick = 0;
  donor_threads = donors;
  blocking_lock = lock;
}

-- Thread 0 is idle, 1 runs and holds the lock 5, 2 is ready and holds the lock 6, and 3 waits for
-- the lock 5.
abbrev four : ℕ → Thread
four zero = thread blocked 0 [] none
four (suc zero) = thread running 31 (3 ∷ []) none
four (suc (suc zero)) = thread ready 20 [] none
four (suc (suc (suc zero))) = thread blocked 40 [] (some 5)
four (suc (suc (suc (suc t)))) = thread dying 0 [] none

abbrev two_holders : ℕ → Option ℕ
two_holders l = if l == 5 then some 1 else if l == 6 then some 2 else none

abbrev two_locks : ℕ → Semaphore
two_locks s =
    if s == 5 then record { value = 0; waiters = 3 ∷ [] } else record { value = 0; waiters = [] }

abbrev pub machine : Machine
machine = record {
  threads = four;
  semas = two_locks;
  holders = two_holders;
  conditions = λ c. [];
  ready_list = 2 ∷ [];
  all_list = 0 ∷ 1 ∷ 2 ∷ 3 ∷ [];
  sleep_list = [];
  current = 1;
  idle_thread = some 0;
  initial_thread = 1;
  next_tid = 4;
  ticks = 0;
  idle_ticks = 0;
  kernel_ticks = 0;
  user_ticks = 0;
  thread_ticks = 0;
  interrupts = false;
  external = false;
  yield_on_return = false;
}

machine-listed : (t : ℕ) → has t machine.ready_list ≡ true → t ≡ 2
machine-listed t h = ground arith

machine-IsQueued : IsQueued machine
machine-IsQueued = record {
  queue = link 2 [] (λ y e. ground arith) empty;
  listed = λ t h. rw (machine-listed t h) refl;
  alive = λ t h. rw (machine-listed t h) refl;
  waiting = waiting;
  idle = (0, refl, refl);
}
  where
    waiting :
        (t : ℕ)
        → is_ready (status machine t) ≡ true
        → is machine.idle_thread t ≡ false
        → has t machine.ready_list ≡ true
    waiting zero r i = ground arith
    waiting (suc zero) r i = ground arith
    waiting (suc (suc zero)) r i = refl
    waiting (suc (suc (suc zero))) r i = ground arith
    waiting (suc (suc (suc (suc t)))) r i = ground arith

machine-only : (t : ℕ) → is_running (status machine t) ≡ true → t ≡ 1
machine-only zero r = ground arith
machine-only (suc zero) r = refl
machine-only (suc (suc zero)) r = ground arith
machine-only (suc (suc (suc zero))) r = ground arith
machine-only (suc (suc (suc (suc t)))) r = ground arith

pub machine-IsScheduled : IsScheduled machine
machine-IsScheduled = record {
  queued = machine-IsQueued;
  running = refl;
  alive = refl;
  only = machine-only;
}

machine-magic : (t : ℕ) → (machine.threads t).magic ≡ true
machine-magic zero = refl
machine-magic (suc zero) = refl
machine-magic (suc (suc zero)) = refl
machine-magic (suc (suc (suc zero))) = refl
machine-magic (suc (suc (suc (suc t)))) = refl

machine-HoldersAlive : HoldersAlive machine
machine-HoldersAlive = record { magics = λ l h e. machine-magic h; busy = λ l h e. ground arith }

waiters_five : AreBlocked 5 machine
waiters_five t h = let e : t ≡ 3 = ground arith in rw e (refl, refl)

only_three : AllDonatedBut 3 machine
only_three zero h ne (l, w, _) = ground arith
only_three (suc zero) h ne (l, w, _) = ground arith
only_three (suc (suc zero)) h ne (l, w, _) = ground arith
only_three (suc (suc (suc zero))) h ne w = absurd (ne refl)
only_three (suc (suc (suc (suc t)))) h ne (l, w, _) = ground arith

thread_yield_lem_example : Returns (Switched machine) (thread_yield machine)
thread_yield_lem_example = thread_yield_lem machine machine-IsScheduled refl

propagate_priority-AllDonated_example : AllDonated (propagate_priority 3 machine)
propagate_priority-AllDonated_example =
    propagate_priority-AllDonated 3 machine machine-IsQueued machine-HoldersAlive only_three
      (held 7 5 1 refl (no_lock 7))

sema_up_lem_example : Returns (AfterUp 5 machine) (sema_up 5 machine)
sema_up_lem_example = sema_up_lem 5 machine machine-IsScheduled refl waiters_five

lock_release_lem_example : Returns (Released 5 machine) (lock_release 5 machine)
lock_release_lem_example =
    lock_release_lem 5 machine machine-IsScheduled refl refl (Locks.held 1 refl refl) refl
      waiters_five

set_priority_lem_example : Returns (PrioritySet 10 machine) (set_priority 10 machine)
set_priority_lem_example =
    set_priority_lem 10 machine machine-IsScheduled refl refl machine-HoldersAlive

lock_try_acquire_lem_example : Returns (Tried 6 machine) (lock_try_acquire 6 machine)
lock_try_acquire_lem_example =
    lock_try_acquire_lem 6 machine machine-IsScheduled (Locks.held 2 refl refl) refl
