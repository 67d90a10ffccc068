-- ===== src/Threads/Synch/Acquire.antt =====
-- lock_acquire in threads/synch.c: the lock is taken, or the thread sleeps and has donated.
use implso.Prelude.{ℕ, ◌≤◌, ◌≡◌, Bool, true, false, none, some, if◌then◌else◌}
use implso.Prelude.Run
use implso.Prelude.Run.{Run, ok, panic, ◌>>=◌, ◌>>◌, assert}
use implso.Kernel.Queue.{has}
use implso.Threads.Machine.{Machine, put_thread, priority, intr_set_level}
use implso.Threads.Scheduler.Donate.{blocking}
use implso.Threads.Scheduler.Switch.{IsScheduled}
use implso.Threads.Synch.{put_holder}
use implso.Threads.Synch.Locks.{IsLock}
use implso.Threads.Synch.Semas.{IsTop}

-- The outcomes of lock_acquire: the lock was free and is held, or the thread sleeps among the
-- waiters of the lock, and has donated.
pub data Acquired (l : ℕ) (m : Machine) : Bool × Machine → Type 0 where
  took :
      (m' : Machine)
      → m.holders l ≡ none
      → m'.holders l ≡ some m.current
      → blocking m' m.current ≡ none
      → m'.current ≡ m.current
      → IsScheduled m'
      → IsLock l m'
      → Acquired l m (true, m')
  sleeps :
      (h : ℕ) (m' : Machine)
      → m.holders l ≡ some h
      → m'.holders l ≡ some h
      → has m.current (m'.semas l).waiters ≡ true
      → has m.current (m'.threads h).donor_threads ≡ true
      → blocking m' m.current ≡ some l
      → priority m m.current ≤ priority m' h
      → IsScheduled m'
      → IsTop m'
      → IsLock l m'
      → Acquired l m (false, m')

-- The part of acquire_round behind its pass of sema_down.
abbrev finish : ℕ → Bool → ℕ → Bool × Machine → Run (Bool × Machine)
finish l level t (down, m1) =
    if down
    then (let m2 = put_holder l (some t) m1 in
        ok (
          true,
          intr_set_level level (put_thread t (record (m2.threads t) { blocking_lock = none }) m2),
        ))
    else ok (false, m1)
