-- ===== src/Threads/Synch/Try.antt =====
-- lock_try_acquire in threads/synch.c.
use implso.Prelude.{ℕ, ◌-◌, ◌≡◌, refl, ap, Bool, true, false, not, none, some, arith, ltb, ==_self}
use implso.Prelude.Run.{Returns, returns}
use implso.Threads.Machine.{Machine, is}
use implso.Threads.Scheduler.Switch.{IsScheduled}
use implso.Threads.Scheduler.Callers.{current_lem}
use implso.Threads.Synch.{
  put_sema, put_holder, sema_try_down, lock_held_by_current_thread, lock_try_acquire,
}
use implso.Threads.Synch.Semas.{IsScheduled-semas}
use implso.Threads.Synch.Locks.{IsLock, free, held}

-- The outcomes of lock_try_acquire.
pub data Tried (l : ℕ) (m : Machine) : Bool × Machine → Type 0 where
  tried :
      (m' : Machine)
      → m.holders l ≡ none
      → m'.holders l ≡ some m.current
      → IsScheduled m'
      → IsLock l m'
      → Tried l m (true, m')
  refused : (h : ℕ) → m.holders l ≡ some h → Tried l m (false, m)

-- lock_try_acquire of a lock that the running thread does not hold does not panic. If nobody holds
-- the lock, the thread does then and the lock is exclusive; if a thread holds it, nothing changes
-- and the result is false.
pub lock_try_acquire_lem :
    (l : ℕ) (m : Machine)
    → IsScheduled m
    → IsLock l m
    → is (m.holders l) m.current ≡ false
    → Returns (Tried l m) (lock_try_acquire l m)
unfolding lock_try_acquire lock_held_by_current_thread sema_try_down
lock_try_acquire_lem l m sch (free e one) other =
    let m1 = put_sema l (record (m.semas l) { value = (m.semas l).value - 1 }) m in
    let sch1 : IsScheduled m1 = IsScheduled-semas m _ _ _ sch in
    let m2 = put_holder l (some m.current) m1 in
    let open_lock : ltb 0 (m.semas l).value ≡ true = ground arith in
    rw (current_lem m sch, ap not other, open_lock, current_lem m1 sch1)
      (returns (
        tried m2 e (rw (==_self l) refl) (IsScheduled-semas m _ _ _ sch)
          (held m.current (rw (==_self l) refl) (rw (==_self l) (ground arith)))))
lock_try_acquire_lem l m sch (held h e zero_value) other =
    let closed : ltb 0 (m.semas l).value ≡ false = ground arith in
    rw (current_lem m sch, ap not other, closed, current_lem m sch) (returns (refused h e))
