-- ===== src/Threads/Timer.antt =====
-- devices/timer.c: threads that sleep for a number of ticks, and the interrupt that wakes them.
pub mod Sleepers
pub mod Ticks
use implso.Prelude.{
  ℕ, ◌+◌, ◌≤◌, ◌<◌, ◌≡◌, refl, sym, ap, ◌∙◌, ◌≢◌, ◌⊎◌, Bool, true, false, not, ◌||◌, List, [], ◌∷◌,
  Option, none, some, arith, ltb, leb, ◌==◌, if◌then◌else◌, Bool-cases, inl, inr,
}
use implso.Prelude.Run
use implso.Prelude.Run.{Run, ok, ◌>>=◌, ◌>>◌, assert, Returns, returns}
use implso.Kernel.Queue.{has, insert_ordered}
use implso.Threads.Machine.{
  Machine, put_thread, status, is, is_blocked, intr_disable, intr_set_level,
}
use implso.Threads.Scheduler.{
  thread_current, thread_block, thread_unblock, count_tick, spend_tick, thread_tick, time_slice,
}
use implso.Threads.Scheduler.Switch.{IsScheduled}
use implso.Threads.Scheduler.Callers.{current_lem, Woken, thread_unblock_lem}
use implso.Threads.Synch.Locks.{Agrees, IsScheduled-agree}

abbrev pub wakeup : Machine → ℕ → ℕ
wakeup m t = (m.threads t).wakeup_tick

abbrev pub thread_sleep_less : Machine → ℕ → ℕ → Bool
thread_sleep_less m a b = ltb (wakeup m a) (wakeup m b)

-- timer_sleep up to where the thread sleeps; the interrupt level is restored when it goes on.
unfoldable pub timer_sleep : ℕ → Machine → Run Machine
timer_sleep ticks m = do
  let m1 = intr_disable m
  cur ← thread_current m1
  let m2 = put_thread cur (record (m1.threads cur) { wakeup_tick = m1.ticks + ticks }) m1
  let sleepers = insert_ordered (thread_sleep_less m2) cur m2.sleep_list
  thread_block (record m2 { sleep_list = sleepers })

-- The loop of timer_interrupt, by the list of the sleepers.
unfoldable pub wake_loop : List ℕ → Machine → Run Machine
wake_loop [] m = ok m
wake_loop (t ∷ rest) m =
    if ltb m.ticks (wakeup m t)
    then ok m
    else (do m' ← thread_unblock t (record m { sleep_list = rest }); wake_loop rest m')

unfoldable pub timer_interrupt : Machine → Run Machine
timer_interrupt m = do
  m1 ← thread_tick (record m { ticks = m.ticks + 1 })
  wake_loop m1.sleep_list m1
