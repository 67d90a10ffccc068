-- ===== src/Devices/Intq.antt =====
-- devices/intq.c: the circular queue of bytes between an interrupt handler and a thread.
pub mod Ring
use implso.Prelude.{
  ℕ, zero, suc, ◌+◌, ◌-◌, ◌%◌, ◌≤◌, ◌<◌, ◌≡◌, refl, ap, ◌∙◌, ◌≢◌, Bool, true, false, not, List, [],
  ◌∷◌, ◌++◌, Option, none, some, arith, ◌==◌, if◌then◌else◌,
}
use implso.Prelude.Run
use implso.Prelude.Run.{Run, ok, ◌>>=◌, ◌>>◌, assert, Returns, returns}
use implso.Threads.Machine.{Machine}
use implso.Threads.Scheduler.{thread_current, thread_block, thread_unblock}
use implso.Threads.Synch.{lock_init, lock_acquire}

abbrev pub intq_bufsize : ℕ
intq_bufsize = 64

-- `lock` is the address of the lock.
pub record Intq : Type 0 where
  pub lock : ℕ
  pub not_full : Option ℕ
  pub not_empty : Option ℕ
  pub buf : ℕ → ℕ
  pub head : ℕ
  pub tail : ℕ

unfoldable pub next : ℕ → ℕ
next pos = (pos + 1) % intq_bufsize

unfoldable pub intq_init : Intq → Machine → Intq × Machine
intq_init q m =
    (record q { not_full = none; not_empty = none; head = 0; tail = 0 }, lock_init q.lock m)

unfoldable pub is_empty : Intq → Bool
is_empty q = q.head == q.tail

unfoldable pub is_full : Intq → Bool
is_full q = next q.head == q.tail

-- `thread_unblock (*waiter)`, for a waiter that is not null.
unfoldable pub wake_waiter : Option ℕ → Machine → Run Machine
wake_waiter none m = ok m
wake_waiter (some t) m = thread_unblock t m

unfoldable pub signal_not_full : Intq → Machine → Run (Intq × Machine)
signal_not_full q m = do
  assert (not m.interrupts)
  assert (not (is_full q))
  m' ← wake_waiter q.not_full m
  ok (record q { not_full = none }, m')

unfoldable pub signal_not_empty : Intq → Machine → Run (Intq × Machine)
signal_not_empty q m = do
  assert (not m.interrupts)
  assert (not (is_empty q))
  m' ← wake_waiter q.not_empty m
  ok (record q { not_empty = none }, m')

-- The body of the loop of intq_getc, up to where the thread sleeps: for the lock, or for a byte.
unfoldable pub await_byte : Intq → Machine → Run (Intq × Machine)
await_byte q m = do
  assert (not m.external)
  (held, m1) ← lock_acquire q.lock m
  if held
      then (do
        assert (not m1.interrupts)
        assert (is_empty q)
        cur ← thread_current m1
        m2 ← thread_block m1
        ok (record q { not_empty = some cur }, m2))
      else ok (q, m1)

-- A pass of intq_getc. The byte is none where the thread sleeps: it goes on with lock_release, if it
-- had the lock, and makes another pass.
unfoldable pub intq_getc : Intq → Machine → Run (Option ℕ × (Intq × Machine))
intq_getc q m = do
  assert (not m.interrupts)
  if is_empty q
      then (do r ← await_byte q m; ok (none, r))
      else (do r ← signal_not_full (record q { tail = next q.tail }) m; ok (some (q.buf q.tail), r))

unfoldable pub await_room : Intq → Machine → Run (Intq × Machine)
await_room q m = do
  assert (not m.external)
  (held, m1) ← lock_acquire q.lock m
  if held
      then (do
        assert (not m1.interrupts)
        assert (is_full q)
        cur ← thread_current m1
        m2 ← thread_block m1
        ok (record q { not_full = some cur }, m2))
      else ok (q, m1)

-- A pass of intq_putc, which says whether the byte is in the queue.
unfoldable pub intq_putc : ℕ → Intq → Machine → Run (Bool × (Intq × Machine))
intq_putc byte q m = do
  assert (not m.interrupts)
  if is_full q then (do r ← await_room q m; ok (false, r)) else (do
    let buf' : ℕ → ℕ = λ i. if q.head == i then byte else q.buf i
    r ← signal_not_empty (record q { buf = buf'; head = next q.head }) m
    ok (true, r))
