-- ===== src/Threads/Synch.antt =====
-- threads/synch.c: semaphores, locks and condition variables. An operation that may sleep is a
-- beginning and a round: a thread whose round says false has been put to sleep and runs the round
-- again when it is scheduled. `level` is the interrupt level that the thread found.
pub mod Acquire
pub mod Conditions
pub mod Locks
pub mod Release
pub mod Lower
pub mod Semas
pub mod Try
use implso.Prelude.{
  ℕ, ◌+◌, ◌-◌, ◌%◌, ◌^◌, Bool, true, false, not, ◌&&◌, List, [], ◌∷◌, Option, none, some, ltb, ◌==◌,
  if◌then◌else◌,
}
use implso.Prelude.Run.{Run, ok, panic, ◌>>=◌, ◌>>◌, assert}
use implso.Kernel.Queue.{insert_ordered, list_max, remove, push_back, under}
use implso.Threads.Machine.{
  Semaphore, Machine, put, put_thread, priority, is, intr_disable, intr_set_level,
}
use implso.Threads.Scheduler.{
  thread_cmp, thread_current, thread_block, thread_unblock, thread_yield, update_priority,
  propagate_priority,
}

abbrev pub put_sema : ℕ → Semaphore → Machine → Machine
put_sema s sema m = record m { semas = put m.semas s sema }

unfoldable pub sema_init : ℕ → ℕ → Machine → Machine
sema_init s value m = put_sema s (record { value = value; waiters = [] }) m

-- A pass of the loop of sema_down: true, where the value was positive and has been decremented.
unfoldable pub sema_round : (level : Bool) → ℕ → Machine → Run (Bool × Machine)
sema_round level s m = do
  assert (not m.external)
  let m' = intr_disable m
  let sema = m'.semas s
  if sema.value == 0
      then (do
        cur ← thread_current m'
        let waiters' = insert_ordered (thread_cmp m') cur sema.waiters
        m'' ← thread_block (put_sema s (record sema { waiters = waiters' }) m')
        ok (false, m''))
      else ok (true, intr_set_level level (put_sema s (record sema { value = sema.value - 1 }) m'))

unfoldable pub sema_try_down : ℕ → Machine → Bool × Machine
sema_try_down s m =
    let sema = m.semas s in
    if ltb 0 sema.value
    then (true, put_sema s (record sema { value = sema.value - 1 }) m)
    else (false, m)

-- `value++` of an unsigned int, which wraps round
abbrev pub next_value : ℕ → ℕ
next_value value = (value + 1) % 2 ^ 32

-- The part of sema_up behind the choice of a waiter.
unfoldable pub wake : Bool → ℕ → Option ℕ → Machine → Run Machine
wake level s none m = ok (intr_set_level level m)
wake level s (some t) m = do
  let sema = m.semas s
  m1 ← thread_unblock t (put_sema s (record sema { waiters = remove t sema.waiters }) m)
  cur ← thread_current m1
  if ltb (priority m1 cur) (priority m1 t) && not m1.external
      then thread_yield m1
      else ok (intr_set_level level m1)

unfoldable pub sema_up : ℕ → Machine → Run Machine
sema_up s m =
    let sema = m.semas s in
    let m' = put_sema s (record sema { value = next_value sema.value }) (intr_disable m) in
    wake m.interrupts s (list_max (under (priority m)) sema.waiters) m'

abbrev pub put_holder : ℕ → Option ℕ → Machine → Machine
put_holder l h m = record m { holders = put m.holders l h }

unfoldable pub lock_init : ℕ → Machine → Machine
unfolding sema_init
lock_init l m = sema_init l 1 (put_holder l none m)

unfoldable pub lock_held_by_current_thread : ℕ → Machine → Run Bool
lock_held_by_current_thread l m = do cur ← thread_current m; ok (is (m.holders l) cur)

-- lock_acquire up to its call of sema_down: the donation to the holder.
unfoldable pub donate : ℕ → ℕ → Option ℕ → Machine → Machine
donate l t none m = m
donate l t (some holder) m =
    let m1 = put_thread t (record (m.threads t) { blocking_lock = some l }) m in
    let donors = insert_ordered (thread_cmp m1) t (m1.threads holder).donor_threads in
    let m2 = put_thread holder (record (m1.threads holder) { donor_threads = donors }) m1 in
    propagate_priority t m2

unfoldable pub acquire_begin : ℕ → Machine → Run Machine
acquire_begin l m = do
  t ← thread_current m
  assert (not m.external)
  held ← lock_held_by_current_thread l m
  assert (not held)
  ok (donate l t (m.holders l) (intr_disable m))

-- lock_acquire from its call of sema_down on.
unfoldable pub acquire_round : (level : Bool) → ℕ → Machine → Run (Bool × Machine)
acquire_round level l m = do
  let t = m.current
  (down, m1) ← sema_round false l m
  if down
      then (let m2 = put_holder l (some t) m1 in
          ok (
            true,
            intr_set_level level (put_thread t (record (m2.threads t) { blocking_lock = none }) m2),
          ))
      else ok (false, m1)

unfoldable pub lock_acquire : ℕ → Machine → Run (Bool × Machine)
lock_acquire l m = do m' ← acquire_begin l m; acquire_round m.interrupts l m'

unfoldable pub lock_try_acquire : ℕ → Machine → Run (Bool × Machine)
lock_try_acquire l m = do
  held ← lock_held_by_current_thread l m
  assert (not held)
  let (success, m') = sema_try_down l m
  cur ← thread_current m'
  ok (if success then (true, put_holder l (some cur) m') else (false, m'))

-- The loop of lock_release over the donors: those that wait for the lock are removed.
abbrev pub other_donors : ℕ → Machine → List ℕ → List ℕ
other_donors l m [] = []
other_donors l m (d ∷ ds) =
    let rest = other_donors l m ds in if is (m.threads d).blocking_lock l then rest else d ∷ rest

-- lock_release up to its call of sema_up.
unfoldable pub withdraw : ℕ → ℕ → Machine → Machine
withdraw l t m =
    let donors = other_donors l m (m.threads t).donor_threads in
    let m1 = put_thread t (record (m.threads t) { donor_threads = donors }) m in
    update_priority t (put_holder l none m1)

unfoldable pub lock_release : ℕ → Machine → Run Machine
lock_release l m = do
  t ← thread_current m
  held ← lock_held_by_current_thread l m
  assert held
  sema_up l (withdraw l t m)

unfoldable pub cond_init : ℕ → Machine → Machine
cond_init c m = record m { conditions = put m.conditions c [] }

-- cond_wait up to its call of sema_down on the semaphore `w`, which stands in the frame of the
-- caller. It goes on with sema_round on `w`, and then with lock_acquire on `l`.
unfoldable pub wait_begin : (c w l : ℕ) → Machine → Run Machine
unfolding sema_init
wait_begin c w l m = do
  assert (not m.external)
  held ← lock_held_by_current_thread l m
  assert held
  let m' = sema_init w 0 m
  lock_release l (record m' { conditions = put m'.conditions c (push_back w (m'.conditions c)) })

-- The priority that cond_sema_priority_less takes: list_front of an empty list is an error.
abbrev pub front_priority : Machine → List ℕ → Run ℕ
front_priority m [] = panic
front_priority m (t ∷ ts) = ok (priority m t)

unfoldable pub cond_max : Machine → ℕ → List ℕ → Run ℕ
cond_max m max [] = ok max
cond_max m max (e ∷ es) = do
  a ← front_priority m (m.semas max).waiters
  b ← front_priority m (m.semas e).waiters
  cond_max m (if ltb a b then e else max) es

-- The part of cond_signal behind its assertions. The semaphore returned is the one that list_remove
-- takes from the condition when this thread goes on.
abbrev pub signal_first : Machine → List ℕ → Run (Option ℕ × Machine)
signal_first m [] = ok (none, m)
signal_first m (w ∷ ws) = do e ← cond_max m w ws; m' ← sema_up e m; ok (some e, m')

unfoldable pub signal_begin : (c l : ℕ) → Machine → Run (Option ℕ × Machine)
signal_begin c l m = do
  assert (not m.external)
  held ← lock_held_by_current_thread l m
  assert held
  signal_first m (m.conditions c)

unfoldable pub signal_end : (c w : ℕ) → Machine → Machine
signal_end c w m = record m { conditions = put m.conditions c (remove w (m.conditions c)) }
