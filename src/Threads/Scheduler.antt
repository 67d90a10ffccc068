-- ===== src/Threads/Scheduler.antt =====
-- threads/thread.c: the ready list, the change of threads and the priorities.
pub mod Callers
pub mod Donate
pub mod Propagate
pub mod Queued
pub mod Switch
use implso.Prelude.{
  ℕ, zero, suc, ◌+◌, Bool, true, false, not, ◌&&◌, List, [], ◌∷◌, Option, none, some, ltb, leb,
  ◌==◌, if◌then◌else◌,
}
use implso.Prelude.Run.{Run, ok, panic, ◌>>=◌, ◌>>◌, assert}
use implso.Kernel.Queue.{insert_ordered, list_max, remove, push_back, above, under}
use implso.Threads.Machine.{
  Status, running, ready, blocked, dying, is_running, is_ready, is_blocked, is_dying, Thread,
  Machine, put_thread, priority, status, is, intr_disable, intr_set_level,
}

abbrev pub pri_min : ℕ
pri_min = 0

abbrev pub pri_default : ℕ
pri_default = 31

abbrev pub pri_max : ℕ
pri_max = 63

abbrev pub donation_depth : ℕ
donation_depth = 8

abbrev pub time_slice : ℕ
time_slice = 4

-- thread_cmp, with the priorities of a state.
abbrev pub thread_cmp : Machine → ℕ → ℕ → Bool
thread_cmp m = above (priority m)

abbrev pub set_status : ℕ → Status → Machine → Machine
set_status t s m = put_thread t record (m.threads t) { status = s } m

unfoldable pub thread_current : Machine → Run ℕ
thread_current m = do
  assert (m.threads m.current).magic
  assert (is_running (status m m.current))
  ok m.current

-- list_insert_ordered into the ready list.
abbrev pub enqueue : ℕ → Machine → Machine
enqueue t m = record m { ready_list = insert_ordered (thread_cmp m) t m.ready_list }

abbrev pub first_of : Machine → List ℕ → Option ℕ × Machine
first_of m [] = (m.idle_thread, m)
first_of m (t ∷ rest) = (some t, record m { ready_list = rest })

-- list_pop_front of the ready list, where it is not empty.
unfoldable pub next_thread_to_run : Machine → Option ℕ × Machine
next_thread_to_run m = first_of m m.ready_list

-- The page of a thread that is freed no longer holds a thread.
unfoldable pub schedule_tail : Option ℕ → Machine → Run Machine
schedule_tail prev m = do
  assert (not m.interrupts)
  let m' = record (set_status m.current running m) { thread_ticks = 0 }
  elim prev [
    | none ↦ ok m'
    | some p ↦
        if is_dying (status m' p) && not (p == m'.initial_thread)
        then (do
          assert (not (p == m'.current))
          ok (put_thread p record (m'.threads p) { magic = false } m'))
        else ok m'
  ]

-- The part of schedule behind the choice. The code after switch_threads is run by the next thread.
unfoldable pub switch_to : ℕ → Option ℕ × Machine → Run Machine
switch_to cur (next, m) = do
  assert (not m.interrupts)
  assert (not (is_running (status m cur)))
  elim next [
    | none ↦ panic
    | some n ↦ do
      assert (m.threads n).magic
      if cur == n then schedule_tail none m else schedule_tail (some cur) (record m { current = n })
  ]

unfoldable pub schedule : Machine → Run Machine
schedule m = switch_to m.current (next_thread_to_run m)

unfoldable pub thread_block : Machine → Run Machine
thread_block m = do
  assert (not m.external)
  assert (not m.interrupts)
  cur ← thread_current m
  schedule (set_status cur blocked m)

unfoldable pub thread_unblock : ℕ → Machine → Run Machine
thread_unblock t m = do
  assert (m.threads t).magic
  let m' = intr_disable m
  assert (is_blocked (status m' t))
  ok (intr_set_level m.interrupts (set_status t ready (enqueue t m')))

-- What follows the call of schedule, the reset of the interrupt level, is run by this thread when
-- it is scheduled again.
unfoldable pub thread_yield : Machine → Run Machine
thread_yield m = do
  cur ← thread_current m
  assert (not m.external)
  let m' = intr_disable m
  schedule (set_status cur ready (if is m'.idle_thread cur then m' else enqueue cur m'))

-- process_exit, which comes first, is not part of the scheduler.
unfoldable pub thread_exit : Machine → Run Machine
thread_exit m = do
  assert (not m.external)
  let m' = intr_disable m
  cur ← thread_current m'
  schedule (set_status cur dying (record m' { all_list = remove cur m'.all_list }))

-- A new priority: a thread in the ready list gets the place that it has by that priority.
unfoldable pub change_priority : ℕ → ℕ → Machine → Machine
change_priority t p m =
    let m' = put_thread t record (m.threads t) { priority = p } m in
    if is_ready (status m t)
    then enqueue t record m' { ready_list = remove t m'.ready_list }
    else m'

-- The maximum of the thread's own priority and those of its donors.
unfoldable pub max_priority : ℕ → Machine → ℕ
max_priority t m =
    let own = (m.threads t).original_priority in
    elim (list_max (under (priority m)) (m.threads t).donor_threads) [
      | none ↦ own
      | some d ↦ if ltb own (priority m d) then priority m d else own
    ]

unfoldable pub update_priority : ℕ → Machine → Machine
update_priority t m =
    if priority m t == max_priority t m then m else change_priority t (max_priority t m) m

-- The loop of thread_propagate_priority, with the rounds that DONATION_DEPTH leaves.
unfoldable pub propagate_loop : ℕ → Option ℕ → ℕ → Machine → Machine
propagate_loop zero l t m = m
propagate_loop (suc left) none t m = m
propagate_loop (suc left) (some l) t m = elim (m.holders l) [
  | none ↦ m
  | some holder ↦
      let m' = change_priority holder (priority m t) m in
      let rest = propagate_loop left (m'.threads holder).blocking_lock t m' in
      if ltb (priority m holder) (priority m t) then rest else m
]

unfoldable pub propagate_priority : ℕ → Machine → Machine
propagate_priority t m = propagate_loop donation_depth (m.threads t).blocking_lock t m

-- The end of thread_set_priority: the thread yields to the front of the ready list, if that has a
-- higher priority.
unfoldable pub yield_below : ℕ → List ℕ → Machine → Run Machine
yield_below t [] m = ok m
yield_below t (top ∷ rest) m = if ltb (priority m t) (priority m top) then thread_yield m else ok m

unfoldable pub set_priority : ℕ → Machine → Run Machine
set_priority new_priority m = do
  t ← thread_current m
  let m1 = put_thread t (record (m.threads t) { original_priority = new_priority }) m
  let m2 = propagate_priority t (update_priority t m1)
  yield_below t m2.ready_list m2

-- The statistics of thread_tick.
unfoldable pub count_tick : ℕ → Machine → Machine
count_tick t m =
    if is m.idle_thread t
    then record m { idle_ticks = m.idle_ticks + 1 }
    else if (m.threads t).user
    then record m { user_ticks = m.user_ticks + 1 }
    else record m { kernel_ticks = m.kernel_ticks + 1 }

-- The preemption of thread_tick: intr_yield_on_return asserts that an interrupt is handled.
unfoldable pub spend_tick : Machine → Run Machine
spend_tick m =
    let m' = record m { thread_ticks = m.thread_ticks + 1 } in
    if leb time_slice (m.thread_ticks + 1)
    then (do assert m.external; ok (record m' { yield_on_return = true }))
    else ok m'

unfoldable pub thread_tick : Machine → Run Machine
thread_tick m = do t ← thread_current m; spend_tick (count_tick t m)

-- What init_thread fills a cleared page with.
abbrev pub fresh : ℕ → Thread
fresh new_priority = record {
  magic = true;
  user = false;
  tid = 0;
  status = blocked;
  priority = new_priority;
  original_priority = new_priority;
  wakeup_tick = 0;
  donor_threads = [];
  blocking_lock = none;
}

unfoldable pub init_thread : ℕ → ℕ → Machine → Run Machine
init_thread t new_priority m = do
  assert (leb pri_min new_priority)
  assert (leb new_priority pri_max)
  ok (record (put_thread t (fresh new_priority) m) { all_list = push_back t m.all_list })

-- `page` is what palloc_get_page gives. The number is taken as if the lock around the counter is
-- free, and the result is none for TID_ERROR.
unfoldable pub thread_create : Option ℕ → ℕ → Machine → Run (Option ℕ × Machine)
thread_create none new_priority m = ok (none, m)
thread_create (some t) new_priority m = do
  m1 ← init_thread t new_priority m
  let tid = m1.next_tid
  let m2 = record (put_thread t record (m1.threads t) { tid = tid } m1) { next_tid = tid + 1 }
  m3 ← thread_unblock t m2
  cur ← thread_current m3
  m4 ← (if thread_cmp m3 t cur then thread_yield m3 else ok m3)
  ok (some tid, m4)
