-- ===== src/Threads/Scheduler/Callers.antt =====
-- Blocking, yielding, exiting and waking in threads/thread.c.
use implso.Prelude.{
  ℕ, ◌≡◌, refl, ap, ◌∙◌, ◌≢◌, true, false, not, ◌||◌, List, arith, ◌==◌, if◌then◌else◌, Bool-cases,
  inl, inr,
}
use implso.Prelude.Run
use implso.Prelude.Run.{Run, ok, panic, ◌>>=◌, ◌>>◌, assert, Returns, returns}
use implso.Kernel.Queue.{has, has-insert_ordered, above, remove}
use implso.Threads.Machine.{
  Status, running, ready, blocked, dying, is_running, is_ready, is_blocked, Machine, priority,
  status, is, intr_disable,
}
use implso.Threads.Scheduler.{
  set_status, enqueue, schedule, thread_current, thread_block, thread_unblock, thread_yield,
  thread_exit,
}
use implso.Threads.Scheduler.Queued.{IsQueued, enqueue_lem, set_status_lem}
use implso.Threads.Scheduler.Switch.{
  IsScheduled, NoneRunning, SameButThreads, Switched, schedule_lem,
}

pub current_lem : (m : Machine) → IsScheduled m → thread_current m ≡ ok m.current
unfolding thread_current
current_lem m sch = rw (sch.alive, sch.running) refl

pub Switched-from :
    {m m1 m' : Machine}
    → SameButThreads m m1
    → ((t : ℕ) → has t m.ready_list ≡ true → has t m1.ready_list ≡ true)
    → Switched m1 m'
    → Switched m m'
Switched-from s more w = record {
  scheduled = w.scheduled;
  same = record {
    priorities = λ t. w.same.priorities t ∙ s.priorities t;
    donors = λ t. w.same.donors t ∙ s.donors t;
    originals = λ t. w.same.originals t ∙ s.originals t;
    blockings = λ t. w.same.blockings t ∙ s.blockings t;
    holders = w.same.holders ∙ s.holders;
    semas = w.same.semas ∙ s.semas;
  };
  top = w.top;
  kept = λ t h. w.kept t (more t h);
}

leave_same : (m : Machine) (t : ℕ) (s : Status) → SameButThreads m (set_status t s m)
leave_same m t s = record {
  priorities = λ u. ground arith;
  donors = λ u. ground arith;
  originals = λ u. ground arith;
  blockings = λ u. ground arith;
  holders = refl;
  semas = refl;
}

pub blocked_out : (s : Status) → is_blocked s ≡ true → (is_ready s ≡ false) × (is_running s ≡ false)
blocked_out running e = ground arith
blocked_out ready e = ground arith
blocked_out blocked e = (refl, refl)
blocked_out dying e = ground arith

module _ (m : Machine) (sch : IsScheduled m) where
  leave_none : (s : Status) → is_running s ≡ false → NoneRunning (set_status m.current s m)
  leave_none s off t = ground (arith, sch.only t)

  was_out : is_ready (status m m.current) ≡ false
  was_out =
      elim (status m m.current) as (λ s. is_running s ≡ true → is_ready s ≡ false) [
        | running ↦ λ e. refl
        | ready ↦ λ e. ground arith
        | blocked ↦ λ e. refl
        | dying ↦ λ e. refl
      ]
        sch.running

  -- thread_block, called with interrupts off and not by an interrupt handler, does not panic, keeps
  -- the invariant of the scheduler, and leaves a thread running than which none that is ready has a
  -- higher priority.
  pub thread_block_lem :
      m.external ≡ false → m.interrupts ≡ false → Returns (Switched m) (thread_block m)
  unfolding thread_block
  thread_block_lem inside off = Run.pass (ap not inside) (
      Run.pass (ap not off) (
        rw (current_lem m sch) (
          Run.mono
            (schedule_lem (set_status m.current blocked m)
              (set_status_lem m m.current sch.queued blocked was_out sch.alive (λ e. ground arith))
              (leave_none blocked refl) off (λ e. ground arith))
            λ m' w. Switched-from (leave_same m m.current blocked) (λ t h. h) w)))

masked-IsQueued : (m : Machine) → IsQueued m → IsQueued (intr_disable m)
masked-IsQueued m q = record {
  queue = q.queue;
  listed = q.listed;
  alive = q.alive;
  waiting = q.waiting;
  idle = q.idle;
}

masked-IsScheduled : (m : Machine) → IsScheduled m → IsScheduled (intr_disable m)
masked-IsScheduled m sch = record {
  queued = masked-IsQueued m sch.queued;
  running = sch.running;
  alive = sch.alive;
  only = sch.only;
}

masked_same : (m : Machine) → SameButThreads m (intr_disable m)
masked_same m = record {
  priorities = λ t. refl;
  donors = λ t. refl;
  originals = λ t. refl;
  blockings = λ t. refl;
  holders = refl;
  semas = refl;
}

masked_all :
    (m : Machine) (all : List ℕ) (t : ℕ) (s : Status)
    → SameButThreads
        (set_status t s m)
        (set_status t s (record (intr_disable m) { all_list = all }))
masked_all m all t s = record {
  priorities = λ t. refl;
  donors = λ t. refl;
  originals = λ t. refl;
  blockings = λ t. refl;
  holders = refl;
  semas = refl;
}

queue_same : (m : Machine) (t : ℕ) (s : Status) → SameButThreads m (set_status t s (enqueue t m))
queue_same m t s = record {
  priorities = λ u. ground arith;
  donors = λ u. ground arith;
  originals = λ u. ground arith;
  blockings = λ u. ground arith;
  holders = refl;
  semas = refl;
}

module _ (m : Machine) (sch : IsScheduled m) where
  yield_masked :
      m.interrupts ≡ false
      → Returns (Switched m) (
          schedule (
            set_status m.current ready
              (if is m.idle_thread m.current then m else enqueue m.current m)))
  yield_masked off = elim (Bool-cases (is m.idle_thread m.current)) [
    | inl idles ↦ rw idles (
        Run.mono
          (schedule_lem (set_status m.current ready m)
            (set_status_lem m m.current sch.queued ready (was_out m sch) sch.alive (λ e. idles))
            (leave_none m sch ready refl) off (λ e. ground arith))
          λ m' w. Switched-from (leave_same m m.current ready) (λ t h. h) w)
    | inr works ↦ rw works (
        Run.mono
          (schedule_lem (set_status m.current ready (enqueue m.current m))
            (enqueue_lem m m.current sch.queued (was_out m sch) sch.alive)
            (leave_none m sch ready refl) off (λ e. ground arith))
          λ m' w.
            Switched-from (queue_same m m.current ready)
              (λ t h.
                ground (arith, has-insert_ordered (above (priority m)) m.current t m.ready_list))
              w)
  ]

module _ (m : Machine) (sch : IsScheduled m) where
  -- thread_yield, not called by an interrupt handler, does not panic, keeps the invariant of the
  -- scheduler, and leaves a thread running than which none that is ready has a higher priority.
  pub thread_yield_lem : m.external ≡ false → Returns (Switched m) (thread_yield m)
  unfolding thread_yield
  thread_yield_lem inside = rw (current_lem m sch) (
      Run.pass (ap not inside) (
        Run.mono (yield_masked (intr_disable m) (masked-IsScheduled m sch) refl)
          λ m' w. Switched-from (masked_same m) (λ t h. h) w))

  exit_same : (all : List ℕ) → IsScheduled (record (intr_disable m) { all_list = all })
  exit_same all = record {
    queued = record {
      queue = sch.queued.queue;
      listed = sch.queued.listed;
      alive = sch.queued.alive;
      waiting = sch.queued.waiting;
      idle = sch.queued.idle;
    };
    running = sch.running;
    alive = sch.alive;
    only = sch.only;
  }

  -- thread_exit, called by a thread that is not the idle thread and not by an interrupt handler,
  -- does not panic in the scheduler, keeps the invariant of the scheduler, and leaves a thread
  -- running than which none that is ready has a higher priority.
  pub thread_exit_lem :
      m.external ≡ false → is m.idle_thread m.current ≡ false → Returns (Switched m) (thread_exit m)
  unfolding thread_exit
  thread_exit_lem inside works =
      let m1 = record (intr_disable m) { all_list = remove m.current m.all_list } in
      let sch1 = exit_same (remove m.current m.all_list) in
      Run.pass (ap not inside) (
        rw (current_lem (intr_disable m) (masked-IsScheduled m sch)) (
          Run.mono
            (schedule_lem (set_status m.current dying m1)
              (set_status_lem m1 m.current sch1.queued dying (was_out m1 sch1) sch1.alive
                (λ e. ground arith))
              (leave_none m1 sch1 dying refl) refl (λ e. works))
            λ m' w.
              Switched-from (leave_same m m.current dying) (λ t h. h)
                (Switched-from (masked_all m _ _ _) (λ t h. h) w)))

-- What a thread that is woken is: in the ready list and ready, while nothing else changes.
pub record Woken (m : Machine) (t : ℕ) (m' : Machine) : Type 0 where
  pub scheduled : IsScheduled m'
  pub same : SameButThreads m m'
  pub listed : (u : ℕ) → has u m'.ready_list ≡ (t == u) || has u m.ready_list
  pub current : m'.current ≡ m.current
  pub level : m'.interrupts ≡ m.interrupts
  pub external : m'.external ≡ m.external
  pub magics : (u : ℕ) → (m'.threads u).magic ≡ (m.threads u).magic
  pub wakeups : (u : ℕ) → (m'.threads u).wakeup_tick ≡ (m.threads u).wakeup_tick
  pub sleep_list : m'.sleep_list ≡ m.sleep_list
  pub ticks : m'.ticks ≡ m.ticks
  pub statuses : (u : ℕ) → u ≢ t → status m' u ≡ status m u

-- thread_unblock of a blocked thread does not panic, keeps the invariant of the scheduler, adds the
-- thread to the ready list, and leaves the running thread, the interrupt level and the status of
-- the others as they are.
pub thread_unblock_lem :
    (m : Machine) (t : ℕ)
    → IsScheduled m
    → (m.threads t).magic ≡ true
    → is_blocked (status m t) ≡ true
    → Returns (Woken m t) (thread_unblock t m)
unfolding thread_unblock
thread_unblock_lem m t sch magic asleep =
    let (unready, still) = blocked_out (status m t) asleep in
    Run.pass magic (
      Run.pass asleep (
        returns (record {
          scheduled = record {
            queued = enqueue_lem m t sch.queued unready magic;
            running = ground (arith, sch.running);
            alive = ground (arith, sch.alive);
            only = λ u e. ground (arith, sch.only u);
          };
          same = queue_same m t ready;
          listed = λ u. has-insert_ordered (above (priority m)) t u m.ready_list;
          current = refl;
          level = refl;
          external = refl;
          magics = λ u. ground arith;
          wakeups = λ u. ground arith;
          sleep_list = refl;
          ticks = refl;
          statuses = λ u ne. ground arith;
        })))
