-- ===== src/Threads/Timer/Ticks.antt =====
-- thread_tick in threads/thread.c, and timer_interrupt in devices/timer.c.
use implso.Prelude.{
  ℕ, ◌+◌, ◌≤◌, ◌<◌, ◌≡◌, refl, sym, ap, ◌∙◌, Bool, true, false, ◌||◌, List, [], ◌∷◌, arith, leb,
  Bool-cases, inl, inr,
}
use implso.Prelude.Run
use implso.Prelude.Run.{Run, ok, ◌>>=◌, ◌>>◌, assert, Returns, returns}
use implso.Kernel.Queue.{has}
use implso.Threads.Machine.{Machine, is, is_blocked}
use implso.Threads.Scheduler.{count_tick, spend_tick, thread_tick, time_slice}
use implso.Threads.Scheduler.Switch.{IsScheduled}
use implso.Threads.Scheduler.Callers.{current_lem}
use implso.Threads.Synch.Locks.{IsScheduled-agree}
use implso.Threads.Timer.{wakeup, timer_interrupt}
use implso.Threads.Timer.Sleepers.{AreAsleep, nobody, sleeper, wake_loop_lem}

-- The counts of ticks: that of the idle thread, of user programs or of the kernel is one more, as the
-- running thread is the idle thread, has a page directory, or is another one.
pub data CountsTick (m m' : Machine) : Type 0 where
  idle_tick :
      is m.idle_thread m.current ≡ true
      → m'.idle_ticks ≡ m.idle_ticks + 1
      → m'.user_ticks ≡ m.user_ticks
      → m'.kernel_ticks ≡ m.kernel_ticks
      → CountsTick m m'
  user_tick :
      is m.idle_thread m.current ≡ false
      → (m.threads m.current).user ≡ true
      → m'.idle_ticks ≡ m.idle_ticks
      → m'.user_ticks ≡ m.user_ticks + 1
      → m'.kernel_ticks ≡ m.kernel_ticks
      → CountsTick m m'
  kernel_tick :
      is m.idle_thread m.current ≡ false
      → (m.threads m.current).user ≡ false
      → m'.idle_ticks ≡ m.idle_ticks
      → m'.user_ticks ≡ m.user_ticks
      → m'.kernel_ticks ≡ m.kernel_ticks + 1
      → CountsTick m m'

-- What a tick changes: one of the three counts, the ticks of the slice, and the wish to yield.
pub record Ticked (m m' : Machine) : Type 0 where
  pub threads : m'.threads ≡ m.threads
  pub ready_list : m'.ready_list ≡ m.ready_list
  pub current : m'.current ≡ m.current
  pub idle_thread : m'.idle_thread ≡ m.idle_thread
  pub sleep_list : m'.sleep_list ≡ m.sleep_list
  pub ticks : m'.ticks ≡ m.ticks
  pub counts : CountsTick m m'
  pub slice : m'.thread_ticks ≡ m.thread_ticks + 1
  pub level : m'.yield_on_return ≡ m.yield_on_return || leb time_slice (m.thread_ticks + 1)

-- The counts after a tick of the running thread.
record Counted (m m' : Machine) : Type 0 where
  threads : m'.threads ≡ m.threads
  ready_list : m'.ready_list ≡ m.ready_list
  current : m'.current ≡ m.current
  idle_thread : m'.idle_thread ≡ m.idle_thread
  sleep_list : m'.sleep_list ≡ m.sleep_list
  ticks : m'.ticks ≡ m.ticks
  external : m'.external ≡ m.external
  thread_ticks : m'.thread_ticks ≡ m.thread_ticks
  yield_on_return : m'.yield_on_return ≡ m.yield_on_return
  counts : CountsTick m m'

count_tick-Counted : (m : Machine) → Counted m (count_tick m.current m)
unfolding count_tick
count_tick-Counted m = elim (Bool-cases (is m.idle_thread m.current)) [
  | inl idle ↦ rw idle (record {
    threads = refl;
    ready_list = refl;
    current = refl;
    idle_thread = refl;
    sleep_list = refl;
    ticks = refl;
    external = refl;
    thread_ticks = refl;
    yield_on_return = refl;
    counts = idle_tick idle refl refl refl;
  })
  | inr busy ↦ elim (Bool-cases (m.threads m.current).user) [
    | inl user ↦
        rw (busy, user)
          (record {
            threads = refl;
            ready_list = refl;
            current = refl;
            idle_thread = refl;
            sleep_list = refl;
            ticks = refl;
            external = refl;
            thread_ticks = refl;
            yield_on_return = refl;
            counts = user_tick busy user refl refl refl;
          })
    | inr kernel ↦
        rw (busy, kernel)
          (record {
            threads = refl;
            ready_list = refl;
            current = refl;
            idle_thread = refl;
            sleep_list = refl;
            ticks = refl;
            external = refl;
            thread_ticks = refl;
            yield_on_return = refl;
            counts = kernel_tick busy kernel refl refl refl;
          })
  ]
]

counts-spent :
    (m m' : Machine) (n : ℕ) (y : Bool)
    → CountsTick m m'
    → CountsTick m (record m' { thread_ticks = n; yield_on_return = y })
counts-spent m m' n y (idle_tick e a b c) = idle_tick e a b c
counts-spent m m' n y (user_tick e f a b c) = user_tick e f a b c
counts-spent m m' n y (kernel_tick e f a b c) = kernel_tick e f a b c

spend_tick_lem :
    (m m' : Machine) → Counted m m' → m.external ≡ true → Returns (Ticked m) (spend_tick m')
unfolding spend_tick
spend_tick_lem m m' c inside =
    let slice : m'.thread_ticks + 1 ≡ m.thread_ticks + 1 = ap (λ n. n + 1) c.thread_ticks in
    let used = ap (leb time_slice) slice in
    elim (Bool-cases (leb time_slice (m'.thread_ticks + 1))) [
      | inl over ↦ rw over (
          Run.pass (c.external ∙ inside) (
            returns (record {
              threads = c.threads;
              ready_list = c.ready_list;
              current = c.current;
              idle_thread = c.idle_thread;
              sleep_list = c.sleep_list;
              ticks = c.ticks;
              counts = counts-spent m m' _ true c.counts;
              slice = slice;
              level = ground (arith, sym used ∙ over);
            })))
      | inr left ↦ rw left (
          returns (record {
            threads = c.threads;
            ready_list = c.ready_list;
            current = c.current;
            idle_thread = c.idle_thread;
            sleep_list = c.sleep_list;
            ticks = c.ticks;
            counts = counts-spent m m' _ m'.yield_on_return c.counts;
            slice = slice;
            level = ground (arith, sym used ∙ left, c.yield_on_return);
          }))
    ]

-- thread_tick in the handler of an external interrupt does not panic. It adds one to the idle ticks
-- if the idle thread runs, else to the user ticks if the running thread has a page directory, else
-- to the kernel ticks, and leaves the other two counts. It adds one to the ticks of the slice, and
-- asks for a yield exactly if the slice is used up or a yield was asked for already.
pub thread_tick_lem :
    (m : Machine) → IsScheduled m → m.external ≡ true → Returns (Ticked m) (thread_tick m)
unfolding thread_tick
thread_tick_lem m sch inside =
    rw (current_lem m sch) (spend_tick_lem m _ (count_tick-Counted m) inside)

-- What the timer interrupt does to the threads that sleep.
pub record Interrupted (m m' : Machine) : Type 0 where
  pub scheduled : IsScheduled m'
  pub due :
      (t : ℕ)
      → has t m.sleep_list ≡ true
      → wakeup m t ≤ m.ticks + 1
      → (has t m'.ready_list ≡ true) × (has t m'.sleep_list ≡ false)
  pub early :
      (t : ℕ) → has t m.sleep_list ≡ true → m.ticks + 1 < wakeup m t → has t m'.sleep_list ≡ true
  pub kept : (t : ℕ) → has t m.ready_list ≡ true → has t m'.ready_list ≡ true
  pub no_new : (t : ℕ) → has t m'.sleep_list ≡ true → has t m.sleep_list ≡ true

AreAsleep-threads :
    (m m' : Machine) (xs : List ℕ) → m'.threads ≡ m.threads → AreAsleep m xs → AreAsleep m' xs
AreAsleep-threads m m' [] e nobody = nobody
AreAsleep-threads m m' (x ∷ rest) e (sleeper _ _ magic asleep later more) =
    sleeper x rest (ap (λ f. (f x).magic) e ∙ magic) (ap (λ f. is_blocked (f x).status) e ∙ asleep)
      (λ u h.
        ground (arith, later u h, ap (λ f. (f x).wakeup_tick) e, ap (λ f. (f u).wakeup_tick) e))
      (AreAsleep-threads m m' rest e more)

-- timer_interrupt, as the handler of an external interrupt and with the sleepers blocked and in the
-- order of their waking, does not panic. Exactly the threads whose tick has come leave the
-- sleepers, and they are ready.
pub timer_interrupt_lem :
    (m : Machine)
    → IsScheduled m
    → m.external ≡ true
    → AreAsleep m m.sleep_list
    → Returns (Interrupted m) (timer_interrupt m)
unfolding timer_interrupt
timer_interrupt_lem m sch inside asleep =
    let m0 = record m { ticks = m.ticks + 1 } in
    let sch0 =
      IsScheduled-agree m m0
        (record {
          priorities = λ t. refl;
          statuses = λ t. refl;
          magics = λ t. refl;
          ready_list = refl;
          idle_thread = refl;
          current = refl;
        })
        sch in
    Run.bind (thread_tick_lem m0 sch0 inside) λ m1 k.
      let sch1 =
        IsScheduled-agree m0 m1
          (record {
            priorities = λ t. ap (λ f. (f t).priority) k.threads;
            statuses = λ t. ap (λ f. (f t).status) k.threads;
            magics = λ t. ap (λ f. (f t).magic) k.threads;
            ready_list = k.ready_list;
            idle_thread = k.idle_thread;
            current = k.current;
          })
          sch0 in
      let wake : (t : ℕ) → wakeup m1 t ≡ wakeup m t = λ t. ap (λ f. (f t).wakeup_tick) k.threads in
      let asleep1 =
        rw (sym k.sleep_list) at (AreAsleep-threads m m1 m.sleep_list k.threads asleep) in
      let member : (t : ℕ) → has t m1.sleep_list ≡ has t m.sleep_list =
        λ t. ap (has t) k.sleep_list in
      Run.mono (wake_loop_lem m1.sleep_list m1 sch1 refl asleep1) λ m' a. record {
        scheduled = a.scheduled;
        due = λ t h l. a.due t (member t ∙ h) (omega (arith, wake t, k.ticks, l));
        early = λ t h l. a.early t (member t ∙ h) (omega (arith, wake t, k.ticks, l));
        kept = λ t h. a.kept t (ap (has t) k.ready_list ∙ h);
        no_new = λ t h. sym (member t) ∙ a.no_new t h;
      }
