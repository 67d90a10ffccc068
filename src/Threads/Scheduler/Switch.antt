-- ===== src/Threads/Scheduler/Switch.antt =====
-- The change of threads in threads/thread.c: schedule and its callers.
use implso.Prelude.{
  ℕ, ◌≤◌, ◌≡◌, refl, sym, ap, ◌∙◌, ◌≢◌, ◌⊎◌, true, false, not, ◌&&◌, ◌||◌, List, [], ◌∷◌, some,
  arith, ◌==◌, Bool-cases, List-cases, inl, inr,
}
use implso.Prelude.Run
use implso.Prelude.Run.{Run, ok, panic, ◌>>=◌, ◌>>◌, assert, Returns, returns}
use implso.Kernel.Queue.{has, IsQueue, IsQueue-agree, link}
use implso.Threads.Machine.{
  running, is_running, is_ready, is_dying, Machine, put_thread, priority, status, is,
}
use implso.Threads.Scheduler.{
  set_status, first_of, switch_to, next_thread_to_run, schedule_tail, schedule,
}
use implso.Threads.Scheduler.Queued.{HasIdle, IsQueued}

-- The thread that runs, and no other, has the status THREAD_RUNNING.
pub record IsScheduled (m : Machine) : Type 0 where
  pub queued : IsQueued m
  pub running : is_running (status m m.current) ≡ true
  pub alive : (m.threads m.current).magic ≡ true
  pub only : (t : ℕ) → is_running (status m t) ≡ true → t ≡ m.current

-- No thread runs: the current one has its new status, and schedule is about to be called.
abbrev pub NoneRunning : Machine → Type 0
NoneRunning m = (t : ℕ) → is_running (status m t) ≡ false

-- What a change of threads leaves alone.
pub record SameButThreads (m m' : Machine) : Type 0 where
  pub priorities : (t : ℕ) → priority m' t ≡ priority m t
  pub donors : (t : ℕ) → (m'.threads t).donor_threads ≡ (m.threads t).donor_threads
  pub originals : (t : ℕ) → (m'.threads t).original_priority ≡ (m.threads t).original_priority
  pub blockings : (t : ℕ) → (m'.threads t).blocking_lock ≡ (m.threads t).blocking_lock
  pub holders : m'.holders ≡ m.holders
  pub semas : m'.semas ≡ m.semas

-- A thread that is next: out of the list, and none in the list has a higher priority.
record IsNext (m : Machine) (n : ℕ) : Type 0 where
  queue : IsQueue (priority m) m.ready_list
  listed : (t : ℕ) → has t m.ready_list ≡ true → is_ready (status m t) ≡ true
  alive : (t : ℕ) → has t m.ready_list ≡ true → (m.threads t).magic ≡ true
  waiting :
      (t : ℕ)
      → t ≢ n
      → is_ready (status m t) ≡ true
      → is m.idle_thread t ≡ false
      → has t m.ready_list ≡ true
  idle : HasIdle m
  out : has n m.ready_list ≡ false
  magic : (m.threads n).magic ≡ true
  top : (t : ℕ) → has t m.ready_list ≡ true → priority m t ≤ priority m n

-- The state after a change of threads: the thread that runs has the highest priority.
pub record Switched (m m' : Machine) : Type 0 where
  pub scheduled : IsScheduled m'
  pub same : SameButThreads m m'
  pub top : (t : ℕ) → has t m'.ready_list ≡ true → priority m' t ≤ priority m' m'.current
  pub kept : (t : ℕ) → has t m.ready_list ≡ true → (has t m'.ready_list ≡ true) ⊎ (m'.current ≡ t)

-- The next thread runs, in a new time slice.
abbrev resume : Machine → ℕ → Machine
resume m n = record (set_status n running m) { thread_ticks = 0; current = n }

resume_lem : (m : Machine) (n : ℕ) → IsNext m n → NoneRunning m → Switched m (resume m n)
resume_lem m n next stopped = record {
  scheduled = record {
    queued = record {
      queue = IsQueue-agree (priority m) _ _ (λ y e. ground arith) next.queue;
      listed = λ t e. ground (arith, next.listed t, next.out);
      alive = λ t e. ground (arith, next.alive t);
      waiting = λ t r i. ground (arith, next.waiting t);
      idle = let (i, e, a) = next.idle in (i, e, ground arith);
    };
    running = ground arith;
    alive = ground (arith, next.magic);
    only = λ t r. ground (arith, stopped t);
  };
  same = record {
    priorities = λ t. ground arith;
    donors = λ t. ground arith;
    originals = λ t. ground arith;
    blockings = λ t. ground arith;
    holders = refl;
    semas = refl;
  };
  top = λ t e. ground (arith, next.top t);
  kept = λ t e. inl e;
}

-- The page of a thread that has exited is given back.
free_lem :
    (m m' : Machine) (p : ℕ)
    → Switched m m'
    → is_dying (status m' p) ≡ true
    → p ≢ m'.current
    → is m'.idle_thread p ≡ false
    → Switched m (put_thread p (record (m'.threads p) { magic = false }) m')
free_lem m m' p w dead other busy =
    let sch = w.scheduled in
    let q = sch.queued in
    record {
      scheduled = record {
        queued = record {
          queue = IsQueue-agree (priority m') _ _ (λ y e. ground arith) q.queue;
          listed = λ t e. ground (arith, q.listed t);
          alive = λ t e. ground (arith, q.alive t, q.listed t);
          waiting = λ t r i. ground (arith, q.waiting t);
          idle = let (i, e, a) = q.idle in (i, e, ground (arith, ap (λ o. is o p) e));
        };
        running = ground (arith, sch.running);
        alive = ground (arith, sch.alive);
        only = λ t r. ground (arith, sch.only t);
      };
      same = record {
        priorities = λ t. ground (arith, w.same.priorities t);
        donors = λ t. ground (arith, w.same.donors t);
        originals = λ t. ground (arith, w.same.originals t);
        blockings = λ t. ground (arith, w.same.blockings t);
        holders = w.same.holders;
        semas = w.same.semas;
      };
      top = λ t e. ground (arith, w.top t);
      kept = w.kept;
    }

switch_lem :
    (m : Machine) (n : ℕ)
    → IsNext m n
    → NoneRunning m
    → m.interrupts ≡ false
    → (is_dying (status m m.current) ≡ true → is m.idle_thread m.current ≡ false)
    → Returns (λ m'. Switched m m' × (m'.current ≡ n)) (switch_to m.current (some n, m))
unfolding switch_to schedule_tail
switch_lem m n next stopped off leaves =
    let masked : not m.interrupts ≡ true = ground arith in
    Run.pass masked (
      Run.pass (ap not (stopped m.current)) (
        Run.pass next.magic (elim (Bool-cases (m.current == n)) [
          | inl e ↦
              let here : n ≡ m.current = ground arith in
              rw e (Run.pass masked (returns (rw here at (resume_lem m n next stopped), sym here)))
          | inr ne ↦
              let w = resume_lem m n next stopped in
              rw ne (
                Run.pass masked
                  (elim (Bool-cases (
                    is_dying (status (resume m n) m.current)
                    && not (m.current == m.initial_thread))) [
                      | inl dies ↦ rw dies (
                          returns (
                            free_lem m (resume m n) m.current w (ground arith) (ground arith)
                                (leaves (ground arith)),
                            refl,
                          ))
                      | inr stays ↦ rw stays (returns (w, refl))
                    ]))
        ])))

below_front :
    {p : ℕ → ℕ} {x : ℕ} {xs : List ℕ}
    → IsQueue p (x ∷ xs)
    → ((y : ℕ) → has y xs ≡ true → (p y ≤ p x) × (y ≢ x)) × IsQueue p xs
below_front (link _ _ below q) = (below, q)

-- The front of the ready list is next.
IsNext-front :
    (m : Machine) (x : ℕ) (rest : List ℕ)
    → m.ready_list ≡ x ∷ rest
    → IsQueued m
    → IsNext (record m { ready_list = rest }) x
IsNext-front m x rest e q =
    let (below, q') = below_front (rw e at q.queue) in
    let member : (y : ℕ) → has y m.ready_list ≡ (x == y) || has y rest = λ y. ap (has y) e in
    record {
      queue = q';
      listed = λ t h. ground (arith, q.listed t, member t);
      alive = λ t h. ground (arith, q.alive t, member t);
      waiting = λ t ne r i. ground (arith, q.waiting t r i, member t);
      idle = q.idle;
      out = ground (arith, below x);
      magic = ground (arith, q.alive x, member x);
      top = λ t h. (below t h).0;
    }

-- With an empty ready list the idle thread is next.
IsNext-idle :
    (m : Machine) (i : ℕ)
    → m.ready_list ≡ []
    → IsQueued m
    → m.idle_thread ≡ some i
    → (m.threads i).magic ≡ true
    → IsNext m i
IsNext-idle m i e q idle magic =
    let none_in : (y : ℕ) → has y m.ready_list ≡ false = λ y. ap (has y) e in
    record {
      queue = q.queue;
      listed = q.listed;
      alive = q.alive;
      waiting = λ t ne r o. q.waiting t r o;
      idle = q.idle;
      out = none_in i;
      magic = magic;
      top = λ t h. ground (arith, none_in t);
    }

next-idle :
    (m : Machine) (i : ℕ)
    → m.ready_list ≡ []
    → m.idle_thread ≡ some i
    → next_thread_to_run m ≡ (some i, m)
unfolding next_thread_to_run
next-idle m i e idle = ap (first_of m) e ∙ ap (λ o. (o, m)) idle

next-front :
    (m : Machine) (x : ℕ) (rest : List ℕ)
    → m.ready_list ≡ x ∷ rest
    → next_thread_to_run m ≡ (some x, record m { ready_list = rest })
unfolding next_thread_to_run
next-front m x rest e = ap (first_of m) e

Switched-list :
    {m m' : Machine} (x : ℕ) (rest : List ℕ)
    → m.ready_list ≡ x ∷ rest
    → m'.current ≡ x
    → Switched (record m { ready_list = rest }) m'
    → Switched m m'
Switched-list {m} x rest e runs w = record {
  scheduled = w.scheduled;
  same = record {
    priorities = w.same.priorities;
    donors = w.same.donors;
    originals = w.same.originals;
    blockings = w.same.blockings;
    holders = w.same.holders;
    semas = w.same.semas;
  };
  top = w.top;
  kept = λ t h. elim (Bool-cases (x == t)) [
    | inl here ↦ inr (ground arith)
    | inr there ↦
        let member : has t m.ready_list ≡ (x == t) || has t rest = ap (has t) e in
        w.kept t (ground arith)
  ];
}

-- schedule, called with interrupts off and no thread running, and by a thread that is not the idle
-- thread if it is dying, does not panic. The thread that runs then has a priority as high as any in
-- the ready list, is the only one that runs, and no priority, lock or semaphore changes.
pub schedule_lem :
    (m : Machine)
    → IsQueued m
    → NoneRunning m
    → m.interrupts ≡ false
    → (is_dying (status m m.current) ≡ true → is m.idle_thread m.current ≡ false)
    → Returns (Switched m) (schedule m)
unfolding schedule
schedule_lem m q stopped off leaves =
    let (i, idle, magic) = q.idle in
    elim (List-cases m.ready_list) [
      | inl e ↦ rw (next-idle m i e idle) (
          Run.mono (switch_lem m i (IsNext-idle m i e q idle magic) stopped off leaves) λ m' w. w.0)
      | inr (x, rest, e) ↦ rw (next-front m x rest e) (
          Run.mono
            (switch_lem (record m { ready_list = rest }) x (IsNext-front m x rest e q) stopped off
              leaves)
            λ m' w. Switched-list x rest e w.1 w.0)
    ]
