-- ===== src/Threads/Synch/Semas.antt =====
-- Semaphores in threads/synch.c: sema_up and the rounds of sema_down.
use implso.Prelude.{
  ℕ, ◌-◌, ◌≤◌, ◌<◌, ◌≡◌, refl, ap, ◌∙◌, ◌≢◌, ◌⊎◌, Bool, true, false, not, ◌&&◌, [], Option, none,
  some, arith, ltb, ==_self, Bool-cases, inl, inr,
}
use implso.Prelude.Run
use implso.Prelude.Run.{Run, ok, panic, ◌>>=◌, ◌>>◌, assert, Returns, returns}
use implso.Kernel.Queue.{
  has, remove, MaxOf, nothing, most, list_max-MaxOf, insert_ordered, list_max, under,
}
use implso.Threads.Machine.{
  is_blocked, Semaphore, Machine, priority, status, intr_disable, intr_set_level,
}
use implso.Threads.Scheduler.{thread_cmp}
use implso.Threads.Scheduler.Switch.{IsScheduled, SameButThreads}
use implso.Threads.Scheduler.Callers.{current_lem, thread_yield_lem, Woken, thread_unblock_lem}
use implso.Threads.Synch.{next_value, put_sema, wake, sema_up}

-- No thread that is ready has a higher priority than the one that runs.
abbrev pub IsTop : Machine → Type 0
IsTop m = (t : ℕ) → has t m.ready_list ≡ true → priority m t ≤ priority m m.current

-- The threads that wait for the semaphore are blocked.
abbrev pub AreBlocked : ℕ → Machine → Type 0
AreBlocked s m =
    (t : ℕ)
    → has t (m.semas s).waiters ≡ true
    → ((m.threads t).magic ≡ true) × (is_blocked (status m t) ≡ true)

-- The invariant of the scheduler does not look at semaphores and at the interrupt level.
pub IsScheduled-semas :
    (m : Machine) (semas : ℕ → Semaphore) (level : Bool) (holders : ℕ → Option ℕ)
    → IsScheduled m
    → IsScheduled (record m { semas = semas; interrupts = level; holders = holders })
IsScheduled-semas m semas level holders sch = record {
  queued = record {
    queue = sch.queued.queue;
    listed = sch.queued.listed;
    alive = sch.queued.alive;
    waiting = sch.queued.waiting;
    idle = sch.queued.idle;
  };
  running = sch.running;
  alive = sch.alive;
  only = sch.only;
}

-- What an operation on a semaphore leaves alone.
pub record SameButSema (s : ℕ) (m m' : Machine) : Type 0 where
  pub priorities : (t : ℕ) → priority m' t ≡ priority m t
  pub donors : (t : ℕ) → (m'.threads t).donor_threads ≡ (m.threads t).donor_threads
  pub blockings : (t : ℕ) → (m'.threads t).blocking_lock ≡ (m.threads t).blocking_lock
  pub holders : m'.holders ≡ m.holders
  pub others : (u : ℕ) → u ≢ s → m'.semas u ≡ m.semas u

-- The outcomes of sema_up: nobody waits, or the thread `t` is woken.
pub data Upped (s : ℕ) (m m' : Machine) : Type 0 where
  alone :
      (m.semas s).waiters ≡ []
      → m'.semas s ≡ record { value = next_value (m.semas s).value; waiters = [] }
      → m'.current ≡ m.current
      → Upped s m m'
  woke :
      (t : ℕ)
      → has t (m.semas s).waiters ≡ true
      → ((u : ℕ) → has u (m.semas s).waiters ≡ true → priority m u ≤ priority m t)
      → m'.semas s
        ≡ record { value = next_value (m.semas s).value; waiters = remove t (m.semas s).waiters }
      → (has t m'.ready_list ≡ true) ⊎ (m'.current ≡ t)
      → Upped s m m'

pub record AfterUp (s : ℕ) (m m' : Machine) : Type 0 where
  pub scheduled : IsScheduled m'
  pub same : SameButSema s m m'
  pub outcome : Upped s m m'
  pub top : IsTop m → IsTop m'

module _ (s : ℕ) (m : Machine) where
  -- The state in which sema_up has incremented the value.
  abbrev up : Machine
  up = put_sema s (record (m.semas s) { value = next_value (m.semas s).value }) (intr_disable m)

  abbrev taken : ℕ → Semaphore
  taken t = record { value = next_value (m.semas s).value; waiters = remove t (m.semas s).waiters }

  alone_lem :
      IsScheduled m → (m.semas s).waiters ≡ [] → Returns (AfterUp s m) (wake m.interrupts s none up)
  unfolding wake
  alone_lem sch e = returns (record {
    scheduled = IsScheduled-semas m _ _ _ sch;
    same = record {
      priorities = λ t. refl;
      donors = λ t. refl;
      blockings = λ t. refl;
      holders = refl;
      others = λ u ne. ground arith;
    };
    outcome =
        alone e
          (rw (==_self s)
            (ap (λ w. record { value = next_value (m.semas s).value; waiters = w }) e))
          refl;
    top = λ top. top;
  })

  -- The thread is woken and the woken state is `m1`.
  woken_after :
      (t : ℕ) (m1 m' : Machine)
      → has t (m.semas s).waiters ≡ true
      → ((u : ℕ) → has u (m.semas s).waiters ≡ true → priority m u ≤ priority m t)
      → Woken (put_sema s (taken t) up) t m1
      → IsScheduled m'
      → SameButThreads m1 m'
      → (has t m'.ready_list ≡ true) ⊎ (m'.current ≡ t)
      → (IsTop m → IsTop m')
      → AfterUp s m m'
  woken_after t m1 m' waits greatest w sch same there top = record {
    scheduled = sch;
    same = record {
      priorities = λ u. same.priorities u ∙ w.same.priorities u;
      donors = λ u. same.donors u ∙ w.same.donors u;
      blockings = λ u. same.blockings u ∙ w.same.blockings u;
      holders = same.holders ∙ w.same.holders;
      others = λ u ne. ap (λ f. f u) (same.semas ∙ w.same.semas) ∙ ground arith;
    };
    outcome =
        woke t waits greatest (ap (λ f. f s) (same.semas ∙ w.same.semas) ∙ rw (==_self s) refl)
          there;
    top = top;
  }

  -- Where the woken thread is not above the running one, the running one stays the highest.
  lower-IsTop :
      (t : ℕ) (m1 : Machine)
      → Woken (put_sema s (taken t) up) t m1
      → m1.external ≡ false
      → (ltb (priority m1 m1.current) (priority m1 t) && not m1.external) ≡ false
      → IsTop m
      → IsTop m1
  lower-IsTop t m1 w inside lower top u h =
      let here : priority m1 m1.current ≡ priority m m.current =
        w.same.priorities m1.current ∙ ap (priority m) w.current in
      ground (arith, w.listed u, top u, w.same.priorities u, ap (priority m1))

  wake_lem :
      (t : ℕ)
      → IsScheduled m
      → m.external ≡ false
      → AreBlocked s m
      → has t (m.semas s).waiters ≡ true
      → ((u : ℕ) → has u (m.semas s).waiters ≡ true → priority m u ≤ priority m t)
      → Returns (AfterUp s m) (wake m.interrupts s (some t) up)
  unfolding wake
  wake_lem t sch inside asleep waits greatest = rw (==_self s) (
      Run.bind
        (thread_unblock_lem (put_sema s (taken t) up) t (IsScheduled-semas m _ _ _ sch)
          (asleep t waits).0 (asleep t waits).1)
        λ m1 w.
          rw (current_lem m1 w.scheduled)
            (elim (Bool-cases (ltb (priority m1 m1.current) (priority m1 t) && not m1.external)) [
              | inl higher ↦ rw higher (
                  Run.mono (thread_yield_lem m1 w.scheduled (w.external ∙ inside)) λ m' y.
                    woken_after t m1 m' waits greatest w y.scheduled y.same
                      (y.kept t (ground (arith, w.listed t))) (λ _. y.top))
              | inr lower ↦ rw lower (
                  returns (
                    woken_after t m1 (intr_set_level m.interrupts m1) waits greatest w
                      (IsScheduled-semas m1 _ _ _ w.scheduled)
                      (record {
                        priorities = λ u. refl;
                        donors = λ u. refl;
                        originals = λ u. refl;
                        blockings = λ u. refl;
                        holders = refl;
                        semas = refl;
                      })
                      (inl (ground (arith, w.listed t)))
                      (lower-IsTop t m1 w (w.external ∙ inside) lower)))
            ]))

-- sema_up, not called by an interrupt handler, on a semaphore whose waiters are blocked, does not
-- panic and adds one to the value, modulo 2^32. Where threads wait, one of the highest priority
-- among them is taken from the waiters and is ready or runs. If no ready thread had a higher
-- priority than the running one before, none has after.
pub sema_up_lem :
    (s : ℕ) (m : Machine)
    → IsScheduled m
    → m.external ≡ false
    → AreBlocked s m
    → Returns (AfterUp s m) (sema_up s m)
unfolding sema_up
sema_up_lem s m sch inside asleep =
    choose (list_max (under (priority m)) (m.semas s).waiters)
      (list_max-MaxOf (priority m) (m.semas s).waiters)
  where
    choose :
        (o : Option ℕ)
        → MaxOf (priority m) (m.semas s).waiters o
        → Returns (AfterUp s m) (wake m.interrupts s o (up s m))
    choose _ (nothing e) = alone_lem s m sch e
    choose _ (most t waits greatest) = wake_lem s m t sch inside asleep waits greatest

-- A pass of sema_down takes one from a positive value, or puts the thread to sleep.
pub data Rounded (s : ℕ) (m : Machine) : Bool × Machine → Type 0 where
  got :
      (m' : Machine)
      → 0 < (m.semas s).value
      → m'.semas s ≡ record (m.semas s) { value = (m.semas s).value - 1 }
      → IsScheduled m'
      → SameButSema s m m'
      → m'.threads ≡ m.threads
      → m'.current ≡ m.current
      → (IsTop m → IsTop m')
      → Rounded s m (true, m')
  slept :
      (m' : Machine)
      → (m.semas s).value ≡ 0
      → m'.semas s ≡ record (m.semas s) {
        waiters = insert_ordered (thread_cmp m) m.current (m.semas s).waiters;
      }
      → IsScheduled m'
      → SameButSema s m m'
      → IsTop m'
      → Rounded s m (false, m')
