-- ===== src/Threads/Synch/Locks.antt =====
-- Locks in threads/synch.c: exclusion, and the donation of lock_acquire.
use implso.Prelude.{
  ℕ, ◌≤◌, ◌≡◌, refl, sym, ap, ◌∙◌, true, none, some, arith, ltb, ==_self, Bool-cases, inl, inr,
}
use implso.Kernel.Queue.{has, insert_ordered, has-insert_ordered, IsQueue-agree}
use implso.Threads.Machine.{is_ready, Machine, put_thread, priority, status, is, intr_disable}
use implso.Threads.Scheduler.{thread_cmp, change_priority, propagate_loop, propagate_priority}
use implso.Threads.Scheduler.Queued.{IsQueued}
use implso.Threads.Scheduler.Donate.{
  blocking, SameButPriority, HoldersAlive, HoldersAlive-same, raise_holder, priority-change,
}
use implso.Threads.Scheduler.Propagate.{propagate_loop_lem, propagate_priority_lem}
use implso.Threads.Scheduler.Switch.{IsScheduled}
use implso.Threads.Synch.{donate}

-- Mutual exclusion: the value of the lock's semaphore is 1 while nobody holds the lock, and 0 while
-- a thread does.
pub data IsLock (l : ℕ) (m : Machine) : Type 0 where
  free : m.holders l ≡ none → (m.semas l).value ≡ 1 → IsLock l m
  held : (h : ℕ) → m.holders l ≡ some h → (m.semas l).value ≡ 0 → IsLock l m

-- Two states that agree on what the invariant of the scheduler looks at.
pub record Agrees (m m' : Machine) : Type 0 where
  pub priorities : (t : ℕ) → priority m' t ≡ priority m t
  pub statuses : (t : ℕ) → status m' t ≡ status m t
  pub magics : (t : ℕ) → (m'.threads t).magic ≡ (m.threads t).magic
  pub ready_list : m'.ready_list ≡ m.ready_list
  pub idle_thread : m'.idle_thread ≡ m.idle_thread
  pub current : m'.current ≡ m.current

pub IsQueued-agree : (m m' : Machine) → Agrees m m' → IsQueued m → IsQueued m'
IsQueued-agree m m' a q =
    let member : (t : ℕ) → has t m'.ready_list ≡ has t m.ready_list =
      λ t. ap (has t) a.ready_list in
    record {
      queue =
          rw a.ready_list
            (IsQueue-agree (priority m) (priority m') m.ready_list (λ y e. a.priorities y) q.queue);
      listed = λ t e. ap is_ready (a.statuses t) ∙ q.listed t (sym (member t) ∙ e);
      alive = λ t e. a.magics t ∙ q.alive t (sym (member t) ∙ e);
      waiting = λ t r i.
          member t
          ∙ q.waiting t (ap is_ready (sym (a.statuses t)) ∙ r)
              (ap (λ o. is o t) (sym a.idle_thread) ∙ i);
      idle = let (i, e, magic) = q.idle in (i, a.idle_thread ∙ e, a.magics i ∙ magic);
    }

pub IsScheduled-agree : (m m' : Machine) → Agrees m m' → IsScheduled m → IsScheduled m'
IsScheduled-agree m m' a sch = record {
  queued = IsQueued-agree m m' a sch.queued;
  running = ground (arith, a.statuses m'.current, a.current, sch.running);
  alive = ground (arith, a.magics m'.current, a.current, sch.alive);
  only = λ t r. ground (arith, a.statuses t, a.current, sch.only t);
}

-- Only priorities and the order of the ready list have changed.
pub same-IsScheduled :
    {m m' : Machine} → IsQueued m' → SameButPriority m m' → IsScheduled m → IsScheduled m'
same-IsScheduled {m} {m'} q same sch = record {
  queued = q;
  running = ground (arith, same.statuses m'.current, same.current, sch.running);
  alive = ground (arith, same.magics m'.current, same.current, sch.alive);
  only = λ u r. ground (arith, same.statuses u, same.current, sch.only u);
}

-- The first round of the walk gives the holder the priority of the donor.
propagate_priority-holder :
    (t l h : ℕ) (m : Machine)
    → IsQueued m
    → HoldersAlive m
    → blocking m t ≡ some l
    → m.holders l ≡ some h
    → priority m t ≤ priority (propagate_priority t m) h
unfolding propagate_priority propagate_loop
propagate_priority-holder t l h m q a wait hold =
    rw wait (elim (Bool-cases (ltb (priority m h) (priority m t))) [
      | inl less ↦
          let d = raise_holder m t l h q a hold (ground arith) in
          let m' = change_priority h (priority m t) m in
          let rest =
            propagate_loop_lem 7 (blocking m' h) t m' d.queued (HoldersAlive-same d.same a) in
          rw (propagate_loop, hold, less)
            (ground (arith, rest.raised h, priority-change h (priority m t) m h))
      | inr enough ↦ rw (propagate_loop, hold, enough) (ground arith)
    ])

-- What the running thread's wait for the lock `l`, held by `h`, changes before it sleeps.
pub record Donation (l h : ℕ) (m m' : Machine) : Type 0 where
  pub scheduled : IsScheduled m'
  pub holders : m'.holders ≡ m.holders
  pub semas : m'.semas ≡ m.semas
  pub external : m'.external ≡ m.external
  pub current : m'.current ≡ m.current
  pub waits : blocking m' m.current ≡ some l
  pub donor : has m.current (m'.threads h).donor_threads ≡ true
  pub donated : priority m m.current ≤ priority m' h
  pub rises : (u : ℕ) → priority m u ≤ priority m' u

pub donate_lem :
    (l h : ℕ) (m : Machine)
    → IsScheduled m
    → HoldersAlive m
    → m.holders l ≡ some h
    → Donation l h m (donate l m.current (some h) (intr_disable m))
unfolding donate
donate_lem l h m sch a hold =
    let t = m.current in
    let m1 = put_thread t (record (m.threads t) { blocking_lock = some l }) (intr_disable m) in
    let donors = insert_ordered (thread_cmp m1) t (m1.threads h).donor_threads in
    let m2 = put_thread h (record (m1.threads h) { donor_threads = donors }) m1 in
    let g : Agrees m m2 = record {
      priorities = λ u. ground arith;
      statuses = λ u. ground arith;
      magics = λ u. ground arith;
      ready_list = refl;
      idle_thread = refl;
      current = refl;
    } in
    let a2 : HoldersAlive m2 = record {
      magics = λ k x e. g.magics x ∙ a.magics k x e;
      busy = a.busy;
    } in
    let sch2 = IsScheduled-agree m m2 g sch in
    let d = propagate_priority_lem t m2 sch2.queued a2 in
    let stored : (m2.threads h).donor_threads ≡ donors = rw (==_self h) refl in
    let waits2 : blocking m2 t ≡ some l = ground arith in
    record {
      scheduled = same-IsScheduled d.queued d.same sch2;
      holders = d.same.holders;
      semas = d.same.semas;
      external = d.same.external;
      current = d.same.current;
      waits = d.same.blockings t ∙ waits2;
      donor =
          ap (has t) (d.same.donors h ∙ stored)
          ∙ (has-insert_ordered (thread_cmp m1) t t (m1.threads h).donor_threads ∙ ground arith);
      donated =
          ground
            (arith, propagate_priority-holder t l h m2 sch2.queued a2 waits2 hold, g.priorities t);
      rises = λ u. ground (arith, d.raised u, g.priorities u);
    }
