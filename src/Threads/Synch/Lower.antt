-- ===== src/Threads/Synch/Lower.antt =====
-- thread_set_priority in threads/thread.c.
use implso.Prelude.{
  ℕ, ◌≤◌, ◌<◌, ◌≡◌, ◌≢◌, ◌⊎◌, ==_self, refl, sym, ap, ◌∙◌, true, false, List, [], ◌∷◌, arith, ltb,
  Bool-cases, inl, inr,
}
use implso.Prelude.Run
use implso.Prelude.Run.{ok, ◌>>=◌, Returns, returns}
use implso.Kernel.Queue.{has, IsQueue, link}
use implso.Threads.Machine.{Machine, put_thread, priority, is}
use implso.Threads.Scheduler.{update_priority, propagate_priority, yield_below, set_priority}
use implso.Threads.Scheduler.Donate.{HoldersAlive, HoldersAlive-same, Donated-own}
use implso.Threads.Scheduler.Propagate.{propagate_priority_lem, update_priority_lem}
use implso.Threads.Scheduler.Switch.{IsScheduled, SameButThreads}
use implso.Threads.Scheduler.Callers.{current_lem, thread_yield_lem}
use implso.Threads.Synch.Semas.{IsTop}
use implso.Threads.Synch.Locks.{Agrees, IsScheduled-agree, same-IsScheduled}

SameButThreads-refl : (m : Machine) → SameButThreads m m
SameButThreads-refl m = record {
  priorities = λ t. refl;
  donors = λ t. refl;
  originals = λ t. refl;
  blockings = λ t. refl;
  holders = refl;
  semas = refl;
}

front_highest :
    {p : ℕ → ℕ} {x : ℕ} {xs : List ℕ} (y : ℕ)
    → IsQueue p (x ∷ xs)
    → has y (x ∷ xs) ≡ true
    → p y ≤ p x
front_highest y (link _ _ below q) h = ground (arith, below y)

yield_below_lem :
    (t : ℕ) (m : Machine) (xs : List ℕ)
    → IsScheduled m
    → m.external ≡ false
    → m.current ≡ t
    → m.ready_list ≡ xs
    → Returns (λ m'. IsScheduled m' × IsTop m' × SameButThreads m m') (yield_below t xs m)
unfolding yield_below
yield_below_lem t m [] sch inside here e =
    returns (sch, (λ u h. ground (arith, sym (ap (has u) e) ∙ h)), SameButThreads-refl m)
yield_below_lem t m (x ∷ rest) sch inside here e =
    elim (Bool-cases (ltb (priority m t) (priority m x))) [
      | inl higher ↦
          rw higher (Run.mono (thread_yield_lem m sch inside) λ m' w. (w.scheduled, w.top, w.same))
      | inr lower ↦ rw lower (
          returns (
            sch,
            λ u h.
                let low = front_highest u (rw e at sch.queued.queue) (sym (ap (has u) e) ∙ h) in
                ground (arith, ap (priority m) here),
            SameButThreads-refl m,
          ))
    ]

-- What thread_set_priority leaves: the running thread `t` has the new priority of its own, and as its
-- priority the greatest of that and those of its donors; another one has its priority still, or has
-- been raised to that of `t`.
pub record PrioritySet (new_priority : ℕ) (m m' : Machine) : Type 0 where
  pub scheduled : IsScheduled m'
  pub top : IsTop m'
  pub original : (m'.threads m.current).original_priority ≡ new_priority
  pub own : new_priority ≤ priority m' m.current
  pub donors :
      (d : ℕ)
      → has d (m.threads m.current).donor_threads ≡ true
      → priority m d ≤ priority m' m.current
  pub reached :
      (priority m' m.current ≡ new_priority)
      ⊎ ((d : ℕ) × (has d (m.threads m.current).donor_threads ≡ true)
          × (priority m' m.current ≡ priority m d))
  pub others :
      (u : ℕ)
      → u ≢ m.current
      → (priority m' u ≡ priority m u)
        ⊎ ((priority m u < priority m' m.current) × (priority m' u ≡ priority m' m.current))

-- thread_set_priority by a thread that is not the idle thread and not in an interrupt handler,
-- where holders of locks are threads other than the idle thread, does not panic and keeps the
-- invariant of the scheduler. The original priority of the thread is then the new one, and its
-- priority the greatest of that and those of its donors; another thread has its priority still or
-- has been raised to that of the thread. No ready thread then has a higher priority than the one
-- that runs.
pub set_priority_lem :
    (new_priority : ℕ) (m : Machine)
    → IsScheduled m
    → m.external ≡ false
    → is m.idle_thread m.current ≡ false
    → HoldersAlive m
    → Returns (PrioritySet new_priority m) (set_priority new_priority m)
unfolding set_priority
set_priority_lem new_priority m sch inside busy a =
    let t = m.current in
    let m1 = put_thread t (record (m.threads t) { original_priority = new_priority }) m in
    let g : Agrees m m1 = record {
      priorities = λ u. ground arith;
      statuses = λ u. ground arith;
      magics = λ u. ground arith;
      ready_list = refl;
      idle_thread = refl;
      current = refl;
    } in
    let sch1 = IsScheduled-agree m m1 g sch in
    let a1 : HoldersAlive m1 = record {
      magics = λ l h e. g.magics h ∙ a.magics l h e;
      busy = a.busy;
    } in
    let u = update_priority_lem t m1 sch1.queued sch1.alive busy in
    let m2 = update_priority t m1 in
    let sch2 = same-IsScheduled u.queued u.same sch1 in
    let d = propagate_priority_lem t m2 sch2.queued (HoldersAlive-same u.same a1) in
    let m3 = propagate_priority t m2 in
    let sch3 = same-IsScheduled d.queued d.same sch2 in
    let still : m3.current ≡ t = d.same.current ∙ u.same.current in
    let out : m3.external ≡ false = d.same.external ∙ (u.same.external ∙ inside) in
    let kept : priority m3 t ≡ priority m2 t = Donated-own d in
    let before : (v : ℕ) → priority m1 v ≡ priority m v = g.priorities in
    rw (current_lem m sch) (
      Run.mono (yield_below_lem t m3 m3.ready_list sch3 out still refl) λ m' (sch', top, same).
        let here : priority m' t ≡ priority m2 t = same.priorities t ∙ kept in
        let fresh : (m1.threads t).original_priority ≡ new_priority = rw (==_self t) refl in
        let gifts : (d : ℕ)
            → has d (m1.threads t).donor_threads ≡ has d (m.threads t).donor_threads =
          λ d. rw (==_self t) refl in
        record {
          scheduled = sch';
          top = top;
          original = same.originals t ∙ (d.same.originals t ∙ (u.same.originals t ∙ fresh));
          own = ground (arith, here, fresh, u.maximum.own);
          donors = λ v h. ground (arith, here, before v, u.maximum.donors v (gifts v ∙ h));
          reached = elim u.maximum.reached [
            | inl e ↦ inl (here ∙ (e ∙ fresh))
            | inr (v, h, e) ↦ inr (v, sym (gifts v) ∙ h, here ∙ (e ∙ before v))
          ];
          others = λ v ne. elim (d.raised v) [
            | inl e ↦ inl (same.priorities v ∙ (e ∙ (u.others v ne ∙ before v)))
            | inr (lt, e) ↦ inr (
              ground (arith, lt, u.others v ne, before v, here),
              same.priorities v ∙ (e ∙ sym here),
            )
          ];
        })
