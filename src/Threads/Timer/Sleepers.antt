-- ===== src/Threads/Timer/Sleepers.antt =====
-- The loop of timer_interrupt in devices/timer.c over the threads that sleep.
use implso.Prelude.{
  ℕ, ◌≤◌, ◌<◌, ◌≡◌, refl, sym, ap, ◌∙◌, ◌≢◌, true, false, List, [], ◌∷◌, arith, ltb, ◌==◌,
  Bool-cases, inl, inr,
}
use implso.Prelude.Run
use implso.Prelude.Run.{Run, ok, ◌>>=◌, ◌>>◌, assert, Returns, returns}
use implso.Kernel.Queue.{has}
use implso.Threads.Machine.{Machine, status, is_blocked}
use implso.Threads.Scheduler.Switch.{IsScheduled}
use implso.Threads.Scheduler.Callers.{Woken, thread_unblock_lem}
use implso.Threads.Synch.Locks.{IsScheduled-agree}
use implso.Threads.Timer.{wakeup, wake_loop}

-- Who sleeps is blocked, is in the list once, and stands there in the order of the waking.
pub data AreAsleep (m : Machine) : List ℕ → Type 0 where
  nobody : AreAsleep m []
  sleeper :
      (t : ℕ) (rest : List ℕ)
      → (m.threads t).magic ≡ true
      → is_blocked (status m t) ≡ true
      → ((u : ℕ) → has u rest ≡ true → (wakeup m t ≤ wakeup m u) × (u ≢ t))
      → AreAsleep m rest
      → AreAsleep m (t ∷ rest)

-- The outcome for the threads of the list `sleepers`.
pub record Awoken (sleepers : List ℕ) (m m' : Machine) : Type 0 where
  pub scheduled : IsScheduled m'
  pub due :
      (t : ℕ)
      → has t sleepers ≡ true
      → wakeup m t ≤ m.ticks
      → (has t m'.ready_list ≡ true) × (has t m'.sleep_list ≡ false)
  pub early : (t : ℕ) → has t sleepers ≡ true → m.ticks < wakeup m t → has t m'.sleep_list ≡ true
  pub kept : (t : ℕ) → has t m.ready_list ≡ true → has t m'.ready_list ≡ true
  pub no_new : (t : ℕ) → has t m'.sleep_list ≡ true → has t sleepers ≡ true

IsScheduled-sleep :
    (m : Machine) (rest : List ℕ) → IsScheduled m → IsScheduled (record m { sleep_list = rest })
IsScheduled-sleep m rest sch =
    IsScheduled-agree m (record m { sleep_list = rest })
      (record {
        priorities = λ t. refl;
        statuses = λ t. refl;
        magics = λ t. refl;
        ready_list = refl;
        idle_thread = refl;
        current = refl;
      })
      sch

AreAsleep-Woken :
    (t : ℕ) (m m' : Machine) (list xs : List ℕ)
    → Woken (record m { sleep_list = list }) t m'
    → has t xs ≡ false
    → AreAsleep m xs
    → AreAsleep m' xs
AreAsleep-Woken t m m' list [] w out nobody = nobody
AreAsleep-Woken t m m' list (x ∷ rest) w out (sleeper _ _ magic asleep later more) =
    sleeper x rest (w.magics x ∙ magic)
      (ap is_blocked (w.statuses x (λ e. ground (arith, e))) ∙ asleep)
      (λ u h. ground (arith, later u h, w.wakeups x, w.wakeups u))
      (AreAsleep-Woken t m m' list rest w (ground arith) more)

pub wake_loop_lem :
    (xs : List ℕ) (m : Machine)
    → IsScheduled m
    → m.sleep_list ≡ xs
    → AreAsleep m xs
    → Returns (Awoken xs m) (wake_loop xs m)
unfolding wake_loop
wake_loop_lem [] m sch e nobody = returns (record {
  scheduled = sch;
  due = λ t h l. ground arith;
  early = λ t h l. ground arith;
  kept = λ t h. h;
  no_new = λ t h. sym (ap (has t) e) ∙ h;
})
wake_loop_lem (x ∷ rest) m sch e (sleeper _ _ magic asleep later more) =
    elim (Bool-cases (ltb m.ticks (wakeup m x))) [
      | inl early ↦ rw early (
          returns (record {
            scheduled = sch;
            due = λ t h l. absurd (ground (arith, later t));
            early = λ t h l. ap (has t) e ∙ h;
            kept = λ t h. h;
            no_new = λ t h. sym (ap (has t) e) ∙ h;
          }))
      | inr due ↦ rw due (
          Run.bind
            (thread_unblock_lem (record m { sleep_list = rest }) x (IsScheduled-sleep m rest sch)
              magic asleep)
            λ m1 w.
              let out : has x rest ≡ false = ground (arith, later x) in
              Run.mono
                (wake_loop_lem rest m1 w.scheduled w.sleep_list
                  (AreAsleep-Woken x m m1 rest rest w out more))
                λ m' a. record {
                  scheduled = a.scheduled;
                  due = λ t h l. elim (Bool-cases (x == t)) [
                    | inl here ↦
                        let same : x ≡ t = ground arith in
                        let gone : has t rest ≡ false = sym (ap (λ u. has u rest) same) ∙ out in
                        (a.kept t (ground (arith, w.listed t)), ground (arith, a.no_new t))
                    | inr there ↦ a.due t (ground arith) (omega (arith, w.ticks, w.wakeups t, l))
                  ];
                  early = λ t h l.
                      a.early t (ground (arith, w.wakeups t))
                        (omega (arith, w.ticks, w.wakeups t, l));
                  kept = λ t h. a.kept t (ground (arith, w.listed t));
                  no_new = λ t h. ground (arith, a.no_new t h);
                })
    ]
