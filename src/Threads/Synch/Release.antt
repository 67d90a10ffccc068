-- ===== src/Threads/Synch/Release.antt =====
-- lock_release in threads/synch.c: the end of the donations, and the waking of a waiter.
use implso.Prelude.{
  ℕ, ◌≤◌, ◌≡◌, refl, sym, ap, ◌∙◌, ◌≢◌, ◌⊎◌, true, false, not, ◌&&◌, List, [], ◌∷◌, none, some,
  arith, ◌==◌, ==_self, Bool-cases, inl, inr,
}
use implso.Prelude.Run
use implso.Prelude.Run.{Run, ok, panic, ◌>>=◌, ◌>>◌, assert, Returns, returns}
use implso.Kernel.Queue.{has}
use implso.Threads.Machine.{is_blocked, Machine, put_thread, priority, status, is}
use implso.Threads.Scheduler.Donate.{blocking}
use implso.Threads.Scheduler.Propagate.{update_priority_lem}
use implso.Threads.Scheduler.Switch.{IsScheduled}
use implso.Threads.Scheduler.Callers.{current_lem}
use implso.Threads.Synch.{
  next_value, put_holder, lock_held_by_current_thread, other_donors, withdraw, lock_release,
}
use implso.Threads.Synch.Locks.{IsLock, free, held, Agrees, IsScheduled-agree, same-IsScheduled}
use implso.Threads.Synch.Semas.{AreBlocked, AfterUp, Upped, alone, woke, sema_up_lem}

has-other_donors :
    (l d : ℕ) (m : Machine) (ds : List ℕ)
    → has d (other_donors l m ds) ≡ has d ds && not (is (blocking m d) l)
has-other_donors l d m [] = refl
has-other_donors l d m (e ∷ es) = elim (Bool-cases (e == d)) [
  | inl here ↦
      let same : e ≡ d = ground arith in
      ground (arith, has-other_donors l d m es, ap (λ x. is (blocking m x) l) same)
  | inr there ↦ ground (arith, has-other_donors l d m es)
]

-- The thread `t` no longer holds the lock, and its donors are those that wait for other locks.
pub record Withdrawn (l t : ℕ) (m m' : Machine) : Type 0 where
  pub scheduled : IsScheduled m'
  pub holder : m'.holders l ≡ none
  pub donors :
      (d : ℕ)
      → has d (m'.threads t).donor_threads
        ≡ has d (m.threads t).donor_threads && not (is (blocking m d) l)
  pub semas : m'.semas ≡ m.semas
  pub own : (m.threads t).original_priority ≤ priority m' t
  pub donated : (d : ℕ) → has d (m'.threads t).donor_threads ≡ true → priority m d ≤ priority m' t
  pub reached :
      (priority m' t ≡ (m.threads t).original_priority)
      ⊎ ((d : ℕ) × (has d (m'.threads t).donor_threads ≡ true) × (priority m' t ≡ priority m d))
  pub others : (u : ℕ) → u ≢ t → priority m' u ≡ priority m u
  pub blockings : (u : ℕ) → blocking m' u ≡ blocking m u
  pub statuses : (u : ℕ) → status m' u ≡ status m u
  pub magics : (u : ℕ) → (m'.threads u).magic ≡ (m.threads u).magic
  pub external : m'.external ≡ m.external

withdraw_lem :
    (l t : ℕ) (m : Machine)
    → IsScheduled m
    → (m.threads t).magic ≡ true
    → is m.idle_thread t ≡ false
    → Withdrawn l t m (withdraw l t m)
unfolding withdraw
withdraw_lem l t m sch magic busy =
    let ds = other_donors l m (m.threads t).donor_threads in
    let m1 = put_holder l none (put_thread t (record (m.threads t) { donor_threads = ds }) m) in
    let g : Agrees m m1 = record {
      priorities = λ u. ground arith;
      statuses = λ u. ground arith;
      magics = λ u. ground arith;
      ready_list = refl;
      idle_thread = refl;
      current = refl;
    } in
    let stored : (m1.threads t).donor_threads ≡ ds = rw (==_self t) refl in
    let sch1 = IsScheduled-agree m m1 g sch in
    let u = update_priority_lem t m1 sch1.queued (g.magics t ∙ magic) busy in
    let own1 : (m1.threads t).original_priority ≡ (m.threads t).original_priority = ground arith in
    record {
      scheduled = same-IsScheduled u.queued u.same sch1;
      holder = ap (λ f. f l) u.same.holders ∙ rw (==_self l) refl;
      donors = λ d.
          ap (has d) (u.same.donors t ∙ stored)
          ∙ has-other_donors l d m (m.threads t).donor_threads;
      semas = u.same.semas;
      own = ground (arith, u.maximum.own);
      donated = λ d h.
          ground
            (arith, u.maximum.donors d (sym (ap (has d) (u.same.donors t)) ∙ h), g.priorities d);
      reached = elim u.maximum.reached [
        | inl e ↦ inl (e ∙ own1)
        | inr (d, h, e) ↦ inr (d, ap (has d) (u.same.donors t) ∙ h, e ∙ g.priorities d)
      ];
      others = λ x ne. u.others x ne ∙ g.priorities x;
      blockings = λ x. u.same.blockings x ∙ ground arith;
      statuses = λ x. u.same.statuses x ∙ g.statuses x;
      magics = λ x. u.same.magics x ∙ g.magics x;
      external = u.same.external;
    }

-- The outcome of lock_release, by way of the state before its call of sema_up.
pub record Released (l : ℕ) (m m' : Machine) : Type 0 where
  pub between : Machine
  pub withdrawn : Withdrawn l m.current m between
  pub up : AfterUp l between m'
  pub exclusive : IsLock l m'
  pub holder : m'.holders l ≡ none

Upped-value :
    {l : ℕ} {m m' : Machine} → Upped l m m' → (m'.semas l).value ≡ next_value (m.semas l).value
Upped-value (alone e value c) = ap (λ x. x.value) value
Upped-value (woke t h g value c) = ap (λ x. x.value) value

-- lock_release by the thread that holds the lock, not the idle thread and not in an interrupt
-- handler, does not panic where the waiters of the lock are blocked. The lock is free, exactly the
-- donors that wait for it are removed, the priority of the thread is the greatest of its own and
-- those of the donors that are left, and a waiter of the highest priority is woken.
pub lock_release_lem :
    (l : ℕ) (m : Machine)
    → IsScheduled m
    → m.external ≡ false
    → is m.idle_thread m.current ≡ false
    → IsLock l m
    → m.holders l ≡ some m.current
    → AreBlocked l m
    → Returns (Released l m) (lock_release l m)
unfolding lock_release lock_held_by_current_thread
lock_release_lem l m sch inside busy (free e one) hold asleep = absurd (ground arith)
lock_release_lem l m sch inside busy (held h e zero_value) hold asleep =
    let t = m.current in
    let w = withdraw_lem l t m sch sch.alive busy in
    let asleep1 : AreBlocked l (withdraw l t m) = λ u h.
      let waits = asleep u (ap (λ f. has u (f l).waiters) (sym w.semas) ∙ h) in
      (w.magics u ∙ waits.0, ap is_blocked (w.statuses u) ∙ waits.1) in
    let holds : is (m.holders l) t ≡ true = ap (λ o. is o t) hold ∙ ==_self t in
    rw (current_lem m sch, holds)
      (Run.mono (sema_up_lem l (withdraw l t m) w.scheduled (w.external ∙ inside) asleep1) λ m' up.
        let none_left : m'.holders l ≡ none = ap (λ f. f l) up.same.holders ∙ w.holder in
        record {
          between = withdraw l t m;
          withdrawn = w;
          up = up;
          exclusive = free none_left (
              Upped-value up.outcome
              ∙ (ap (λ f. next_value (f l).value) w.semas ∙ rw zero_value refl));
          holder = none_left;
        })
