-- ===== src/Threads/Synch/Conditions.antt =====
-- Condition variables in threads/synch.c: cond_signal.
use implso.Prelude.{
  ℕ, ◌≤◌, ◌≡◌, refl, sym, ap, ◌∙◌, true, false, not, List, [], ◌∷◌, Option, none, some, arith, ltb,
  ==_self, if◌then◌else◌,
}
use implso.Prelude.Run
use implso.Prelude.Run.{Run, ok, panic, ◌>>=◌, ◌>>◌, assert, Returns, returns}
use implso.Kernel.Queue.{has, max_loop, max_loop-IsMax, under}
use implso.Threads.Machine.{Machine, priority, status, is, is_blocked}
use implso.Threads.Scheduler.Switch.{IsScheduled}
use implso.Threads.Scheduler.Callers.{current_lem}
use implso.Threads.Synch.{
  lock_held_by_current_thread, front_priority, cond_max, signal_first, signal_begin,
}
use implso.Threads.Synch.Semas.{AreBlocked, AfterUp, sema_up_lem}

abbrev first_priority : Machine → List ℕ → ℕ
first_priority m [] = 0
first_priority m (t ∷ _) = priority m t

-- The priority by which cond_signal compares a semaphore that is entered.
abbrev pub front : Machine → ℕ → ℕ
front m w = first_priority m (m.semas w).waiters

-- A thread sleeps on the semaphore that cond_wait has entered.
abbrev pub IsEntered : Machine → ℕ → Type 0
IsEntered m w =
    (t : ℕ) × ((m.semas w).waiters ≡ t ∷ [])
    × ((m.threads t).magic ≡ true)
    × (is_blocked (status m t) ≡ true)

front_priority-front :
    (m : Machine) (w : ℕ) → IsEntered m w → front_priority m (m.semas w).waiters ≡ ok (front m w)
front_priority-front m w (t, e, _, _) =
    ap (front_priority m) e ∙ sym (ap (λ x. ok (first_priority m x)) e)

cond_max-max_loop :
    (m : Machine) (max : ℕ) (es : List ℕ)
    → ((w : ℕ) → has w (max ∷ es) ≡ true → IsEntered m w)
    → cond_max m max es ≡ ok (max_loop (under (front m)) max es)
unfolding cond_max
cond_max-max_loop m max [] entered = refl
cond_max-max_loop m max (e ∷ es) entered =
    rw
      (
        front_priority-front m max (entered max (ground arith)),
        front_priority-front m e (entered e (ground arith)),
      )
      (cond_max-max_loop m (if ltb (front m max) (front m e) then e else max) es
        (λ w h. entered w (ground arith)))

-- The outcomes of cond_signal up to its list_remove.
pub data Signalled (c : ℕ) (m : Machine) : Option ℕ × Machine → Type 0 where
  nobody : m.conditions c ≡ [] → Signalled c m (none, m)
  signalled :
      (w : ℕ) (m' : Machine)
      → has w (m.conditions c) ≡ true
      → ((u : ℕ) → has u (m.conditions c) ≡ true → front m u ≤ front m w)
      → AfterUp w m m'
      → Signalled c m (some w, m')

entered-AreBlocked : (m : Machine) (w : ℕ) → IsEntered m w → AreBlocked w m
entered-AreBlocked m w (t, e, magic, asleep) u h =
    let same : t ≡ u = ground (arith, ap (has u) e) in
    (
      ap (λ x. (m.threads x).magic) (sym same) ∙ magic,
      ap (λ x. is_blocked (status m x)) (sym same) ∙ asleep,
    )

signal_first_lem :
    (c : ℕ) (m : Machine) (ws : List ℕ)
    → IsScheduled m
    → m.external ≡ false
    → m.conditions c ≡ ws
    → ((w : ℕ) → has w ws ≡ true → IsEntered m w)
    → Returns (Signalled c m) (signal_first m ws)
signal_first_lem c m [] sch inside e entered = returns (nobody e)
signal_first_lem c m (w ∷ ws) sch inside e entered =
    let best = max_loop (under (front m)) w ws in
    let top = max_loop-IsMax (front m) w ws in
    rw (cond_max-max_loop m w ws entered) (
      Run.bind (sema_up_lem best m sch inside (entered-AreBlocked m best (entered best top.chosen)))
        λ m' up. returns (
          signalled best m' (ap (has best) e ∙ top.chosen)
            (λ u h. top.greatest u (sym (ap (has u) e) ∙ h)) up))

-- cond_signal by the holder of the lock, not in an interrupt handler and with a blocked thread on
-- each semaphore that is entered, does not panic before its list_remove: the semaphore whose thread
-- has the highest priority is chosen, and sema_up is done on it.
pub signal_begin_lem :
    (c l : ℕ) (m : Machine)
    → IsScheduled m
    → m.external ≡ false
    → m.holders l ≡ some m.current
    → ((w : ℕ) → has w (m.conditions c) ≡ true → IsEntered m w)
    → Returns (Signalled c m) (signal_begin c l m)
unfolding signal_begin lock_held_by_current_thread
signal_begin_lem c l m sch inside hold entered =
    let holds : is (m.holders l) m.current ≡ true =
      ap (λ o. is o m.current) hold ∙ ==_self m.current in
    Run.pass (ap not inside) (
      rw (current_lem m sch, holds) (signal_first_lem c m (m.conditions c) sch inside refl entered))

cond_max_panics :
    (m : Machine) (v w : ℕ) (ws : List ℕ) → (m.semas v).waiters ≡ [] → cond_max m v (w ∷ ws) ≡ panic
unfolding cond_max
cond_max_panics m v w ws asleep = rw asleep refl

-- cond_signal by the holder of the lock panics where two semaphores or more are entered and no
-- thread sleeps on the first yet.
pub signal_begin_panics :
    (c l v w : ℕ) (ws : List ℕ) (m : Machine)
    → IsScheduled m
    → m.external ≡ false
    → m.holders l ≡ some m.current
    → m.conditions c ≡ v ∷ w ∷ ws
    → (m.semas v).waiters ≡ []
    → signal_begin c l m ≡ panic
unfolding signal_begin lock_held_by_current_thread
signal_begin_panics c l v w ws m sch inside hold e asleep =
    let holds : is (m.holders l) m.current ≡ true =
      ap (λ o. is o m.current) hold ∙ ==_self m.current in
    rw (ap not inside, current_lem m sch, holds, e, cond_max_panics m v w ws asleep) refl
