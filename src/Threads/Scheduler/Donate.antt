-- ===== src/Threads/Scheduler/Donate.antt =====
-- Donation of priorities in threads/thread.c: thread_update_priority and thread_propagate_priority.
use implso.Prelude.{
  ℕ, suc, ◌≤◌, ◌<◌, ◌≡◌, refl, sym, ap, ◌∙◌, ◌≢◌, ◌⊎◌, true, false, List, Option, none, some, [],
  ◌∷◌, arith, ltb, ◌==◌, if◌then◌else◌, Bool-cases, inl, inr,
}
use implso.Kernel.Queue.{has, list_max, max_loop, max_loop-IsMax, under}
use implso.Threads.Machine.{Machine, put_thread, priority, status, is, is_ready}
use implso.Threads.Scheduler.{change_priority, max_priority}
use implso.Threads.Scheduler.Queued.{IsQueued, change_priority_lem}

-- Only the ready list and the priority of one thread change.
pub change_priority-rest :
    (t p : ℕ) (m : Machine)
    → change_priority t p m ≡ record (put_thread t (record (m.threads t) { priority = p }) m) {
      ready_list = (change_priority t p m).ready_list;
    }
unfolding change_priority
change_priority-rest t p m = elim (Bool-cases (is_ready (status m t))) [
  | inl up ↦ rw up refl
  | inr down ↦ rw down refl
]

pub priority-change :
    (t p : ℕ) (m : Machine) (u : ℕ)
    → priority (change_priority t p m) u ≡ (if t == u then p else priority m u)
priority-change t p m u = rw (change_priority-rest t p m) (ground arith)

abbrev pub blocking : Machine → ℕ → Option ℕ
blocking m u = (m.threads u).blocking_lock

-- Two states that differ in priorities and in the order of the ready list alone.
pub record SameButPriority (m m' : Machine) : Type 0 where
  pub holders : m'.holders ≡ m.holders
  pub semas : m'.semas ≡ m.semas
  pub blockings : (u : ℕ) → blocking m' u ≡ blocking m u
  pub donors : (u : ℕ) → (m'.threads u).donor_threads ≡ (m.threads u).donor_threads
  pub originals : (u : ℕ) → (m'.threads u).original_priority ≡ (m.threads u).original_priority
  pub statuses : (u : ℕ) → status m' u ≡ status m u
  pub magics : (u : ℕ) → (m'.threads u).magic ≡ (m.threads u).magic
  pub current : m'.current ≡ m.current
  pub idle_thread : m'.idle_thread ≡ m.idle_thread
  pub external : m'.external ≡ m.external
  pub interrupts : m'.interrupts ≡ m.interrupts

pub SameButPriority-refl : (m : Machine) → SameButPriority m m
SameButPriority-refl m = record {
  holders = refl;
  semas = refl;
  blockings = λ u. refl;
  donors = λ u. refl;
  originals = λ u. refl;
  statuses = λ u. refl;
  magics = λ u. refl;
  current = refl;
  idle_thread = refl;
  external = refl;
  interrupts = refl;
}

pub SameButPriority-trans :
    {m m' m'' : Machine} → SameButPriority m m' → SameButPriority m' m'' → SameButPriority m m''
SameButPriority-trans s s' = record {
  holders = s'.holders ∙ s.holders;
  semas = s'.semas ∙ s.semas;
  blockings = λ u. s'.blockings u ∙ s.blockings u;
  donors = λ u. s'.donors u ∙ s.donors u;
  originals = λ u. s'.originals u ∙ s.originals u;
  statuses = λ u. s'.statuses u ∙ s.statuses u;
  magics = λ u. s'.magics u ∙ s.magics u;
  current = s'.current ∙ s.current;
  idle_thread = s'.idle_thread ∙ s.idle_thread;
  external = s'.external ∙ s.external;
  interrupts = s'.interrupts ∙ s.interrupts;
}

pub change_priority-SameButPriority :
    (t p : ℕ) (m : Machine) → SameButPriority m (change_priority t p m)
change_priority-SameButPriority t p m = rw (change_priority-rest t p m) (record {
  holders = refl;
  semas = refl;
  blockings = λ u. ground arith;
  donors = λ u. ground arith;
  originals = λ u. ground arith;
  statuses = λ u. ground arith;
  magics = λ u. ground arith;
  current = refl;
  idle_thread = refl;
  external = refl;
  interrupts = refl;
})

-- What a priority is after thread_update_priority: the greatest of the thread's own and those of
-- its donors.
pub record IsMaximum (m : Machine) (t p : ℕ) : Type 0 where
  pub own : (m.threads t).original_priority ≤ p
  pub donors : (d : ℕ) → has d (m.threads t).donor_threads ≡ true → priority m d ≤ p
  pub reached :
      (p ≡ (m.threads t).original_priority)
      ⊎ ((d : ℕ) × (has d (m.threads t).donor_threads ≡ true) × (p ≡ priority m d))

pub max_priority-IsMaximum : (m : Machine) (t : ℕ) → IsMaximum m t (max_priority t m)
unfolding max_priority
max_priority-IsMaximum m t = go (m.threads t).donor_threads refl
  where
    go :
        (ds : List ℕ)
        → (m.threads t).donor_threads ≡ ds
        → IsMaximum m t (
            let own = (m.threads t).original_priority in
            elim (list_max (under (priority m)) ds) [
              | none ↦ own
              | some d ↦ if ltb own (priority m d) then priority m d else own
            ])
    go [] e = record {
      own = omega arith;
      donors = λ d h. ground (arith, ap (has d) e);
      reached = inl refl;
    }
    go (d ∷ ds) e =
        let top = max_loop-IsMax (priority m) d ds in
        let best = max_loop (under (priority m)) d ds in
        elim (Bool-cases (ltb (m.threads t).original_priority (priority m best))) [
          | inl more ↦ rw more (record {
            own = ground arith;
            donors = λ u h. top.greatest u (ap (has u) (sym e) ∙ h);
            reached = inr (best, ap (has best) e ∙ top.chosen, refl);
          })
          | inr enough ↦ rw enough (record {
            own = omega arith;
            donors = λ u h. ground (arith, top.greatest u (ap (has u) (sym e) ∙ h));
            reached = inl refl;
          })
        ]

-- A thread is blocked on a lock that another thread holds.
abbrev pub Waits : Machine → ℕ → ℕ → Type 0
Waits m u h = (l : ℕ) × (blocking m u ≡ some l) × (m.holders l ≡ some h)

-- A holder has the priority of each thread that waits for it, but perhaps of `t`.
abbrev pub AllDonatedBut : ℕ → Machine → Type 0
AllDonatedBut t m = (u h : ℕ) → u ≢ t → Waits m u h → priority m u ≤ priority m h

abbrev pub AllDonated : Machine → Type 0
AllDonated m = (u h : ℕ) → Waits m u h → priority m u ≤ priority m h

-- From a lock, holders that wait for further locks lead to a thread that waits for none, or to a
-- lock that is free, in at most so many steps.
pub data ChainEnds (holders blockings : ℕ → Option ℕ) : ℕ → Option ℕ → Type 0 where
  no_lock : (n : ℕ) → ChainEnds holders blockings n none
  free : (n l : ℕ) → holders l ≡ none → ChainEnds holders blockings n (some l)
  held :
      (n l h : ℕ)
      → holders l ≡ some h
      → ChainEnds holders blockings n (blockings h)
      → ChainEnds holders blockings (suc n) (some l)

-- Holders of locks are threads, and not the idle thread.
pub record HoldersAlive (m : Machine) : Type 0 where
  pub magics : (l h : ℕ) → m.holders l ≡ some h → (m.threads h).magic ≡ true
  pub busy : (l h : ℕ) → m.holders l ≡ some h → is m.idle_thread h ≡ false

-- The result of a donation by `t`: no priority falls, and one that rises is that of `t`.
pub record Donated (t : ℕ) (m m' : Machine) : Type 0 where
  pub queued : IsQueued m'
  pub same : SameButPriority m m'
  pub raised :
      (u : ℕ)
      → (priority m' u ≡ priority m u)
        ⊎ ((priority m u < priority m t) × (priority m' u ≡ priority m t))

pub Donated-own : {t : ℕ} {m m' : Machine} → Donated t m m' → priority m' t ≡ priority m t
Donated-own {t} d = elim (d.raised t) [ inl e ↦ e | inr e ↦ e.1 ]

pub HoldersAlive-same : {m m' : Machine} → SameButPriority m m' → HoldersAlive m → HoldersAlive m'
HoldersAlive-same s a = record {
  magics = λ l h e. s.magics h ∙ a.magics l h (ap (λ f. f l) (sym s.holders) ∙ e);
  busy = λ l h e. ap (λ i. is i h) s.idle_thread ∙ a.busy l h (ap (λ f. f l) (sym s.holders) ∙ e);
}

pub raise_holder :
    (m : Machine) (t l h : ℕ)
    → IsQueued m
    → HoldersAlive m
    → m.holders l ≡ some h
    → priority m h < priority m t
    → Donated t m (change_priority h (priority m t) m)
raise_holder m t l h q a e less = record {
  queued = change_priority_lem m h q (priority m t) (a.magics l h e) (a.busy l h e);
  same = change_priority-SameButPriority h (priority m t) m;
  raised = λ u. elim (Bool-cases (h == u)) [
    | inl here ↦ inr (ground arith, priority-change h (priority m t) m u ∙ rw here refl)
    | inr there ↦ inl (priority-change h (priority m t) m u ∙ rw there refl)
  ];
}

pub Donated-trans :
    {t : ℕ} {m m' m'' : Machine} → Donated t m m' → Donated t m' m'' → Donated t m m''
Donated-trans {t} d d' = record {
  queued = d'.queued;
  same = SameButPriority-trans d.same d'.same;
  raised = λ u. ground (arith, d.raised u, d'.raised u, Donated-own d);
}
