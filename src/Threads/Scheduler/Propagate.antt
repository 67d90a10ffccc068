-- ===== src/Threads/Scheduler/Propagate.antt =====
-- The walk of thread_propagate_priority along the chain of locks, in threads/thread.c.
use implso.Prelude.{
  ℕ, zero, suc, ◌≤◌, ◌<◌, ◌≡◌, refl, sym, ap, ◌∙◌, ◌≢◌, true, false, Option, none, some, arith, ltb,
  ◌==◌, ==_self, Bool-cases, Option-cases, inl, inr,
}
use implso.Threads.Machine.{Machine, priority, is}
use implso.Threads.Scheduler.{
  change_priority, update_priority, max_priority, propagate_loop, propagate_priority,
  donation_depth,
}
use implso.Threads.Scheduler.Queued.{IsQueued, change_priority_lem}
use implso.Threads.Scheduler.Donate.{
  blocking, SameButPriority, SameButPriority-refl, change_priority-SameButPriority, priority-change,
  Donated, Donated-trans, HoldersAlive, HoldersAlive-same, raise_holder, Waits, AllDonated,
  AllDonatedBut, ChainEnds, no_lock, free, held, IsMaximum, max_priority-IsMaximum,
}

pub Donated-refl : (t : ℕ) (m : Machine) → IsQueued m → Donated t m m
Donated-refl t m q = record { queued = q; same = SameButPriority-refl m; raised = λ u. inl refl }

pub propagate_loop_lem :
    (n : ℕ) (l : Option ℕ) (t : ℕ) (m : Machine)
    → IsQueued m
    → HoldersAlive m
    → Donated t m (propagate_loop n l t m)
unfolding propagate_loop
propagate_loop_lem zero l t m q a = Donated-refl t m q
propagate_loop_lem (suc n) none t m q a = Donated-refl t m q
propagate_loop_lem (suc n) (some l) t m q a = elim (Option-cases (m.holders l)) [
  | inl e ↦ rw (propagate_loop, e) (Donated-refl t m q)
  | inr (h, e) ↦ elim (Bool-cases (ltb (priority m h) (priority m t))) [
    | inl less ↦
        let d = raise_holder m t l h q a e (ground arith) in
        let m' = change_priority h (priority m t) m in
        rw (propagate_loop, e, less)
          (Donated-trans d (
            propagate_loop_lem n (m'.threads h).blocking_lock t m' d.queued
              (HoldersAlive-same d.same a)))
    | inr more ↦ rw (propagate_loop, e, more) (Donated-refl t m q)
  ]
]

-- A thread whose holder has its priority needs no donation.
all_donated :
    (v : ℕ) (m : Machine)
    → AllDonatedBut v m
    → ((h : ℕ) → Waits m v h → priority m v ≤ priority m h)
    → AllDonated m
all_donated v m but own u h w = elim (Bool-cases (u == v)) [
  | inl e ↦ let here : u ≡ v = ground arith in rw here (own h (rw here at w))
  | inr ne ↦ but u h (ground arith) w
]

-- Raising the holder of the lock that `v` waits for leaves only that holder's own donation to do.
raise_step :
    (m : Machine) (v l h p : ℕ)
    → AllDonatedBut v m
    → blocking m v ≡ some l
    → m.holders l ≡ some h
    → priority m v ≡ p
    → priority m h < p
    → AllDonatedBut h (change_priority h p m)
raise_step m v l h p but lock holder value less u g ne (l', wait, hold) =
    let s = change_priority-SameButPriority h p m in
    let wait0 : blocking m u ≡ some l' = sym (s.blockings u) ∙ wait in
    let hold0 : m.holders l' ≡ some g = ap (λ f. f l') (sym s.holders) ∙ hold in
    rw (priority-change h p m u, priority-change h p m g)
      (elim (Bool-cases (u == v)) [
        | inl e ↦
            let here : u ≡ v = ground arith in
            let same_lock : some l' ≡ some l = sym wait0 ∙ (ap (blocking m) here ∙ lock) in
            let same_holder : some g ≡ some h = sym hold0 ∙ (ground arith ∙ holder) in
            ground (arith, ap (priority m) here)
        | inr other ↦ ground (arith, but u g (ground arith) (l', wait0, hold0))
      ])

ChainEnds-agree :
    {holders holders' blockings blockings' : ℕ → Option ℕ} {n : ℕ} {l : Option ℕ}
    → ((x : ℕ) → holders' x ≡ holders x)
    → ((u : ℕ) → blockings' u ≡ blockings u)
    → ChainEnds holders blockings n l
    → ChainEnds holders' blockings' n l
ChainEnds-agree e f (no_lock n) = no_lock n
ChainEnds-agree e f (free n l h) = free n l (e l ∙ h)
ChainEnds-agree {holders} {holders'} {blockings} {blockings'} e f (held n l h hold chain) =
    held n l h (e l ∙ hold) (rw (f h) (ChainEnds-agree e f chain))

held_by : (m : Machine) (v l g : ℕ) → blocking m v ≡ some l → Waits m v g → m.holders l ≡ some g
held_by m v l g lock (l', wait, hold) =
    let same_lock : some l' ≡ some l = sym wait ∙ lock in ground arith

walk_none : (n t : ℕ) (m : Machine) → propagate_loop n none t m ≡ m
unfolding propagate_loop
walk_none zero t m = refl
walk_none (suc n) t m = refl

walk_free : (n l t : ℕ) (m : Machine) → m.holders l ≡ none → propagate_loop n (some l) t m ≡ m
unfolding propagate_loop
walk_free zero l t m e = refl
walk_free (suc n) l t m e = rw (propagate_loop, e) refl

propagate_loop-AllDonated :
    (n : ℕ) (l : Option ℕ) (t v : ℕ) (m : Machine)
    → IsQueued m
    → HoldersAlive m
    → AllDonatedBut v m
    → blocking m v ≡ l
    → priority m v ≡ priority m t
    → ChainEnds m.holders (blocking m) n l
    → AllDonated (propagate_loop n l t m)
unfolding propagate_loop
propagate_loop-AllDonated n none t v m q a but lock value (no_lock _) =
    let idle_walk : propagate_loop n none t m ≡ m = walk_none n t m in
    rw idle_walk (all_donated v m but λ h w. absurd (ground (arith, w.1)))
propagate_loop-AllDonated n (some l) t v m q a but lock value (free _ _ e) =
    rw (walk_free n l t m e)
      (all_donated v m but λ h w. absurd (ground (arith, held_by m v l h lock w)))
propagate_loop-AllDonated (suc n) (some l) t v m q a but lock value (held _ _ h e chain) =
    elim (Bool-cases (ltb (priority m h) (priority m t))) [
      | inl less ↦
          let d = raise_holder m t l h q a e (ground arith) in
          let m' = change_priority h (priority m t) m in
          rw (propagate_loop, e, less)
            (propagate_loop-AllDonated n (blocking m' h) t h m' d.queued
              (HoldersAlive-same d.same a)
              (raise_step m v l h (priority m t) but lock e value (ground arith)) refl
              (priority-change h (priority m t) m h
                ∙ ground (arith, priority-change h (priority m t) m t))
              (ChainEnds-agree (λ x. ap (λ f. f x) d.same.holders) d.same.blockings
                (rw (sym (d.same.blockings h)) at chain)))
      | inr more ↦
          rw (propagate_loop, e, more)
            (all_donated v m but λ g w. ground (arith, held_by m v l g lock w))
    ]

-- thread_propagate_priority keeps the ready list in order and changes nothing but priorities, of
-- which none falls, and one that changes becomes that of the donor.
pub propagate_priority_lem :
    (t : ℕ) (m : Machine) → IsQueued m → HoldersAlive m → Donated t m (propagate_priority t m)
unfolding propagate_priority
propagate_priority_lem t m q a = propagate_loop_lem donation_depth (blocking m t) t m q a

-- Where every thread but one has donated to the holder of the lock it waits for, and the chain of
-- holders from that thread ends within DONATION_DEPTH steps, every thread has donated after
-- thread_propagate_priority: no holder has a lower priority than a thread that waits for it.
pub propagate_priority-AllDonated :
    (t : ℕ) (m : Machine)
    → IsQueued m
    → HoldersAlive m
    → AllDonatedBut t m
    → ChainEnds m.holders (blocking m) donation_depth (blocking m t)
    → AllDonated (propagate_priority t m)
unfolding propagate_priority
propagate_priority-AllDonated t m q a but chain =
    propagate_loop-AllDonated donation_depth (blocking m t) t t m q a but refl refl chain

-- What thread_update_priority leaves.
pub record Updated (t : ℕ) (m m' : Machine) : Type 0 where
  pub queued : IsQueued m'
  pub same : SameButPriority m m'
  pub maximum : IsMaximum m t (priority m' t)
  pub others : (u : ℕ) → u ≢ t → priority m' u ≡ priority m u

-- thread_update_priority gives a thread that is not the idle thread the greatest of its own
-- priority and those of its donors, changes no other priority, and keeps the ready list in order.
pub update_priority_lem :
    (t : ℕ) (m : Machine)
    → IsQueued m
    → (m.threads t).magic ≡ true
    → is m.idle_thread t ≡ false
    → Updated t m (update_priority t m)
unfolding update_priority
update_priority_lem t m q magic busy =
    let top = max_priority-IsMaximum m t in
    elim (Bool-cases (priority m t == max_priority t m)) [
      | inl kept ↦
          let e : max_priority t m ≡ priority m t = ground arith in
          rw kept (record {
            queued = q;
            same = SameButPriority-refl m;
            maximum = rw e at top;
            others = λ u ne. refl;
          })
      | inr changed ↦ rw changed (record {
        queued = change_priority_lem m t q (max_priority t m) magic busy;
        same = change_priority-SameButPriority t (max_priority t m) m;
        maximum = rw (priority-change t (max_priority t m) m t) (rw (==_self t) top);
        others = λ u ne. ground (arith, priority-change t (max_priority t m) m u);
      })
    ]
