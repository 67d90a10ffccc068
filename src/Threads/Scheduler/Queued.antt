-- ===== src/Threads/Scheduler/Queued.antt =====
-- The ready list of threads/thread.c: the invariant, and the changes of one thread that keep it.
use implso.Prelude.{ℕ, ◌≡◌, true, false, some, arith, Bool-cases, inl, inr}
use implso.Kernel.Queue.{
  has, IsQueue, IsQueue-agree, insert_ordered-IsQueue, has-insert_ordered, above, remove,
  remove-IsQueue, has-remove,
}
use implso.Threads.Machine.{
  Status, ready, is_ready, Machine, Thread, put_thread, priority, status, is,
}
use implso.Threads.Scheduler.{set_status, enqueue, change_priority}

-- There is an idle thread, and its page holds a thread.
abbrev pub HasIdle : Machine → Type 0
HasIdle m = (i : ℕ) × (m.idle_thread ≡ some i) × ((m.threads i).magic ≡ true)

-- The ready list is in the order of the priorities, holds threads that are ready, and each of them
-- but the idle thread.
pub record IsQueued (m : Machine) : Type 0 where
  pub queue : IsQueue (priority m) m.ready_list
  pub listed : (t : ℕ) → has t m.ready_list ≡ true → is_ready (status m t) ≡ true
  pub alive : (t : ℕ) → has t m.ready_list ≡ true → (m.threads t).magic ≡ true
  pub waiting :
      (t : ℕ)
      → is_ready (status m t) ≡ true
      → is m.idle_thread t ≡ false
      → has t m.ready_list ≡ true
  pub idle : HasIdle m

module _ (m : Machine) (t : ℕ) (q : IsQueued m) where
  put_idle : (th : Thread) → th.magic ≡ true → HasIdle (put_thread t th m)
  put_idle th magic = let (i, e, a) = q.idle in (i, e, ground arith)

  -- A thread that was not ready is put in the list and made ready.
  pub enqueue_lem :
      is_ready (status m t) ≡ false
      → (m.threads t).magic ≡ true
      → IsQueued (set_status t ready (enqueue t m))
  enqueue_lem out magic =
      let away : has t m.ready_list ≡ false = ground (arith, q.listed t) in
      record {
        queue =
            IsQueue-agree (priority m) _ _ (λ y e. ground arith)
              (insert_ordered-IsQueue (priority m) t m.ready_list q.queue away);
        listed = λ y e.
            ground (arith, has-insert_ordered (above (priority m)) t y m.ready_list, q.listed y);
        alive = λ y e.
            ground (arith, has-insert_ordered (above (priority m)) t y m.ready_list, q.alive y);
        waiting = λ y r i.
            ground (arith, has-insert_ordered (above (priority m)) t y m.ready_list, q.waiting y);
        idle = put_idle _ magic;
      }

  -- A thread that is not ready, or the idle thread out of the list, takes another status.
  pub set_status_lem :
      (s : Status)
      → is_ready (status m t) ≡ false
      → (m.threads t).magic ≡ true
      → (is_ready s ≡ true → is m.idle_thread t ≡ true)
      → IsQueued (set_status t s m)
  set_status_lem s out magic excused =
      let away : has t m.ready_list ≡ false = ground (arith, q.listed t) in
      record {
        queue = IsQueue-agree (priority m) _ _ (λ y e. ground arith) q.queue;
        listed = λ y e. ground (arith, q.listed y);
        alive = λ y e. ground (arith, q.alive y);
        waiting = λ y r i. ground (arith, q.waiting y);
        idle = put_idle _ magic;
      }

  -- A thread other than the idle thread gets another priority.
  pub change_priority_lem :
      (p : ℕ)
      → (m.threads t).magic ≡ true
      → is m.idle_thread t ≡ false
      → IsQueued (change_priority t p m)
  unfolding change_priority
  change_priority_lem p magic busy = elim (Bool-cases (is_ready (status m t))) [
    | inl up ↦
        let m' = put_thread t (record (m.threads t) { priority = p }) m in
        let rest = remove t m.ready_list in
        let gone : has t rest ≡ false = ground (arith, has-remove t t m.ready_list) in
        let kept =
          IsQueue-agree (priority m) (priority m') rest
            (λ y e. ground (arith, has-remove t y m.ready_list))
            (remove-IsQueue (priority m) t m.ready_list q.queue) in
        rw up (record {
          queue = insert_ordered-IsQueue (priority m') t rest kept gone;
          listed = λ y e. ground (
            arith,
            has-insert_ordered (above (priority m')) t y rest,
            has-remove t y m.ready_list,
            q.listed y,
          );
          alive = λ y e. ground (
            arith,
            has-insert_ordered (above (priority m')) t y rest,
            has-remove t y m.ready_list,
            q.alive y,
          );
          waiting = λ y r i. ground (
            arith,
            has-insert_ordered (above (priority m')) t y rest,
            has-remove t y m.ready_list,
            q.waiting y,
          );
          idle = put_idle _ magic;
        })
    | inr down ↦
        let away : has t m.ready_list ≡ false = ground (arith, q.listed t) in
        rw down (record {
          queue = IsQueue-agree (priority m) _ _ (λ y e. ground arith) q.queue;
          listed = λ y e. ground (arith, q.listed y);
          alive = λ y e. ground (arith, q.alive y);
          waiting = λ y r i. ground (arith, q.waiting y);
          idle = put_idle _ magic;
        })
  ]
