-- ===== src/Threads/Machine.antt =====
-- threads/thread.h and threads/synch.h: what the scheduler and the primitives keep. Threads, locks,
-- semaphores and conditions are known by their addresses; an address has one structure of each
-- kind, and the semaphore in a lock is the one at the lock's address.
use implso.Prelude.{ℕ, Bool, true, false, List, Option, none, some, ◌==◌, if◌then◌else◌}

-- enum thread_status
pub data Status : Type 0 where
  running : Status
  ready : Status
  blocked : Status
  dying : Status

abbrev pub is_running : Status → Bool
is_running running = true
is_running ready = false
is_running blocked = false
is_running dying = false

abbrev pub is_ready : Status → Bool
is_ready running = false
is_ready ready = true
is_ready blocked = false
is_ready dying = false

abbrev pub is_blocked : Status → Bool
is_blocked running = false
is_blocked ready = false
is_blocked blocked = true
is_blocked dying = false

abbrev pub is_dying : Status → Bool
is_dying running = false
is_dying ready = false
is_dying blocked = false
is_dying dying = true

-- `magic` says whether the field holds THREAD_MAGIC, and `user` whether there is a page directory.
pub record Thread : Type 0 where
  pub magic : Bool
  pub user : Bool
  pub tid : ℕ
  pub status : Status
  pub priority : ℕ
  pub original_priority : ℕ
  pub wakeup_tick : ℕ
  pub donor_threads : List ℕ
  pub blocking_lock : Option ℕ

-- `value` is an unsigned int of 32 bits.
pub record Semaphore : Type 0 where
  pub value : ℕ
  pub waiters : List ℕ

-- The structures, the static variables of thread.c and timer.c, and the state of interrupt.c:
-- whether interrupts are on, whether an external interrupt is handled, and whether its handler
-- asked for a yield.
pub record Machine : Type 0 where
  pub threads : ℕ → Thread
  pub semas : ℕ → Semaphore
  pub holders : ℕ → Option ℕ
  pub conditions : ℕ → List ℕ
  pub ready_list : List ℕ
  pub all_list : List ℕ
  pub sleep_list : List ℕ
  pub current : ℕ
  pub idle_thread : Option ℕ
  pub initial_thread : ℕ
  pub next_tid : ℕ
  pub ticks : ℕ
  pub idle_ticks : ℕ
  pub kernel_ticks : ℕ
  pub user_ticks : ℕ
  pub thread_ticks : ℕ
  pub interrupts : Bool
  pub external : Bool
  pub yield_on_return : Bool

abbrev pub put {ℓ} : {A : Type ℓ} → (ℕ → A) → ℕ → A → ℕ → A
put f i a j = if i == j then a else f j

abbrev pub put_thread : ℕ → Thread → Machine → Machine
put_thread t th m = record m { threads = put m.threads t th }

abbrev pub priority : Machine → ℕ → ℕ
priority m t = (m.threads t).priority

abbrev pub status : Machine → ℕ → Status
status m t = (m.threads t).status

-- `t` is a pointer to the same thread as `pointer`, which may be null.
abbrev pub is : Option ℕ → ℕ → Bool
is none t = false
is (some u) t = u == t

abbrev pub intr_disable : Machine → Machine
intr_disable m = record m { interrupts = false }

abbrev pub intr_set_level : Bool → Machine → Machine
intr_set_level level m = record m { interrupts = level }
