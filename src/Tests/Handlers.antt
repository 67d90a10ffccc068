-- ===== src/Tests/Handlers.antt =====
-- devices/timer.c and devices/intq.c at a timer interrupt and at an exchange of bytes.
use implso.Prelude.{ℕ, ◌≡◌, refl, true, false, [], ◌∷◌, none, some, arith, ◌==◌, if◌then◌else◌}
use implso.Prelude.Run.{panic, Returns}
use implso.Threads.Machine.{Machine}
use implso.Threads.Scheduler.{thread_tick}
use implso.Threads.Scheduler.Switch.{IsScheduled}
use implso.Threads.Synch.Locks.{IsScheduled-agree}
use implso.Kernel.Queue.{has}
use implso.Threads.Synch.{signal_begin}
use implso.Threads.Synch.Conditions.{IsEntered, Signalled, signal_begin_lem, signal_begin_panics}
use implso.Threads.Timer.{timer_interrupt}
use implso.Threads.Timer.Sleepers.{nobody, sleeper}
use implso.Threads.Timer.Ticks.{Ticked, thread_tick_lem, Interrupted, timer_interrupt_lem}
use implso.Devices.Intq.{Intq, is_empty, is_full, next, intq_getc, intq_putc}
use implso.Devices.Intq.Ring.{GotByte, PutByte, intq_getc_lem, intq_putc_lem}
use implso.Tests.Kernels.{machine, machine-IsScheduled}

-- Thread 3 sleeps until the tick 0, which has come.
abbrev night : Machine
night = record machine { sleep_list = 3 ∷ []; external = true }

night-IsScheduled : IsScheduled night
night-IsScheduled =
    IsScheduled-agree machine night
      (record {
        priorities = λ t. refl;
        statuses = λ t. refl;
        magics = λ t. refl;
        ready_list = refl;
        idle_thread = refl;
        current = refl;
      })
      machine-IsScheduled

thread_tick_lem_example : Returns (Ticked night) (thread_tick night)
thread_tick_lem_example = thread_tick_lem night night-IsScheduled refl

timer_interrupt_lem_example : Returns (Interrupted night) (timer_interrupt night)
timer_interrupt_lem_example =
    timer_interrupt_lem night night-IsScheduled refl
      (sleeper 3 [] refl refl (λ u h. ground arith) nobody)

-- Two bytes round the end of the buffer; thread 3 waits for a byte.
abbrev ring : Intq
ring = record {
  lock = 9;
  not_full = none;
  not_empty = some 3;
  buf = λ i. if i == 63 then 7 else 8;
  head = 1;
  tail = 63;
}

ring_room : is_full ring ≡ false
unfolding is_full next
ring_room = refl

-- A full buffer; thread 3 waits for room.
abbrev full_ring : Intq
full_ring = record ring { not_full = some 3; not_empty = none; tail = 2 }

full_ring_filled : is_empty full_ring ≡ false
unfolding is_empty
full_ring_filled = refl

intq_getc_lem_example : Returns (GotByte full_ring machine) (intq_getc full_ring machine)
intq_getc_lem_example =
    intq_getc_lem full_ring machine (record { head = omega arith; tail = omega arith })
      full_ring_filled machine-IsScheduled refl
      (λ t e. let here : t ≡ 3 = ground arith in rw here (refl, refl))

intq_putc_lem_example : Returns (PutByte 5 ring machine) (intq_putc 5 ring machine)
intq_putc_lem_example =
    intq_putc_lem 5 ring machine (record { head = omega arith; tail = omega arith }) ring_room
      machine-IsScheduled refl (λ t e. let here : t ≡ 3 = ground arith in rw here (refl, refl))

-- The condition 0 has been entered by thread 3, which sleeps on the semaphore 5.
abbrev waiting : Machine
waiting = record machine { conditions = λ c. 5 ∷ [] }

waiting-IsScheduled : IsScheduled waiting
waiting-IsScheduled =
    IsScheduled-agree machine waiting
      (record {
        priorities = λ t. refl;
        statuses = λ t. refl;
        magics = λ t. refl;
        ready_list = refl;
        idle_thread = refl;
        current = refl;
      })
      machine-IsScheduled

waiting-IsEntered : (w : ℕ) → has w (waiting.conditions 0) ≡ true → IsEntered waiting w
waiting-IsEntered w h = let e : w ≡ 5 = ground arith in rw e (3, refl, refl, refl)

signal_begin_lem_example : Returns (Signalled 0 waiting) (signal_begin 0 5 waiting)
signal_begin_lem_example =
    signal_begin_lem 0 5 waiting waiting-IsScheduled refl refl waiting-IsEntered

-- Two threads have entered the condition, and the first does not sleep yet.
abbrev hasty : Machine
hasty = record machine { conditions = λ c. 8 ∷ 5 ∷ [] }

hasty-IsScheduled : IsScheduled hasty
hasty-IsScheduled =
    IsScheduled-agree machine hasty
      (record {
        priorities = λ t. refl;
        statuses = λ t. refl;
        magics = λ t. refl;
        ready_list = refl;
        idle_thread = refl;
        current = refl;
      })
      machine-IsScheduled

signal_begin_panics_example : signal_begin 0 5 hasty ≡ panic
signal_begin_panics_example =
    signal_begin_panics 0 5 8 5 [] hasty hasty-IsScheduled refl refl refl refl
