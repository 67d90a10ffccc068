-- ===== src/Devices/Intq/Ring.antt =====
-- devices/intq.c: the ring as a sequence of bytes.
use implso.Prelude.{
  ℕ, zero, suc, ◌+◌, ◌-◌, ◌%◌, ◌<◌, ◌≡◌, refl, sym, ap, ◌∙◌, ◌≢◌, Bool, true, false, not, ◌||◌,
  List, [], ◌∷◌, ◌++◌, Option, none, some, arith, ◌==◌, if◌then◌else◌,
}
use implso.Prelude.Run
use implso.Prelude.Run.{Run, ok, ◌>>=◌, ◌>>◌, assert, Returns, returns}
use implso.Kernel.Queue.{has}
use implso.Threads.Machine.{Machine, status, is_blocked}
use implso.Threads.Scheduler.Switch.{IsScheduled}
use implso.Threads.Scheduler.Callers.{thread_unblock_lem}
use implso.Devices.Intq.{
  Intq, next, is_empty, is_full, wake_waiter, signal_not_full, signal_not_empty, intq_getc,
  intq_putc,
}

-- The bytes from a position on, round the end of the buffer.
unfoldable pub bytes_from : (ℕ → ℕ) → ℕ → ℕ → List ℕ
bytes_from buf pos zero = []
bytes_from buf pos (suc n) = buf (pos % 64) ∷ bytes_from buf (pos + 1) n

abbrev pub count : Intq → ℕ
count q = (q.head + 64 - q.tail) % 64

-- The abstract view: the bytes in the order in which they were put.
unfoldable pub contents : Intq → List ℕ
contents q = bytes_from q.buf q.tail (count q)

pub record IsIntq (q : Intq) : Type 0 where
  pub head : q.head < 64
  pub tail : q.tail < 64

bytes_from-mod :
    (buf : ℕ → ℕ) (a b n : ℕ) → a % 64 ≡ b % 64 → bytes_from buf a n ≡ bytes_from buf b n
unfolding bytes_from
bytes_from-mod buf a b zero e = refl
bytes_from-mod buf a b (suc n) e = rw (e, bytes_from-mod buf (a + 1) (b + 1) n (omega arith)) refl

bytes_from-snoc :
    (buf : ℕ → ℕ) (pos n : ℕ)
    → bytes_from buf pos (suc n) ≡ bytes_from buf pos n ++ (buf ((pos + n) % 64) ∷ [])
unfolding bytes_from
bytes_from-snoc buf pos zero = let e : pos + 0 ≡ pos = omega arith in rw e refl
bytes_from-snoc buf pos (suc n) =
    let e : pos + 1 + n ≡ pos + suc n = omega arith in
    ap (λ t. buf (pos % 64) ∷ t) (bytes_from-snoc buf (pos + 1) n ∙ rw e refl)

-- A byte written elsewhere does not matter.
bytes_from-put :
    (buf : ℕ → ℕ) (at byte pos n : ℕ)
    → ((i : ℕ) → i < n → at ≢ (pos + i) % 64)
    → bytes_from (λ i. if at == i then byte else buf i) pos n ≡ bytes_from buf pos n
unfolding bytes_from
bytes_from-put buf at byte pos zero away = refl
bytes_from-put buf at byte pos (suc n) away =
    let here : (at == pos % 64) ≡ false = ground (arith, away 0) in
    rw
      (
        here,
        bytes_from-put buf at byte (pos + 1) n
            (λ i lt e. away (i + 1) (omega arith) (omega (arith, e))),
      )
      refl

pub is_empty-contents : (q : Intq) → IsIntq q → is_empty q ≡ false → 0 < count q
unfolding is_empty
is_empty-contents q v e = ground (arith, v.head, v.tail)

-- A waiter is a blocked thread.
abbrev pub MayWake : Option ℕ → Machine → Type 0
MayWake o m = (t : ℕ) → o ≡ some t → ((m.threads t).magic ≡ true) × (is_blocked (status m t) ≡ true)

-- `u` is the waiter.
abbrev pub is_waiter : Option ℕ → ℕ → Bool
is_waiter none u = false
is_waiter (some t) u = t == u

-- The waiter, if there is one, is ready, besides the threads that were ready, and no other is; which
-- thread runs has not changed.
pub record Wakes (o : Option ℕ) (m m' : Machine) : Type 0 where
  pub scheduled : IsScheduled m'
  pub ready : (u : ℕ) → has u m'.ready_list ≡ is_waiter o u || has u m.ready_list
  pub current : m'.current ≡ m.current

wake_waiter_lem :
    (o : Option ℕ) (m : Machine)
    → IsScheduled m
    → MayWake o m
    → Returns (Wakes o m) (wake_waiter o m)
unfolding wake_waiter
wake_waiter_lem none m sch may =
    returns (record { scheduled = sch; ready = λ u. refl; current = refl })
wake_waiter_lem (some t) m sch may =
    Run.mono (thread_unblock_lem m t sch (may t refl).0 (may t refl).1)
      λ m' w. record { scheduled = w.scheduled; ready = w.listed; current = w.current }

-- What a reader gets: the first byte.
pub record GotByte (q : Intq) (m : Machine) (r : Option ℕ × (Intq × Machine)) : Type 0 where
  pub byte : ℕ
  pub result : r.0 ≡ some byte
  pub first : contents q ≡ byte ∷ contents (r.1.0)
  pub valid : IsIntq (r.1.0)
  pub notified : (r.1.0).not_full ≡ none
  pub woken : Wakes q.not_full m (r.1.1)

taken_contents :
    (q : Intq)
    → IsIntq q
    → 0 < count q
    → contents q ≡ q.buf q.tail ∷ contents (record q { tail = next q.tail; not_full = none })
unfolding contents next bytes_from
taken_contents q v more =
    let n = (q.head + 64 - (q.tail + 1) % 64) % 64 in
    let e : count q ≡ suc n = omega (arith, v.head, v.tail) in
    let here : q.tail % 64 ≡ q.tail = omega (arith, v.tail) in
    ap (bytes_from q.buf q.tail) e
    ∙ rw (here, bytes_from-mod q.buf (q.tail + 1) ((q.tail + 1) % 64) n (omega arith)) refl

taken_room : (q : Intq) → IsIntq q → 0 < count q → is_full (record q { tail = next q.tail }) ≡ false
unfolding is_full next
taken_room q v more = ground (arith, v.head, v.tail)

signal_not_full_lem :
    (q : Intq) (m : Machine)
    → is_full q ≡ false
    → IsScheduled m
    → m.interrupts ≡ false
    → MayWake q.not_full m
    → Returns
        (λ r. (r.0 ≡ record q { not_full = none }) × Wakes q.not_full m r.1)
        (signal_not_full q m)
unfolding signal_not_full
signal_not_full_lem q m room sch off may = Run.pass (ap not off) (
    Run.pass (ap not room)
      (Run.bind (wake_waiter_lem q.not_full m sch may) λ m' sch'. returns (refl, sch')))

signal_not_empty_lem :
    (q : Intq) (m : Machine)
    → is_empty q ≡ false
    → IsScheduled m
    → m.interrupts ≡ false
    → MayWake q.not_empty m
    → Returns
        (λ r. (r.0 ≡ record q { not_empty = none }) × Wakes q.not_empty m r.1)
        (signal_not_empty q m)
unfolding signal_not_empty
signal_not_empty_lem q m filled sch off may = Run.pass (ap not off) (
    Run.pass (ap not filled)
      (Run.bind (wake_waiter_lem q.not_empty m sch may) λ m' sch'. returns (refl, sch')))

taken_valid : (q : Intq) → IsIntq q → IsIntq (record q { tail = next q.tail; not_full = none })
unfolding next
taken_valid q v = record { head = v.head; tail = omega arith }

-- A pass of intq_getc with interrupts off on a queue that is not empty does not panic, where a
-- writer that waits is blocked: it takes the byte that was put first and leaves the others in
-- order. A writer that waited is ready afterwards and waits no longer; no other thread becomes
-- ready, and the same thread runs.
pub intq_getc_lem :
    (q : Intq) (m : Machine)
    → IsIntq q
    → is_empty q ≡ false
    → IsScheduled m
    → m.interrupts ≡ false
    → MayWake q.not_full m
    → Returns (GotByte q m) (intq_getc q m)
unfolding intq_getc
intq_getc_lem q m v filled sch off may =
    let more = is_empty-contents q v filled in
    Run.pass (ap not off) (
      rw filled (
        Run.bind
          (signal_not_full_lem (record q { tail = next q.tail }) m (taken_room q v more) sch off
            may)
          λ r p. returns (record {
            byte = q.buf q.tail;
            result = refl;
            first = taken_contents q v more ∙ ap (λ x. q.buf q.tail ∷ contents x) (sym p.0);
            valid = rw (p.0) (taken_valid q v);
            notified = ap (λ x. x.not_full) (p.0);
            woken = p.1;
          })))

-- What a writer leaves.
pub record PutByte (byte : ℕ) (q : Intq) (m : Machine) (r : Bool × (Intq × Machine)) : Type 0 where
  pub result : r.0 ≡ true
  pub last : contents (r.1.0) ≡ contents q ++ (byte ∷ [])
  pub valid : IsIntq (r.1.0)
  pub notified : (r.1.0).not_empty ≡ none
  pub woken : Wakes q.not_empty m (r.1.1)

-- The queue with the byte at its head.
abbrev extended : ℕ → Intq → Intq
extended byte q = record q { buf = λ i. if q.head == i then byte else q.buf i; head = next q.head }

put_contents :
    (byte : ℕ) (q : Intq)
    → IsIntq q
    → is_full q ≡ false
    → contents (record (extended byte q) { not_empty = none }) ≡ contents q ++ (byte ∷ [])
unfolding contents next is_full
put_contents byte q v room =
    let buf' : ℕ → ℕ = λ i. if q.head == i then byte else q.buf i in
    let n = count q in
    let e : ((q.head + 1) % 64 + 64 - q.tail) % 64 ≡ suc n = ground (arith, v.head, v.tail) in
    let last : buf' ((q.tail + n) % 64) ≡ byte =
      let at : (q.tail + n) % 64 ≡ q.head = omega (arith, v.head, v.tail) in ground arith in
    ap (bytes_from buf' q.tail) e
    ∙ (bytes_from-snoc buf' q.tail n
        ∙ rw
            (
              last,
              bytes_from-put q.buf q.head byte q.tail n
                  (λ i lt h. omega (arith, h, v.head, v.tail)),
            )
            refl)

put_valid :
    (byte : ℕ) (q : Intq) → IsIntq q → IsIntq (record (extended byte q) { not_empty = none })
unfolding next
put_valid byte q v = record { head = omega arith; tail = v.tail }

put_filled :
    (byte : ℕ) (q : Intq) → IsIntq q → is_full q ≡ false → is_empty (extended byte q) ≡ false
unfolding is_full is_empty
put_filled byte q v room = room

-- A pass of intq_putc with interrupts off on a queue that is not full does not panic, where a
-- reader that waits is blocked: it puts the byte behind the others. A reader that waited is ready
-- afterwards and waits no longer; no other thread becomes ready, and the same thread runs.
pub intq_putc_lem :
    (byte : ℕ) (q : Intq) (m : Machine)
    → IsIntq q
    → is_full q ≡ false
    → IsScheduled m
    → m.interrupts ≡ false
    → MayWake q.not_empty m
    → Returns (PutByte byte q m) (intq_putc byte q m)
unfolding intq_putc
intq_putc_lem byte q m v room sch off may = Run.pass (ap not off) (
    rw room (
      Run.bind (signal_not_empty_lem (extended byte q) m (put_filled byte q v room) sch off may)
        λ r p. returns (record {
          result = refl;
          last = ap contents (p.0) ∙ put_contents byte q v room;
          valid = rw (p.0) (put_valid byte q v);
          notified = ap (λ x. x.not_empty) (p.0);
          woken = p.1;
        })))
