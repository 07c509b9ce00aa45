-- ===== src/Ioqueue.antt =====
-- device/ioqueue.c: the ring of characters behind the keyboard, with a consumer that waits on it.
pub mod Contents
pub mod Refine
pub mod Keyboard
use the_one_os.Common.{
  ℕ, ◌+◌, ◌-◌, ◌%◌, Bool, true, false, not, Option, none, some, List, ◌==◌, ltb, if◌then◌else◌,
  get_or, set, ◌>>=◌, ◌>>◌, assert, sub32,
}
use the_one_os.Interrupt.{intr_off}
use the_one_os.Thread.{Kernel, task_blocked, thread_block, thread_unblock, is_off}
use the_one_os.Sync.{Lock, lock_init, lock_release}

abbrev pub bufsize : ℕ
bufsize = 2048

-- `consumer` and `producer` are 0 when no thread waits.
pub record Ioqueue : Type 0 where
  pub lock : Lock
  pub producer : ℕ
  pub consumer : ℕ
  pub buf : List ℕ
  pub head : ℕ
  pub tail : ℕ

-- The buffer keeps what it held.
pub ioqueue_init : Ioqueue → Ioqueue
ioqueue_init ioq = record ioq { lock = lock_init; producer = 0; consumer = 0; head = 0; tail = 0 }

-- The state when another thread has the processor.
pub ioq_wait : Kernel → ℕ → Option (Kernel × ℕ)
ioq_wait k waiter = do
  assert (waiter == 0)
  let waiter = k.cur
  k' ← thread_block k task_blocked
  some (k', waiter)

abbrev pub next_pos : ℕ → ℕ
next_pos pos = (pos + 1) % bufsize

pub ioq_full : Ioqueue → Bool
ioq_full ioq = next_pos ioq.head == ioq.tail

pub ioq_empty : Ioqueue → Bool
ioq_empty ioq = ioq.head == ioq.tail

pub wakeup : Kernel → ℕ → Option (Kernel × ℕ)
wakeup k waiter = do assert (not (waiter == 0)); k' ← thread_unblock k waiter; some (k', 0)

-- The end of ioq_getchar: the character at the tail.
pub take_char : Ioqueue → ℕ × Ioqueue
take_char ioq = (get_or ioq.buf ioq.tail 0, record ioq { tail = next_pos ioq.tail })

-- ioq_getchar, up to the point where it would block: with characters in the queue it returns one; else
-- it is to take the lock, wait, release the lock, and take a character then.
pub data Getchar : Type 0 where
  must_wait : Getchar
  gets : ℕ → Ioqueue → Getchar

pub ioq_getchar : Kernel → Ioqueue → Option Getchar
unfolding take_char
ioq_getchar k ioq = do
  assert (is_off k.intr)
  some (if ioq_empty ioq then must_wait else (let (byte, ioq') = take_char ioq in gets byte ioq'))

-- Its wait, with the lock held.
pub getchar_wait : Kernel → Ioqueue → Option (Kernel × Ioqueue)
unfolding ioq_wait
getchar_wait k ioq = do
  (k', consumer) ← ioq_wait k ioq.consumer
  some (k', record ioq { consumer = consumer })

-- Its end, when the consumer `self` is scheduled again: whether lock_release is to call sema_up, and
-- the character.
pub getchar_resume : ℕ → Ioqueue → Option (Bool × ℕ × Ioqueue)
getchar_resume self ioq = do
  (up, l) ← lock_release self ioq.lock
  let (byte, ioq') = take_char (record ioq { lock = l })
  some (up, byte, ioq')

-- A character is dropped when the queue is full.
pub ioq_putchar : Kernel → Ioqueue → ℕ → Option (Kernel × Ioqueue)
ioq_putchar k ioq byte = do
  assert (is_off k.intr)
  let ioq' : Ioqueue = record ioq { buf = set ioq.buf ioq.head byte; head = next_pos ioq.head }
  (if ioq_full ioq then some (k, ioq) else if ioq'.consumer == 0 then some (k, ioq') else (do
    (k', consumer) ← wakeup k ioq'.consumer
    some (k', record ioq' { consumer = consumer })))

-- head - tail is an int32_t, which is negative when head is below tail; bufsize - len is taken then.
pub ioq_length : Ioqueue → ℕ
ioq_length ioq =
    if ltb ioq.tail ioq.head then ioq.head - ioq.tail else bufsize + (ioq.tail - ioq.head)
