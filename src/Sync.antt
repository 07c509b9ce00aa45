-- ===== src/Sync.antt =====
-- kernel/sync.c: semaphores and locks, over the scheduler. The waiting list is a list of threads.
pub mod System
pub mod Invariant
use the_one_os.Common.{
  ℕ, zero, suc, ◌+◌, ◌-◌, ◌%◌, Bool, true, false, not, Option, none, some, List, [], ◌∷◌, ◌++◌,
  ◌==◌, ltb, if◌then◌else◌, ◌>>=◌, ◌>>◌, assert, add32, sub32,
}
use the_one_os.Interrupt.{intr_off, intr_disable, intr_set_status}
use the_one_os.Thread.{Kernel, task_blocked, thread_block, thread_unblock, is_empty, pop_front}

-- `value` is a uint8_t.
pub record Semaphore : Type 0 where
  pub value : ℕ
  pub waiters : List ℕ

-- `holder` is 0 when no thread holds the lock.
pub record Lock : Type 0 where
  pub holder : ℕ
  pub semaphore : Semaphore
  pub holder_repeat_nr : ℕ

abbrev pub sema_init : ℕ → Semaphore
sema_init value = record { value = value; waiters = [] }

abbrev pub lock_init : Lock
lock_init = record { holder = 0; semaphore = sema_init 1; holder_repeat_nr = 0 }

-- A round of the loop of sema_down, which runs with interrupts off: with the value at 0 the thread
-- queues up and blocks, and it comes back to the loop when it is scheduled; else it takes one.
pub data Down : Type 0 where
  waits : Kernel → Semaphore → Down
  takes : Semaphore → Down

unfoldable pub sema_down_round : Kernel → Semaphore → Option Down
sema_down_round k sema =
    if sema.value == 0
    then (do
      let (old_intr_status, off) = intr_disable k.intr
      let queued : Semaphore = record sema { waiters = sema.waiters ++ k.cur ∷ [] }
      k' ← thread_block (record k { intr = off }) task_blocked
      some (waits k' queued))
    else some (takes (record sema { value = sema.value - 1 }))

unfoldable pub sema_up : Kernel → Semaphore → Option (Kernel × Semaphore)
sema_up k sema = do
  let (old_status, off) = intr_disable k.intr
  assert (sema.value == 0)
  let value = (sema.value + 1) % 256
  (if is_empty sema.waiters then some (k, record sema { value = value }) else (do
    (thread_blocked, rest) ← pop_front sema.waiters
    k' ← thread_unblock (record k { intr = off }) thread_blocked
    some (
      record k' { intr = (intr_set_status old_status off).1 },
      record { value = value; waiters = rest },
    )))

-- lock_acquire: whether sema_down is to be called, and the lock if it is not.
pub data Acquire : Type 0 where
  must_go_down : Acquire
  nested : Lock → Acquire

unfoldable pub lock_acquire : ℕ → Lock → Acquire
lock_acquire self lock =
    if lock.holder == self
    then nested (record lock { holder_repeat_nr = add32 lock.holder_repeat_nr 1 })
    else must_go_down

-- lock_acquire, behind sema_down.
unfoldable pub lock_acquired : ℕ → Lock → Option Lock
lock_acquired self lock = do
  let held : Lock = record lock { holder = self }
  assert (held.holder_repeat_nr == 0)
  some (record held { holder_repeat_nr = 1 })

-- lock_release, up to its call of sema_up: whether that call is made, and the lock.
unfoldable pub lock_release : ℕ → Lock → Option (Bool × Lock)
lock_release self lock = do
  assert (lock.holder == self)
  let fewer : Lock = record lock { holder_repeat_nr = sub32 lock.holder_repeat_nr 1 }
  some
      (if ltb 0 fewer.holder_repeat_nr then (false, fewer) else (true, record fewer { holder = 0 }))
