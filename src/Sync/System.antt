-- ===== src/Sync/System.antt =====
-- kernel/sync.c: threads that share one lock, interleaved by the scheduler. Between two pieces of
-- code that run with interrupts off another thread may get the processor.
pub mod Moves
pub mod Switch
pub mod Wake
pub mod Safety
use the_one_os.Common.{
  ℕ, zero, suc, ◌+◌, ◌<◌, ◌≡◌, ◌≢◌, ◌⊎◌, Bool, true, false, Option, none, some, List, update, ◌>>=◌,
  word_size,
}
use the_one_os.Thread.{Kernel, thread_yield}
use the_one_os.Sync.{
  Semaphore, Lock, lock_init, Down, waits, takes, sema_down_round, sema_up, Acquire, must_go_down,
  nested, lock_acquire, lock_acquired, lock_release,
}

-- Where a thread stands in its use of the lock.
pub data Pc : Type 0 where
  outside : Pc  -- it does not use the lock
  trying : Pc  -- in the loop of sema_down
  taken : Pc  -- behind sema_down, before it is noted as the holder
  inside : Pc  -- between lock_acquire and lock_release
  leaving : Pc  -- before the sema_up of lock_release

pub record System : Type 0 where
  pub kernel : Kernel
  pub lock : Lock
  pub pc : ℕ → Pc

abbrev pub self : System → ℕ
self s = s.kernel.cur

abbrev pub go : System → Pc → System
go s p = record s { pc = update s.pc (self s) p }

abbrev pub set_sema : System → Semaphore → System
set_sema s sema = record s { lock = record (s.lock) { semaphore = sema } }

unfoldable pub run_acquire : System → System
run_acquire s = elim (lock_acquire (self s) s.lock) [
  | must_go_down ↦ go s trying
  | nested l ↦ record s { lock = l }
]

unfoldable pub run_down : System → Option System
run_down s = do
  d ← sema_down_round s.kernel s.lock.semaphore
  elim d [
    | waits k sema ↦ some (record (set_sema s sema) { kernel = k })
    | takes sema ↦ some (go (set_sema s sema) taken)
  ]

unfoldable pub run_taken : System → Option System
run_taken s = do l ← lock_acquired (self s) s.lock; some (go (record s { lock = l }) inside)

unfoldable pub run_release : System → Option System
run_release s = do
  (up, l) ← lock_release (self s) s.lock
  let s1 : System = record s { lock = l }
  some (elim up [ true ↦ go s1 leaving | false ↦ s1 ])

unfoldable pub run_up : System → Option System
run_up s = do
  (k, sema) ← sema_up s.kernel s.lock.semaphore
  some (record (go (set_sema s sema) outside) { kernel = k })

unfoldable pub run_yield : System → Option System
run_yield s = do k ← thread_yield s.kernel; some (record s { kernel = k })

-- What the current thread does next with the lock, by where it stands.
pub next_move : System → Pc → Option System
next_move s outside = some (run_acquire s)
next_move s trying = run_down s
next_move s taken = run_taken s
next_move s inside = run_release s
next_move s leaving = run_up s

-- One move of the thread that has the processor. The idle thread takes no lock, and a holder does not
-- take the lock 2 ^ 32 times over.
pub data Step (s : System) : System → Type 0 where
  acquire : s.pc (self s) ≡ outside → self s ≢ s.kernel.idle_thread → Step s (run_acquire s)
  reacquire :
      s.pc (self s) ≡ inside → s.lock.holder_repeat_nr + 1 < word_size → Step s (run_acquire s)
  down : {t : System} → s.pc (self s) ≡ trying → run_down s ≡ some t → Step s t
  note : {t : System} → s.pc (self s) ≡ taken → run_taken s ≡ some t → Step s t
  release : {t : System} → s.pc (self s) ≡ inside → run_release s ≡ some t → Step s t
  up : {t : System} → s.pc (self s) ≡ leaving → run_up s ≡ some t → Step s t
  yield : {t : System} → run_yield s ≡ some t → Step s t

pub data Reach (k : Kernel) : System → Type 0 where
  start : Reach k (record { kernel = k; lock = lock_init; pc = λ _. outside })
  later : {s t : System} → Reach k s → Step s t → Reach k t
