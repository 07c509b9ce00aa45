-- ===== src/Sync/Invariant.antt =====
-- kernel/sync.c: the invariant of threads that share one lock.
use the_one_os.Common.{
  ℕ, ◌<◌, ◌≤◌, ◌≡◌, refl, ◌≢◌, Bool, true, false, List, [], ◌∷◌, has, arith, word_size,
}
use the_one_os.DList.Chain.{IsDistinct}
use the_one_os.Thread.{Kernel, task_blocked}
use the_one_os.Thread.Queue.{IsSound}
use the_one_os.Sync.{Lock, lock_init}
use the_one_os.Sync.System.{Pc, outside, trying, taken, inside, leaving, System}

-- Between the end of sema_down and the sema_up of lock_release.
abbrev pub is_critical : Pc → Bool
is_critical outside = false
is_critical trying = false
is_critical taken = true
is_critical inside = true
is_critical leaving = true

-- The semaphore counts the threads that are critical, at most one.
pub record IsExclusive (value : ℕ) (pc : ℕ → Pc) : Type 0 where
  pub value_le : value ≤ 1
  pub full : (t : ℕ) → is_critical (pc t) ≡ true → value ≡ 0
  pub unique : (t u : ℕ) → is_critical (pc t) ≡ true → is_critical (pc u) ≡ true → t ≡ u

-- The lock names the thread that is inside, and counts its calls.
pub record IsNoted (l : Lock) (pc : ℕ → Pc) : Type 0 where
  pub holder_in : l.holder ≢ 0 → pc l.holder ≡ inside
  pub in_holder : (t : ℕ) → pc t ≡ inside → l.holder ≡ t
  pub free_count : l.holder ≡ 0 → l.holder_repeat_nr ≡ 0
  pub held_count : l.holder ≢ 0 → (0 < l.holder_repeat_nr) × (l.holder_repeat_nr < word_size)

-- The waiting list holds threads that are blocked in sema_down.
pub record IsWaiting (k : Kernel) (waiters : List ℕ) (pc : ℕ → Pc) : Type 0 where
  pub distinct : IsDistinct waiters
  pub blocked : (t : ℕ) → has t waiters ≡ true → (k.task t).status ≡ task_blocked
  pub in_loop : (t : ℕ) → has t waiters ≡ true → pc t ≡ trying
  pub there : has 0 waiters ≡ false

-- No wake-up is lost: while the semaphore is free and a thread waits on it, another one is in the loop, and
-- that one is running or ready.
abbrev pub Awake : Kernel → ℕ → List ℕ → (ℕ → Pc) → Type 0
Awake k value waiters pc =
    value ≢ 0
    → waiters ≢ []
    → (t : ℕ) × (pc t ≡ trying) × (has t waiters ≡ false) × (has t (k.cur ∷ k.ready) ≡ true)

pub record IsSafe (s : System) : Type 0 where
  pub sound : IsSound s.kernel
  pub exclusive : IsExclusive s.lock.semaphore.value s.pc
  pub noted : IsNoted s.lock s.pc
  pub waiting : IsWaiting s.kernel s.lock.semaphore.waiters s.pc
  pub awake : Awake s.kernel s.lock.semaphore.value s.lock.semaphore.waiters s.pc
  pub idle_out : s.pc s.kernel.idle_thread ≡ outside

pub start-IsSafe :
    {k : Kernel} → IsSound k → IsSafe (record { kernel = k; lock = lock_init; pc = λ _. outside })
start-IsSafe q = record {
  sound = q;
  exclusive = record { value_le = omega arith; full = λ t h. cc; unique = λ t u h h'. cc };
  noted = record {
    holder_in = λ h. absurd (h refl);
    in_holder = λ t h. cc;
    free_count = λ h. refl;
    held_count = λ h. absurd (h refl);
  };
  waiting = record { distinct = tt; blocked = λ t h. cc; in_loop = λ t h. cc; there = refl };
  awake = λ h h'. absurd (h' refl);
  idle_out = refl;
}
