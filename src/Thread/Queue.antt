-- ===== src/Thread/Queue.antt =====
-- thread/thread.c: the invariant of the scheduler, and what thread_unblock does.
use the_one_os.Common.{ℕ, ◌≡◌, ◌≢◌, true, false, some, has, arith}
use the_one_os.DList.Chain.{IsDistinct}
use the_one_os.Thread.{
  task_running, task_ready, task_died, Kernel, is_running, is_ready, is_parked, set_status,
  queue_push, thread_unblock,
}

-- Between two calls: the ready list holds each thread that is ready, once, and no other; no thread
-- but the current one is running; the idle thread is alive.
pub record IsQueued (k : Kernel) : Type 0 where
  pub distinct : IsDistinct k.ready
  pub listed : (t : ℕ) → has t k.ready ≡ is_ready (k.task t).status
  pub sole : (t : ℕ) → is_running (k.task t).status ≡ true → t ≡ k.cur
  pub idle_alive : (k.task k.idle_thread).status ≢ task_died
  pub idle_there : k.idle_thread ≢ 0
  pub cur_there : k.cur ≢ 0
  pub no_null : has 0 k.ready ≡ false

-- The same, with the current thread running.
pub record IsSound (k : Kernel) : Type 0 where
  pub queued : IsQueued k
  pub open queued use *
  pub running : (k.task k.cur).status ≡ task_running

abbrev pub unblocked : Kernel → ℕ → Kernel
unblocked k p = set_status (queue_push k p) p task_ready

module _ {k : Kernel} (p : ℕ) (q : IsQueued k) (parked : is_parked (k.task p).status ≡ true) where
  -- A parked thread is unblocked without a failed assertion: it is ready, and first in the list.
  pub unblock_lem : thread_unblock k p ≡ some (unblocked k p)
  unfolding thread_unblock
  unblock_lem = ground (arith, q.listed p)

  pub unblocked-IsQueued : p ≢ 0 → IsQueued (unblocked k p)
  unblocked-IsQueued there = record {
    distinct = (ground (arith, q.listed p), q.distinct);
    listed = λ t. ground (arith, q.listed t);
    sole = λ t h. ground (arith, q.sole t);
    idle_alive = ground (arith, q.idle_alive);
    idle_there = q.idle_there;
    cur_there = q.cur_there;
    no_null = ground (arith, q.no_null);
  }

  -- With interrupts as they were, no other thread changes.
  pub unblocked-running : (k.task k.cur).status ≡ task_running → p ≢ 0 → IsSound (unblocked k p)
  unblocked-running h there = record { queued = unblocked-IsQueued there; running = ground arith }

-- A parked thread is unblocked without a failed assertion: it is ready and first in line, no other
-- thread changes, and the scheduler's invariant is kept.
pub thread_unblock_lem :
    (k : Kernel) (p : ℕ)
    → IsQueued k
    → is_parked (k.task p).status ≡ true
    → p ≢ 0
    → (thread_unblock k p ≡ some (unblocked k p)) × IsQueued (unblocked k p)
thread_unblock_lem k p q parked there =
    (unblock_lem p q parked, unblocked-IsQueued p q parked there)
