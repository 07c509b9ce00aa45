-- ===== src/Tests/Threads.antt =====
-- thread/thread.c, device/timer.c: three threads and the idle thread.
use the_one_os.Common.{ℕ, ◌+◌, ◌≡◌, refl, some, [], ◌∷◌, arith, ◌==◌, if◌then◌else◌}
use the_one_os.Interrupt.{intr_off}
use the_one_os.Thread.{
  TaskStatus, task_running, task_ready, task_blocked, Task, Kernel, schedule, thread_unblock,
  thread_block, thread_yield, intr_timer_handler,
}
use the_one_os.Thread.Queue.{IsQueued, IsSound, unblocked, thread_unblock_lem}
use the_one_os.Thread.Schedule.{Scheduled, schedule_lem}
use the_one_os.Thread.Block.{
  halted, thread_block_lem, thread_yield_lem, counted, timer_expired, timer_running,
}
use the_one_os.Thread.Fair.{yields, yields-fair}

abbrev task : TaskStatus → ℕ → ℕ → Task
task status ticks pgdir = record {
  status = status;
  priority = 5;
  ticks = ticks;
  elapsed_ticks = 0;
  pgdir = pgdir;
  stack_magic = 20220120;
}

-- The thread at 0x1000 is running with `ticks` left, those at 0x2000 and 0x3000 are ready.
abbrev pub kernel : ℕ → Kernel
kernel ticks = record {
  cur = 0x1000;
  task = λ t.
      if t == 0x1000
      then task task_running ticks 0
      else if t == 0x2000
      then task task_ready 5 0xc0200000
      else if t == 0x3000
      then task task_ready 5 0
      else task task_blocked 5 0;
  ready = 0x2000 ∷ 0x3000 ∷ [];
  idle_thread = 0x4000;
  intr = intr_off;
  ticks = 7;
  cr3 = 0x100000;
  tss_esp0 = 0;
  v2p = λ a. a;
}

pub kernel-IsSound : (ticks : ℕ) → IsSound (kernel ticks)
kernel-IsSound ticks = record {
  queued = record {
    distinct = (refl, (refl, tt));
    listed = λ t. ground arith;
    sole = λ t h. ground arith;
    idle_alive = λ e. cc;
    idle_there = λ e. omega arith;
    cur_there = λ e. omega arith;
    no_null = refl;
  };
  running = refl;
}

schedule_example : Scheduled (kernel 3) (schedule (kernel 3)) (0x2000 ∷ 0x3000 ∷ 0x1000 ∷ [])
schedule_example = schedule_lem (kernel 3) (kernel-IsSound 3).queued refl

thread_block_example :
    Scheduled
      (halted (kernel 3) task_blocked)
      (thread_block (kernel 3) task_blocked)
      (0x2000 ∷ 0x3000 ∷ [])
thread_block_example = thread_block_lem (kernel 3) task_blocked (kernel-IsSound 3) refl

thread_yield_example :
    Scheduled
      (record (kernel 3) { intr = intr_off })
      (thread_yield (kernel 3))
      (0x2000 ∷ 0x3000 ∷ 0x1000 ∷ [])
thread_yield_example = thread_yield_lem (kernel 3) (kernel-IsSound 3)

yields-fair_example :
    (k' : Kernel) × (yields 2 (kernel 3) ≡ some k') × IsSound k' × (k'.cur ≡ 0x3000)
yields-fair_example = yields-fair (kernel 3) (0x2000 ∷ []) 0x3000 [] (kernel-IsSound 3) refl

timer_expired_example :
    Scheduled (counted (kernel 0)) (intr_timer_handler (kernel 0)) (0x2000 ∷ 0x3000 ∷ 0x1000 ∷ [])
timer_expired_example = timer_expired (kernel 0) (kernel-IsSound 0) refl refl refl

timer_running_example :
    (k' : Kernel) × (intr_timer_handler (kernel 3) ≡ some k')
    × IsSound k'
    × (k'.cur ≡ 0x1000)
    × (k'.ready ≡ 0x2000 ∷ 0x3000 ∷ [])
    × ((k'.task 0x1000).ticks + 1 ≡ 3)
timer_running_example = timer_running (kernel 3) (kernel-IsSound 3) refl (λ e. cc)

thread_unblock_example :
    (thread_unblock (kernel 3) 0x5000 ≡ some (unblocked (kernel 3) 0x5000))
    × IsQueued (unblocked (kernel 3) 0x5000)
thread_unblock_example =
    thread_unblock_lem (kernel 3) 0x5000 (kernel-IsSound 3).queued refl (λ e. cc)
