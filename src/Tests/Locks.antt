-- ===== src/Tests/Locks.antt =====
-- kernel/sync.c: a thread takes the lock, is preempted, and a second one has to wait for it.
use the_one_os.Common.{◌∷◌, ℕ, ◌≡◌, refl, ◌≢◌, ◌⊎◌, false, Option, none, some, [], has, arith, true}
use the_one_os.Thread.{
  thread_block, thread_yield, schedule, requeue, thread_unblock, dispatch, process_activate,
  page_dir_activate,
}
use the_one_os.Sync.{sema_down_round, lock_acquire, lock_acquired, lock_init}
use the_one_os.Sync.System.{
  outside, trying, inside, System, self, acquire, down, note, yield, Reach, start, later,
  run_acquire, run_down, run_taken, run_yield, next_move,
}
use the_one_os.Sync.System.Safety.{mutual_exclusion, never_panics, no_lost_wakeup}
use the_one_os.Tests.Threads.{kernel, kernel-IsSound}

abbrev the : Option System → System
the none = record { kernel = kernel 3; lock = lock_init; pc = λ _. outside }
the (some s) = s

abbrev s0 : System
s0 = record { kernel = kernel 3; lock = lock_init; pc = λ _. outside }

abbrev s1 : System
s1 = run_acquire s0

abbrev s2 : System
s2 = the (run_down s1)

abbrev s3 : System
s3 = the (run_taken s2)

abbrev s4 : System
s4 = the (run_yield s3)

abbrev s5 : System
s5 = run_acquire s4

-- The second thread is on the waiting list now, and the third one has the processor.
abbrev s6 : System
s6 = the (run_down s5)

reach : Reach (kernel 3) s6
unfolding run_acquire run_down run_taken run_yield sema_down_round lock_acquire lock_acquired
    thread_block thread_yield schedule requeue thread_unblock dispatch process_activate
    page_dir_activate
reach =
    later
      (later
        (later
          (later (later (later start (acquire refl (λ e. omega arith))) (down refl refl))
            (note refl refl))
          (yield refl))
        (acquire refl (λ e. omega arith)))
      (down refl refl)

holds : s6.pc 0x1000 ≡ inside
unfolding run_acquire run_down run_taken run_yield sema_down_round lock_acquire lock_acquired
    thread_block thread_yield schedule requeue thread_unblock dispatch process_activate
    page_dir_activate
holds = refl

mutual_exclusion_example : (◌≡◌ {A = ℕ} 0x1000 0x1000) × (s6.lock.holder ≡ 0x1000)
mutual_exclusion_example = mutual_exclusion (kernel-IsSound 3) reach 0x1000 0x1000 holds holds

never_panics_example : (next_move s6 (s6.pc (self s6)) ≢ none) × (run_yield s6 ≢ none)
never_panics_example = never_panics (kernel-IsSound 3) reach

no_lost_wakeup_example :
    (s6.lock.semaphore.value ≡ 0)
    ⊎ (s6.lock.semaphore.waiters ≡ [])
    ⊎ ((t : ℕ) × (s6.pc t ≡ trying)
        × (has t s6.lock.semaphore.waiters ≡ false)
        × (has t (s6.kernel.cur ∷ s6.kernel.ready) ≡ true))
no_lost_wakeup_example = no_lost_wakeup (kernel-IsSound 3) reach
