-- ===== src/Thread/Block.antt =====
-- thread/thread.c, device/timer.c: blocking, yielding and the timer keep the scheduler's invariant.
use the_one_os.Common.{
  ℕ, ◌+◌, ◌-◌, ◌≡◌, refl, ◌≢◌, true, Option, some, List, [], ◌∷◌, ◌++◌, ◌==◌, if◌then◌else◌, arith,
  ◌>>=◌, ap, ◌∙◌, subst, sym, assert, add32,
}
use the_one_os.Interrupt.{IntrStatus, intr_off, intr_on, intr_disable}
use the_one_os.Thread.{
  TaskStatus, task_running, Kernel, is_running, is_parked, is_empty, set_status, set_task, schedule,
  thread_block, thread_yield, intr_timer_handler,
}
use the_one_os.Thread.Queue.{IsQueued, IsSound}
use the_one_os.Thread.Schedule.{IsHanded, Scheduled, schedule_lem, in_line}

-- The kernel with interrupts off and the current thread in status `s`.
abbrev pub halted : Kernel → TaskStatus → Kernel
halted k s = set_status (record k { intr = intr_off }) k.cur s

halted-IsQueued :
    {k : Kernel} (s : TaskStatus) → IsSound k → is_parked s ≡ true → IsQueued (halted k s)
halted-IsQueued {k} s q parked = record {
  distinct = q.distinct;
  listed = λ t. ground (arith, q.listed t);
  sole = λ t h. ground (arith, q.sole t);
  idle_alive = ground (arith, q.idle_alive);
  idle_there = q.idle_there;
  cur_there = q.cur_there;
  no_null = q.no_null;
}

disable-off : (s : IntrStatus) → (intr_disable s).1 ≡ intr_off
disable-off intr_on = refl
disable-off intr_off = refl

thread_block-eq :
    (k : Kernel) (s : TaskStatus)
    → (k.task k.cur).status ≡ task_running
    → is_parked s ≡ true
    → thread_block k s ≡ schedule (halted k s)
unfolding thread_block
thread_block-eq k s run parked =
    ap (λ b. assert b >>= λ _. (assert (is_running (k.task k.cur).status) >>= λ _. schedule off))
      parked
    ∙ ap (λ st. assert (is_running st) >>= λ _. schedule off) run
    ∙ ap (λ i. schedule (set_status (record k { intr = i }) k.cur s)) (disable-off k.intr)
  where
    off : Kernel
    off = set_status (record k { intr = (intr_disable k.intr).1 }) k.cur s

-- A running thread that blocks hands the processor to the first thread in the ready list, or to the
-- idle thread if there is none; it is left in the status asked for, and out of the ready list.
pub thread_block_lem :
    (k : Kernel) (s : TaskStatus)
    → IsSound k
    → is_parked s ≡ true
    → Scheduled
        (halted k s)
        (thread_block k s)
        (if is_empty k.ready then k.idle_thread ∷ [] else k.ready)
thread_block_lem k s q parked =
    let (k', e, h) = schedule_lem (halted k s) (halted-IsQueued s q parked) refl in
    (k', thread_block-eq k s q.running parked ∙ e, subst (IsHanded (halted k s) k') line h)
  where
    line : in_line (halted k s) ≡ (if is_empty k.ready then k.idle_thread ∷ [] else k.ready)
    line = ground arith

pub block-status :
    (k : Kernel) (s : TaskStatus) (k' : Kernel) (line : List ℕ)
    → is_parked s ≡ true
    → IsHanded (halted k s) k' line
    → k'.cur ≢ k.cur
    → (k'.task k.cur).status ≡ s
block-status k s k' line parked h ne = ground (arith, h.kept k.cur (λ e. ne (sym e)))

-- thread_yield sends the current thread to the end of the ready list.
pub thread_yield_lem :
    (k : Kernel)
    → IsSound k
    → Scheduled (record k { intr = intr_off }) (thread_yield k) (k.ready ++ k.cur ∷ [])
unfolding thread_yield
thread_yield_lem k q =
    let k0 : Kernel = record k { intr = intr_off } in
    let q0 : IsQueued k0 = record {
      distinct = q.distinct;
      listed = q.listed;
      sole = q.sole;
      idle_alive = q.idle_alive;
      idle_there = q.idle_there;
      cur_there = q.cur_there;
      no_null = q.no_null;
    } in
    let (k', e, h) = schedule_lem k0 q0 refl in
    (
      k',
      ap (λ i. schedule (record k { intr = i })) (disable-off k.intr) ∙ e,
      subst (IsHanded k0 k') line h,
    )
  where
    line : in_line (record k { intr = intr_off }) ≡ k.ready ++ k.cur ∷ []
    line = rw (q.running)

-- The kernel after the counters of a tick.
abbrev pub counted : Kernel → Kernel
counted k =
    record (set_task k k.cur
      (record (k.task k.cur) { elapsed_ticks = add32 (k.task k.cur).elapsed_ticks 1 })) {
        ticks = add32 k.ticks 1;
      }

counted-IsQueued : {k : Kernel} → IsSound k → IsQueued (counted k)
counted-IsQueued {k} q = record {
  distinct = q.distinct;
  listed = λ t. ground (arith, q.listed t);
  sole = λ t h. ground (arith, q.sole t);
  idle_alive = ground (arith, q.idle_alive);
  idle_there = q.idle_there;
  cur_there = q.cur_there;
  no_null = q.no_null;
}

ticked : Kernel → Kernel
ticked k = set_task (counted k) (counted k).cur (record ((counted k).task (counted k).cur) {
  ticks = ((counted k).task (counted k).cur).ticks - 1;
})

timer-eq :
    (k : Kernel) (n : ℕ)
    → (k.task k.cur).stack_magic ≡ 20220120
    → (k.task k.cur).ticks ≡ n
    → intr_timer_handler k ≡ (if n == 0 then schedule (counted k) else some (ticked k))
unfolding intr_timer_handler ticked
timer-eq k n magic left =
    ap (λ n. assert (n == 20220120) >>= λ _. rest ((counted k).task (counted k).cur).ticks) magic
    ∙ ap rest now
  where
    rest : ℕ → Option Kernel
    rest n = if n == 0 then schedule (counted k) else some (ticked k)

    now : ((counted k).task (counted k).cur).ticks ≡ n
    now = ground arith

-- At a tick with no time left, the ticks of the machine and those of the current thread are counted up, each
-- by one modulo 2 ^ 32, and the current thread goes to the end of the ready list.
pub timer_expired :
    (k : Kernel)
    → IsSound k
    → k.intr ≡ intr_off
    → (k.task k.cur).stack_magic ≡ 20220120
    → (k.task k.cur).ticks ≡ 0
    → Scheduled (counted k) (intr_timer_handler k) (k.ready ++ k.cur ∷ [])
timer_expired k q off magic zero_left =
    let (k', e, h) = schedule_lem (counted k) (counted-IsQueued q) off in
    (k', timer-eq k 0 magic zero_left ∙ e, subst (IsHanded (counted k) k') line h)
  where
    line : in_line (counted k) ≡ k.ready ++ k.cur ∷ []
    line = ground arith

-- At any other tick it keeps the processor, with one tick less.
pub timer_running :
    (k : Kernel)
    → IsSound k
    → (k.task k.cur).stack_magic ≡ 20220120
    → (k.task k.cur).ticks ≢ 0
    → (k' : Kernel) × (intr_timer_handler k ≡ some k')
      × IsSound k'
      × (k'.cur ≡ k.cur)
      × (k'.ready ≡ k.ready)
      × ((k'.task k.cur).ticks + 1 ≡ (k.task k.cur).ticks)
unfolding ticked
timer_running k q magic some_left = (
  ticked k,
  timer-eq k (k.task k.cur).ticks magic refl ∙ ground arith,
  record {
    queued = record {
      distinct = q.distinct;
      listed = λ t. ground (arith, q.listed t);
      sole = λ t h. ground (arith, q.sole t);
      idle_alive = ground (arith, q.idle_alive);
      idle_there = q.idle_there;
      cur_there = q.cur_there;
      no_null = q.no_null;
    };
    running = ground arith;
  },
  refl,
  refl,
  ground arith,
)
