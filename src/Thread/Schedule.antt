-- ===== src/Thread/Schedule.antt =====
-- thread/thread.c: schedule hands the processor to the first thread in line.
use the_one_os.Common.{
  ℕ, ◌≡◌, refl, ◌≢◌, true, false, ◌&&◌, Option, some, List, [], ◌∷◌, ◌++◌, ◌==◌, if◌then◌else◌, has,
  arith, ◌>>=◌, Bool-cases, inl, inr, add32, ap, ◌∙◌, subst, assert,
}
use the_one_os.Interrupt.{intr_off}
use the_one_os.DList.Chain.{IsDistinct, has-append}
use the_one_os.Thread.{
  TaskStatus, task_running, task_ready, Kernel, is_running, is_parked, set_status, queue_append,
  set_task, thread_unblock, requeue, dispatch, schedule, is_empty, is_off,
}
use the_one_os.Thread.Queue.{IsQueued, IsSound, unblocked, unblock_lem, unblocked-IsQueued}

pub snoc-IsDistinct :
    (xs : List ℕ) (e : ℕ) → IsDistinct xs → has e xs ≡ false → IsDistinct (xs ++ e ∷ [])
snoc-IsDistinct [] e d out = ground arith
snoc-IsDistinct (x ∷ xs) e d out =
    (ground (arith, has-append x xs (e ∷ [])), snoc-IsDistinct xs e d.1 (ground arith))

-- No thread is running: the processor is to be handed on.
record IsReleased (k : Kernel) : Type 0 where
  queued : IsQueued k
  open queued use *
  idle_now : (t : ℕ) → is_running (k.task t).status ≡ false

requeued : Kernel → Kernel
requeued k =
    set_task (queue_append k k.cur) k.cur
      (record (k.task k.cur) { status = task_ready; ticks = (k.task k.cur).priority })

-- The threads in line when schedule is called, the next one first.
abbrev pub in_line : Kernel → List ℕ
in_line k =
    if is_running (k.task k.cur).status
    then k.ready ++ k.cur ∷ []
    else if is_empty k.ready
    then k.idle_thread ∷ []
    else k.ready

-- What process_activate has set for the thread `t`.
pub record IsActive (k : Kernel) (t : ℕ) : Type 0 where
  pub space : k.cr3 ≡ (if (k.task t).pgdir == 0 then 0x100000 else k.v2p (k.task t).pgdir)
  pub stack : (k.task t).pgdir ≢ 0 → k.tss_esp0 ≡ add32 t 4096

module _ {k : Kernel} (q : IsQueued k) where
  module _ (run : is_running (k.task k.cur).status ≡ true) where
    requeue-run : requeue k ≡ some (requeued k)
    unfolding requeue requeued
    requeue-run = ground (arith, q.listed k.cur)

    requeued-IsReleased : IsReleased (requeued k)
    unfolding requeued
    requeued-IsReleased = record {
      queued = record {
        distinct = snoc-IsDistinct k.ready k.cur q.distinct (ground (arith, q.listed k.cur));
        listed = λ t. ground (arith, q.listed t, has-append t k.ready (k.cur ∷ []));
        sole = λ t h. ground (arith, q.sole t);
        idle_alive = ground (arith, q.idle_alive);
        idle_there = q.idle_there;
        cur_there = q.cur_there;
        no_null = ground (arith, q.no_null, q.cur_there, has-append 0 k.ready (k.cur ∷ []));
      };
      idle_now = λ t. ground (arith, q.sole t);
    }

  requeue-park : is_running (k.task k.cur).status ≡ false → requeue k ≡ some k
  unfolding requeue
  requeue-park h = rw h

  park-IsReleased : is_running (k.task k.cur).status ≡ false → IsReleased k
  park-IsReleased h = record { queued = q; idle_now = λ t. ground (arith, q.sole t) }

dispatched : Kernel → ℕ → List ℕ → Kernel
dispatched k t ts = record (set_status k t task_running) {
  ready = ts;
  cr3 = if (k.task t).pgdir == 0 then 0x100000 else k.v2p (k.task t).pgdir;
  tss_esp0 = if (k.task t).pgdir == 0 then k.tss_esp0 else add32 t 4096;
  cur = t;
}

module _ {k : Kernel} (r : IsReleased k) (t : ℕ) (ts : List ℕ) (e : k.ready ≡ t ∷ ts) where
  front : (t ≢ 0) × (has t ts ≡ false) × IsDistinct ts × (has 0 ts ≡ false)
  front =
      let d = rw e at (r.distinct) in
      let n = rw e at (r.no_null) in (ground (arith, n), d.0, d.1, ground (arith, n))

  dispatch-eq : dispatch k ≡ some (dispatched k t ts)
  unfolding dispatch dispatched
  dispatch-eq = rw e (ground (arith, front.0))

  dispatched-IsSound : IsSound (dispatched k t ts)
  unfolding dispatched
  dispatched-IsSound = record {
    queued = record {
      distinct = front.2;
      listed = λ p. ground (arith, rw e at (r.listed p), front.1);
      sole = λ p h. ground (arith, r.idle_now p);
      idle_alive = ground (arith, r.idle_alive);
      idle_there = r.idle_there;
      cur_there = front.0;
      no_null = front.3;
    };
    running = ground arith;
  }

  dispatched-IsActive : IsActive (dispatched k t ts) t
  unfolding dispatched
  dispatched-IsActive = record { space = ground arith; stack = λ h. ground arith }

-- The status in which schedule leaves a thread that does not get the processor.
abbrev pub left : Kernel → ℕ → TaskStatus
left k p =
    if (p == k.cur) && is_running (k.task k.cur).status then task_ready else (k.task p).status

-- The processor has passed to the first of `line`.
pub record IsHanded (k k' : Kernel) (line : List ℕ) : Type 0 where
  pub sound : IsSound k'
  pub order : k'.cur ∷ k'.ready ≡ line
  pub active : IsActive k' k'.cur
  pub intr : k'.intr ≡ k.intr
  pub idle : k'.idle_thread ≡ k.idle_thread
  pub kept : (p : ℕ) → p ≢ k'.cur → (k'.task p).status ≡ left k p
  pub clock : k'.ticks ≡ k.ticks
  pub elapsed : (p : ℕ) → (k'.task p).elapsed_ticks ≡ (k.task p).elapsed_ticks

abbrev fill : Kernel → Option Kernel
fill k1 = if is_empty k1.ready then thread_unblock k1 k1.idle_thread else some k1

abbrev or_idle : ℕ → List ℕ → List ℕ
or_idle idle [] = idle ∷ []
or_idle idle (t ∷ ts) = t ∷ ts

fill-nil : (k : Kernel) → k.ready ≡ [] → fill k ≡ thread_unblock k k.idle_thread
fill-nil k e = ap (λ xs. if is_empty xs then thread_unblock k k.idle_thread else some k) e

fill-cons : (k : Kernel) (t : ℕ) (ts : List ℕ) → k.ready ≡ t ∷ ts → fill k ≡ some k
fill-cons k t ts e = ap (λ xs. if is_empty xs then thread_unblock k k.idle_thread else some k) e

-- The ticks of the machine, and those that each thread has had.
abbrev HasTimes : Kernel → Kernel → Type 0
HasTimes k k' =
    (k'.ticks ≡ k.ticks) × ((p : ℕ) → (k'.task p).elapsed_ticks ≡ (k.task p).elapsed_ticks)

dispatched-IsHanded :
    {k k0 : Kernel} (t : ℕ) (ts : List ℕ)
    → IsReleased k
    → k.ready ≡ t ∷ ts
    → k.intr ≡ k0.intr
    → k.idle_thread ≡ k0.idle_thread
    → ((p : ℕ) → p ≢ t → (k.task p).status ≡ left k0 p)
    → HasTimes k0 k
    → IsHanded k0 (dispatched k t ts) (t ∷ ts)
dispatched-IsHanded t ts r e i d w n = record {
  sound = dispatched-IsSound r t ts e;
  order = unfold dispatched in refl;
  active = unfold dispatched in dispatched-IsActive r t ts e;
  intr = unfold dispatched in i;
  idle = unfold dispatched in d;
  kept = unfold dispatched in λ p h. ground (arith, w p h);
  clock = unfold dispatched in n.0;
  elapsed = unfold dispatched in λ p. ground (arith, n.1 p);
}

idle_parked :
    {k : Kernel} → IsReleased k → k.ready ≡ [] → is_parked (k.task k.idle_thread).status ≡ true
idle_parked {k} r e =
    ground (arith, rw e at (r.listed k.idle_thread), r.idle_now k.idle_thread, r.idle_alive)

hand_over :
    {k k0 : Kernel} (xs : List ℕ)
    → k.ready ≡ xs
    → IsReleased k
    → k.intr ≡ k0.intr
    → k.idle_thread ≡ k0.idle_thread
    → ((p : ℕ) → (k.task p).status ≡ left k0 p)
    → HasTimes k0 k
    → (k' : Kernel) × ((fill k >>= dispatch) ≡ some k') × IsHanded k0 k' (or_idle k.idle_thread xs)
hand_over {k} {k0} [] e r i d w n =
    let parked = idle_parked r e in
    let k1 = unblocked k k.idle_thread in
    let r1 : IsReleased k1 = record {
      queued = unblocked-IsQueued k.idle_thread r.queued parked r.idle_there;
      idle_now = λ t. ground (arith, r.idle_now t);
    } in
    (
      dispatched k1 k.idle_thread [],
      ap (λ o. o >>= dispatch) (fill-nil k e ∙ unblock_lem k.idle_thread r.queued parked)
          ∙ dispatch-eq r1 k.idle_thread [] (ap (λ ts. k.idle_thread ∷ ts) e),
      dispatched-IsHanded k.idle_thread [] r1 (ap (λ ts. k.idle_thread ∷ ts) e) i d
          (λ p h. ground (arith, w p)) (n.0, λ p. ground (arith, n.1 p)),
    )
hand_over {k} {k0} (t ∷ ts) e r i d w n = (
  dispatched k t ts,
  ap (λ o. o >>= dispatch) (fill-cons k t ts e) ∙ dispatch-eq r t ts e,
  dispatched-IsHanded t ts r e i d (λ p h. w p) n,
)

or_idle-snoc : (idle : ℕ) (xs : List ℕ) (t : ℕ) → or_idle idle (xs ++ t ∷ []) ≡ xs ++ t ∷ []
or_idle-snoc idle [] t = refl
or_idle-snoc idle (x ∷ xs) t = refl

or_idle-empty : (idle : ℕ) (xs : List ℕ) → or_idle idle xs ≡ (if is_empty xs then idle ∷ [] else xs)
or_idle-empty idle [] = refl
or_idle-empty idle (x ∷ xs) = refl

schedule-eq :
    (k k1 : Kernel) → k.intr ≡ intr_off → requeue k ≡ some k1 → schedule k ≡ (fill k1 >>= dispatch)
unfolding schedule
schedule-eq k k1 off e =
    ap (λ s. assert (is_off s) >>= λ _. (requeue k >>= λ k1. fill k1 >>= dispatch)) off
    ∙ ap (λ o. o >>= λ k1. fill k1 >>= dispatch) e

-- What schedule has done, by the threads that were in line.
abbrev pub Scheduled : Kernel → Option Kernel → List ℕ → Type 0
Scheduled k r line = (k' : Kernel) × (r ≡ some k') × IsHanded k k' line

after_requeue :
    {k : Kernel} (k1 : Kernel) (line : List ℕ)
    → schedule k ≡ (fill k1 >>= dispatch)
    → Scheduled k (fill k1 >>= dispatch) line
    → (line' : List ℕ) → line ≡ line'
    → Scheduled k (schedule k) line'
after_requeue k1 line e (k', e', h) line' l = (k', e ∙ e', subst (IsHanded _ k') l h)

-- Called with interrupts off, schedule fails no assertion: the first thread in line runs, the others
-- wait in their order, and the address space and the kernel stack are those of the new thread.
pub schedule_lem :
    (k : Kernel) → IsQueued k → k.intr ≡ intr_off → Scheduled k (schedule k) (in_line k)
schedule_lem k q off = elim (Bool-cases (is_running (k.task k.cur).status)) [
  | inl run ↦
      unfold requeued in
      after_requeue (requeued k) (or_idle k.idle_thread (k.ready ++ k.cur ∷ []))
        (schedule-eq k (requeued k) off (requeue-run q run))
        (hand_over (k.ready ++ k.cur ∷ []) refl (requeued-IsReleased q run) refl refl
          (λ p. ground arith) (refl, λ p. ground arith))
        (in_line k) (or_idle-snoc k.idle_thread k.ready k.cur ∙ rw run)
  | inr park ↦
      after_requeue k (or_idle k.idle_thread k.ready) (schedule-eq k k off (requeue-park q park))
        (hand_over k.ready refl (park-IsReleased q park) refl refl (λ p. ground arith)
          (refl, λ p. refl))
        (in_line k) (or_idle-empty k.idle_thread k.ready ∙ rw park)
]
