-- ===== src/Thread.antt =====
-- thread/thread.c: the scheduler. The two thread lists are the lists that DList proves of their
-- pointers; a thread stands in them by the address of its task_struct.
pub mod Queue
pub mod Schedule
pub mod Block
pub mod Fair
use the_one_os.Common.{
  ℕ, zero, suc, ◌+◌, ◌-◌, ◌%◌, ◌≡◌, Bool, true, false, not, ◌||◌, Option, none, some, List, [], ◌∷◌,
  ◌++◌, ◌==◌, if◌then◌else◌, update, has, ◌>>=◌, ◌>>◌, assert, add32,
}
use the_one_os.Interrupt.{IntrStatus, intr_off, intr_on, intr_disable, intr_set_status}

pub data TaskStatus : Type 0 where
  task_running task_ready task_blocked task_waiting task_hanging task_died : TaskStatus

-- The fields of task_struct that the scheduler reads or writes. `pgdir` is 0 in a kernel thread.
pub record Task : Type 0 where
  pub status : TaskStatus
  pub priority : ℕ
  pub ticks : ℕ
  pub elapsed_ticks : ℕ
  pub pgdir : ℕ
  pub stack_magic : ℕ

-- `cur` is running_thread(); `cr3` and `tss_esp0` are what process_activate sets, and `v2p` is the
-- address translation that it reads by addr_v2p.
pub record Kernel : Type 0 where
  pub cur : ℕ
  pub task : ℕ → Task
  pub ready : List ℕ
  pub idle_thread : ℕ
  pub intr : IntrStatus
  pub ticks : ℕ
  pub cr3 : ℕ
  pub tss_esp0 : ℕ
  pub v2p : ℕ → ℕ

abbrev pub is_running : TaskStatus → Bool
is_running task_running = true
is_running _ = false

abbrev pub is_ready : TaskStatus → Bool
is_ready task_ready = true
is_ready _ = false

-- status == TASK_WAITING || status == TASK_BLOCKED || status == TASK_HANGING
abbrev pub is_parked : TaskStatus → Bool
is_parked task_waiting = true
is_parked task_blocked = true
is_parked task_hanging = true
is_parked _ = false

abbrev pub is_off : IntrStatus → Bool
is_off intr_off = true
is_off intr_on = false

abbrev pub set_task : Kernel → ℕ → Task → Kernel
set_task k t x = record k { task = update k.task t x }

abbrev pub set_status : Kernel → ℕ → TaskStatus → Kernel
set_status k t s = set_task k t (record (k.task t) { status = s })

-- The ready list by its operations: list_append, list_push, list_pop, elem_find.
abbrev pub queue_append : Kernel → ℕ → Kernel
queue_append k t = record k { ready = k.ready ++ t ∷ [] }

abbrev pub queue_push : Kernel → ℕ → Kernel
queue_push k t = record k { ready = t ∷ k.ready }

-- list_pop on an empty list would follow the tail's null pointer: a fault.
abbrev pub pop_front : List ℕ → Option (ℕ × List ℕ)
pop_front [] = none
pop_front (t ∷ ts) = some (t, ts)

abbrev pub is_empty : List ℕ → Bool
is_empty [] = true
is_empty (t ∷ ts) = false

-- The branch `status != TASK_READY` is always taken behind the first assertion.
unfoldable pub thread_unblock : Kernel → ℕ → Option Kernel
thread_unblock k pthread = do
  assert (is_parked (k.task pthread).status)
  let (old_status, off) = intr_disable k.intr
  if is_ready (k.task pthread).status then some k else (do
    assert (not (has pthread k.ready))
    let k1 = queue_push k pthread
    let k2 = set_status k1 pthread task_ready
    some (record k2 { intr = (intr_set_status old_status off).1 }))

-- userprog/process.c: page_dir_activate and process_activate.
unfoldable pub page_dir_activate : Kernel → ℕ → Kernel
page_dir_activate k p_thread =
    let pgdir = (k.task p_thread).pgdir in
    record k { cr3 = if pgdir == 0 then 0x100000 else k.v2p pgdir }

unfoldable pub process_activate : Kernel → ℕ → Option Kernel
unfolding page_dir_activate
process_activate k p_thread = do
  assert (not (p_thread == 0))
  let k1 = page_dir_activate k p_thread
  some (if (k1.task p_thread).pgdir == 0 then k1 else record k1 { tss_esp0 = add32 p_thread 4096 })

-- The current thread gives the processor up with its time used.
unfoldable pub requeue : Kernel → Option Kernel
requeue k =
    if is_running (k.task k.cur).status
    then (do
      assert (not (has k.cur k.ready))
      let k1 = queue_append k k.cur
      some (
          set_task k1 k1.cur
            (record (k1.task k1.cur) { status = task_ready; ticks = (k1.task k1.cur).priority })))
    else some k

-- The next thread is taken from the ready list, and switch_to gives it the processor.
unfoldable pub dispatch : Kernel → Option Kernel
unfolding process_activate
dispatch k = do
  (next, rest) ← pop_front k.ready
  let k1 = set_status (record k { ready = rest }) next task_running
  k2 ← process_activate k1 next
  some (record k2 { cur = next })

unfoldable pub schedule : Kernel → Option Kernel
unfolding requeue thread_unblock dispatch
schedule k = do
  assert (is_off k.intr)
  k1 ← requeue k
  k2 ← (if is_empty k1.ready then thread_unblock k1 k1.idle_thread else some k1)
  dispatch k2

-- The state when another thread has the processor. The blocked thread runs intr_set_status of its
-- old status when it is scheduled again.
unfoldable pub thread_block : Kernel → TaskStatus → Option Kernel
thread_block k status = do
  assert (is_parked status)
  let (old_status, off) = intr_disable k.intr
  assert (is_running (k.task k.cur).status)
  let k1 = set_status (record k { intr = off }) k.cur status
  schedule k1

unfoldable pub thread_yield : Kernel → Option Kernel
thread_yield k = let (old_status, off) = intr_disable k.intr in schedule (record k { intr = off })

-- device/timer.c: the handler runs with interrupts off.
pub intr_timer_handler : Kernel → Option Kernel
intr_timer_handler k = do
  assert ((k.task k.cur).stack_magic == 20220120)
  let t = k.task k.cur
  let k1 = set_task k k.cur (record t { elapsed_ticks = add32 t.elapsed_ticks 1 })
  let k2 : Kernel = record k1 { ticks = add32 k1.ticks 1 }
  let t2 = k2.task k2.cur
  (if t2.ticks == 0
      then schedule k2
      else some (set_task k2 k2.cur (record t2 { ticks = t2.ticks - 1 })))
