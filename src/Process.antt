-- ===== src/Process.antt =====
-- userprog/wait_exit.c, and thread_exit of thread/thread.c: how a process ends and its parent learns of it.
-- A thread stands in the list of all threads by its address.
pub mod Family
pub mod Exit
pub mod Wait
pub mod Reap
use the_one_os.Common.{
  ℕ, zero, suc, ◌+◌, ◌-◌, ◌*◌, ◌%◌, ◌^◌, ◌/◌, bit_and, Bool, true, false, not, ◌&&◌, Option, none,
  some, List, [], ◌∷◌, ◌==◌, if◌then◌else◌, update, has, minus_one, ◌>>=◌, ◌>>◌, assert,
}
use the_one_os.Bitmap.{Bitmap}
use the_one_os.Interrupt.{intr_disable}
use the_one_os.Paging.{page_size, Mm, pte_ptr, pfree, mfree_page}
use the_one_os.Fs.{max_files_open_per_proc}
use the_one_os.Pid.{PidPool, release_pid}
use the_one_os.DList.Walk.{find_first}
use the_one_os.Thread.{
  TaskStatus, task_running, task_ready, task_blocked, task_waiting, task_hanging, task_died, Kernel,
  thread_block, thread_unblock, schedule,
}
use the_one_os.Arena.{without}

-- The fields of task_struct that a process hands on when it ends.
pub record Proc : Type 0 where
  pub pid : ℕ
  pub parent_pid : ℕ
  pub exit_status : ℕ
  pub vaddr_bitmap : Bitmap

-- The open files as fs/fs.c has them: the descriptor of a thread, and the calls that are made of it here.
pub record FileOps (F : Type 0) : Type 0 where
  pub fd_table : F → ℕ → ℕ → ℕ
  pub is_pipe : F → ℕ → ℕ → Bool
  pub sys_close : F → ℕ → ℕ → Option F

pub record World (F : Type 0) : Type 0 where
  pub kernel : Kernel
  pub mm : Mm
  pub all_list : List ℕ
  pub proc : ℕ → Proc
  pub main_thread : ℕ
  pub pid_pool : PidPool
  pub files : F

abbrev pub is_hanging : TaskStatus → Bool
is_hanging task_hanging = true
is_hanging _ = false

abbrev pub is_waiting : TaskStatus → Bool
is_waiting task_waiting = true
is_waiting _ = false

-- `left` entries of the page table at `pte_vaddr`, from the pte_idx-th on.
unfoldable pub release_table : ℕ → ℕ → ℕ → Mm → Option Mm
release_table zero pte_vaddr pte_idx mm = some mm
release_table (suc left) pte_vaddr pte_idx mm = do
  let pte = mm.words (pte_vaddr + pte_idx * 4)
  mm1 ←
      (if bit_and pte 1 == 0
        then some mm
        else pfree mm.bytes mm.kernel_pool mm.user_pool (bit_and pte 0xfffff000) >>= λ m.
            some (record mm { bytes = m }))
  release_table left pte_vaddr (pte_idx + 1) mm1

unfoldable pub release_dir : ℕ → ℕ → ℕ → Mm → Option Mm
unfolding release_table
release_dir zero pgdir_vaddr pde_idx mm = some mm
release_dir (suc left) pgdir_vaddr pde_idx mm = do
  let pde = mm.words (pgdir_vaddr + pde_idx * 4)
  let emptied = release_table 1024 (pte_ptr (pde_idx * 0x400000)) 0 mm >>= λ mm1.
      pfree mm1.bytes mm1.kernel_pool mm1.user_pool (bit_and pde 0xfffff000) >>= λ m.
      some (record mm1 { bytes = m })
  mm2 ← (if bit_and pde 1 == 0 then some mm else emptied)
  release_dir left pgdir_vaddr (pde_idx + 1) mm2

-- One round of the loop of sys_wait: its end, or the call of thread_block.
pub data Waited (F : Type 0) : Type 0 where
  child_ended : ℕ → ℕ → World F → Waited F
  no_child : World F → Waited F
  waits : World F → Waited F

module _ {F : Type 0} where
  abbrev pub set_kernel : World F → Kernel → World F
  set_kernel w k = record w { kernel = k }

  abbrev pub set_mm : World F → Mm → World F
  set_mm w mm = record w { mm = mm }

  abbrev pub set_proc : World F → ℕ → Proc → World F
  set_proc w t x = record w { proc = update w.proc t x }

  abbrev pub find_hanging_child : World F → ℕ → ℕ → Bool
  find_hanging_child w parent_pid t =
      ((w.proc t).parent_pid == parent_pid) && is_hanging (w.kernel.task t).status

  abbrev pub find_child : World F → ℕ → ℕ → Bool
  find_child w parent_pid t = (w.proc t).parent_pid == parent_pid

  abbrev pub pid_check : World F → ℕ → ℕ → Bool
  pid_check w pid t = (w.proc t).pid == pid

  -- The thread with a process number, or none.
  unfoldable pub pid2thread : World F → ℕ → Option ℕ
  pid2thread w ppid = find_first (pid_check w ppid) w.all_list

  -- The current thread's number.
  pub sys_getpid : World F → ℕ
  sys_getpid w = (w.proc w.kernel.cur).pid

  abbrev free_pages : Bool → World F → ℕ → Option (World F)
  free_pages true w a = mfree_page w.mm a 1 >>= λ mm. some (set_mm w mm)
  free_pages false w a = some w

  -- Behind schedule there is a PANIC, which a thread that is gone does not come back to.
  unfoldable pub thread_exit : World F → ℕ → Bool → Option (World F)
  thread_exit w thread need_schedule = do
    let (old_status, off) = intr_disable w.kernel.intr
    let pgdir = (w.kernel.task thread).pgdir
    w1 ← free_pages (not (pgdir == 0)) (set_kernel w (record w.kernel { intr = off })) pgdir
    let k1 : Kernel = record w1.kernel { ready = without thread w1.kernel.ready }
    let w2 : World F = record w1 { kernel = k1; all_list = without thread w1.all_list }
    w3 ← free_pages (not (thread == w2.main_thread)) w2 thread
    m ← release_pid w3.mm.bytes w3.pid_pool (w3.proc thread).pid
    let w4 = set_mm w3 (record w3.mm { bytes = m })
    if need_schedule then schedule w4.kernel >>= (λ k. some (set_kernel w4 k)) else some w4

  unfoldable pub sys_wait_round : World F → Option (Waited F)
  unfolding thread_exit
  sys_wait_round w =
      let pid = (w.proc w.kernel.cur).pid in
      reap (find_first (find_hanging_child w pid) w.all_list)
        (find_first (find_child w pid) w.all_list)
    where
      sleep : Option ℕ → Option (Waited F)
      sleep none = some (no_child w)
      sleep (some child) = thread_block w.kernel task_waiting >>= λ k. some (waits (set_kernel w k))

      reap : Option ℕ → Option ℕ → Option (Waited F)
      reap none any_child = sleep any_child
      reap (some child) any_child = thread_exit w child false >>= λ w'.
          some (child_ended ((w.proc child).pid % 2 ^ 16) (w.proc child).exit_status w')

  -- The files of the process, from the local_fd-th descriptor on. A pipe is left as it is.
  unfoldable pub close_files : FileOps F → ℕ → ℕ → ℕ → F → Option F
  close_files ops pthread zero local_fd f = some f
  close_files ops pthread (suc left) local_fd f = do
    f1 ←
        (if (ops.fd_table f pthread local_fd == minus_one)
          then some f
          else if ops.is_pipe f pthread local_fd
          then some f
          else ops.sys_close f pthread local_fd)
    close_files ops pthread left (local_fd + 1) f1

  unfoldable pub release_prog_resource : FileOps F → World F → ℕ → Option (World F)
  unfolding release_dir close_files
  release_prog_resource ops w pthread = do
    mm1 ← release_dir 768 (w.kernel.task pthread).pgdir 0 w.mm
    let bitmap = (w.proc pthread).vaddr_bitmap
    mm2 ← mfree_page mm1 bitmap.bits (bitmap.btmap_bytes_len / page_size)
    f ← close_files ops pthread (max_files_open_per_proc - 3) 3 w.files
    some (record w { mm = mm2; files = f })

  -- list_traversal with init_adopt_a_child, which always says no and so visits every thread.
  unfoldable pub adopt : World F → ℕ → List ℕ → World F
  adopt w ppid [] = w
  adopt w ppid (t ∷ ts) =
      let w' =
        if (w.proc t).parent_pid == ppid
        then set_proc w t (record (w.proc t) { parent_pid = 1 })
        else w in
      adopt w' ppid ts

  -- Without a thread of that number, the status would be read through NULL: a fault.
  abbrev pub wake_parent : World F → Option ℕ → Option (World F)
  wake_parent w none = none
  wake_parent w (some parent_thread) =
      if is_waiting (w.kernel.task parent_thread).status
      then thread_unblock w.kernel parent_thread >>= (λ k. some (set_kernel w k))
      else some w

  -- The end of sys_exit, behind the release of the resources.
  unfoldable pub leave : World F → Option (World F)
  unfolding pid2thread
  leave w = do
    w' ← wake_parent w (pid2thread w (w.proc w.kernel.cur).parent_pid)
    k ← thread_block w'.kernel task_hanging
    some (set_kernel w' k)

  unfoldable pub sys_exit : FileOps F → World F → ℕ → Option (World F)
  unfolding adopt release_prog_resource leave
  sys_exit ops w status = do
    let cur = w.kernel.cur
    let w1 = set_proc w cur (record (w.proc cur) { exit_status = status })
    assert (not ((w1.proc cur).parent_pid == minus_one))
    w2 ← release_prog_resource ops (adopt w1 (w1.proc cur).pid w1.all_list) cur
    leave w2
