-- ===== src/Tests/Processes.antt =====
-- userprog/wait_exit.c: a process with a child of its own ends while its parent waits.
use the_one_os.Common.{
  ℕ, ◌+◌, ◌≡◌, refl, false, some, [], ◌∷◌, arith, Memory, store, ◌==◌, if◌then◌else◌, update,
  minus_one,
}
use the_one_os.Interrupt.{intr_off}
use the_one_os.Bitmap.{bitmap_set, set_bit, clear_bit}
use the_one_os.Paging.{
  Mm, pfree, drop_loop, vaddr_remove, pte_ptr, addr_v2p, page_table_pte_remove, unmap_loop,
  mfree_page,
}
use the_one_os.Thread.{
  TaskStatus, task_running, task_ready, task_blocked, task_waiting, task_hanging, Task, Kernel,
}
use the_one_os.Thread.Queue.{IsSound}
use the_one_os.Process.{
  Proc, FileOps, World, sys_exit, sys_wait_round, pid2thread, release_table, release_dir,
  close_files, release_prog_resource, adopt,
}
use the_one_os.Process.Exit.{orphaned, ended, IsEnded, sys_exit_lem}
use the_one_os.Process.Wait.{IsChild, reaped, Round, sys_wait_lem, exit_then_wait}
use the_one_os.Tests.Arenas.{pool_at}

abbrev task : TaskStatus → ℕ → Task
task status pgdir = record {
  status = status;
  priority = 5;
  ticks = 3;
  elapsed_ticks = 0;
  pgdir = pgdir;
  stack_magic = 20220120;
}

-- The thread at 0x1000 is running, its parent at 0x2000 waits, and its child at 0x5000 is ready.
abbrev kernel : Kernel
kernel = record {
  cur = 0x1000;
  task = λ t.
      if t == 0x1000
      then task task_running 0xc0200000
      else if t == 0x2000
      then task task_waiting 0xc0201000
      else if t == 0x5000
      then task task_ready 0xc0202000
      else task task_blocked 0;
  ready = 0x5000 ∷ [];
  idle_thread = 0x4000;
  intr = intr_off;
  ticks = 7;
  cr3 = 0x100000;
  tss_esp0 = 0;
  v2p = λ a. a;
}

kernel-IsSound : IsSound kernel
kernel-IsSound = record {
  queued = record {
    distinct = (refl, tt);
    listed = λ t. ground arith;
    sole = λ t h. ground arith;
    idle_alive = λ e. cc;
    idle_there = λ e. omega arith;
    cur_there = λ e. omega arith;
    no_null = refl;
  };
  running = refl;
}

-- The process has one page table, and its bitmap is at the start of the kernel's heap.
abbrev mm : Mm
mm = record {
  bytes = λ a. if a == 0x100 then 1 else if a == 0x200 then 3 else 0;
  words = λ a. if a == 0xfff00400 then 0x200007 else if a == 0xc0200000 then 0x201007 else 0;
  kernel_pool = pool_at 0x200 0x200000;
  user_pool = pool_at 0x204 0x220000;
  vaddr = record {
    vaddr_bitmap = record { btmap_bytes_len = 4; bits = 0x100 };
    vaddr_start = 0xc0100000;
  };
}

abbrev proc_of : ℕ → ℕ → Proc
proc_of pid parent_pid = record {
  pid = pid;
  parent_pid = parent_pid;
  exit_status = 0;
  vaddr_bitmap = record { btmap_bytes_len = 4096; bits = 0xc0100000 };
}

-- The files are the number of calls of sys_close; descriptor 3 is open.
abbrev ops : FileOps ℕ
ops = record {
  fd_table = λ f t local_fd. if local_fd == 3 then 0 else minus_one;
  is_pipe = λ f t local_fd. false;
  sys_close = λ f t local_fd. some (f + 1);
}

abbrev world : World ℕ
world = record {
  kernel = kernel;
  mm = mm;
  all_list = 0x3000 ∷ 0x2000 ∷ 0x1000 ∷ 0x5000 ∷ [];
  proc = λ t.
      if t == 0x1000
      then proc_of 3 2
      else if t == 0x2000
      then proc_of 2 1
      else if t == 0x5000
      then proc_of 4 3
      else proc_of 1 minus_one;
  main_thread = 0x6000;
  pid_pool = record { pid_bitmap = record { btmap_bytes_len = 128; bits = 0x300 }; pid_start = 1 };
  files = 0;
}

abbrev emptied : Mm
emptied = record mm {
  bytes = store (store (store mm.bytes 0x200 1) 0x200 0) 0x100 0;
  words = update mm.words 0xfff00400 0x200006;
}

all_released : release_prog_resource ops (orphaned world 7) 0x1000 ≡ some (ended world 7 emptied 1)
unfolding release_prog_resource release_dir release_table close_files adopt mfree_page unmap_loop
    pfree vaddr_remove drop_loop addr_v2p page_table_pte_remove pte_ptr bitmap_set set_bit clear_bit
all_released = refl

the_parent : pid2thread world 2 ≡ some 0x2000
unfolding pid2thread
the_parent = refl

sys_exit_example :
    (w' : World ℕ) × (sys_exit ops world 7 ≡ some w')
    × IsEnded world w' 7
    × ((world.kernel.task 0x2000).status ≡ task_waiting → w'.kernel.cur ≡ 0x2000)
sys_exit_example =
    sys_exit_lem ops world 7 emptied 1 0x2000 kernel-IsSound (λ e. omega (arith, e))
      (λ e. omega (arith, e)) all_released the_parent (λ e. omega (arith, e))

exit_then_wait_example :
    (w' : World ℕ) × (sys_exit ops world 7 ≡ some w')
    × (w'.kernel.cur ≡ 0x2000)
    × ((c : ℕ) × IsChild w' c
        × ((w'.kernel.task c).status ≡ task_hanging)
        × (sys_wait_round w' ≡ reaped w' c)
        × (c ≡ world.kernel.cur → (w'.proc c).exit_status ≡ 7))
exit_then_wait_example =
    exit_then_wait ops world 7 emptied 1 0x2000 kernel-IsSound (λ e. omega (arith, e))
      (λ e. omega (arith, e)) all_released the_parent (λ e. omega (arith, e))
      (λ e. omega (arith, e)) refl refl

sys_wait_example : Round world (sys_wait_round world)
sys_wait_example = sys_wait_lem world kernel-IsSound

-- The thread at 0xc0100000 hangs; the page behind it is its page directory.
abbrev zombie : ℕ
zombie = 0xc0100000

abbrev full_mm : Mm
full_mm = record mm {
  bytes = λ a. if a == 0x100 then 3 else if a == 0x200 then 3 else if a == 0x300 then 31 else 0;
  words = λ a. if a == 0xfff00400 then 0x200007 else if a == 0xfff00404 then 0x201007 else 0;
}

abbrev without_dir : Mm
without_dir = record full_mm {
  bytes = store (store full_mm.bytes 0x200 1) 0x100 1;
  words = update full_mm.words 0xfff00404 0x201006;
}

abbrev without_thread : Mm
without_thread = record without_dir {
  bytes = store (store without_dir.bytes 0x200 0) 0x100 0;
  words = update without_dir.words 0xfff00400 0x200006;
}

abbrev after : Memory
after = store without_thread.bytes 0x300 15

abbrev graveyard : World ℕ
graveyard = record world {
  kernel = record kernel {
    task = λ t. if t == zombie then task task_hanging 0xc0101000 else kernel.task t;
  };
  mm = full_mm;
  all_list = 0x3000 ∷ zombie ∷ 0x1000 ∷ [];
  proc = λ t. if t == zombie then proc_of 5 3 else world.proc t;
}
