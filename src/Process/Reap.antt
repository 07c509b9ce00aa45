-- ===== src/Process/Reap.antt =====
-- thread/thread.c: thread_exit of a child that hangs.
use the_one_os.Common.{ℕ}
use the_one_os.Interrupt.{intr_off}
use the_one_os.Paging.{Mm}
use the_one_os.Thread.{Kernel}
use the_one_os.Arena.{without}
use the_one_os.Process.{World}

abbrev switched_off : Kernel → Kernel
switched_off k = record k { intr = intr_off }

-- The world without the thread `t`, its pages and its number given back.
abbrev pub removed : {F : Type 0} → World F → ℕ → Mm → World F
removed w t mm = record w {
  kernel = switched_off w.kernel;
  mm = mm;
  all_list = without t w.all_list;
}
