-- ===== src/Lib.antt =====
-- The-one-os: a small 32-bit kernel in C. The files below are cited from learn_by_doing/mbr of the
-- repository's src directory, as in src/learn_by_doing/mbr/kernel/sync.c.
--
-- The parts and the files that model them:
--   CString    lib/string.c, on a memory of bytes by address.
--   Bitmap     lib/bitmap.c. A bitmap is a descriptor (btmap_bytes_len, bits) of bytes in that memory.
--   Paging     kernel/memory.c: palloc, pfree and mem_pool_init on the bitmaps of two pools, vaddr_get and
--              vaddr_remove on the bitmap of virtual pages, and page tables as words by address.
--              Paging/Request has get_kernel_pages, get_user_pages, get_a_page and free_a_phy_page.
--   Arena      kernel/memory.c: sys_malloc and sys_free. The descriptors of the running thread stand by their
--              index, the headers of the arenas by the address of their page, and the blocks by their
--              address; the pages are those of malloc_page and mfree_page in Paging.
--   Process    userprog/wait_exit.c and thread_exit of thread/thread.c. The fields of task_struct that the
--              scheduler does not read stand beside its state, and sys_close and is_pipe are an
--              interface.
--   Lookup     fs/fs.c: search_file, sys_open, sys_opendir, sys_closedir, sys_chdir and sys_stat, on paths as
--              lists of characters and a directory as a function from names to entries. What
--              file_create and file_open do is an interface. Fuel of one more than the length of the
--              path is enough.
--   Gate       kernel/tss.c and kernel/interrupt.c: the descriptors of segments and of interrupt gates.
--   Interrupt  kernel/interrupt.c: the interrupt flag.
--   DList      lib/list.c: the two pointers of each list element, by address.
--   Thread     thread/thread.c, with process_activate of userprog/process.c and the handler of
--              device/timer.c. The ready list is a list of the addresses of task_struct, in place of
--              the pointers of DList.
--   Sync       kernel/sync.c: semaphores and locks, as operations of the scheduler's state.
--              Sync/System is the system of threads that share a lock: a step is one move of the thread
--              that has the processor, and a thread may yield between any two moves.
--   Ioqueue    device/ioqueue.c and the handler of device/keyboard.c: the ring of characters.
--   PathName   fs/fs.c: path_parse and path_depth_cnt.
--   Stdio      lib/stdio.c: itoa and vsprintf, with the argument list as a list of words.
--   Pid        thread/thread.c: process numbers.
--   Fs         fs/fs.c, fs/inode.c, fs/file.c: the super block that partition_format computes, inode_locate,
--              the allocation of inodes and sectors, the descriptor tables and sys_lseek.
--   Files      fs/file.c, fs/inode.c: file_write, file_read, inode_sync and what inode_open reads, on a
--              disk as a function from byte addresses. What sys_malloc gives is a parameter: a new
--              buffer's contents, or no buffer. Files/Blocks says which sectors a file owns and what
--              bytes it has; Files/Load, Files/Step, Files/Span and Files/WriteFile follow a write from
--              one block to the whole.
--   Ide        device/ide.c: the accesses to the ports that disk_read and disk_write make, in order, with the
--              status that the drive answers as a parameter; busy_wait, the partition table, the
--              interrupt handler. Ide/Transfer has a drive that acts on the accesses of disk_read.
--   Dir        fs/dir.c: the entries of a directory; the buffer of a sector and the name searched for stand
--              in one memory for strcmp. Dir/Delete has delete_dir_entry, Dir/Read dir_read.
--   Shell      shell/shell.c: readline, with what read gives as a list of characters, and cmd_parse.
--   Common     the shared tests, lists, words and the chain of steps that may fail.
--   Tests      the theorems at concrete inputs.
--
-- Conventions. A word is a natural number, and its wrap-around is written out; -1 is 2 ^ 32 - 1. A
-- failed ASSERT or a PANIC stops the machine: the result is `none`. A loop that ends at a byte or a
-- pointer in memory takes fuel, and runs out of it with `none`; one more than the length of the string
-- or of the list is enough. A loop with a counter recurses on the counter.
--
-- What is left out: a thread that is scheduled again restores its old interrupt status, which is not
-- followed; a step of Sync/System takes back the processor with the status that the switch left. A
-- pool's lock is not part of the pool. The bytes of the bitmaps and the words of the page tables are
-- separate memories. Screen output, the boot code and the identification of a drive are not
-- modelled, nor are dir_remove, fork, the loading of programs and the commands of the shell. Of an
-- open inode the place in the list of open inodes is left out. A write behind the end of a buffer is
-- undefined, `none`, where a length is given: for the names of 16 bytes of search_file and
-- path_depth_cnt and for the buffer of inode_sync; other buffers are as long as what is written to
-- them. Files has a disk that serves every sector, and Ide the driver that panics when the drive is
-- not ready. The bytes in the place of the header of an arena are not followed.

pub mod Common
pub mod CString
pub mod Interrupt
pub mod Bitmap
pub mod Paging
pub mod Arena
pub mod Process
pub mod DList
pub mod Thread
pub mod Sync
pub mod Ioqueue
pub mod PathName
pub mod Stdio
pub mod Pid
pub mod Fs
pub mod Files
pub mod Ide
pub mod Dir
pub mod Shell
pub mod Lookup
pub mod Gate
pub mod Tests
