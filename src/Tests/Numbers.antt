-- ===== src/Tests/Numbers.antt =====
-- lib/stdio.c, thread/thread.c: a number as text, and two process numbers.
use the_one_os.Common.{ℕ, ◌≡◌, refl, inr, false, some, arith, Memory, IsBytes, ◌==◌, if◌then◌else◌}
use the_one_os.Bitmap.{bitmap_scan_test, test_bit}
use the_one_os.Stdio.{itoa}
use the_one_os.Stdio.Digits.{Written, itoa_lem}
use the_one_os.Pid.{PidPool, allocate_pid, release_pid}
use the_one_os.Pid.Unique.{IsPidPool, taken, Possible, IsGiven, allocate_pid_lem, release_pid_lem}

-- Process number 1 is taken.
abbrev memory : Memory
memory a = if a == 0x100 then 1 else 0

memory-IsBytes : IsBytes memory
memory-IsBytes a = ground arith

itoa_example : Written memory 16 0xbe 0x300 (itoa 200 memory 0xbe 0x300 16)
itoa_example = itoa_lem 200 memory 0xbe 0x300 16 (inr refl) (omega arith)

abbrev pool : PidPool
pool = record { pid_bitmap = record { btmap_bytes_len = 128; bits = 0x100 }; pid_start = 1 }

pool-IsPidPool : IsPidPool pool
pool-IsPidPool = record {
  placed = record { fits = omega arith; countable = omega arith };
  from_one = refl;
  few = omega arith;
}

two_free : taken memory pool 2 ≡ false
unfolding bitmap_scan_test test_bit
two_free = refl

allocate_pid_example :
    (pid : ℕ) × (m' : Memory) × (allocate_pid memory pool ≡ some (pid, m'))
    × IsGiven memory m' pool pid
allocate_pid_example =
    allocate_pid_lem memory pool 2 pool-IsPidPool memory-IsBytes (omega arith, omega arith) two_free

release_pid_example :
    (m' : Memory) × (release_pid memory pool 1 ≡ some m')
    × IsBytes m'
    × ((q : ℕ)
        → Possible pool q
        → taken m' pool q ≡ (if q == 1 then false else taken memory pool q))
release_pid_example =
    release_pid_lem memory pool 1 pool-IsPidPool memory-IsBytes (omega arith, omega arith)
