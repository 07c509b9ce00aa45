-- ===== src/Pid.antt =====
-- thread/thread.c: process numbers, by a bitmap. The pool's lock is left out.
pub mod Unique
use the_one_os.Common.{ℕ, ◌+◌, ◌≡◌, Option, none, some, Memory, add32, sub32, ◌>>=◌, ◌>>◌}
use the_one_os.Bitmap.{Bitmap, bitmap_init, bitmap_scan, bitmap_set}

pub record PidPool : Type 0 where
  pub pid_bitmap : Bitmap
  pub pid_start : ℕ

-- The pool over the 128 bytes at `pid_bitmap_bits`.
pub pid_pool_init : Memory → ℕ → PidPool × Memory
pid_pool_init m pid_bitmap_bits =
    let bitmap : Bitmap = record { btmap_bytes_len = 128; bits = pid_bitmap_bits } in
    (record { pid_bitmap = bitmap; pid_start = 1 }, bitmap_init m bitmap)

-- The -1 of bitmap_scan is not tested.
unfoldable pub allocate_pid : Memory → PidPool → Option (ℕ × Memory)
allocate_pid m pid_pool =
    let bit_idx = bitmap_scan m pid_pool.pid_bitmap 1 in
    bitmap_set m pid_pool.pid_bitmap bit_idx 1 >>= λ m'. some (add32 bit_idx pid_pool.pid_start, m')

unfoldable pub release_pid : Memory → PidPool → ℕ → Option Memory
release_pid m pid_pool pid = bitmap_set m pid_pool.pid_bitmap (sub32 pid pid_pool.pid_start) 0
