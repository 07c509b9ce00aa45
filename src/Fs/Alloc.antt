-- ===== src/Fs/Alloc.antt =====
-- fs/file.c: free inodes and free sectors, by the bitmaps of a partition.
pub mod First
use the_one_os.Common.{
  ℕ, ◌+◌, ◌*◌, ◌/◌, Bool, true, false, Option, none, some, ◌==◌, if◌then◌else◌, Memory, add32,
  wrap32, minus_one, ◌>>=◌,
}
use the_one_os.Bitmap.{Bitmap, bitmap_scan, bitmap_set}
use the_one_os.Fs.{SuperBlock, sector_size}

pub record Partition : Type 0 where
  pub sb : SuperBlock
  pub inode_bitmap : Bitmap
  pub block_bitmap : Bitmap

pub test_and_set_bitmap : Memory → Bitmap → Option (ℕ × Memory)
test_and_set_bitmap m a_bitmap =
    let idx = bitmap_scan m a_bitmap 1 in
    if idx == minus_one then some (idx, m) else bitmap_set m a_bitmap idx 1 >>= λ m'. some (idx, m')

pub inode_bitmap_alloc : Memory → Partition → Option (ℕ × Memory)
inode_bitmap_alloc m part = test_and_set_bitmap m part.inode_bitmap

pub block_bitmap_alloc : Memory → Partition → Option (ℕ × Memory)
block_bitmap_alloc m part = test_and_set_bitmap m part.block_bitmap >>= λ (idx, m').
    some (if idx == minus_one then minus_one else add32 part.sb.data_start_lba idx, m')

pub data BitmapType : Type 0 where
  inode_bitmap block_bitmap : BitmapType

-- The sector that is written, and the address of the 512 bytes that go there.
pub bitmap_sync : Partition → ℕ → BitmapType → ℕ × ℕ
bitmap_sync part bit_idx btmp =
    let offset_sec = bit_idx / (8 * 512) in
    let offset_size = wrap32 (offset_sec * sector_size) in
    elim btmp [
      | inode_bitmap ↦
          (add32 part.sb.inode_bitmap_lba offset_sec, add32 part.inode_bitmap.bits offset_size)
      | block_bitmap ↦
          (add32 part.sb.block_bitmap_lba offset_sec, add32 part.block_bitmap.bits offset_size)
    ]
