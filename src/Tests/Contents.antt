-- ===== src/Tests/Contents.antt =====
-- fs/file.c, fs/inode.c: 7000 bytes for a file on an empty partition of 4 MB.
use the_one_os.Common.{
  ℕ, zero, suc, ◌+◌, ◌*◌, ◌/◌, ◌%◌, ◌<◌, ◌≤◌, ◌≡◌, refl, ◌≢◌, inl, inr, false, some, arith, ◌==◌,
  if◌then◌else◌, ltb,
}
use the_one_os.Fs.{sector_size, SuperBlock, inode_locate, format_super_block}
use the_one_os.Fs.Alloc.{Partition}
use the_one_os.Fs.Layout.{IsLaidOut, format_super_block-IsLaidOut}
use the_one_os.Bitmap.{Bitmap, bitmap_scan_test}
use the_one_os.Bitmap.Bits.{test_bit-zero}
use the_one_os.Files.{Buffer, Inode, inode_open, synced}
use the_one_os.Files.Room.{clear_bits}
use the_one_os.Files.Allocate.{room}
use the_one_os.Files.Blocks.{IsMounted, IsOwned, blocks_of, content}
use the_one_os.Files.Sync.{IsReopened, inode_open-sync}
use the_one_os.Files.Write.{FileWritten, file_write}
use the_one_os.Files.WriteFile.{IsFileWritten, file_write_lem}
use the_one_os.Files.Read.{FileRead, file_read}
use the_one_os.Files.ReadFile.{file_read_lem}
use the_one_os.Files.RoundTrip.{file_read-write}

abbrev super_block : SuperBlock
super_block = format_super_block 2048 8192

super_block-IsLaidOut : IsLaidOut super_block
super_block-IsLaidOut =
    format_super_block-IsLaidOut 2048 8192 (omega arith) (omega arith) (omega arith)

abbrev partition : Partition
partition = record {
  sb = super_block;
  inode_bitmap = record { btmap_bytes_len = 512; bits = 0x10000 };
  block_bitmap = record {
    btmap_bytes_len = super_block.block_bitmap_sects * sector_size;
    bits = 0x100;
  };
}

partition-IsMounted : IsMounted partition
unfolding format_super_block
partition-IsMounted = record {
  laid_out = super_block-IsLaidOut;
  placed = record { fits = omega arith; countable = omega arith };
  bitmap_size = refl;
  bits_below = omega arith;
  sectors_below = omega arith;
}

abbrev zeros : ℕ → ℕ
zeros a = 0

clear_bits-zeros : (b : Bitmap) (n : ℕ) → clear_bits zeros b n ≡ n
unfolding clear_bits bitmap_scan_test
clear_bits-zeros b zero = refl
clear_bits-zeros b (suc n) =
    ground (arith, test_bit-zero (n % 8) (omega arith), clear_bits-zeros b n)

enough : 15 < room partition zeros
unfolding format_super_block
enough =
    omega
      (arith, clear_bits-zeros partition.block_bitmap (partition.block_bitmap.btmap_bytes_len * 8))

abbrev inode : Inode
inode = record { i_no = 5; i_size = 0; i_open_cnt = 1; write_deny = false; i_sectors = zeros }

-- 5 * 76 + 76 ≤ 512
one_sector : (inode_locate partition.sb 5).cross_sector ≡ false
unfolding inode_locate
one_sector = refl

no_blocks : (k : ℕ) → blocks_of zeros zeros k ≡ 0
unfolding blocks_of
no_blocks k = ground arith

empty-IsOwned : IsOwned partition zeros (blocks_of zeros zeros)
empty-IsOwned = record {
  bytes = λ a. omega arith;
  taken = λ k le has. absurd (has (no_blocks k));
  apart = λ j k lj lk ne has. absurd (has (no_blocks j));
}

-- The byte at position `a` of what is written, and what the new buffers hold.
abbrev letters : Buffer
letters a = 97 + a % 26

abbrev junk : Buffer
junk a = 204

file_write_example :
    (r : FileWritten) × (file_write partition zeros zeros inode 0 (some junk) junk letters 7000
      ≡ some r)
    × IsFileWritten partition zeros inode 0 letters 7000 r
file_write_example =
    file_write_lem partition partition-IsMounted zeros zeros inode 0 7000 letters (omega arith)
      (omega arith) (omega arith) one_sector junk junk empty-IsOwned (omega (arith, enough))

file_read-write_example :
    (w : FileWritten) × (inode' : Inode) × (r : FileRead) × (file_write partition zeros zeros inode
        0
        (some junk)
        junk
        letters
        7000
      ≡ some w)
    × (inode_open partition w.disk 5 junk ≡ some inode')
    × (file_read w.disk inode' 0 (some junk) (some junk) junk 7000 ≡ some r)
    × (r.result ≡ 7000)
    × ((a : ℕ) → a < 7000 → r.buf a ≡ letters a)
file_read-write_example =
    file_read-write partition zeros zeros inode 0 7000 letters junk junk junk junk junk junk
      partition-IsMounted (omega arith) one_sector (omega arith) (omega arith) (inr (omega arith))
      empty-IsOwned (omega (arith, enough))

-- A file of 10 bytes in the sector 900.
abbrev short : Inode
short = record {
  i_no = 6;
  i_size = 10;
  i_open_cnt = 1;
  write_deny = false;
  i_sectors = λ k. if k == 0 then 900 else 0;
}

short-mapped : (k : ℕ) → 4 / 512 ≤ k → k * 512 < 4 + 6 → blocks_of letters short.i_sectors k ≢ 0
unfolding blocks_of
short-mapped k lo hi = ground arith

file_read_example :
    (r : FileRead) × (file_read letters short 4 (some junk) (some junk) junk 100 ≡ some r)
    × (r.result ≡ 6)
    × (r.fd_pos ≡ 4 + 6)
    × ((a : ℕ)
        → r.buf a ≡ (
            if ltb a 6
            then content (blocks_of letters short.i_sectors) letters (4 + a)
            else junk a))
file_read_example =
    file_read_lem letters short 4 junk junk junk 100 (omega arith) (omega arith) (omega arith)
      (inl (omega arith)) short-mapped

inode_open-sync_example :
    (inode' : Inode) × (inode_open partition (synced partition letters short junk) 6 junk
      ≡ some inode')
    × IsReopened short inode'
inode_open-sync_example =
    inode_open-sync partition letters short junk junk super_block-IsLaidOut
      (record { i_no = omega arith; i_size = omega arith; i_sectors = λ k lt. ground arith })
