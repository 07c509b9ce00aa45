-- ===== src/Tests/Files.antt =====
-- fs/fs.c, fs/inode.c, fs/file.c: a partition of 80 MB, and a process with its first file.
use the_one_os.Common.{
  ℕ, zero, suc, ◌+◌, ◌*◌, ◌-◌, ◌<◌, ◌≤◌, ◌≡◌, refl, ◌↔◌, false, some, List, [], ◌∷◌, arith,
  minus_one, ◌⊎◌, ◌^◌, word_size, Memory, IsBytes, ◌==◌, if◌then◌else◌,
}
use the_one_os.Fs.{
  sector_size, sizeof_inode, SuperBlock, format_super_block, inode_locate, pcb_fd_install,
}
use the_one_os.Bitmap.{byte_addr}
use the_one_os.Bitmap.Bits.{IsPlaced}
use the_one_os.Fs.Alloc.{Partition, block_bitmap_alloc, block_bitmap, bitmap_sync}
use the_one_os.Fs.Alloc.First.{IsFull, IsSetFirst, block_bitmap_alloc_lem, bitmap_sync_lem}
use the_one_os.Fs.Layout.{IsLaidOut, format_super_block-IsLaidOut, inode_locate_lem}
use the_one_os.Fs.Descriptors.{Installed, pcb_fd_install_lem}

abbrev super_block : SuperBlock
super_block = format_super_block 2048 163840

format_super_block_example : IsLaidOut super_block
format_super_block_example =
    format_super_block-IsLaidOut 2048 163840 (omega arith) (omega arith) (omega arith)

super_block-IsLaidOut : IsLaidOut super_block
super_block-IsLaidOut =
    format_super_block-IsLaidOut 2048 163840 (omega arith) (omega arith) (omega arith)

inode_locate_example :
    let pos = inode_locate super_block 100 in
    (pos.sec_lba * sector_size + pos.sec_offset
      ≡ super_block.inode_table_lba * sector_size + 100 * sizeof_inode)
    × (pos.sec_offset < sector_size)
    × (pos.sec_lba * sector_size + pos.sec_offset + sizeof_inode
        ≤ super_block.data_start_lba * sector_size)
    × (pos.sec_offset + sizeof_inode ≤ 2 * sector_size)
    × ((pos.cross_sector ≡ false) ↔ (pos.sec_offset + sizeof_inode ≤ sector_size))
inode_locate_example =
    inode_locate_lem super_block 100 super_block-IsLaidOut
      (omega (arith, super_block-IsLaidOut.few_inodes))

abbrev free : ℕ → List ℕ
free zero = []
free (suc n) = minus_one ∷ free n

abbrev fd_table : List ℕ
fd_table = 0 ∷ 1 ∷ 2 ∷ free 61

pcb_fd_install_example : Installed fd_table 7 3 64 (pcb_fd_install fd_table 7)
pcb_fd_install_example = pcb_fd_install_lem fd_table 7

abbrev memory : Memory
memory a = if a == 0x100 then 0xff else 0

memory-IsBytes : IsBytes memory
memory-IsBytes a = ground arith

abbrev partition : Partition
partition = record {
  sb = super_block;
  inode_bitmap = record { btmap_bytes_len = 512; bits = 0x10000 };
  block_bitmap = record {
    btmap_bytes_len = super_block.block_bitmap_sects * sector_size;
    bits = 0x100;
  };
}

partition-IsPlaced : IsPlaced partition.block_bitmap
unfolding format_super_block
partition-IsPlaced = record { fits = omega arith; countable = omega arith }

few_bits : super_block.block_bitmap_sects * sector_size * 8 < 2 ^ 31
unfolding format_super_block
few_bits = omega arith

sectors_fit :
    super_block.data_start_lba + super_block.block_bitmap_sects * sector_size * 8 < word_size
unfolding format_super_block
sectors_fit = omega arith

some_bits : 5000 < super_block.block_bitmap_sects * sector_size * 8
unfolding format_super_block
some_bits = omega arith

block_bitmap_alloc_example :
    ((block_bitmap_alloc memory partition ≡ some (minus_one, memory))
      × IsFull memory partition.block_bitmap)
    ⊎ ((i : ℕ) × (m' : Memory) × (block_bitmap_alloc memory partition
          ≡ some (super_block.data_start_lba + i, m'))
        × IsSetFirst memory m' partition.block_bitmap i)
block_bitmap_alloc_example =
    block_bitmap_alloc_lem memory partition memory-IsBytes partition-IsPlaced few_bits sectors_fit

bitmap_sync_example :
    let (sec_lba, address) = bitmap_sync partition 5000 block_bitmap in
    (address ≤ byte_addr partition.block_bitmap 5000)
    × (byte_addr partition.block_bitmap 5000 < address + sector_size)
    × (super_block.block_bitmap_lba ≤ sec_lba)
    × (sec_lba < super_block.inode_bitmap_lba)
    × ((sec_lba - super_block.block_bitmap_lba) * sector_size ≡ address - 0x100)
bitmap_sync_example =
    bitmap_sync_lem partition 5000 super_block-IsLaidOut partition-IsPlaced some_bits refl
