-- ===== src/Files/Write.antt =====
-- fs/file.c: file_write.
use the_one_os.Common.{
  ℕ, zero, suc, ◌+◌, ◌-◌, ◌*◌, ◌/◌, ◌%◌, ◌&&◌, Option, none, some, ◌==◌, ltb, leb, if◌then◌else◌,
  update, Memory, add32, minus_one, ◌>>=◌,
}
use the_one_os.Fs.{sector_size}
use the_one_os.Fs.Alloc.{Partition}
use the_one_os.Files.{Disk, Buffer, Inode, Work, word_at, allocate_block, write_block, inode_sync}

-- The state before the loops. `all_blocks` gives what the new buffer holds.
unfoldable pub begin_write : Disk → Memory → (ℕ → ℕ) → (ℕ → ℕ) → Buffer → Work
begin_write disk memory i_sectors all_blocks io_buf = record {
  disk = disk;
  memory = memory;
  i_sectors = i_sectors;
  all_blocks = λ k. if ltb k 12 then i_sectors k else all_blocks k;
  io_buf = io_buf;
}

-- Blocks 12 to 139 are read when the write reaches them, or get a sector that will list them.
unfoldable pub load_indirect : Partition → ℕ → Work → Option Work
load_indirect part end_sec w =
    if ltb end_sec 12
    then some w
    else if w.i_sectors 12 == 0
    then (allocate_block part w.memory w.disk >>= λ (block_lba, m', disk). some (record w {
      disk = disk;
      memory = m';
      i_sectors = update w.i_sectors 12 block_lba;
      all_blocks = λ k. if leb 12 k && ltb k 140 then 0 else w.all_blocks k;
    }))
    else some (record w {
      all_blocks = λ k.
          if leb 12 k && ltb k 140
          then word_at w.disk (w.i_sectors 12 * sector_size + 4 * (k - 12))
          else w.all_blocks k;
    })

-- The rounds left of the loop over the whole sectors, with `idx` and `bytes_written`.
unfoldable pub write_blocks : Partition → Buffer → ℕ → ℕ → ℕ → Work → Option (ℕ × Work)
write_blocks part buf zero idx bytes_written w = some (bytes_written, w)
write_blocks part buf (suc rounds) idx bytes_written w =
    write_block part idx 0 (λ a. buf (bytes_written + a)) sector_size w >>= λ w'.
    write_blocks part buf rounds (idx + 1) (bytes_written + sector_size) w'

-- The sectors of a write, with the number of bytes written.
unfoldable pub write_sectors : Partition → ℕ → Buffer → ℕ → Work → Option (ℕ × Work)
write_sectors part fd_pos buf count w =
    let start_sec = fd_pos / sector_size in
    let start_offset = fd_pos % sector_size in
    let end_sec = add32 fd_pos count / sector_size in
    let end_offset = add32 fd_pos count % sector_size in
    if start_sec == end_sec
    then (write_block part start_sec start_offset buf count w >>= λ w1. some (count, w1))
    else (write_block part start_sec start_offset buf (sector_size - start_offset) w >>= λ w1.
        write_blocks part buf (end_sec - (start_sec + 1)) (start_sec + 1)
          (sector_size - start_offset) w1
        >>= λ (bytes_written, w2).
            write_block part end_sec 0 (λ a. buf (bytes_written + a)) end_offset w2 >>= λ w3.
            some (bytes_written + end_offset, w3))

pub record FileWritten : Type 0 where
  pub result : ℕ
  pub fd_pos : ℕ
  pub inode : Inode
  pub memory : Memory
  pub disk : Disk

abbrev pub new_inode : Inode → ℕ → ℕ → Work → Inode
new_inode inode fd_pos bytes_written w =
    let new_pos = add32 fd_pos bytes_written in
    record inode {
      i_size = if ltb inode.i_size new_pos then new_pos else inode.i_size;
      i_sectors = w.i_sectors;
    }

abbrev pub file_written : Inode → ℕ → ℕ → Work → Disk → FileWritten
file_written inode fd_pos bytes_written w disk = record {
  result = bytes_written;
  fd_pos = add32 fd_pos bytes_written;
  inode = new_inode inode fd_pos bytes_written w;
  memory = w.memory;
  disk = disk;
}

-- The new position and size, and the inode on the disk, through a buffer of one sector.
unfoldable pub end_write : Partition → Inode → ℕ → ℕ → Work → Option FileWritten
end_write part inode fd_pos bytes_written w =
    inode_sync part w.disk (new_inode inode fd_pos bytes_written w) sector_size w.io_buf >>= λ disk.
    some (file_written inode fd_pos bytes_written w disk)

-- `io_buf` is what the first buffer holds, or `none` when sys_malloc gives no buffer, and `all_blocks`
-- what the second one holds.
unfoldable pub file_write :
    Partition
    → Memory
    → Disk
    → Inode
    → ℕ
    → Option Buffer
    → (ℕ → ℕ)
    → Buffer
    → ℕ
    → Option FileWritten
file_write part memory disk inode fd_pos io_buf all_blocks buf count =
    let failed : FileWritten = record {
      result = minus_one;
      fd_pos = fd_pos;
      inode = inode;
      memory = memory;
      disk = disk;
    } in
    if ltb (sector_size * 140) (add32 fd_pos count) then some failed else elim io_buf [
      | none ↦ some failed
      | some b ↦
          load_indirect part (add32 fd_pos count / sector_size)
            (begin_write disk memory inode.i_sectors all_blocks b)
          >>= λ w. write_sectors part fd_pos buf count w >>= λ (bytes_written, w').
              end_write part inode fd_pos bytes_written w'
    ]
