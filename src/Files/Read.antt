-- ===== src/Files/Read.antt =====
-- fs/file.c: file_read.
use the_one_os.Common.{
  ℕ, zero, suc, ◌+◌, ◌-◌, ◌*◌, ◌/◌, ◌%◌, ◌&&◌, Option, none, some, ◌==◌, ltb, if◌then◌else◌, add32,
  sub32, minus_one, not, ◌>>◌, assert,
}
use the_one_os.Fs.{sector_size}
use the_one_os.Files.{Disk, Buffer, Inode, word_at, disk_read, copy_in}

-- The list of blocks. From block 12 on it is what the new buffer held, `all_blocks`, unless the read
-- ends behind block 12.
unfoldable pub list_blocks : Disk → (ℕ → ℕ) → (ℕ → ℕ) → ℕ → ℕ → ℕ
list_blocks disk i_sectors all_blocks end_sec k =
    if ltb k 12
    then i_sectors k
    else if ltb 12 end_sec && ltb k 140
    then (if i_sectors 12 == 0 then 0 else word_at disk (i_sectors 12 * sector_size + 4 * (k - 12)))
    else all_blocks k

-- The sector's buffer and the reader's.
pub record Buffers : Type 0 where
  pub io_buf : Buffer
  pub buf : Buffer

-- One sector is read, and `size` of its bytes from `offset` on are copied behind the first `bytes_read`.
unfoldable pub read_block : Disk → ℕ → ℕ → ℕ → ℕ → Buffers → Buffers
read_block disk lba offset size bytes_read b =
    let io_buf = disk_read disk lba b.io_buf 1 in
    record { io_buf = io_buf; buf = copy_in b.buf bytes_read (λ a. io_buf (offset + a)) size }

-- The rounds left of the loop over the whole sectors, with `idx` and `bytes_read`.
unfoldable pub read_blocks : Disk → (ℕ → ℕ) → ℕ → ℕ → ℕ → Buffers → Buffers
read_blocks disk all_blocks zero idx bytes_read b = b
read_blocks disk all_blocks (suc rounds) idx bytes_read b =
    read_blocks disk all_blocks rounds (idx + 1) (bytes_read + sector_size)
      (read_block disk (all_blocks idx) 0 sector_size bytes_read b)

-- The sectors of a read, with the number of bytes read.
unfoldable pub read_sectors : Disk → (ℕ → ℕ) → ℕ → ℕ → Buffers → ℕ × Buffers
read_sectors disk all_blocks fd_pos size b =
    let start_sec = fd_pos / sector_size in
    let start_offset = fd_pos % sector_size in
    let end_sec = add32 fd_pos size / sector_size in
    let end_offset = add32 fd_pos size % sector_size in
    let head = sector_size - start_offset in
    let rounds = end_sec - (start_sec + 1) in
    let whole = head + rounds * sector_size in
    if start_sec == end_sec
    then (size, read_block disk (all_blocks start_sec) start_offset size 0 b)
    else (
      whole + end_offset,
      read_block disk (all_blocks end_sec) 0 end_offset whole (
          read_blocks disk all_blocks rounds (start_sec + 1) head
            (read_block disk (all_blocks start_sec) start_offset head 0 b)),
    )

pub record FileRead : Type 0 where
  pub result : ℕ
  pub fd_pos : ℕ
  pub buf : Buffer

-- `io_buf` and `all_blocks` are what the new buffers hold, or `none` when sys_malloc gives no buffer. A read
-- that ends in block 12, at its first byte or behind it, takes the number of a sector from a place of the
-- buffer that nothing has written: that is left undefined.
unfoldable pub file_read :
    Disk → Inode → ℕ → Option Buffer → Option (ℕ → ℕ) → Buffer → ℕ → Option FileRead
file_read disk inode fd_pos none all_blocks buf count = none
file_read disk inode fd_pos (some io_buf) all_blocks buf count =
    let ends : ℕ → FileRead = λ r. record { result = r; fd_pos = fd_pos; buf = buf } in
    let size = if ltb inode.i_size (add32 fd_pos count) then sub32 inode.i_size fd_pos else count in
    if ltb inode.i_size fd_pos
    then some (ends minus_one)
    else if size == 0
    then some (ends 0)
    else elim all_blocks [
      | none ↦ some (ends minus_one)
      | some junk ↦
          let end_sec = add32 fd_pos size / sector_size in
          let list = list_blocks disk inode.i_sectors junk end_sec in
          let (bytes_read, b) =
            read_sectors disk list fd_pos size (record { io_buf = io_buf; buf = buf }) in
          assert (not (end_sec == 12))
          >> some (record { result = bytes_read; fd_pos = add32 fd_pos bytes_read; buf = b.buf })
    ]
