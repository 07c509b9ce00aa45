-- ===== src/Files.antt =====
-- fs/file.c, fs/inode.c: the bytes of a file, in the blocks that its inode lists.
pub mod Sectors
pub mod Room
pub mod Blocks
pub mod Allocate
pub mod Extend
pub mod Load
pub mod Step
pub mod Write
pub mod Prepare
pub mod Span
pub mod Sync
pub mod WriteFile
pub mod Read
pub mod ReadFile
pub mod RoundTrip
use the_one_os.Common.{
  ℕ, zero, suc, ◌+◌, ◌-◌, ◌*◌, ◌/◌, ◌%◌, ◌^◌, Bool, true, false, ◌&&◌, not, Option, none, some,
  ◌==◌, ltb, leb, if◌then◌else◌, update, Memory, add32, sub32, wrap32, minus_one, ◌>>=◌, ◌>>◌,
  assert,
}
use the_one_os.Fs.{sector_size, sizeof_inode, inode_locate}
use the_one_os.Fs.Alloc.{Partition, block_bitmap, block_bitmap_alloc, bitmap_sync}

-- The bytes of a disk, counted from its first sector, and those of a buffer.
abbrev pub Disk : Type 0
Disk = ℕ → ℕ

abbrev pub Buffer : Type 0
Buffer = ℕ → ℕ

-- What disk_read leaves in a buffer, for a disk that has the sectors and serves them.
unfoldable pub disk_read : Disk → ℕ → Buffer → ℕ → Buffer
disk_read disk lba buffer sector_cnt a =
    if ltb a (sector_cnt * sector_size) then disk (lba * sector_size + a) else buffer a

-- What disk_write leaves on a disk.
unfoldable pub disk_write : Disk → ℕ → Buffer → ℕ → Disk
disk_write disk lba buffer sector_cnt x =
    if leb (lba * sector_size) x && ltb x ((lba + sector_cnt) * sector_size)
    then buffer (x - lba * sector_size)
    else disk x

-- memcpy(buffer + offset, src, size) and memset(buffer, 0, size)
unfoldable pub copy_in : Buffer → ℕ → Buffer → ℕ → Buffer
copy_in buffer offset src size a =
    if leb offset a && ltb a (offset + size) then src (a - offset) else buffer a

-- The bytes of a word, the least first, and the word of four bytes.
unfoldable pub byte_of : ℕ → ℕ → ℕ
byte_of w zero = w % 256
byte_of w (suc zero) = w / 256 % 256
byte_of w (suc (suc zero)) = w / 65536 % 256
byte_of w (suc (suc (suc k))) = w / 16777216 % 256

unfoldable pub bytes_of : (ℕ → ℕ) → Buffer
bytes_of words a = byte_of (words (a / 4)) (a % 4)

unfoldable pub word_at : Buffer → ℕ → ℕ
word_at b a = b (a + 0) + b (a + 1) * 256 + b (a + 2) * 65536 + b (a + 3) * 16777216

-- The tag that links an open inode is left out.
pub record Inode : Type 0 where
  pub i_no : ℕ
  pub i_size : ℕ
  pub i_open_cnt : ℕ
  pub write_deny : Bool
  pub i_sectors : ℕ → ℕ

-- The words that inode_sync copies to the disk: no opens, no denial, and a tag of two null pointers.
unfoldable pub inode_word : Inode → ℕ → ℕ
inode_word inode zero = inode.i_no
inode_word inode (suc zero) = inode.i_size
inode_word inode (suc (suc zero)) = 0
inode_word inode (suc (suc (suc zero))) = 0
inode_word inode (suc (suc (suc (suc k)))) = if ltb k 13 then inode.i_sectors k else 0

-- What inode_sync leaves on the disk when the buffer has room for the sectors of the inode.
unfoldable pub synced : Partition → Disk → Inode → Buffer → Disk
synced part disk inode io_buf =
    let inode_pos = inode_locate part.sb inode.i_no in
    let sec_cnt = if inode_pos.cross_sector then 2 else 1 in
    let inode_buf = disk_read disk inode_pos.sec_lba io_buf sec_cnt in
    let new_buf =
      copy_in inode_buf inode_pos.sec_offset (bytes_of (inode_word inode)) sizeof_inode in
    disk_write disk inode_pos.sec_lba new_buf sec_cnt

-- `io_size` is the number of bytes of io_buf. Sectors that it has no room for would be moved over what
-- stands behind it: that is left undefined.
unfoldable pub inode_sync : Partition → Disk → Inode → ℕ → Buffer → Option Disk
inode_sync part disk inode io_size io_buf =
    let sec_cnt = if (inode_locate part.sb inode.i_no).cross_sector then 2 else 1 in
    assert (leb (sec_cnt * sector_size) io_size) >> some (synced part disk inode io_buf)

-- For a buffer with room for the sectors of the inode; nothing calls it.
unfoldable pub inode_delete : Partition → Disk → ℕ → Buffer → Disk
inode_delete part disk inode_no io_buf =
    let inode_pos = inode_locate part.sb inode_no in
    let sec_cnt = if inode_pos.cross_sector then 2 else 1 in
    let inode_buf = disk_read disk inode_pos.sec_lba io_buf sec_cnt in
    let new_buf = copy_in inode_buf inode_pos.sec_offset (λ a. 0) sizeof_inode in
    disk_write disk inode_pos.sec_lba new_buf sec_cnt

unfoldable pub inode_init : ℕ → Inode → Inode
inode_init inode_no new_inode = record new_inode {
  i_no = inode_no;
  i_size = 0;
  i_open_cnt = 0;
  i_sectors = λ idx. if ltb idx 13 then 0 else new_inode.i_sectors idx;
}

-- struct inode, as inode_open copies it from the bytes at `offset`, opened once.
unfoldable pub inode_at : Buffer → ℕ → Inode
inode_at buf offset = record {
  i_no = word_at buf offset;
  i_size = word_at buf (offset + 4);
  i_open_cnt = 1;
  write_deny = not (word_at buf (offset + 12) == 0);
  i_sectors = λ k. word_at buf (offset + (16 + 4 * k));
}

-- inode_open for an inode that is not yet open. `inode_buf` gives what the new buffer holds.
unfoldable pub inode_open : Partition → Disk → ℕ → Buffer → Option Inode
inode_open part disk inode_no inode_buf =
    let inode_pos = inode_locate part.sb inode_no in
    let sec_cnt = if inode_pos.cross_sector then 2 else 1 in
    let buf = disk_read disk inode_pos.sec_lba inode_buf sec_cnt in
    assert (ltb inode_no 4096) >> some (inode_at buf inode_pos.sec_offset)

-- What the loops of file_write change: the disk, the memory that holds the bitmap, the sectors that
-- the inode lists, and the two buffers.
pub record Work : Type 0 where
  pub disk : Disk
  pub memory : Memory
  pub i_sectors : ℕ → ℕ
  pub all_blocks : ℕ → ℕ
  pub io_buf : Buffer

unfoldable pub allocate_block : Partition → Memory → Disk → Option (ℕ × Memory × Disk)
allocate_block part m disk = block_bitmap_alloc m part >>= λ (block_lba, m').
    let (sec_lba, address) =
      bitmap_sync part (sub32 block_lba part.sb.data_start_lba) block_bitmap in
    assert (not (block_lba == minus_one))
    >> some (block_lba, m', disk_write disk sec_lba (λ a. m' (add32 address a)) 1)

-- A new sector for a block: it is listed, in the inode or in the sector for that, and the buffer is cleared.
unfoldable pub add_block : ℕ → Work → ℕ → Memory → Disk → Work
add_block block_idx w new_lba m' disk =
    let all_blocks = update w.all_blocks block_idx new_lba in
    record {
      disk =
          (if ltb block_idx 12
            then disk
            else disk_write disk (w.i_sectors 12) (bytes_of (λ k. all_blocks (12 + k))) 1);
      memory = m';
      i_sectors = (if ltb block_idx 12 then update w.i_sectors block_idx new_lba else w.i_sectors);
      all_blocks = all_blocks;
      io_buf = copy_in w.io_buf 0 (λ a. 0) sector_size;
    }

unfoldable pub load_or_alloc_inode_block : Partition → ℕ → Work → Option Work
load_or_alloc_inode_block part block_idx w =
    let block_lba = w.all_blocks block_idx in
    assert (ltb block_lba (2 ^ 31))
    >> (if block_lba == 0
        then (allocate_block part w.memory w.disk >>= λ (new_lba, m', disk).
            some (add_block block_idx w new_lba m' disk))
        else some (record w { io_buf = disk_read w.disk block_lba w.io_buf 1 }))

-- One sector of a write: it is loaded, `size` bytes of `src` are copied to `offset`, and it is written.
unfoldable pub write_block : Partition → ℕ → ℕ → Buffer → ℕ → Work → Option Work
write_block part idx offset src size w = load_or_alloc_inode_block part idx w >>= λ w'.
    let io_buf = copy_in w'.io_buf offset src size in
    some (record w' { disk = disk_write w'.disk (w'.all_blocks idx) io_buf 1; io_buf = io_buf })
