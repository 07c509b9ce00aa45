-- ===== src/Dir.antt =====
-- fs/dir.c: the entries of a directory, in the blocks that its inode lists.
pub mod Delete
pub mod Read
pub mod Search
use the_one_os.Common.{
  ℕ, zero, suc, ◌+◌, ◌-◌, ◌*◌, ◌/◌, Bool, true, false, not, Option, none, some, ◌==◌, ltb, leb,
  if◌then◌else◌, update, Memory, add32, sub32, minus_one, ◌>>=◌, ◌>>◌, assert,
}
use the_one_os.CString.{strcmp, strlen}
use the_one_os.Bitmap.{bitmap_set}
use the_one_os.PathName.{max_file_name_len}
use the_one_os.Fs.{sector_size}
use the_one_os.Fs.Alloc.{Partition, block_bitmap, bitmap_sync}
use the_one_os.Files.{
  Disk, Buffer, Inode, disk_read, disk_write, copy_in, byte_of, bytes_of, word_at, allocate_block,
  inode_sync,
}

-- sizeof(struct dir_entry), the super block's dir_entry_size: 16 bytes for the name, and two words.
abbrev pub dir_entry_size : ℕ
dir_entry_size = 24

abbrev pub dir_entrys_per_sec : ℕ
dir_entrys_per_sec = sector_size / dir_entry_size

abbrev pub zeros : Buffer
zeros a = 0

-- The two words of an entry of a sector.
abbrev pub entry_no : Buffer → ℕ → ℕ
entry_no buf i = word_at buf (dir_entry_size * i + 16)

abbrev pub entry_type : Buffer → ℕ → ℕ
entry_type buf i = word_at buf (dir_entry_size * i + 20)

-- all_blocks, whose words are 0 before they are read.
unfoldable pub dir_blocks : Disk → (ℕ → ℕ) → ℕ → ℕ
dir_blocks disk i_sectors k =
    if ltb k 12
    then i_sectors k
    else if i_sectors 12 == 0
    then 0
    else word_at disk (i_sectors 12 * sector_size + 4 * (k - 12))

-- A sector and a name in one memory, the name at 1024.
abbrev pub beside : Buffer → Buffer → Memory
beside io_buf name a = if ltb a 1024 then io_buf a else name (a - 1024)

-- strcmp(entry->filename, name), with fuel for the name.
unfoldable pub compare_entry : ℕ → Buffer → Buffer → ℕ → Option ℕ
compare_entry fuel io_buf name i = strcmp fuel (beside io_buf name) (dir_entry_size * i) 1024

-- The rounds left of the loop over the entries of a sector.
unfoldable pub search_entries : ℕ → Buffer → Buffer → ℕ → ℕ → Option (Option ℕ)
search_entries fuel io_buf name zero i = some none
search_entries fuel io_buf name (suc rounds) i =
    let rest = search_entries fuel io_buf name rounds (i + 1) in
    compare_entry fuel io_buf name i >>= λ r. (if r == 0 then some (some i) else rest)

-- The rounds left of the loop over the blocks: the sector and the number of the entry in it.
unfoldable pub search_blocks : ℕ → Disk → (ℕ → ℕ) → Buffer → ℕ → ℕ → Option (Option (Buffer × ℕ))
search_blocks fuel disk blocks name zero k = some none
search_blocks fuel disk blocks name (suc rounds) k =
    let rest = search_blocks fuel disk blocks name rounds (k + 1) in
    let io_buf = disk_read disk (blocks k) zeros 1 in
    let here = search_entries fuel io_buf name dir_entrys_per_sec 0 >>= λ found. elim found [
      | none ↦ rest
      | some i ↦ some (some (io_buf, i))
    ] in
    if blocks k == 0 then rest else here

-- `dir_e` is what the caller's entry holds.
unfoldable pub search_dir_entry : ℕ → Disk → (ℕ → ℕ) → Buffer → Buffer → Option (Bool × Buffer)
search_dir_entry fuel disk i_sectors name dir_e =
    search_blocks fuel disk (dir_blocks disk i_sectors) name 140 0 >>= λ found. elim found [
      | none ↦ some (false, dir_e)
      | some (io_buf, i) ↦
          some (true, copy_in dir_e 0 (λ a. io_buf (dir_entry_size * i + a)) dir_entry_size)
    ]

unfoldable pub create_dir_entry : ℕ → Buffer → ℕ → ℕ → Buffer → Option Buffer
create_dir_entry fuel filename inode_no file_type p_de = strlen fuel filename 0 >>= λ n.
    let named = copy_in p_de 0 filename n in
    let numbered = copy_in named 16 (byte_of inode_no) 4 in
    assert (leb n max_file_name_len) >> some (copy_in numbered 20 (byte_of file_type) 4)

free_entry : Buffer → ℕ → ℕ → ℕ
free_entry buf zero i = minus_one
free_entry buf (suc rounds) i =
    let rest = free_entry buf rounds (i + 1) in if entry_type buf i == 0 then i else rest

-- The number of the first free entry of a sector, or -1, and the sector.
pub find_free_dir_entry : Disk → ℕ → Buffer → ℕ × Buffer
unfolding free_entry
find_free_dir_entry disk lba io_buf =
    let buf = disk_read disk lba io_buf 1 in (free_entry buf dir_entrys_per_sec 0, buf)

pub record DirWork : Type 0 where
  pub disk : Disk
  pub memory : Memory
  pub i_sectors : ℕ → ℕ
  pub i_size : ℕ
  pub io_buf : Buffer

-- A new sector, filled with zeros.
pub allocate_part_block : Partition → DirWork → Option (ℕ × DirWork)
allocate_part_block part w = allocate_block part w.memory w.disk >>= λ (block_lba, m', disk).
    let io_buf = copy_in w.io_buf 0 zeros 512 in
    some (
      block_lba,
      record w { disk = disk_write disk block_lba io_buf 1; memory = m'; io_buf = io_buf },
    )

-- The rounds left of the loop over the 12 direct blocks: a sector with a free entry, and the entry.
direct_loop : Partition → ℕ → ℕ → DirWork → Option (Option (ℕ × ℕ) × DirWork)
direct_loop part zero idx w = some (none, w)
direct_loop part (suc rounds) idx w =
    let allocated = allocate_part_block part w >>= λ (lba, w').
    some (lba, record w' { i_sectors = update w'.i_sectors idx lba }) in
    (if w.i_sectors idx == 0 then allocated else some (w.i_sectors idx, w)) >>= λ (lba, w1).
    let (i, buf) = find_free_dir_entry w1.disk lba w1.io_buf in
    let w2 : DirWork = record w1 { io_buf = buf } in
    let rest = direct_loop part rounds (idx + 1) w2 in
    if i == minus_one then rest else some (some (lba, i), w2)

-- The same over the 128 blocks of the list `tier2_block_idx`, which is written when it changes.
indirect_loop : Partition → ℕ → ℕ → (ℕ → ℕ) → DirWork → Option (Option (ℕ × ℕ) × DirWork)
indirect_loop part zero idx tier2_block_idx w = some (none, w)
indirect_loop part (suc rounds) idx tier2_block_idx w =
    let allocated = allocate_part_block part w >>= λ (lba, w').
    let tier2 = update tier2_block_idx idx lba in
    let disk' = disk_write w'.disk (w'.i_sectors 12) (bytes_of tier2) 1 in
    some (lba, tier2, record w' { disk = disk' }) in
    (if tier2_block_idx idx == 0 then allocated else some (tier2_block_idx idx, tier2_block_idx, w))
    >>= λ (lba, tier2, w1).
        let (i, buf) = find_free_dir_entry w1.disk lba w1.io_buf in
        let w2 : DirWork = record w1 { io_buf = buf } in
        let rest = indirect_loop part rounds (idx + 1) tier2 w2 in
        if i == minus_one then rest else some (some (lba, i), w2)

-- The label do_sync_dir_entry.
put_entry : Buffer → ℕ × ℕ → DirWork → DirWork
put_entry p_de (lba, i) w =
    let io_buf = copy_in w.io_buf (dir_entry_size * i) p_de dir_entry_size in
    record w {
      disk = disk_write w.disk lba io_buf 1;
      i_size = add32 w.i_size dir_entry_size;
      io_buf = io_buf;
    }

pub sync_dir_entry : Partition → Buffer → DirWork → Option (Bool × DirWork)
unfolding direct_loop indirect_loop put_entry
sync_dir_entry part p_de w = direct_loop part 12 0 w >>= λ (found, w1).
    let listed = allocate_part_block part w1 >>= λ (lba, w').
    some (record w' { i_sectors = update w'.i_sectors 12 lba }) in
    let indirect = (if w1.i_sectors 12 == 0 then listed else some w1) >>= λ w2.
    indirect_loop part 128 0 (λ k. word_at w2.disk (w2.i_sectors 12 * sector_size + 4 * k)) w2
    >>= λ (found', w3). elim found' [
      | none ↦ some (false, w3)
      | some place ↦ some (true, put_entry p_de place w3)
    ] in
    elim found [ none ↦ indirect | some place ↦ some (true, put_entry p_de place w1) ]

pub dir_is_empty : Inode → Bool
dir_is_empty inode = inode.i_size == dir_entry_size * 2
