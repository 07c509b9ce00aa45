-- ===== src/Dir/Delete.antt =====
-- fs/dir.c: delete_dir_entry.
use the_one_os.Common.{
  ℕ, zero, suc, ◌+◌, ◌*◌, Bool, true, false, Option, none, some, ◌==◌, ltb, leb, if◌then◌else◌,
  update, Memory, add32, sub32, ◌>>=◌, ◌>>◌, assert,
}
use the_one_os.Bitmap.{bitmap_set}
use the_one_os.Fs.{sector_size}
use the_one_os.Fs.Alloc.{Partition, block_bitmap, bitmap_sync}
use the_one_os.Files.{Disk, Buffer, Inode, disk_read, disk_write, copy_in, bytes_of, inode_sync}
use the_one_os.Dir.{dir_entry_size, dir_entrys_per_sec, zeros, entry_no, entry_type, dir_blocks}

is_null : Option ℕ → Bool
is_null none = true
is_null (some i) = false

-- The rounds left of the loop over the entries of a sector, with `dir_entry_cnt` and `dir_entry_found`.
count_entries : Buffer → ℕ → ℕ → ℕ → ℕ → Option ℕ → Option (ℕ × Option ℕ)
unfolding is_null
count_entries buf inode_no zero i cnt found = some (cnt, found)
count_entries buf inode_no (suc rounds) i cnt found =
    let unused = count_entries buf inode_no rounds (i + 1) cnt found in
    let this = count_entries buf inode_no rounds (i + 1) (cnt + 1) (some i) in
    let other = count_entries buf inode_no rounds (i + 1) (cnt + 1) found in
    if entry_type buf i == 0
    then unused
    else if entry_no buf i == inode_no
    then (assert (is_null found) >> this)
    else other

-- The rounds left of the loop over the blocks: the block, the entry in it and the number of used
-- entries there, and the buffer.
find_entry : Disk → (ℕ → ℕ) → ℕ → ℕ → ℕ → Buffer → Option (Option (ℕ × ℕ × ℕ) × Buffer)
unfolding count_entries
find_entry disk blocks inode_no zero k io_buf = some (none, io_buf)
find_entry disk blocks inode_no (suc rounds) k io_buf =
    let unused = find_entry disk blocks inode_no rounds (k + 1) io_buf in
    let buf = disk_read disk (blocks k) io_buf 1 in
    let rest = find_entry disk blocks inode_no rounds (k + 1) buf in
    let here = count_entries buf inode_no dir_entrys_per_sec 0 0 none >>= λ (cnt, found).
    elim found [ none ↦ rest | some i ↦ some (some (k, i, cnt), buf) ] in
    if blocks k == 0 then unused else here

-- A sector is given back: its bit is cleared, and the bit's sector of the bitmap is written.
pub free_sector : Partition → Memory → Disk → ℕ → Option (Memory × Disk)
free_sector part m disk lba =
    let block_bitmap_idx = sub32 lba part.sb.data_start_lba in
    let (sec_lba, address) = bitmap_sync part block_bitmap_idx block_bitmap in
    bitmap_set m part.block_bitmap block_bitmap_idx 0 >>= λ m'.
    some (m', disk_write disk sec_lba (λ a. m' (add32 address a)) 1)

-- The number of the `n` blocks from `k` on that have a sector.
used_blocks : (ℕ → ℕ) → ℕ → ℕ → ℕ
used_blocks blocks zero k = 0
used_blocks blocks (suc n) k =
    let rest = used_blocks blocks n (k + 1) in if blocks k == 0 then rest else suc rest

-- The last entry of block `k` goes, and the block with it.
drop_block : Partition → (ℕ → ℕ) → (ℕ → ℕ) → ℕ → Memory → Disk → Option ((ℕ → ℕ) × Memory × Disk)
unfolding used_blocks
drop_block part i_sectors blocks k m disk = free_sector part m disk (blocks k) >>= λ (m', disk').
    let left = update blocks k 0 in
    let unlist = free_sector part m' disk' (i_sectors 12) >>= λ (m'', disk'').
    some (update i_sectors 12 0, m'', disk'') in
    let relist =
      some (i_sectors, m', disk_write disk' (i_sectors 12) (bytes_of (λ j. left (12 + j))) 1) in
    if ltb k 12
    then some (update i_sectors k 0, m', disk')
    else if used_blocks left 128 12 == 0
    then unlist
    else relist

-- Whether there was an entry, the inode, the memory with the bitmap, and the disk.
pub delete_dir_entry :
    Partition → Inode → ℕ → Memory → Disk → Buffer → Option (Bool × Inode × Memory × Disk)
unfolding find_entry drop_block
delete_dir_entry part dir_inode inode_no m disk io_buf =
    let blocks = dir_blocks disk dir_inode.i_sectors in
    find_entry disk blocks inode_no 140 0 io_buf >>= λ (found, buf). elim found [
      | none ↦ some (false, dir_inode, m, disk)
      | some (k, i, cnt) ↦
          let cleared =
            disk_write disk (blocks k) (copy_in buf (dir_entry_size * i) zeros dir_entry_size) 1 in
          let dropped = drop_block part dir_inode.i_sectors blocks k m disk in
          assert (leb 1 cnt)
          >> ((if cnt == 1 then dropped else some (dir_inode.i_sectors, m, cleared))
              >>= λ (i_sectors, m', disk').
                  let dir_inode' = record dir_inode {
                    i_size = sub32 dir_inode.i_size dir_entry_size;
                    i_sectors = i_sectors;
                  } in
                  inode_sync part disk' dir_inode' (sector_size * 2)
                    (copy_in buf 0 zeros (sector_size * 2))
                  >>= λ synced_disk. some (true, dir_inode', m', synced_disk))
    ]
