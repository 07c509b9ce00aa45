-- ===== src/Dir/Read.antt =====
-- fs/dir.c: dir_read.
use the_one_os.Common.{
  ℕ, zero, suc, ◌+◌, Option, none, some, ◌==◌, ltb, leb, if◌then◌else◌, add32, ◌>>=◌, ◌>>◌, assert,
}
use the_one_os.Files.{Disk, Buffer, Inode, disk_read}
use the_one_os.Dir.{dir_entry_size, dir_entrys_per_sec, entry_type, dir_blocks}

-- An entry with the new position of the directory, or the position behind the entries passed over.
pub data Next : Type 0 where
  found : ℕ → ℕ → Next
  passed : ℕ → Next

-- The rounds left of the loop over the entries of a sector, with `cur_dir_entry_pos`.
next_in_sector : Buffer → ℕ → ℕ → ℕ → ℕ → Option Next
next_in_sector buf dir_pos zero i cur = some (passed cur)
next_in_sector buf dir_pos (suc rounds) i cur =
    let behind = add32 cur dir_entry_size in
    let unused = next_in_sector buf dir_pos rounds (i + 1) cur in
    let next = next_in_sector buf dir_pos rounds (i + 1) behind in
    let this = assert (add32 dir_pos dir_entry_size == behind) >> some (found i behind) in
    if entry_type buf i == 0 then unused else if leb behind dir_pos then next else this

-- The rounds left of the loop over the blocks. The result is the entry, in the directory's buffer, and
-- the position.
next_block : Disk → (ℕ → ℕ) → ℕ → ℕ → ℕ → ℕ → ℕ → Buffer → Option (Option (Buffer × ℕ) × ℕ)
unfolding next_in_sector
next_block disk blocks i_size dir_pos zero k cur dir_buf = some (none, dir_pos)
next_block disk blocks i_size dir_pos (suc rounds) k cur dir_buf =
    let unused = next_block disk blocks i_size dir_pos rounds (k + 1) cur dir_buf in
    let buf = disk_read disk (blocks k) dir_buf 1 in
    let here = next_in_sector buf dir_pos dir_entrys_per_sec 0 cur >>= λ r. elim r [
      | found i behind ↦ some (some (buf, i), behind)
      | passed cur' ↦ next_block disk blocks i_size dir_pos rounds (k + 1) cur' buf
    ] in
    if ltb i_size dir_pos then some (none, dir_pos) else if blocks k == 0 then unused else here

pub dir_read : Disk → Inode → ℕ → Buffer → Option (Option (Buffer × ℕ) × ℕ)
unfolding next_block
dir_read disk inode dir_pos dir_buf =
    next_block disk (dir_blocks disk inode.i_sectors) inode.i_size dir_pos 140 0 0 dir_buf
