-- ===== src/Files/RoundTrip.antt =====
-- fs/file.c, fs/inode.c: what file_write writes, file_read reads after the file has been opened again.
use the_one_os.Common.{
  ℕ, ◌+◌, ◌-◌, ◌*◌, ◌/◌, ◌<◌, ◌≤◌, ◌≡◌, ◌⊎◌, some, false, ltb, arith, if◌then◌else◌, Memory, ap,
  sym, ◌∙◌, refl,
}
use the_one_os.Fs.{sector_size, inode_locate}
use the_one_os.Fs.Alloc.{Partition}
use the_one_os.Files.{Disk, Buffer, Inode, inode_open, word_at}
use the_one_os.Files.Blocks.{IsMounted, IsOwned, blocks_of, content}
use the_one_os.Files.Allocate.{room}
use the_one_os.Files.Write.{FileWritten, file_write}
use the_one_os.Files.WriteFile.{IsFileWritten, file_write_lem, content-same}
use the_one_os.Files.Sync.{IsReopened}
use the_one_os.Files.Read.{FileRead, file_read}
use the_one_os.Files.ReadFile.{bytes_left, file_read_lem}

same_blocks :
    (disk : Disk) (s t : ℕ → ℕ)
    → ((k : ℕ) → k < 13 → s k ≡ t k)
    → (k : ℕ) → blocks_of disk s k ≡ blocks_of disk t k
unfolding blocks_of
same_blocks disk s t h k =
    ground (
      arith,
      h k,
      h 12,
      ap (λ l. word_at disk (l * sector_size + 4 * (k - 12))) (h 12 (omega arith)),
    )

reread :
    {part : Partition} {disk : Disk} {inode inode' : Inode} {fd_pos count : ℕ} {buf : Buffer}
    {w : FileWritten}
    → IsFileWritten part disk inode fd_pos buf count w
    → IsReopened w.inode inode'
    → (io_buf buf' : Buffer) (all_blocks : ℕ → ℕ) → inode.i_size < 512 * 140
    → fd_pos + count < 512 * 140
    → (fd_pos + count < 12 * 512) ⊎ (13 * 512 ≤ fd_pos + count)
    → (r : FileRead) × (file_read w.disk inode' fd_pos (some io_buf) (some all_blocks) buf' count
        ≡ some r)
      × (r.result ≡ count)
      × ((a : ℕ) → a < count → r.buf a ≡ buf a)
reread {disk = disk} {inode} {inode'} {fd_pos} {count} {buf} {w} wr same io_buf buf' all_blocks
      sized bound ends =
    let (r, e, result, _, h) =
      file_read_lem w.disk inode' fd_pos io_buf all_blocks buf' count
        (omega (arith, same.i_size, wr.size)) (omega (arith, same.i_size, wr.size)) (omega arith)
        (ground (arith, whole, ends))
        (λ k lo hi z. wr.mapped k lo (omega (arith, hi, whole)) (sym (blocks k) ∙ z)) in
    (r, e, result ∙ whole, λ a lt. h a ∙ byte a lt)
  where
    whole : bytes_left inode' fd_pos count ≡ count
    whole = omega (arith, same.i_size, wr.size)

    blocks : (k : ℕ) → blocks_of w.disk inode'.i_sectors k ≡ blocks_of w.disk w.inode.i_sectors k
    blocks = same_blocks w.disk inode'.i_sectors w.inode.i_sectors same.i_sectors

    back : (a : ℕ) → fd_pos + a - fd_pos ≡ a
    back a = omega arith

    byte :
        (a : ℕ)
        → a < count
        → (if ltb a (bytes_left inode' fd_pos count)
            then content (blocks_of w.disk inode'.i_sectors) w.disk (fd_pos + a)
            else buf' a)
          ≡ buf a
    byte a lt = ground (
      arith,
      whole,
      content-same (blocks_of w.disk w.inode.i_sectors) (blocks_of w.disk inode'.i_sectors) w.disk
          w.disk (fd_pos + a) (blocks ((fd_pos + a) / 512)) (λ has. refl),
      wr.bytes (fd_pos + a),
      ap buf (back a),
    )

-- Under the conditions of file_write_lem a file is written, its inode is read from the disk again, and the
-- bytes that were written are read back, whatever the buffers of these calls held before. The write
-- ends before block 12 or behind it.
pub file_read-write :
    (part : Partition) (memory : Memory) (disk : Disk) (inode : Inode) (fd_pos count : ℕ)
    (buf io_buf inode_buf io_buf' buf' : Buffer) (all_blocks all_blocks' : ℕ → ℕ)
    → IsMounted part
    → inode.i_no < 4096
    → (inode_locate part.sb inode.i_no).cross_sector ≡ false
    → inode.i_size < 512 * 140
    → fd_pos + count < 512 * 140
    → (fd_pos + count < 12 * 512) ⊎ (13 * 512 ≤ fd_pos + count)
    → IsOwned part memory (blocks_of disk inode.i_sectors)
    → (fd_pos + count) / 512 + 1 < fd_pos / 512 + room part memory
    → (w : FileWritten) × (inode' : Inode) × (r : FileRead) × (file_write part memory disk inode
          fd_pos
          (some io_buf)
          all_blocks
          buf
          count
        ≡ some w)
      × (inode_open part w.disk inode.i_no inode_buf ≡ some inode')
      × (file_read w.disk inode' fd_pos (some io_buf') (some all_blocks') buf' count ≡ some r)
      × (r.result ≡ count)
      × ((a : ℕ) → a < count → r.buf a ≡ buf a)
file_read-write part memory disk inode fd_pos count buf io_buf inode_buf io_buf' buf' all_blocks
      all_blocks' mount known one_sector sized bound ends owned enough =
    let (w, e, wr) =
      file_write_lem part mount memory disk inode fd_pos count buf known (omega arith) bound
        one_sector io_buf all_blocks owned enough in
    let (inode', e', same) = wr.saved inode_buf in
    let (r, e'', back, bytes) = reread wr same io_buf' buf' all_blocks' sized bound ends in
    (w, inode', r, e, e', e'', back, bytes)
