-- ===== src/Files/Sync.antt =====
-- fs/inode.c: the inodes on the disk.
use the_one_os.Common.{
  ℕ, suc, ◌+◌, ◌-◌, ◌*◌, ◌<◌, ◌≤◌, ◌≡◌, false, not, some, ◌==◌, ltb, leb, ◌&&◌, arith,
  if◌then◌else◌, word_size, ap, ◌∙◌, refl, lt→ltb,
}
use the_one_os.Fs.{inode_locate}
use the_one_os.Fs.Layout.{IsLaidOut, inode_locate_lem}
use the_one_os.Fs.Alloc.{Partition}
use the_one_os.Files.{
  Disk, Buffer, Inode, disk_read, disk_write, copy_in, byte_of, bytes_of, word_at, inode_word,
  synced, inode_delete, inode_at, inode_open,
}
use the_one_os.Files.Sectors.{word_at-bytes, disk_read-at, bytes_of-at}

-- Sectors that are read, changed at `off` and written again.
patched :
    (disk : Disk) (lba off n : ℕ) (b src : Buffer) (x : ℕ)
    → off + 76 ≤ n * 512
    → disk_write disk lba (copy_in (disk_read disk lba b n) off src 76) n x ≡ (
        if leb (lba * 512 + off) x && ltb x (lba * 512 + off + 76)
        then src (x - (lba * 512 + off))
        else disk x)
unfolding disk_write copy_in disk_read
patched disk lba off n b src x fits = ground (arith, ap src minus, back)
  where
    minus : x - lba * 512 - off ≡ x - (lba * 512 + off)
    minus = omega arith

    back : lba * 512 ≤ x → disk (lba * 512 + (x - lba * 512)) ≡ disk x
    back le = ap disk (omega arith)

-- The address of an inode on the disk.
abbrev pub place : Partition → ℕ → ℕ
place part n = part.sb.inode_table_lba * 512 + n * 76

module _ (part : Partition) (laid_out : IsLaidOut part.sb) (disk : Disk) where
  lba_of : ℕ → ℕ
  lba_of n = (inode_locate part.sb n).sec_lba

  off_of : ℕ → ℕ
  off_of n = (inode_locate part.sb n).sec_offset

  cnt_of : ℕ → ℕ
  cnt_of n = if (inode_locate part.sb n).cross_sector then 2 else 1

  module _ (n : ℕ) (lt : n < part.sb.inode_cnt) where
    where_is : lba_of n * 512 + off_of n ≡ place part n
    unfolding lba_of off_of
    where_is = (inode_locate_lem part.sb n laid_out lt).0

    inside : off_of n + 76 ≤ cnt_of n * 512
    unfolding cnt_of off_of
    inside = ground (arith, inode_locate_lem part.sb n laid_out lt)

  at_place :
      (n x : ℕ) (b src : Buffer)
      → n < part.sb.inode_cnt
      → disk_write disk
          (lba_of n)
          (copy_in (disk_read disk (lba_of n) b (cnt_of n)) (off_of n) src 76)
          (cnt_of n)
          x
        ≡ (if leb (place part n) x && ltb x (place part n + 76)
            then src (x - place part n)
            else disk x)
  at_place n x b src lt =
      patched disk (lba_of n) (off_of n) (cnt_of n) b src x (inside n lt)
      ∙ ap (λ p. if leb p x && ltb x (p + 76) then src (x - p) else disk x) (where_is n lt)

  -- What inode_sync and inode_delete write changes the bytes of the inode and no other.
  pub synced-at :
      (inode : Inode) (io_buf : Buffer) (x : ℕ)
      → inode.i_no < part.sb.inode_cnt
      → synced part disk inode io_buf x ≡ (
          if leb (place part inode.i_no) x && ltb x (place part inode.i_no + 76)
          then bytes_of (inode_word inode) (x - place part inode.i_no)
          else disk x)
  unfolding synced lba_of off_of cnt_of
  synced-at inode io_buf x lt = at_place inode.i_no x io_buf (bytes_of (inode_word inode)) lt

  pub inode_delete-at :
      (n : ℕ) (io_buf : Buffer) (x : ℕ)
      → n < part.sb.inode_cnt
      → inode_delete part disk n io_buf x
        ≡ (if leb (place part n) x && ltb x (place part n + 76) then 0 else disk x)
  unfolding inode_delete lba_of off_of cnt_of
  inode_delete-at n io_buf x lt = at_place n x io_buf (λ a. 0) lt

  -- What inode_open copies the inode from.
  pub opened :
      (n : ℕ) (b : Buffer)
      → n < part.sb.inode_cnt
      → (buf : Buffer) × (offset : ℕ) × (inode_open part disk n b ≡ some (inode_at buf offset))
        × ((a : ℕ) → a < 76 → buf (offset + a) ≡ disk (place part n + a))
  unfolding inode_open lba_of off_of cnt_of
  opened n b lt = (
    disk_read disk (lba_of n) b (cnt_of n),
    off_of n,
    rw (lt→ltb n 4096 (omega (arith, lt, laid_out.few_inodes))) refl,
    λ a la.
        disk_read-at disk (lba_of n) b (cnt_of n) (off_of n + a) (omega (arith, inside n lt))
        ∙ ap disk (omega (arith, where_is n lt)),
  )

-- An inode with the numbers of another one, opened once, and not denied to writers.
pub record IsReopened (inode inode' : Inode) : Type 0 where
  pub i_no : inode'.i_no ≡ inode.i_no
  pub i_size : inode'.i_size ≡ inode.i_size
  pub i_open_cnt : inode'.i_open_cnt ≡ 1
  pub write_deny : inode'.write_deny ≡ false
  pub i_sectors : (k : ℕ) → k < 13 → inode'.i_sectors k ≡ inode.i_sectors k

-- The numbers of an inode are words.
pub record IsInode (inode : Inode) : Type 0 where
  pub i_no : inode.i_no < 4096
  pub i_size : inode.i_size < word_size
  pub i_sectors : (k : ℕ) → k < 13 → inode.i_sectors k < word_size

module _ (inode : Inode) (v : IsInode inode) (buf : Buffer) (offset : ℕ)
    (same : (a : ℕ) → a < 76 → buf (offset + a) ≡ bytes_of (inode_word inode) a) where
  word-of :
      (x k w : ℕ)
      → x ≡ offset + 4 * k
      → k < 19
      → inode_word inode k ≡ w
      → w < word_size
      → word_at buf x ≡ w
  word-of x k w at lt e small = word_at-bytes buf x w small (λ j lj.
      ap buf (omega (arith, at))
      ∙ same (4 * k + j) (omega arith)
      ∙ bytes_of-at (inode_word inode) k j lj
      ∙ ap (λ n. byte_of n j) e)

  reopened : IsReopened inode (inode_at buf offset)
  unfolding inode_at inode_word byte_of
  reopened = record {
    i_no = word-of offset 0 inode.i_no (omega arith) (omega arith) refl (omega (arith, v.i_no));
    i_size = word-of (offset + 4) 1 inode.i_size (omega arith) (omega arith) refl v.i_size;
    i_open_cnt = refl;
    write_deny =
        ap (λ w. not (w == 0))
          (word-of (offset + 12) 3 0 (omega arith) (omega arith) refl (omega arith));
    i_sectors = λ k lt.
        word-of (offset + (16 + 4 * k)) (4 + k) (inode.i_sectors k) (omega arith) (omega arith)
          (word k lt) (v.i_sectors k lt);
  }
    where
      word : (k : ℕ) → k < 13 → inode_word inode (4 + k) ≡ inode.i_sectors k
      word k lt =
          let e : 4 + k ≡ suc (suc (suc (suc k))) = omega arith in
          ap (inode_word inode) e ∙ ground (arith, lt)

-- An inode that inode_sync has written is read back by inode_open, whatever the buffers held.
pub inode_open-sync :
    (part : Partition) (disk : Disk) (inode : Inode) (io_buf inode_buf : Buffer)
    → IsLaidOut part.sb
    → IsInode inode
    → (inode' : Inode) × (inode_open part (synced part disk inode io_buf) inode.i_no inode_buf
        ≡ some inode')
      × IsReopened inode inode'
inode_open-sync part disk inode io_buf inode_buf laid_out v =
    let lt : inode.i_no < part.sb.inode_cnt = omega (arith, v.i_no, laid_out.few_inodes) in
    let (buf, offset, e, same) =
      opened part laid_out (synced part disk inode io_buf) inode.i_no inode_buf lt in
    (
      inode_at buf offset,
      e,
      reopened inode v buf offset (λ a la.
          same a la
          ∙ synced-at part laid_out disk inode io_buf (place part inode.i_no + a) lt
          ∙ ground (arith, ap (bytes_of (inode_word inode)) (back a))),
    )
  where
    back : (a : ℕ) → place part inode.i_no + a - place part inode.i_no ≡ a
    back a = omega arith
