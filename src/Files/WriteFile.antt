-- ===== src/Files/WriteFile.antt =====
-- fs/file.c: file_write as a change of the bytes of the file.
use the_one_os.Common.{
  ℕ, ◌+◌, ◌-◌, ◌*◌, ◌/◌, ◌%◌, ◌<◌, ◌≤◌, ◌≡◌, ◌≢◌, inl, inr, false, some, arith, Memory, add32,
  word_size, max, ap, sym, ◌∙◌, refl, ℕ_discrete, subst, ge→ltb,
}
use the_one_os.Fs.{sector_size, inode_locate}
use the_one_os.Fs.Alloc.{Partition}
use the_one_os.Files.{Disk, Buffer, Inode, Work, synced, inode_sync, inode_open, word_at}
use the_one_os.Files.Blocks.{
  IsMounted, Blocks, IsTaken, IsOwned, IsListed, IsListed-still, Tracks, blocks_of, content,
  indirect, owned-bound,
}
use the_one_os.Files.Allocate.{room}
use the_one_os.Files.Step.{overwrite, IsWritten}
use the_one_os.Files.Sync.{synced-at, IsReopened, inode_open-sync}
use the_one_os.Files.Prepare.{load_indirect_lem, IsReady}
use the_one_os.Files.Span.{write_sectors_lem}
use the_one_os.Files.Write.{
  FileWritten, file_write, end_write, new_inode, file_written, begin_write, load_indirect,
  write_sectors,
}

IsOwned-same :
    {part : Partition} {m : Memory} {blocks blocks' : Blocks}
    → ((k : ℕ) → k ≤ indirect → blocks' k ≡ blocks k)
    → IsOwned part m blocks
    → IsOwned part m blocks'
IsOwned-same {part} {m} h o = record {
  bytes = o.bytes;
  taken = λ k le has.
      subst (λ l. IsTaken part m l) (sym (h k le)) (o.taken k le (λ z. has (h k le ∙ z)));
  apart = λ j k lj lk ne has e.
      o.apart j k lj lk ne (λ z. has (h j lj ∙ z)) (sym (h j lj) ∙ e ∙ h k lk);
}

pub content-same :
    (blocks blocks' : Blocks) (disk disk' : Disk) (i : ℕ)
    → blocks' (i / 512) ≡ blocks (i / 512)
    → (blocks (i / 512) ≢ 0
        → disk' (blocks (i / 512) * 512 + i % 512) ≡ disk (blocks (i / 512) * 512 + i % 512))
    → content blocks' disk' i ≡ content blocks disk i
unfolding content
content-same blocks blocks' disk disk' i e h = elim (ℕ_discrete (blocks (i / 512)) 0) [
  | yes z ↦ ground (arith, e)
  | no has ↦ ground (arith, e, ap (λ l. disk' (l * 512 + i % 512)) e ∙ h has)
]

-- The file after a write: `count` bytes of `buf` at `fd_pos`.
pub record IsFileWritten (part : Partition) (disk : Disk) (inode : Inode) (fd_pos : ℕ)
    (buf : Buffer) (count : ℕ) (r : FileWritten) : Type 0 where
  pub result : r.result ≡ count
  pub new_pos : r.fd_pos ≡ fd_pos + count
  pub same_no : r.inode.i_no ≡ inode.i_no
  pub size : r.inode.i_size ≡ max inode.i_size (fd_pos + count)
  pub saved :
      (inode_buf : Buffer)
      → (inode' : Inode) × (inode_open part r.disk inode.i_no inode_buf ≡ some inode')
        × IsReopened r.inode inode'
  pub owned : IsOwned part r.memory (blocks_of r.disk r.inode.i_sectors)
  pub mapped :
      (k : ℕ)
      → fd_pos / 512 ≤ k
      → k ≤ (fd_pos + count) / 512
      → blocks_of r.disk r.inode.i_sectors k ≢ 0
  pub bytes :
      (i : ℕ)
      → i < indirect * 512
      → content (blocks_of r.disk r.inode.i_sectors) r.disk i
        ≡ overwrite (content (blocks_of disk inode.i_sectors) disk) fd_pos buf count i

-- The inode is written where no file has its bytes.
sync-data :
    (part : Partition) (mount : IsMounted part) (disk : Disk) (inode : Inode) (io_buf : Buffer)
    → inode.i_no < 4096
    → (l a : ℕ) → part.sb.data_start_lba ≤ l
    → a < 512
    → synced part disk inode io_buf (l * 512 + a) ≡ disk (l * 512 + a)
sync-data part mount disk inode io_buf lt l a le la =
    let laid_out = mount.laid_out in
    ground (
      arith,
      synced-at part laid_out disk inode io_buf (l * 512 + a) (omega (arith, laid_out.few_inodes)),
      laid_out.few_inodes,
      laid_out.inode_room,
      laid_out.data_behind,
    )

-- The blocks that the inode and the disk give at the end are those that the loops kept.
final_blocks :
    (part : Partition) (mount : IsMounted part) {limit : ℕ} {blocks : Blocks} {w : Work}
    (disk' : Disk)
    → Tracks part limit blocks w
    → IsListed blocks w.disk
    → ((l a : ℕ)
        → part.sb.data_start_lba ≤ l
        → a < 512
        → disk' (l * 512 + a) ≡ w.disk (l * 512 + a))
    → (k : ℕ) → k ≤ indirect
    → blocks_of disk' w.i_sectors k ≡ blocks k
unfolding blocks_of
final_blocks part mount {limit} {blocks} {w} disk' t listed still k le = ground (
  arith,
  t.direct k,
  t.last,
  IsListed-still blocks w.disk disk'
      (λ has a la. still (blocks indirect) a (t.owned.taken indirect (omega arith) has).in_data la)
      listed k,
  ap (λ l. word_at disk' (l * sector_size + 4 * (k - 12))) t.last,
)

module _ (part : Partition) (mount : IsMounted part) (memory : Memory) (disk : Disk) (inode : Inode)
    (fd_pos count : ℕ) (buf : Buffer) (known : inode.i_no < 4096) (sized : inode.i_size < word_size)
    (bound : fd_pos + count < 512 * 140)
    (one_sector : (inode_locate part.sb inode.i_no).cross_sector ≡ false) where
  abbrev ended_with : Work → FileWritten
  ended_with w =
      file_written inode fd_pos count w
        (synced part w.disk (new_inode inode fd_pos count w) w.io_buf)

  end_write-some : (w : Work) → end_write part inode fd_pos count w ≡ some (ended_with w)
  unfolding end_write inode_sync
  end_write-some w = rw one_sector refl

  module _ {limit : ℕ} {blocks1 blocks2 : Blocks} {w1 w2 : Work}
      (ready : IsReady part limit
        ((fd_pos + count) / 512)
        (blocks_of disk inode.i_sectors)
        blocks1
        disk
        memory
        w1)
      (wr : IsWritten part limit fd_pos count buf
        (fd_pos / 512)
        ((fd_pos + count) / 512 + 1)
        blocks1
        blocks2
        w1
        w2) where
    abbrev r : FileWritten
    r = ended_with w2

    listed : IsListed blocks2 w2.disk
    listed = elim ready.listed [
      | inl l ↦ wr.listed l
      | inr (ge, z) ↦ wr.lists ((fd_pos + count) / 512) (omega arith) (omega arith) ge z
    ]

    still :
        (l a : ℕ)
        → part.sb.data_start_lba ≤ l
        → a < 512
        → r.disk (l * 512 + a) ≡ w2.disk (l * 512 + a)
    still l a le la = sync-data part mount w2.disk r.inode w2.io_buf known l a le la

    blocks-r : (k : ℕ) → k ≤ indirect → blocks_of r.disk r.inode.i_sectors k ≡ blocks2 k
    blocks-r = final_blocks part mount r.disk wr.tracks listed still

    ended : IsFileWritten part disk inode fd_pos buf count r
    ended = record {
      result = refl;
      new_pos = omega arith;
      same_no = refl;
      size = ground arith;
      saved = λ inode_buf.
          inode_open-sync part w2.disk r.inode w2.io_buf inode_buf mount.laid_out
            (record { i_no = known; i_size = ground arith; i_sectors = sector });
      owned = IsOwned-same blocks-r wr.tracks.owned;
      mapped = λ k lo hi z. wr.mapped k lo (omega arith) (sym (blocks-r k (omega arith)) ∙ z);
      bytes = λ i lt.
          content-same blocks2 (blocks_of r.disk r.inode.i_sectors) w2.disk r.disk i
            (blocks-r (i / 512) (omega arith))
            (λ has.
              still (blocks2 (i / 512)) (i % 512)
                (wr.tracks.owned.taken (i / 512) (omega arith) has).in_data (omega arith))
          ∙ wr.bytes i lt
          ∙ ground (arith, ready.bytes i lt);
    }
      where
        sector : (k : ℕ) → k < 13 → r.inode.i_sectors k < word_size
        sector k lt = ground (
          arith,
          wr.tracks.direct k,
          wr.tracks.last,
          owned-bound part w2.memory blocks2 mount wr.tracks.owned k,
          owned-bound part w2.memory blocks2 mount wr.tracks.owned indirect,
        )

  file_write-some :
      (b : Buffer) (all_blocks : ℕ → ℕ) (w1 w2 : Work)
      → load_indirect part
          ((fd_pos + count) / 512)
          (begin_write disk memory inode.i_sectors all_blocks b)
        ≡ some w1
      → write_sectors part fd_pos buf count w1 ≡ some (count, w2)
      → file_write part memory disk inode fd_pos (some b) all_blocks buf count
        ≡ end_write part inode fd_pos count w2
  unfolding file_write
  file_write-some b all_blocks w1 w2 e1 e2 =
      let no_wrap : add32 fd_pos count ≡ fd_pos + count = omega arith in
      rw (no_wrap, ge→ltb (512 * 140) (fd_pos + count) (omega arith), e1, e2) refl

  -- On a mounted partition, for an inode that owns its sectors and lies in one sector of the table, as the
  -- buffer of file_write has room for no more, file_write succeeds when the
  -- end of the write is below the greatest size and the bitmap has a clear bit for each block of the
  -- write and one more. The file then has the bytes of `buf` at the position, whatever blocks it had
  -- before, and its other bytes as they were; it owns its sectors, its size and the position have moved
  -- on, and inode_open reads the new inode from the disk.
  pub file_write_lem :
      (b : Buffer) (all_blocks : ℕ → ℕ)
      → IsOwned part memory (blocks_of disk inode.i_sectors)
      → (fd_pos + count) / 512 + 1 < fd_pos / 512 + room part memory
      → (r : FileWritten) × (file_write part memory disk inode fd_pos (some b) all_blocks buf count
          ≡ some r)
        × IsFileWritten part disk inode fd_pos buf count r
  file_write_lem b all_blocks owned enough =
      let (limit, blocks1, w1, e1, ready) =
        load_indirect_lem part mount memory disk inode.i_sectors all_blocks b owned
          ((fd_pos + count) / 512) (omega arith) (omega arith) in
      let (blocks2, w2, e2, wr) =
        write_sectors_lem mount buf ready.tracks fd_pos count ready.reached
          (omega (arith, ready.room_left)) in
      (ended_with w2, file_write-some b all_blocks w1 w2 e1 e2 ∙ end_write-some w2, ended ready wr)
