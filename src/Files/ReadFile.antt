-- ===== src/Files/ReadFile.antt =====
-- fs/file.c: file_read gives the bytes of the file.
use the_one_os.Common.{
  ℕ, zero, suc, ◌+◌, ◌-◌, ◌*◌, ◌/◌, ◌%◌, ◌<◌, ◌≤◌, ◌≡◌, ◌≢◌, ◌⊎◌, inl, inr, true, false, some, ◌==◌,
  ltb, arith, if◌then◌else◌, add32, sub32, word_size, min, ap, sym, ◌∙◌, refl, ℕ_discrete, ge→ltb,
  ==_ne,
}
use the_one_os.Files.{Disk, Buffer, Inode, disk_read}
use the_one_os.Files.Sectors.{disk_read-at, copy_in-at}
use the_one_os.Files.Blocks.{Blocks, blocks_of, content, mapped_content}
use the_one_os.Files.Read.{
  list_blocks, Buffers, read_block, read_blocks, read_sectors, FileRead, file_read,
}

-- The first `done` bytes of `buf'` are those of the file from `fd_pos` on.
abbrev HasRead : (ℕ → ℕ) → ℕ → Buffer → ℕ → Buffer → Type 0
HasRead bytes fd_pos buf done buf' =
    (a : ℕ) → buf' a ≡ (if ltb a done then bytes (fd_pos + a) else buf a)

module _ (disk : Disk) (blocks : Blocks) (list : ℕ → ℕ) (fd_pos : ℕ) (buf : Buffer) where
  abbrev bytes : ℕ → ℕ
  bytes = content blocks disk

  read_block_lem :
      (idx off size done : ℕ) (b : Buffers) {total : ℕ}
      → done + size ≡ total
      → HasRead bytes fd_pos buf done b.buf
      → fd_pos + done ≡ idx * 512 + off
      → off + size ≤ 512
      → (0 < size → (list idx ≡ blocks idx) × (blocks idx ≢ 0))
      → HasRead bytes fd_pos buf total (read_block disk (list idx) off size done b).buf
  unfolding read_block
  read_block_lem idx off size done b sum h at fits has a =
      copy_in-at b.buf done (λ a. disk_read disk (list idx) b.io_buf 1 (off + a)) size a
      ∙ ground (arith, h a, read_byte)
    where
      read_byte :
          done ≤ a
          → a < done + size
          → disk_read disk (list idx) b.io_buf 1 (off + (a - done)) ≡ bytes (fd_pos + a)
      read_byte le lt =
          disk_read-at disk (list idx) b.io_buf 1 (off + (a - done)) (omega arith)
          ∙ ap (λ l. disk (l * 512 + (off + (a - done)))) (has (omega arith)).0
          ∙ sym (
              mapped_content blocks disk idx (off + (a - done)) (omega arith) (has (omega arith)).1)
          ∙ ap bytes (omega (arith, at))

  read_blocks_lem :
      (rounds idx done : ℕ) (b : Buffers)
      → HasRead bytes fd_pos buf done b.buf
      → fd_pos + done ≡ idx * 512
      → ((k : ℕ) → idx ≤ k → k < idx + rounds → (list k ≡ blocks k) × (blocks k ≢ 0))
      → HasRead bytes fd_pos buf (done + rounds * 512) (read_blocks disk list rounds idx done b).buf
  unfolding read_blocks
  read_blocks_lem zero idx done b h at has a = ground (arith, h a)
  read_blocks_lem (suc rounds) idx done b h at has a =
      read_blocks_lem rounds (idx + 1) (done + 512) (read_block disk (list idx) 0 512 done b)
        (read_block_lem idx 0 512 done b refl h (omega (arith, at)) (omega arith)
          (λ p. has idx (omega arith) (omega arith)))
        (omega (arith, at)) (λ k lo hi. has k (omega arith) (omega arith)) a
      ∙ ground arith

  module _ (size : ℕ) (pos : 0 < size) (bound : fd_pos + size < 512 * 140)
      (has : (k : ℕ)
        → fd_pos / 512 ≤ k
        → k * 512 < fd_pos + size
        → (list k ≡ blocks k) × (blocks k ≢ 0))
      (io_buf : Buffer) where
    abbrev begin : Buffers
    begin = record { io_buf = io_buf; buf = buf }

    abbrev many_buffers : Buffers
    many_buffers =
        let start = fd_pos / 512 in
        let end = (fd_pos + size) / 512 in
        let head = 512 - fd_pos % 512 in
        let rounds = end - (start + 1) in
        read_block disk (list end) 0 ((fd_pos + size) % 512) (head + rounds * 512) (
          read_blocks disk list rounds (start + 1) head
            (read_block disk (list start) (fd_pos % 512) head 0 begin))

    many : fd_pos / 512 < (fd_pos + size) / 512 → HasRead bytes fd_pos buf size many_buffers.buf
    many more a =
        let start = fd_pos / 512 in
        let end = (fd_pos + size) / 512 in
        let head = 512 - fd_pos % 512 in
        let whole = head + (end - (start + 1)) * 512 in
        let first = read_block disk (list start) (fd_pos % 512) head 0 begin in
        let middle = read_blocks disk list (end - (start + 1)) (start + 1) head first in
        read_block_lem end 0 ((fd_pos + size) % 512) whole middle refl
          (read_blocks_lem (end - (start + 1)) (start + 1) head first
            (read_block_lem start (fd_pos % 512) head 0 begin (omega arith) (λ a. ground arith)
              (omega arith) (omega arith) (λ p. has start (omega arith) (omega arith)))
            (omega arith) (λ k lo hi. has k (omega arith) (omega arith)))
          (omega arith) (omega arith) (λ p. has end (omega arith) (omega arith)) a
        ∙ ap (λ n. if ltb a n then bytes (fd_pos + a) else buf a) (omega arith)

    -- read_sectors reads `size` bytes.
    read_sectors_lem :
        (b : Buffers) × (read_sectors disk list fd_pos size begin ≡ (size, b))
        × HasRead bytes fd_pos buf size b.buf
    unfolding read_sectors
    read_sectors_lem =
        let no_wrap : add32 fd_pos size ≡ fd_pos + size = omega arith in
        elim (ℕ_discrete (fd_pos / 512) ((fd_pos + size) / 512)) [
          | yes same ↦ (
            read_block disk (list (fd_pos / 512)) (fd_pos % 512) size 0 begin,
            rw (no_wrap, test_true (fd_pos / 512) ((fd_pos + size) / 512) same) refl,
            read_block_lem (fd_pos / 512) (fd_pos % 512) size 0 begin (omega arith)
                (λ a. ground arith) (omega arith) (omega arith)
                (λ p. has (fd_pos / 512) (omega arith) (omega arith)),
          )
          | no ne ↦ (
            many_buffers,
            rw (no_wrap, ==_ne (fd_pos / 512) ((fd_pos + size) / 512) ne)
                (ap (λ n. (n, many_buffers)) (omega (arith, ne))),
            many (omega (arith, ne)),
          )
        ]
      where
        test_true : (a b : ℕ) → a ≡ b → (a == b) ≡ true
        test_true a b e = ground arith

listed :
    (disk : Disk) (i_sectors all_blocks : ℕ → ℕ) (end k : ℕ)
    → end < 512 * 140
    → (end < 12 * 512) ⊎ (13 * 512 ≤ end)
    → k * 512 < end
    → list_blocks disk i_sectors all_blocks (end / 512) k ≡ blocks_of disk i_sectors k
unfolding list_blocks blocks_of
listed disk i_sectors all_blocks end k bound ends hi = elim ends [
  | inl le ↦ ground arith
  | inr ge ↦ ground arith
]

-- What file_read gives: the bytes from `fd_pos` on, no more of them than the file has.
abbrev pub bytes_left : Inode → ℕ → ℕ → ℕ
bytes_left inode fd_pos count = min count (inode.i_size - fd_pos)

module _ (disk : Disk) (inode : Inode) (fd_pos : ℕ) (io_buf : Buffer) (all_blocks : ℕ → ℕ)
    (buf : Buffer) (count size : ℕ) (start : fd_pos ≤ inode.i_size)
    (sized : (if ltb inode.i_size (add32 fd_pos count) then sub32 inode.i_size fd_pos else count)
      ≡ size) where
  file_read-none :
      size ≡ 0
      → file_read disk inode fd_pos (some io_buf) (some all_blocks) buf count
        ≡ some (record { result = 0; fd_pos = fd_pos; buf = buf })
  unfolding file_read
  file_read-none z = rw (sized, ge→ltb inode.i_size fd_pos start, z) refl

  file_read-some :
      (b : Buffers)
      → size ≢ 0
      → add32 fd_pos size ≡ fd_pos + size
      → ((fd_pos + size) / 512 == 12) ≡ false
      → read_sectors disk
          (list_blocks disk inode.i_sectors all_blocks ((fd_pos + size) / 512))
          fd_pos
          size
          (record { io_buf = io_buf; buf = buf })
        ≡ (size, b)
      → file_read disk inode fd_pos (some io_buf) (some all_blocks) buf count
        ≡ some (record { result = size; fd_pos = fd_pos + size; buf = b.buf })
  unfolding file_read
  file_read-some b some_left end written e =
      rw (sized, ge→ltb inode.i_size fd_pos start, ==_ne size 0 some_left, end, written, e, end)
        refl

-- At a position inside the file or at its end, file_read puts the bytes of the file from there on, `count`
-- of them or as many as are left, at the front of the reader's buffer, leaves the rest of it, returns
-- their number and moves the position by it, whatever the new buffers held. The file is below the
-- greatest size, every block that is read has a sector, the read ends before block 12 or behind it, and the
-- position and `count` add up to a word.
pub file_read_lem :
    (disk : Disk) (inode : Inode) (fd_pos : ℕ) (io_buf : Buffer) (all_blocks : ℕ → ℕ) (buf : Buffer)
    (count : ℕ)
    → let size = bytes_left inode fd_pos count in
      fd_pos ≤ inode.i_size
      → inode.i_size < 512 * 140
      → fd_pos + count < word_size
      → (fd_pos + size < 12 * 512) ⊎ (13 * 512 ≤ fd_pos + size)
      → ((k : ℕ)
          → fd_pos / 512 ≤ k
          → k * 512 < fd_pos + size
          → blocks_of disk inode.i_sectors k ≢ 0)
      → (r : FileRead) × (file_read disk inode fd_pos (some io_buf) (some all_blocks) buf count
          ≡ some r)
        × (r.result ≡ size)
        × (r.fd_pos ≡ fd_pos + size)
        × ((a : ℕ)
            → r.buf a ≡ (
                if ltb a size
                then content (blocks_of disk inode.i_sectors) disk (fd_pos + a)
                else buf a))
file_read_lem disk inode fd_pos io_buf all_blocks buf count start bound no_wrap ends mapped =
    let size = bytes_left inode fd_pos count in
    let end : add32 fd_pos size ≡ fd_pos + size = omega arith in
    let sized : (if ltb inode.i_size (add32 fd_pos count) then sub32 inode.i_size fd_pos else count)
        ≡ size =
      ground arith in
    elim (ℕ_discrete size 0) [
      | yes z ↦ (
        record { result = 0; fd_pos = fd_pos; buf = buf },
        file_read-none disk inode fd_pos io_buf all_blocks buf count size start sized z,
        sym z,
        omega (arith, z),
        λ a. ground (arith, z),
      )
      | no some_left ↦
          let list = list_blocks disk inode.i_sectors all_blocks ((fd_pos + size) / 512) in
          let (b, e, h) =
            read_sectors_lem disk (blocks_of disk inode.i_sectors) list fd_pos buf size
              (omega (arith, some_left)) (omega arith)
              (λ k lo hi. (
                listed disk inode.i_sectors all_blocks (fd_pos + size) k (omega arith) ends hi,
                mapped k lo hi,
              ))
              io_buf in
          (
            record { result = size; fd_pos = fd_pos + size; buf = b.buf },
            file_read-some disk inode fd_pos io_buf all_blocks buf count size start sized b
                some_left end (ground (arith, ends)) e,
            refl,
            refl,
            h,
          )
    ]
