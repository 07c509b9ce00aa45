-- ===== src/Files/Load.antt =====
-- fs/file.c: a block is loaded, or a sector is allocated for it.
use the_one_os.Common.{
  ℕ, suc, ◌+◌, ◌-◌, ◌*◌, ◌^◌, ◌<◌, ◌≤◌, ◌≡◌, ◌≢◌, ◌⊎◌, inl, inr, arith, some, Memory, ap, sym, ◌∙◌,
  refl, update, ℕ_discrete, dec_lt, ==_ne, lt→ltb, ge→ltb, ap₂,
}
use the_one_os.Fs.Alloc.{Partition}
use the_one_os.Files.{
  Disk, Work, disk_read, disk_write, copy_in, bytes_of, allocate_block, add_block,
  load_or_alloc_inode_block,
}
use the_one_os.Files.Sectors.{
  disk_read-at, disk_write-same, disk_write-sector, same_word, word_at-sector, word_at-bytes_of,
}
use the_one_os.Files.Blocks.{
  IsMounted, Blocks, IsTaken, IsOwned, IsListed, IsListed-still, Tracks, content, indirect,
  mapped_content, content-at, owned-bound, taken-positive,
}
use the_one_os.Files.Extend.{new_self, new_other, update-IsOwned}
use the_one_os.Files.Allocate.{room, IsAllocated, allocate_block_lem}

-- Block `idx` has a sector and is in the buffer; the other blocks are as they were.
pub record IsLoaded (part : Partition) (limit idx : ℕ) (blocks blocks' : Blocks) (w w' : Work)
    : Type 0 where
  pub tracks : Tracks part limit blocks' w'
  pub mapped : blocks' idx ≢ 0
  pub kept : (k : ℕ) → k ≤ indirect → (blocks k ≢ 0) ⊎ (k ≢ idx) → blocks' k ≡ blocks k
  pub buffer : (a : ℕ) → a < 512 → w'.io_buf a ≡ content blocks w.disk (idx * 512 + a)
  pub still :
      (k a : ℕ)
      → k < indirect
      → blocks k ≢ 0
      → a < 512
      → w'.disk (blocks k * 512 + a) ≡ w.disk (blocks k * 512 + a)
  pub listed : IsListed blocks w.disk ⊎ ((12 ≤ idx) × (blocks idx ≡ 0)) → IsListed blocks' w'.disk
  pub room_left : room part w.memory ≤ suc (room part w'.memory)

module _ (part : Partition) (mount : IsMounted part) (limit idx : ℕ) (blocks : Blocks) (w : Work)
    (t : Tracks part limit blocks w) (below : idx < limit) where
  -- The step succeeds.
  abbrev pub Loaded : Type 0
  Loaded =
      (blocks' : Blocks) × (w' : Work) × (load_or_alloc_inode_block part idx w ≡ some w')
      × IsLoaded part limit idx blocks blocks' w w'

  small : idx < indirect
  small = ground (arith, t.rooted)

  word : blocks idx < 2 ^ 31
  word = owned-bound part w.memory blocks mount t.owned idx (omega (arith, small))

  load-some :
      blocks idx ≢ 0
      → load_or_alloc_inode_block part idx w
        ≡ some (record w { io_buf = disk_read w.disk (blocks idx) w.io_buf 1 })
  unfolding load_or_alloc_inode_block
  load-some has =
      rw (t.listed idx below, lt→ltb (blocks idx) (2 ^ 31) word, ==_ne (blocks idx) 0 has) refl

  -- A block that has a sector is read.
  load : blocks idx ≢ 0 → Loaded
  load has = (
    blocks,
    record w { io_buf = disk_read w.disk (blocks idx) w.io_buf 1 },
    load-some has,
    record {
      tracks = record {
        owned = t.owned;
        listed = t.listed;
        direct = t.direct;
        last = t.last;
        rooted = t.rooted;
      };
      mapped = has;
      kept = λ k le h. refl;
      buffer = λ a lt.
          disk_read-at w.disk (blocks idx) w.io_buf 1 a (omega arith)
          ∙ sym (mapped_content blocks w.disk idx a lt has);
      still = λ k a lt ne la. refl;
      listed = λ h. elim h [ inl l ↦ l | inr (_, z) ↦ absurd (has z) ];
      room_left = omega arith;
    },
  )

  -- Otherwise a sector is allocated and listed.
  module _ (hole : blocks idx ≡ 0) {m' : Memory} {disk' : Disk} {lba : ℕ}
      (got : IsAllocated part w.memory m' w.disk disk' lba) where
    abbrev new : Blocks
    new = update blocks idx lba

    owned : IsOwned part m' new
    owned = update-IsOwned mount got t.owned idx

    add-still :
        (l a : ℕ)
        → IsTaken part w.memory l
        → l ≢ blocks indirect
        → a < 512
        → (add_block idx w lba m' disk').disk (l * 512 + a) ≡ w.disk (l * 512 + a)
    unfolding add_block
    add-still l a tl ne lt = ground (
      arith,
      t.last,
      got.same_data l a tl.in_data lt,
      disk_write-sector disk' (w.i_sectors 12)
          (bytes_of (λ k. update w.all_blocks idx lba (12 + k))) l a (λ e. ne (e ∙ t.last)) lt,
    )

    tracks' : Tracks part limit new (add_block idx w lba m' disk')
    unfolding add_block
    tracks' = record {
      owned = owned;
      listed = λ k lt. ground (arith, t.listed k lt);
      direct = λ k lt. ground (arith, t.direct k lt);
      last = ground (arith, t.last, small);
      rooted = ground (arith, t.rooted, small, new_other mount got t.owned idx indirect);
    }

    -- After an allocation below block 12 the sector that lists the others is the same.
    direct-IsListed :
        idx < 12 → IsListed blocks w.disk → IsListed new (add_block idx w lba m' disk').disk
    unfolding add_block
    direct-IsListed lt l =
        IsListed-still new w.disk (add_block idx w lba m' disk').disk
          (λ has a la. still (owned.taken indirect (omega arith) has) a la)
          (λ k lo hi. ground (arith, l k lo hi, small))
      where
        still :
            IsTaken part m' (new indirect)
            → (a : ℕ) → a < 512
            → (add_block idx w lba m' disk').disk (new indirect * 512 + a)
              ≡ w.disk (new indirect * 512 + a)
        still tx a la = ground (arith, got.same_data (new indirect) a tx.in_data la)

    -- After one from block 12 on it is written.
    abbrev words : ℕ → ℕ
    words n = update w.all_blocks idx lba (12 + n)

    add-disk :
        12 ≤ idx
        → (add_block idx w lba m' disk').disk ≡ disk_write disk' (w.i_sectors 12) (bytes_of words) 1
    unfolding add_block
    add-disk le = rw (ge→ltb idx 12 le) refl

    written :
        12 ≤ idx
        → (a : ℕ) → a < 512
        → (add_block idx w lba m' disk').disk (new indirect * 512 + a) ≡ bytes_of words a
    written le a la =
        ap₂ (λ d l. d (l * 512 + a)) (add-disk le) last
        ∙ disk_write-same disk' (w.i_sectors 12) (bytes_of words) 1 a (omega arith)
      where
        last : new indirect ≡ w.i_sectors 12
        last = ground (arith, t.last, small)

    indirect-IsListed : 12 ≤ idx → IsListed new (add_block idx w lba m' disk').disk
    indirect-IsListed le k lo hi = ground (
      arith,
      word_at-bytes_of words (k - 12)
          (omega (arith, listed', owned-bound part m' new mount owned k (omega arith))),
      listed',
      t.last,
      t.rooted,
      small,
      word_at-sector (add_block idx w lba m' disk').disk (new indirect) (k - 12),
      same_word (λ a. (add_block idx w lba m' disk').disk (new indirect * 512 + a)) (bytes_of words)
          (k - 12) (omega arith) (written le),
    )
      where
        listed' : update w.all_blocks idx lba (12 + (k - 12)) ≡ new k
        listed' = ground (arith, t.listed k, t.rooted)

    added : load_or_alloc_inode_block part idx w ≡ some (add_block idx w lba m' disk') → Loaded
    unfolding add_block copy_in
    added e = (
      new,
      add_block idx w lba m' disk',
      e,
      record {
        tracks = tracks';
        mapped = λ z.
            taken-positive part m' lba mount got.taken
              (sym (new_self mount got t.owned idx idx refl) ∙ z);
        kept = λ k le h. elim h [
          | inl has ↦ new_other mount got t.owned idx k (λ e. has (ap blocks e ∙ hole))
          | inr ne ↦ new_other mount got t.owned idx k ne
        ];
        buffer = λ a lt. ground (arith, content-at blocks w.disk idx a lt);
        still = λ k a lt has la.
            add-still (blocks k) a (t.owned.taken k (omega arith) has)
              (t.owned.apart k indirect (omega arith) (omega arith) (λ e. absurd (omega arith)) has)
              la;
        listed = λ h. elim h [
          | inl l ↦ elim (dec_lt idx 12) [
            | yes lt ↦ direct-IsListed lt l
            | no ge ↦ indirect-IsListed (omega arith)
          ]
          | inr (le, _) ↦ indirect-IsListed le
        ];
        room_left = omega (arith, got.one_less);
      },
    )

  add-some :
      {lba : ℕ} {m' : Memory} {disk' : Disk}
      → blocks idx ≡ 0
      → allocate_block part w.memory w.disk ≡ some (lba, m', disk')
      → load_or_alloc_inode_block part idx w ≡ some (add_block idx w lba m' disk')
  unfolding load_or_alloc_inode_block
  add-some hole e = rw (t.listed idx below, hole, e) refl

  -- load_or_alloc_inode_block gives block `idx` a sector if it has none, and reads it into the buffer.
  pub load_or_alloc_lem : 0 < room part w.memory → Loaded
  load_or_alloc_lem enough = elim (ℕ_discrete (blocks idx) 0) [
    | no has ↦ load has
    | yes hole ↦
        let (lba, m', disk', e, got) =
          allocate_block_lem part w.memory w.disk mount t.owned.bytes enough in
        added hole got (add-some hole e)
  ]
