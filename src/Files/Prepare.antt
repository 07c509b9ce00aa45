-- ===== src/Files/Prepare.antt =====
-- fs/file.c: file_write reads the list of blocks.
use the_one_os.Common.{
  ℕ, suc, ◌+◌, ◌-◌, ◌*◌, ◌/◌, ◌%◌, ◌<◌, ◌≤◌, ◌≡◌, ◌≢◌, ◌⊎◌, inl, inr, ◌&&◌, some, ltb, leb, arith,
  if◌then◌else◌, update, Memory, dec_lt, ℕ_discrete, ap, ◌∙◌, refl, ge→ltb,
}
use the_one_os.Fs.{sector_size}
use the_one_os.Fs.Alloc.{Partition}
use the_one_os.Files.{Disk, Buffer, Work, word_at, allocate_block}
use the_one_os.Files.Blocks.{
  IsMounted, Blocks, IsOwned, IsListed, Tracks, blocks_of, content, indirect, taken-positive,
}
use the_one_os.Files.Extend.{update-IsOwned}
use the_one_os.Files.Allocate.{room, IsAllocated, allocate_block_lem}
use the_one_os.Files.Write.{begin_write, load_indirect}

-- The list of the blocks is ready for a write up to sector `end_sec`.
pub record IsReady (part : Partition) (limit end_sec : ℕ) (blocks blocks' : Blocks) (disk : Disk)
    (memory : Memory) (w : Work) : Type 0 where
  pub tracks : Tracks part limit blocks' w
  pub reached : end_sec < limit
  pub same : (k : ℕ) → k < indirect → blocks' k ≡ blocks k
  pub bytes : (i : ℕ) → i < indirect * 512 → content blocks' w.disk i ≡ content blocks disk i
  pub listed : IsListed blocks' w.disk ⊎ ((12 ≤ end_sec) × (blocks' end_sec ≡ 0))
  pub room_left : room part memory ≤ suc (room part w.memory)

module _ (part : Partition) (mount : IsMounted part) (memory : Memory) (disk : Disk)
    (i_sectors all_blocks : ℕ → ℕ) (io_buf : Buffer)
    (owned : IsOwned part memory (blocks_of disk i_sectors)) (end_sec : ℕ)
    (bound : end_sec < indirect) where
  abbrev w : Work
  w = begin_write disk memory i_sectors all_blocks io_buf

  abbrev blocks : Blocks
  blocks = blocks_of disk i_sectors

  blocks-IsListed : IsListed blocks disk
  unfolding blocks_of
  blocks-IsListed k lo hi = ground arith

  -- The step succeeds.
  abbrev pub Ready : Type 0
  Ready =
      (limit : ℕ) × (blocks' : Blocks) × (w' : Work) × (load_indirect part end_sec w ≡ some w')
      × IsReady part limit end_sec blocks blocks' disk memory w'

  direct : end_sec < 12 → Ready
  unfolding load_indirect begin_write blocks_of
  direct lt = (
    12,
    blocks,
    w,
    ground arith,
    record {
      tracks = record {
        owned = owned;
        listed = λ k lt. ground arith;
        direct = λ k lt. ground arith;
        last = ground arith;
        rooted = inl refl;
      };
      reached = lt;
      same = λ k lt. refl;
      bytes = λ i lt. refl;
      listed = inl blocks-IsListed;
      room_left = omega arith;
    },
  )

  has_list : 12 ≤ end_sec → i_sectors 12 ≢ 0 → Ready
  unfolding load_indirect begin_write blocks_of
  has_list ge has = (
    indirect,
    blocks,
    record w {
      all_blocks = λ k.
          if leb 12 k && ltb k 140
          then word_at disk (i_sectors 12 * sector_size + 4 * (k - 12))
          else w.all_blocks k;
    },
    ground arith,
    record {
      tracks = record {
        owned = owned;
        listed = λ k lt. ground arith;
        direct = λ k lt. ground arith;
        last = ground arith;
        rooted = inr (refl, has);
      };
      reached = bound;
      same = λ k lt. refl;
      bytes = λ i lt. refl;
      listed = inl blocks-IsListed;
      room_left = omega arith;
    },
  )

  -- A file without a list gets a sector for one.
  module _ (ge : 12 ≤ end_sec) (lacks : i_sectors 12 ≡ 0) {m' : Memory} {disk' : Disk} {lba : ℕ}
      (got : IsAllocated part memory m' disk disk' lba) where
    abbrev new : Blocks
    new = update blocks indirect lba

    abbrev begun : Work
    begun = record w {
      disk = disk';
      memory = m';
      i_sectors = update i_sectors 12 lba;
      all_blocks = λ k. if leb 12 k && ltb k 140 then 0 else w.all_blocks k;
    }

    old : (k : ℕ) → k < indirect → new k ≡ blocks k
    old k lt = ground arith

    empty : (k : ℕ) → 12 ≤ k → k ≤ indirect → blocks k ≡ 0
    unfolding blocks_of
    empty k lo hi = ground arith

    lba_mapped : lba ≢ 0
    lba_mapped = taken-positive part m' lba mount got.taken

    new-IsOwned : IsOwned part m' new
    new-IsOwned = update-IsOwned mount got owned indirect

    new-bytes : (i : ℕ) → i < indirect * 512 → content new disk' i ≡ content blocks disk i
    unfolding content
    new-bytes i lt = elim (ℕ_discrete (blocks (i / 512)) 0) [
      | yes z ↦ ground (arith, old (i / 512))
      | no has ↦ ground (
        arith,
        old (i / 512),
        ap (λ l. disk' (l * 512 + i % 512)) (old (i / 512) (omega arith))
            ∙ got.same_data (blocks (i / 512)) (i % 512)
                (owned.taken (i / 512) (omega arith) has).in_data (omega arith),
      )
    ]

    lacks_list : load_indirect part end_sec w ≡ some begun → Ready
    unfolding begin_write blocks_of
    lacks_list e = (
      indirect,
      new,
      begun,
      e,
      record {
        tracks = record {
          owned = new-IsOwned;
          listed = λ k lt. ground (arith, empty k);
          direct = λ k lt. ground (arith, old k);
          last = ground arith;
          rooted = inr (refl, lba_mapped);
        };
        reached = bound;
        same = old;
        bytes = new-bytes;
        listed = inr (ge, old end_sec bound ∙ empty end_sec ge (omega arith));
        room_left = omega (arith, got.one_less);
      },
    )

  load_indirect-lacks :
      {lba : ℕ} {m' : Memory} {disk' : Disk}
      → 12 ≤ end_sec
      → i_sectors 12 ≡ 0
      → allocate_block part memory disk ≡ some (lba, m', disk')
      → load_indirect part end_sec w
        ≡ some (record w {
          disk = disk';
          memory = m';
          i_sectors = update i_sectors 12 lba;
          all_blocks = λ k. if leb 12 k && ltb k 140 then 0 else w.all_blocks k;
        })
  unfolding load_indirect begin_write
  load_indirect-lacks ge lacks e = rw (ge→ltb end_sec 12 ge, lacks, e) refl

  -- load_indirect leaves a file's bytes as they are, and has the list of blocks for the write.
  pub load_indirect_lem : 0 < room part memory → Ready
  load_indirect_lem enough = elim (dec_lt end_sec 12) [
    | yes lt ↦ direct lt
    | no ge ↦ elim (ℕ_discrete (i_sectors 12) 0) [
      | no has ↦ has_list (omega arith) has
      | yes lacks ↦
          let (lba, m', disk', e, got) =
            allocate_block_lem part memory disk mount owned.bytes enough in
          lacks_list (omega arith) lacks got (load_indirect-lacks (omega arith) lacks e)
    ]
  ]
