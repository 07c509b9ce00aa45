-- ===== src/Files/Allocate.antt =====
-- fs/file.c: a sector is allocated, and its sector of the bitmap is written.
use the_one_os.Common.{
  ℕ, suc, ◌+◌, ◌-◌, ◌*◌, ◌^◌, ◌<◌, ◌≤◌, ◌≡◌, ◌≢◌, inl, inr, arith, some, false≢true, sym, ◌∙◌, refl,
  Memory, IsBytes, sub32, add32, minus_one, ap,
}
use the_one_os.Bitmap.{bitmap_scan_test}
use the_one_os.Bitmap.Scan.{bit_len}
use the_one_os.Fs.Alloc.{Partition, block_bitmap_alloc, bitmap_sync, block_bitmap}
use the_one_os.Fs.Alloc.First.{IsSetFirst, block_bitmap_alloc_lem, bitmap_sync_lem}
use the_one_os.Files.{Disk, allocate_block, disk_write}
use the_one_os.Files.Sectors.{disk_write-sector}
use the_one_os.Files.Room.{clear_bits, clear_bits-IsFull, clear_bits-IsSetFirst}
use the_one_os.Common.{==_ne}
use the_one_os.Files.Blocks.{IsMounted, IsTaken}

-- The number of sectors that can be allocated.
abbrev pub room : Partition → Memory → ℕ
room part m = clear_bits m part.block_bitmap (bit_len m part.block_bitmap)

-- Sector `lba` was free and is taken, the others are as they were, and no sector of the data is written.
pub record IsAllocated (part : Partition) (m m' : Memory) (disk disk' : Disk) (lba : ℕ)
    : Type 0 where
  pub taken : IsTaken part m' lba
  pub was_free : (l : ℕ) → IsTaken part m l → l ≢ lba
  pub kept : (l : ℕ) → IsTaken part m l → IsTaken part m' l
  pub bytes : IsBytes m'
  pub one_less : suc (room part m') ≡ room part m
  pub same_data :
      (l a : ℕ) → part.sb.data_start_lba ≤ l → a < 512 → disk' (l * 512 + a) ≡ disk (l * 512 + a)

-- The bitmap's sector that is written, and the disk with it.
sync_sector : Partition → ℕ → ℕ
sync_sector part lba = (bitmap_sync part (sub32 lba part.sb.data_start_lba) block_bitmap).0

synced : Partition → Memory → Disk → ℕ → Disk
unfolding sync_sector
synced part m disk lba =
    disk_write disk (sync_sector part lba)
      (λ a. m (add32 (bitmap_sync part (sub32 lba part.sb.data_start_lba) block_bitmap).1 a)) 1

module _ (part : Partition) (m : Memory) (disk : Disk) (mount : IsMounted part) where
  allocate-some :
      (lba : ℕ) (m' : Memory)
      → block_bitmap_alloc m part ≡ some (lba, m')
      → lba < 2 ^ 31
      → allocate_block part m disk ≡ some (lba, m', synced part m' disk lba)
  unfolding allocate_block synced sync_sector
  allocate-some lba m' e small = rw e (rw (==_ne lba minus_one (λ e. absurd (omega arith))) refl)

  sync_sector-bound :
      (i : ℕ)
      → i < bit_len m part.block_bitmap
      → sync_sector part (part.sb.data_start_lba + i) < part.sb.data_start_lba
  unfolding sync_sector
  sync_sector-bound i lt =
      let back : sub32 (part.sb.data_start_lba + i) part.sb.data_start_lba ≡ i = omega arith in
      omega (
        arith,
        bitmap_sync_lem part (sub32 (part.sb.data_start_lba + i) part.sb.data_start_lba)
            mount.laid_out mount.placed (omega (arith, back)) mount.bitmap_size,
      )

  allocated :
      {m' : Memory} {i : ℕ}
      → IsSetFirst m m' part.block_bitmap i
      → IsAllocated part m m' disk
          (synced part m' disk (part.sb.data_start_lba + i))
          (part.sb.data_start_lba + i)
  unfolding synced
  allocated {m'} {i} got = record {
    taken = record {
      in_data = omega arith;
      in_bitmap = omega (arith, got.bound);
      bit = ground (arith, got.after i got.bound, ap (bitmap_scan_test m' part.block_bitmap) back);
    };
    was_free = λ l t e.
        false≢true
          (sym got.was_clear ∙ ap (bitmap_scan_test m part.block_bitmap) (omega arith) ∙ t.bit);
    kept = λ l t. record {
      in_data = t.in_data;
      in_bitmap = t.in_bitmap;
      bit = ground (arith, got.after (l - part.sb.data_start_lba) t.in_bitmap, t.bit);
    };
    bytes = got.still_bytes;
    one_less = clear_bits-IsSetFirst got (bit_len m part.block_bitmap) (omega arith) got.bound;
    same_data = λ l a le lt.
        disk_write-sector disk _ _ l a (λ e. absurd (omega (arith, sync_sector-bound i got.bound)))
          lt;
  }
    where
      back : part.sb.data_start_lba + i - part.sb.data_start_lba ≡ i
      back = omega arith

  -- With a clear bit left, allocate_block gives a free sector.
  pub allocate_block_lem :
      IsBytes m
      → 0 < room part m
      → (lba : ℕ) × (m' : Memory) × (disk' : Disk) × (allocate_block part m disk
          ≡ some (lba, m', disk'))
        × IsAllocated part m m' disk disk' lba
  allocate_block_lem bytes enough =
      elim (block_bitmap_alloc_lem m part bytes mount.placed mount.bits_below
        (omega (arith, mount.sectors_below))) [
          | inl (e, full) ↦ absurd (
              omega (
                arith,
                clear_bits-IsFull m part.block_bitmap full (bit_len m part.block_bitmap)
                    (omega arith),
              ))
          | inr (i, m', e, got) ↦
              let lba = part.sb.data_start_lba + i in
              (
                lba,
                m',
                synced part m' disk lba,
                allocate-some lba m' e (omega (arith, got.bound)),
                allocated got,
              )
        ]
