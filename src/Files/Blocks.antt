-- ===== src/Files/Blocks.antt =====
-- fs/file.c: which sectors belong to a file, and the bytes that they hold.
use the_one_os.Common.{
  ℕ, ◌+◌, ◌-◌, ◌*◌, ◌/◌, ◌%◌, ◌^◌, ◌<◌, ◌≤◌, ◌≡◌, ◌≢◌, ◌⊎◌, arith, true, ◌==◌, ltb, if◌then◌else◌,
  Memory, IsBytes, ap₂, refl, ==_ne, ℕ_discrete,
}
use the_one_os.Bitmap.{bitmap_scan_test}
use the_one_os.Bitmap.Bits.{IsPlaced}
use the_one_os.Fs.{sector_size}
use the_one_os.Fs.Layout.{IsLaidOut}
use the_one_os.Fs.Alloc.{Partition}
use the_one_os.Files.Sectors.{word_at-sector, same_word}
use the_one_os.Files.{Disk, word_at, Work}

-- A partition that is laid out, with its block bitmap in memory. A sector number is no negative int.
pub record IsMounted (part : Partition) : Type 0 where
  pub laid_out : IsLaidOut part.sb
  pub placed : IsPlaced part.block_bitmap
  pub bitmap_size : part.block_bitmap.btmap_bytes_len ≡ part.sb.block_bitmap_sects * sector_size
  pub bits_below : part.block_bitmap.btmap_bytes_len * 8 < 2 ^ 31
  pub sectors_below : part.sb.data_start_lba + part.block_bitmap.btmap_bytes_len * 8 < 2 ^ 31

-- The sector of each block of a file, or 0. Number 140 stands for the sector that lists blocks 12 to 139.
abbrev pub Blocks : Type 0
Blocks = ℕ → ℕ

abbrev pub indirect : ℕ
indirect = 140

-- A sector of the data whose bit is set.
pub record IsTaken (part : Partition) (m : Memory) (lba : ℕ) : Type 0 where
  pub in_data : part.sb.data_start_lba ≤ lba
  pub in_bitmap : lba - part.sb.data_start_lba < part.block_bitmap.btmap_bytes_len * 8
  pub bit : bitmap_scan_test m part.block_bitmap (lba - part.sb.data_start_lba) ≡ true

-- Every sector of the file is taken, and no sector is in two places.
pub record IsOwned (part : Partition) (m : Memory) (blocks : Blocks) : Type 0 where
  pub bytes : IsBytes m
  pub taken : (k : ℕ) → k ≤ indirect → blocks k ≢ 0 → IsTaken part m (blocks k)
  pub apart : (j k : ℕ) → j ≤ indirect → k ≤ indirect → j ≢ k → blocks j ≢ 0 → blocks j ≢ blocks k

-- The blocks of a file by its inode and the disk.
unfoldable pub blocks_of : Disk → (ℕ → ℕ) → Blocks
blocks_of disk i_sectors k =
    if ltb k 12
    then i_sectors k
    else if k == indirect
    then i_sectors 12
    else if i_sectors 12 == 0
    then 0
    else word_at disk (i_sectors 12 * sector_size + 4 * (k - 12))

-- The byte of a file at a position. A block without a sector is read as zeros.
unfoldable pub content : Blocks → Disk → ℕ → ℕ
content blocks disk i =
    if blocks (i / sector_size) == 0
    then 0
    else disk (blocks (i / sector_size) * sector_size + i % sector_size)

-- The sector that lists blocks 12 to 139, if there is one, has them.
abbrev pub IsListed : Blocks → Disk → Type 0
IsListed blocks disk =
    (k : ℕ)
    → 12 ≤ k
    → k < indirect
    → (if blocks indirect == 0
        then 0
        else word_at disk (blocks indirect * sector_size + 4 * (k - 12)))
      ≡ blocks k

-- The state in a write: the buffer and the inode agree with the blocks, of which those below `limit`
-- are in the buffer.
pub record Tracks (part : Partition) (limit : ℕ) (blocks : Blocks) (w : Work) : Type 0 where
  pub owned : IsOwned part w.memory blocks
  pub listed : (k : ℕ) → k < limit → w.all_blocks k ≡ blocks k
  pub direct : (k : ℕ) → k < 12 → w.i_sectors k ≡ blocks k
  pub last : w.i_sectors 12 ≡ blocks indirect
  pub rooted : (limit ≡ 12) ⊎ ((limit ≡ indirect) × (blocks indirect ≢ 0))

pub content-at :
    (blocks : Blocks) (disk : Disk) (k a : ℕ)
    → a < 512
    → content blocks disk (k * 512 + a) ≡ (if blocks k == 0 then 0 else disk (blocks k * 512 + a))
unfolding content
content-at blocks disk k a lt =
    let e : (k * 512 + a) / 512 ≡ k = omega arith in
    let r : (k * 512 + a) % 512 ≡ a = omega arith in
    ap₂ (λ q r. if blocks q == 0 then 0 else disk (blocks q * 512 + r)) e r

pub mapped_content :
    (blocks : Blocks) (disk : Disk) (k a : ℕ)
    → a < 512
    → blocks k ≢ 0
    → content blocks disk (k * 512 + a) ≡ disk (blocks k * 512 + a)
mapped_content blocks disk k a lt has =
    rw (content-at blocks disk k a lt, ==_ne (blocks k) 0 has) refl

pub taken-bound :
    (part : Partition) (m : Memory) (lba : ℕ) → IsMounted part → IsTaken part m lba → lba < 2 ^ 31
taken-bound part m lba mount t = omega (arith, t.in_data, t.in_bitmap, mount.sectors_below)

pub taken-positive :
    (part : Partition) (m : Memory) (lba : ℕ) → IsMounted part → IsTaken part m lba → lba ≢ 0
taken-positive part m lba mount t e = absurd (
    omega (
      arith, e, t.in_data, mount.laid_out.begins, mount.laid_out.inodes_marked,
      mount.laid_out.inodes_behind, mount.laid_out.data_behind,
    ))

pub owned-bound :
    (part : Partition) (m : Memory) (blocks : Blocks)
    → IsMounted part
    → IsOwned part m blocks
    → (k : ℕ) → k ≤ indirect
    → blocks k < 2 ^ 31
owned-bound part m blocks mount owned k le = elim (ℕ_discrete (blocks k) 0) [
  | yes e ↦ omega arith
  | no has ↦ taken-bound part m (blocks k) mount (owned.taken k le has)
]

-- The list of blocks stays when its sector does.
pub IsListed-still :
    (blocks : Blocks) (disk disk' : Disk)
    → (blocks indirect ≢ 0
        → (a : ℕ) → a < 512
        → disk' (blocks indirect * 512 + a) ≡ disk (blocks indirect * 512 + a))
    → IsListed blocks disk
    → IsListed blocks disk'
IsListed-still blocks disk disk' h l k lo hi = elim (ℕ_discrete (blocks indirect) 0) [
  | yes e ↦ ground (arith, l k lo hi)
  | no has ↦ ground (
    arith,
    l k lo hi,
    word_at-sector disk (blocks indirect) (k - 12),
    word_at-sector disk' (blocks indirect) (k - 12),
    same_word (λ a. disk' (blocks indirect * 512 + a)) (λ a. disk (blocks indirect * 512 + a))
        (k - 12) (omega arith) (h has),
  )
]
