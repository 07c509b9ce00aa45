-- ===== src/Fs/Alloc/First.antt =====
-- fs/file.c: an allocation takes the first free bit, and its sector of the bitmap is the one written.
use the_one_os.Common.{
  ℕ, ◌+◌, ◌-◌, ◌*◌, ◌/◌, ◌^◌, ◌≤◌, ◌<◌, ◌≡◌, refl, ◌⊎◌, inl, inr, true, false, Option, some, arith,
  ◌==◌, if◌then◌else◌, Memory, IsBytes, minus_one, add32, wrap32, word_size, ap, ◌∙◌, subst, ◌>>=◌,
}
use the_one_os.Bitmap.{Bitmap, byte_addr, bitmap_scan, bitmap_scan_test}
use the_one_os.Bitmap.Bits.{
  IsPlaced, byte_addr-eq, written, bitmap_set-one, written-IsBytes, test-written,
}
use the_one_os.Bitmap.Scan.{IsBlocked, bit_len, bitmap_scan-Scanned}
use the_one_os.Fs.{sector_size}
use the_one_os.Fs.Layout.{IsLaidOut}
use the_one_os.Fs.Alloc.{
  Partition, test_and_set_bitmap, block_bitmap_alloc, block_bitmap, bitmap_sync,
}

-- The first clear bit of `b` has been set, and no other.
pub record IsSetFirst (m m' : Memory) (b : Bitmap) (i : ℕ) : Type 0 where
  pub bound : i < bit_len m b
  pub was_clear : bitmap_scan_test m b i ≡ false
  pub first : (j : ℕ) → j < i → bitmap_scan_test m b j ≡ true
  pub after :
      (j : ℕ)
      → j < bit_len m b
      → bitmap_scan_test m' b j ≡ (if j == i then true else bitmap_scan_test m b j)
  pub still_bytes : IsBytes m'

-- Every bit of `b` is set.
abbrev pub IsFull : Memory → Bitmap → Type 0
IsFull m b = (j : ℕ) → j < bit_len m b → bitmap_scan_test m b j ≡ true

set-none :
    (m : Memory) (b : Bitmap)
    → bitmap_scan m b 1 ≡ minus_one
    → test_and_set_bitmap m b ≡ some (minus_one, m)
unfolding test_and_set_bitmap
set-none m b e = rw e refl

set-some :
    (m : Memory) (b : Bitmap) (i : ℕ)
    → bitmap_scan m b 1 ≡ i
    → i < minus_one
    → test_and_set_bitmap m b ≡ some (i, written m b i true)
unfolding test_and_set_bitmap
set-some m b i e small = rw e (ground (arith, bitmap_set-one m b i))

one_blocked : (m : Memory) (b : Bitmap) (s : ℕ) → IsBlocked m b s 1 → bitmap_scan_test m b s ≡ true
one_blocked m b s (j, le, lt, h) = subst (λ x. bitmap_scan_test m b x ≡ true) (omega arith) h

test_and_set_bitmap_lem :
    (m : Memory) (b : Bitmap)
    → IsBytes m
    → IsPlaced b
    → bit_len m b < 2 ^ 31
    → ((test_and_set_bitmap m b ≡ some (minus_one, m)) × IsFull m b)
      ⊎ ((i : ℕ) × (m' : Memory) × (test_and_set_bitmap m b ≡ some (i, m')) × IsSetFirst m m' b i)
test_and_set_bitmap_lem m b bytes h small = elim (bitmap_scan-Scanned m b 1 (omega arith) small) [
  | inl (e, blocked) ↦ inl (set-none m b e, λ j lt. one_blocked m b j (blocked j (omega arith)))
  | inr (lt, run) ↦
      let i = bitmap_scan m b 1 in
      inr (
        i,
        written m b i true,
        set-some m b i refl (omega arith),
        record {
          bound = lt;
          was_clear = run.clear i (omega arith) (omega arith);
          first = λ j lt'. one_blocked m b j (run.first j lt');
          after = λ j lt'. test-written b i true bytes j h lt lt';
          still_bytes = written-IsBytes b i true bytes;
        },
      )
]

-- block_bitmap_alloc returns the sector of the first clear bit of the block bitmap, counted from the
-- start of the data, and sets that bit; it returns -1, with nothing changed, when every bit is set.
pub block_bitmap_alloc_lem :
    (m : Memory) (part : Partition)
    → IsBytes m
    → IsPlaced part.block_bitmap
    → bit_len m part.block_bitmap < 2 ^ 31
    → part.sb.data_start_lba + bit_len m part.block_bitmap < word_size
    → ((block_bitmap_alloc m part ≡ some (minus_one, m)) × IsFull m part.block_bitmap)
      ⊎ ((i : ℕ) × (m' : Memory) × (block_bitmap_alloc m part
            ≡ some (part.sb.data_start_lba + i, m'))
          × IsSetFirst m m' part.block_bitmap i)
unfolding block_bitmap_alloc
block_bitmap_alloc_lem m part bytes h small top =
    elim (test_and_set_bitmap_lem m part.block_bitmap bytes h small) [
      | inl (e, full) ↦ inl (ap (λ o. o >>= lba) e, full)
      | inr (i, m', e, got) ↦ inr (i, m', ap (λ o. o >>= lba) e ∙ sector i m' got.bound, got)
    ]
  where
    lba : ℕ × Memory → Option (ℕ × Memory)
    lba (idx, m') =
        some (if idx == minus_one then minus_one else add32 part.sb.data_start_lba idx, m')

    sector :
        (i : ℕ) (m' : Memory)
        → i < bit_len m part.block_bitmap
        → lba (i, m') ≡ some (part.sb.data_start_lba + i, m')
    sector i m' lt = ap (λ n. some (n, m')) (ground arith)

-- After a change of a bit of the block bitmap, bitmap_sync writes the 512 bytes of the bitmap that the
-- bit is in to the sector of the partition's block bitmap that stands for them.
pub bitmap_sync_lem :
    (part : Partition) (bit_idx : ℕ)
    → IsLaidOut part.sb
    → IsPlaced part.block_bitmap
    → bit_idx < part.block_bitmap.btmap_bytes_len * 8
    → part.block_bitmap.btmap_bytes_len ≡ part.sb.block_bitmap_sects * sector_size
    → let (sec_lba, address) = bitmap_sync part bit_idx block_bitmap in
      (address ≤ byte_addr part.block_bitmap bit_idx)
      × (byte_addr part.block_bitmap bit_idx < address + sector_size)
      × (part.sb.block_bitmap_lba ≤ sec_lba)
      × (sec_lba < part.sb.inode_bitmap_lba)
      × ((sec_lba - part.sb.block_bitmap_lba) * sector_size ≡ address - part.block_bitmap.bits)
unfolding bitmap_sync
bitmap_sync_lem part bit_idx v h lt len =
    let sec = bit_idx / (8 * 512) in
    let inside : sec < part.sb.block_bitmap_sects = omega (arith, lt, len) in
    let lba : add32 part.sb.block_bitmap_lba sec ≡ part.sb.block_bitmap_lba + sec = omega (
      arith, inside, v.inodes_marked, v.inodes_behind, v.data_behind, v.data_inside, v.addressable,
    ) in
    let address : add32 part.block_bitmap.bits (wrap32 (sec * sector_size))
        ≡ part.block_bitmap.bits + sec * sector_size =
      omega (arith, inside, len, h.fits) in
    let bit_at = byte_addr-eq bit_idx h lt in
    (
      omega (arith, address, bit_at),
      omega (arith, address, bit_at),
      omega (arith, lba),
      omega (arith, lba, inside, v.inodes_marked),
      omega (arith, lba, address),
    )
