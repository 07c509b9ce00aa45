-- ===== src/Files/Room.antt =====
-- fs/file.c: how many sectors can still be allocated.
use the_one_os.Common.{
  ℕ, zero, suc, ◌<◌, ◌≤◌, ◌≡◌, arith, if◌then◌else◌, Memory, ap, refl, ℕ_discrete,
}
use the_one_os.Bitmap.{Bitmap, bitmap_scan_test}
use the_one_os.Bitmap.Scan.{bit_len}
use the_one_os.Fs.Alloc.First.{IsSetFirst, IsFull}

-- The number of clear bits below a bound.
unfoldable pub clear_bits : Memory → Bitmap → ℕ → ℕ
clear_bits m b zero = 0
clear_bits m b (suc n) = if bitmap_scan_test m b n then clear_bits m b n else suc (clear_bits m b n)

pub clear_bits-IsFull :
    (m : Memory) (b : Bitmap) → IsFull m b → (n : ℕ) → n ≤ bit_len m b → clear_bits m b n ≡ 0
unfolding clear_bits
clear_bits-IsFull m b full zero le = refl
clear_bits-IsFull m b full (suc n) le =
    ground (arith, full n (omega arith), clear_bits-IsFull m b full n (omega arith))

module _ {m m' : Memory} {b : Bitmap} {i : ℕ} (got : IsSetFirst m m' b i) where
  clear_bits-below : (n : ℕ) → n ≤ bit_len m b → n ≤ i → clear_bits m' b n ≡ clear_bits m b n
  unfolding clear_bits
  clear_bits-below zero le h = refl
  clear_bits-below (suc n) le h =
      ground (arith, got.after n (omega arith), clear_bits-below n (omega arith) (omega arith))

  -- An allocation takes one clear bit.
  pub clear_bits-IsSetFirst :
      (n : ℕ) → n ≤ bit_len m b → i < n → suc (clear_bits m' b n) ≡ clear_bits m b n
  unfolding clear_bits
  clear_bits-IsSetFirst zero le h = absurd (omega arith)
  clear_bits-IsSetFirst (suc n) le h = elim (ℕ_discrete n i) [
    | yes e ↦ ground (
      arith,
      got.after n (omega arith),
      clear_bits-below n (omega arith) (omega arith),
      got.was_clear,
      ap (bitmap_scan_test m b) e,
    )
    | no ne ↦
        ground
          (arith, got.after n (omega arith), clear_bits-IsSetFirst n (omega arith) (omega arith))
  ]
