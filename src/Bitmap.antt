-- ===== src/Bitmap.antt =====
-- lib/bitmap.c: a bitmap is a descriptor of bytes in memory. An access goes to the address that the
-- code computes, in the bitmap or not.
pub mod Bits
pub mod Scan
use the_one_os.Common.{
  ℕ, zero, suc, ◌+◌, ◌-◌, ◌*◌, ◌/◌, ◌%◌, ◌^◌, bit_and, bit_or, Bool, true, false, not, ◌||◌, Option,
  none, some, ◌==◌, if◌then◌else◌, Memory, store, wrap32, add32, sub32, minus_one, ◌>>=◌, ◌>>◌,
  assert,
}
use the_one_os.CString.{memset}

pub record Bitmap : Type 0 where
  pub btmap_bytes_len : ℕ
  pub bits : ℕ

pub bitmap_init : Memory → Bitmap → Memory
bitmap_init m b = memset m b.bits 0 b.btmap_bytes_len

-- bits + bit_idx / 8
abbrev pub byte_addr : Bitmap → ℕ → ℕ
byte_addr b bit_idx = add32 b.bits (bit_idx / 8)

-- A byte with bit `k` tested, set and cleared: `x & (1 << k)`, `x |= 1 << k`, `x &= ~(1 << k)`.
unfoldable pub test_bit : ℕ → ℕ → Bool
test_bit x k = not (bit_and x (2 ^ k) == 0)

unfoldable pub set_bit : ℕ → ℕ → ℕ
set_bit x k = bit_or x (2 ^ k)

unfoldable pub clear_bit : ℕ → ℕ → ℕ
clear_bit x k = bit_and x (255 - 2 ^ k)

unfoldable pub bitmap_scan_test : Memory → Bitmap → ℕ → Bool
bitmap_scan_test m b bit_idx = test_bit (m (byte_addr b bit_idx)) (bit_idx % 8)

-- The rounds left of the loop, with `i` and `last_bad_idx`, whose -1 is a bit pattern.
unfoldable pub scan_loop : Memory → Bitmap → ℕ → ℕ → ℕ → ℕ → ℕ
scan_loop m b cnt zero i last_bad_idx = minus_one
scan_loop m b cnt (suc rounds) i last_bad_idx =
    let used = scan_loop m b cnt rounds (i + 1) i in
    let free = scan_loop m b cnt rounds (i + 1) last_bad_idx in
    if bitmap_scan_test m b i
    then used
    else if cnt == 1
    then i
    else if sub32 i last_bad_idx == cnt
    then add32 last_bad_idx 1
    else free

unfoldable pub bitmap_scan : Memory → Bitmap → ℕ → ℕ
unfolding scan_loop
bitmap_scan m b cnt = scan_loop m b cnt (wrap32 (b.btmap_bytes_len * 8)) 0 minus_one

unfoldable pub bitmap_set : Memory → Bitmap → ℕ → ℕ → Option Memory
bitmap_set m b bit_idx value = do
  assert ((value == 0) || (value == 1))
  some (
      store m (byte_addr b bit_idx) (
        if value == 0
        then clear_bit (m (byte_addr b bit_idx)) (bit_idx % 8)
        else set_bit (m (byte_addr b bit_idx)) (bit_idx % 8)))
