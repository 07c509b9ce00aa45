-- ===== src/Bitmap/Bits.antt =====
-- lib/bitmap.c: what bitmap_set changes.
use the_one_os.Common.{
  ℕ, zero, suc, ◌+◌, ◌*◌, ◌/◌, ◌%◌, ◌<◌, ◌≤◌, ◌≡◌, refl, Bool, true, false, ◌&&◌, arith, ◌==◌,
  if◌then◌else◌, some, Memory, store, IsBytes, ◌⊎◌, ℕ_discrete, word_size, not,
}
use the_one_os.Bitmap.{
  Bitmap, bitmap_init, byte_addr, test_bit, set_bit, clear_bit, bitmap_scan_test, bitmap_set,
}
use the_one_os.CString.Length.{memset-at}

-- A test that is run at each number below a bound.
module _ (test : ℕ → Bool) where
  unfoldable pub checked : ℕ → Bool
  checked zero = true
  checked (suc bound) = if test bound then checked bound else false

  pub checked-at : (bound k : ℕ) → checked bound ≡ true → k < bound → test k ≡ true
  unfolding checked
  checked-at zero k all lt = absurd (omega arith)
  checked-at (suc bound) k all lt = ground (arith, checked-at bound k)

abbrev bool_eq : Bool → Bool → Bool
bool_eq true b = b
bool_eq false true = false
bool_eq false false = true

bool_eq→eq : (a b : Bool) → bool_eq a b ≡ true → a ≡ b
bool_eq→eq a b h = ground arith

abbrev row : (ℕ → ℕ → ℕ) → Bool → ℕ → ℕ → Bool
row f v x k =
    ltb256 (f x k)
    && checked (λ j. bool_eq (test_bit (f x k) j) (if j == k then v else test_bit x j)) 8
  where
    ltb256 : ℕ → Bool
    ltb256 n = n / 256 == 0

set_table : checked (λ x. checked (row set_bit true x) 8) 256 ≡ true
unfolding checked test_bit set_bit
set_table = refl

clear_table : checked (λ x. checked (row clear_bit false x) 8) 256 ≡ true
unfolding checked test_bit clear_bit
clear_table = refl

module _ (x k j : ℕ) (hx : x < 256) (hk : k < 8) where
  set_row : row set_bit true x k ≡ true
  set_row =
      checked-at (row set_bit true x) 8 k
        (checked-at (λ x. checked (row set_bit true x) 8) 256 x set_table hx) hk

  clear_row : row clear_bit false x k ≡ true
  clear_row =
      checked-at (row clear_bit false x) 8 k
        (checked-at (λ x. checked (row clear_bit false x) 8) 256 x clear_table hx) hk

  set_bit-byte : set_bit x k < 256
  set_bit-byte = ground (arith, set_row)

  clear_bit-byte : clear_bit x k < 256
  clear_bit-byte = ground (arith, clear_row)

  module _ (hj : j < 8) where
    test_bit-set_bit : test_bit (set_bit x k) j ≡ (if j == k then true else test_bit x j)
    test_bit-set_bit = bool_eq→eq _ _ (
        checked-at (λ j. bool_eq (test_bit (set_bit x k) j) (if j == k then true else test_bit x j))
          8 j (ground (arith, set_row)) hj)

    test_bit-clear_bit : test_bit (clear_bit x k) j ≡ (if j == k then false else test_bit x j)
    test_bit-clear_bit = bool_eq→eq _ _ (
        checked-at
          (λ j. bool_eq (test_bit (clear_bit x k) j) (if j == k then false else test_bit x j)) 8 j
          (ground (arith, clear_row)) hj)

-- The bitmap lies in the address space, and its bits are counted by a word.
pub record IsPlaced (b : Bitmap) : Type 0 where
  pub fits : b.bits + b.btmap_bytes_len ≤ word_size
  pub countable : b.btmap_bytes_len * 8 < word_size

pub byte_addr-eq :
    {b : Bitmap} (i : ℕ) → IsPlaced b → i < b.btmap_bytes_len * 8 → byte_addr b i ≡ b.bits + i / 8
byte_addr-eq i p h = omega arith

abbrev pub new_byte : ℕ → ℕ → Bool → ℕ
new_byte x k true = set_bit x k
new_byte x k false = clear_bit x k

-- bitmap_set with the value 1 or 0, as an update of one byte.
abbrev pub written : Memory → Bitmap → ℕ → Bool → Memory
written m b i v = store m (byte_addr b i) (new_byte (m (byte_addr b i)) (i % 8) v)

pub bitmap_set-one :
    (m : Memory) (b : Bitmap) (i : ℕ) → bitmap_set m b i 1 ≡ some (written m b i true)
unfolding bitmap_set
bitmap_set-one m b i = refl

pub bitmap_set-zero :
    (m : Memory) (b : Bitmap) (i : ℕ) → bitmap_set m b i 0 ≡ some (written m b i false)
unfolding bitmap_set
bitmap_set-zero m b i = refl

new_byte-byte : (x k : ℕ) (v : Bool) → x < 256 → k < 8 → new_byte x k v < 256
new_byte-byte x k true hx hk = set_bit-byte x k 0 hx hk
new_byte-byte x k false hx hk = clear_bit-byte x k 0 hx hk

test_bit-new_byte :
    (x k j : ℕ) (v : Bool)
    → x < 256
    → k < 8
    → j < 8
    → test_bit (new_byte x k v) j ≡ (if j == k then v else test_bit x j)
test_bit-new_byte x k j true hx hk hj = test_bit-set_bit x k j hx hk hj
test_bit-new_byte x k j false hx hk hj = test_bit-clear_bit x k j hx hk hj

module _ {m : Memory} (b : Bitmap) (i : ℕ) (v : Bool) (bytes : IsBytes m) where
  pub written-IsBytes : IsBytes (written m b i v)
  written-IsBytes a = ground (
    arith,
    bytes a,
    new_byte-byte (m (byte_addr b i)) (i % 8) v (bytes (byte_addr b i)) (omega arith),
  )

  -- Within one bitmap a write reaches the bit that it names and no other.
  pub test-written :
      (j : ℕ)
      → IsPlaced b
      → i < b.btmap_bytes_len * 8
      → j < b.btmap_bytes_len * 8
      → bitmap_scan_test (written m b i v) b j ≡ (if j == i then v else bitmap_scan_test m b j)
  unfolding bitmap_scan_test
  test-written j p hi hj = elim (ℕ_discrete (i / 8) (j / 8)) [
    | yes same ↦ ground (
      arith,
      byte_addr-eq i p hi,
      byte_addr-eq j p hj,
      test_bit-new_byte (m (byte_addr b i)) (i % 8) (j % 8) v (bytes (byte_addr b i)) (omega arith)
          (omega arith),
    )
    | no other ↦ ground (arith, byte_addr-eq i p hi, byte_addr-eq j p hj)
  ]

-- A write into a bitmap leaves alone what lies outside.
pub written-outside :
    {b : Bitmap} (m : Memory) (i a : ℕ) (v : Bool)
    → IsPlaced b
    → i < b.btmap_bytes_len * 8
    → (a < b.bits) ⊎ (b.bits + b.btmap_bytes_len ≤ a)
    → written m b i v a ≡ m a
written-outside m i a v p hi out = ground (arith, byte_addr-eq i p hi)

pub bitmap_init-IsBytes : {m : Memory} (b : Bitmap) → IsBytes m → IsBytes (bitmap_init m b)
unfolding bitmap_init
bitmap_init-IsBytes {m} b h a = ground (arith, h a, memset-at m b.bits 0 b.btmap_bytes_len a)

zero_clear : checked (λ k. not (test_bit 0 k)) 8 ≡ true
unfolding checked test_bit
zero_clear = refl

pub test_bit-zero : (k : ℕ) → k < 8 → test_bit 0 k ≡ false
test_bit-zero k h = ground (arith, checked-at (λ k. not (test_bit 0 k)) 8 k zero_clear h)

-- bitmap_set of a bit in the bitmap sets or clears it, and leaves every other bit and every address
-- outside the bitmap as it was; bytes stay bytes.
pub bitmap_set_lem :
    (m : Memory) (b : Bitmap) (i : ℕ) (v : Bool)
    → IsBytes m
    → IsPlaced b
    → i < b.btmap_bytes_len * 8
    → (m' : Memory) × (bitmap_set m b i (if v then 1 else 0) ≡ some m')
      × IsBytes m'
      × ((j : ℕ)
          → j < b.btmap_bytes_len * 8
          → bitmap_scan_test m' b j ≡ (if j == i then v else bitmap_scan_test m b j))
      × ((a : ℕ) → (a < b.bits) ⊎ (b.bits + b.btmap_bytes_len ≤ a) → m' a ≡ m a)
bitmap_set_lem m b i v bytes p lt = (
  written m b i v,
  sets v,
  written-IsBytes b i v bytes,
  λ j lt'. test-written b i v bytes j p lt lt',
  λ a out. written-outside m i a v p lt out,
)
  where
    sets : (v : Bool) → bitmap_set m b i (if v then 1 else 0) ≡ some (written m b i v)
    sets true = bitmap_set-one m b i
    sets false = bitmap_set-zero m b i

-- bitmap_init leaves every bit of the bitmap clear.
pub test-init :
    (m : Memory) (b : Bitmap) (i : ℕ)
    → IsPlaced b
    → i < b.btmap_bytes_len * 8
    → bitmap_scan_test (bitmap_init m b) b i ≡ false
unfolding bitmap_init bitmap_scan_test
test-init m b i p h = ground (
  arith,
  byte_addr-eq i p h,
  memset-at m b.bits 0 b.btmap_bytes_len (byte_addr b i),
  test_bit-zero (i % 8) (omega arith),
)

-- A bitmap that is cleared leaves a bitmap apart from it as it is.
pub test-init-other :
    (m : Memory) (b c : Bitmap) (i : ℕ)
    → IsPlaced c
    → i < c.btmap_bytes_len * 8
    → (c.bits + c.btmap_bytes_len ≤ b.bits) ⊎ (b.bits + b.btmap_bytes_len ≤ c.bits)
    → bitmap_scan_test (bitmap_init m b) c i ≡ bitmap_scan_test m c i
unfolding bitmap_init bitmap_scan_test
test-init-other m b c i h lt apart =
    ground (arith, byte_addr-eq i h lt, memset-at m b.bits 0 b.btmap_bytes_len (byte_addr c i))
