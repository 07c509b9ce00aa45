-- ===== src/Files/Sectors.antt =====
-- fs/file.c: one sector read or written, and the words in it.
use the_one_os.Common.{
  ℕ, ◌+◌, ◌*◌, ◌<◌, ◌≤◌, ◌≡◌, ◌≢◌, ◌⊎◌, arith, word_size, refl, ap, ap₂, ltb, leb, ◌&&◌, ◌-◌,
  if◌then◌else◌,
}
use the_one_os.Files.{Disk, Buffer, disk_read, disk_write, copy_in, byte_of, bytes_of, word_at}

module _ (disk : Disk) (lba : ℕ) (b : Buffer) where
  pub disk_read-at : (n a : ℕ) → a < n * 512 → disk_read disk lba b n a ≡ disk (lba * 512 + a)
  unfolding disk_read
  disk_read-at n a h = ground arith

  pub disk_write-same : (n a : ℕ) → a < n * 512 → disk_write disk lba b n (lba * 512 + a) ≡ b a
  unfolding disk_write
  disk_write-same n a h = ground (arith, ap b (subtract a))
    where
      subtract : (c : ℕ) → lba * 512 + c - lba * 512 ≡ c
      subtract c = omega arith

  pub disk_write-other :
      (n x : ℕ) → (x < lba * 512) ⊎ ((lba + n) * 512 ≤ x) → disk_write disk lba b n x ≡ disk x
  unfolding disk_write
  disk_write-other n x h = ground arith

  pub disk_write-sector :
      (l a : ℕ) → l ≢ lba → a < 512 → disk_write disk lba b 1 (l * 512 + a) ≡ disk (l * 512 + a)
  disk_write-sector l a h lt = disk_write-other 1 (l * 512 + a) (ground arith)

module _ (b : Buffer) (off : ℕ) (src : Buffer) (n : ℕ) where
  pub copy_in-at :
      (a : ℕ)
      → copy_in b off src n a ≡ (if leb off a && ltb a (off + n) then src (a - off) else b a)
  unfolding copy_in
  copy_in-at a = refl

pub bytes_of-at :
    (words : ℕ → ℕ) (k j : ℕ) → j < 4 → bytes_of words (4 * k + j) ≡ byte_of (words k) j
unfolding bytes_of
bytes_of-at words k j h = ap₂ (λ q r. byte_of (words q) r) (omega arith) (omega arith)

-- Equal bytes make equal words.
pub word_at-cong :
    (b c : Buffer) (x y : ℕ) → ((j : ℕ) → j < 4 → b (x + j) ≡ c (y + j)) → word_at b x ≡ word_at c y
unfolding word_at
word_at-cong b c x y h =
    let least = h 0 (omega arith) in
    omega (arith, least, h 1 (omega arith), h 2 (omega arith), h 3 (omega arith))

-- A word is made of its bytes.
pub word_at-bytes :
    (b : Buffer) (x w : ℕ)
    → w < word_size
    → ((j : ℕ) → j < 4 → b (x + j) ≡ byte_of w j)
    → word_at b x ≡ w
unfolding word_at byte_of
word_at-bytes b x w small h =
    let least = h 0 (omega arith) in
    omega (arith, least, h 1 (omega arith), h 2 (omega arith), h 3 (omega arith))

pub word_at-bytes_of :
    (words : ℕ → ℕ) (k : ℕ) → words k < word_size → word_at (bytes_of words) (4 * k) ≡ words k
word_at-bytes_of words k h =
    word_at-bytes (bytes_of words) (4 * k) (words k) h (bytes_of-at words k)

pub word_at-sector :
    (b : Buffer) (lba k : ℕ)
    → word_at b (lba * 512 + 4 * k) ≡ word_at (λ a. b (lba * 512 + a)) (4 * k)
word_at-sector b lba k =
    word_at-cong b (λ a. b (lba * 512 + a)) (lba * 512 + 4 * k) (4 * k) (λ j lt. ap b (omega arith))

-- Equal sectors have equal words.
pub same_word :
    (b c : Buffer) (k : ℕ)
    → k < 128
    → ((a : ℕ) → a < 512 → b a ≡ c a)
    → word_at b (4 * k) ≡ word_at c (4 * k)
same_word b c k lt h = word_at-cong b c (4 * k) (4 * k) (λ j lt'. h (4 * k + j) (omega arith))
