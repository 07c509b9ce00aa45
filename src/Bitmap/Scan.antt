-- ===== src/Bitmap/Scan.antt =====
-- lib/bitmap.c: bitmap_scan returns the first run of `cnt` clear bits, or -1 when there is none.
use the_one_os.Common.{
  ℕ, zero, suc, ◌+◌, ◌-◌, ◌*◌, ◌^◌, ◌≤◌, ◌<◌, ◌≡◌, refl, ◌⊎◌, inl, inr, true, false, arith, Memory,
  wrap32, sub32, minus_one, dec_lt, Bool-cases,
}
use the_one_os.Bitmap.{Bitmap, bitmap_scan_test, scan_loop, bitmap_scan}

module _ (m : Memory) (b : Bitmap) where
  -- The `cnt` bits from `s` on are clear.
  abbrev pub IsClear : ℕ → ℕ → Type 0
  IsClear s cnt = (j : ℕ) → s ≤ j → j < s + cnt → bitmap_scan_test m b j ≡ false

  -- One of the `cnt` bits from `s` on is set.
  abbrev pub IsBlocked : ℕ → ℕ → Type 0
  IsBlocked s cnt = (j : ℕ) × (s ≤ j) × (j < s + cnt) × (bitmap_scan_test m b j ≡ true)

  abbrev pub bit_len : ℕ
  bit_len = b.btmap_bytes_len * 8

  -- The run that begins at `s` is the first one of its length.
  pub record IsFirstRun (cnt s : ℕ) : Type 0 where
    pub within : s + cnt ≤ bit_len
    pub clear : IsClear s cnt
    pub first : (s' : ℕ) → s' < s → IsBlocked s' cnt

  -- What a result of bitmap_scan says.
  abbrev pub Scanned : ℕ → ℕ → Type 0
  Scanned cnt r =
      ((r ≡ minus_one) × ((s : ℕ) → s + cnt ≤ bit_len → IsBlocked s cnt))
      ⊎ ((r < bit_len) × IsFirstRun cnt r)

  module _ (cnt : ℕ) (pos : 0 < cnt) (small : bit_len < 2 ^ 31) where
    -- One round, at a bit `i` behind a run of clear bits that begins at `start`.
    scan_loop-set :
        (n i last : ℕ)
        → bitmap_scan_test m b i ≡ true
        → scan_loop m b cnt (suc n) i last ≡ scan_loop m b cnt n (i + 1) i
    unfolding scan_loop
    scan_loop-set n i last h = rw h

    scan_loop-full :
        (n i start : ℕ)
        → i < bit_len
        → start ≤ i
        → bitmap_scan_test m b i ≡ false
        → i + 1 ≡ start + cnt
        → scan_loop m b cnt (suc n) i (sub32 start 1) ≡ start
    unfolding scan_loop
    scan_loop-full n i start lt le h e = rw h (ground arith)

    scan_loop-clear :
        (n i start : ℕ)
        → i < bit_len
        → start ≤ i
        → bitmap_scan_test m b i ≡ false
        → i + 1 < start + cnt
        → scan_loop m b cnt (suc n) i (sub32 start 1) ≡ scan_loop m b cnt n (i + 1) (sub32 start 1)
    unfolding scan_loop
    scan_loop-clear n i start lt le h e = rw h (ground arith)

    scan_loop-Scanned :
        (rounds i start last : ℕ)
        → last ≡ sub32 start 1
        → i + rounds ≡ bit_len
        → start ≤ i
        → i < start + cnt
        → IsClear start (i - start)
        → ((s' : ℕ) → s' < start → IsBlocked s' cnt)
        → Scanned cnt (scan_loop m b cnt rounds i last)
    scan_loop-Scanned zero i start last el e le lt clear first =
        unfold scan_loop in
        inl (
          refl,
          λ s fits. elim (dec_lt s start) [
            | yes before ↦ first s before
            | no after ↦ absurd (omega arith)
          ],
        )
    scan_loop-Scanned (suc n) i start last el e le lt clear first =
        elim (Bool-cases (bitmap_scan_test m b i)) [
          | inl used ↦ rw (scan_loop-set n i last used) (
              scan_loop-Scanned n (i + 1) (i + 1) i (omega arith) (omega arith) (omega arith)
                (omega arith) (λ j h h'. absurd (omega arith)) (past used))
          | inr free ↦ rw el (elim (dec_lt (i + 1) (start + cnt)) [
            | yes more ↦ rw (scan_loop-clear n i start (omega arith) le free more) (
                scan_loop-Scanned n (i + 1) start (sub32 start 1) refl (omega arith) (omega arith)
                  more (λ j h h'. longer free j h (omega arith)) first)
            | no full ↦ rw (scan_loop-full n i start (omega arith) le free (omega arith)) (
                inr (
                  omega arith,
                  record {
                    within = omega arith;
                    clear = λ j h h'. longer free j h (omega arith);
                    first = first;
                  },
                ))
          ])
        ]
      where
        past : bitmap_scan_test m b i ≡ true → (s' : ℕ) → s' < i + 1 → IsBlocked s' cnt
        past used s' h = elim (dec_lt s' start) [
          | yes before ↦ first s' before
          | no after ↦ (i, omega arith, omega arith, used)
        ]

        longer :
            bitmap_scan_test m b i ≡ false
            → (j : ℕ) → start ≤ j
            → j < i + 1
            → bitmap_scan_test m b j ≡ false
        longer free j h h' = elim (dec_lt j i) [
          | yes inside ↦ clear j h (omega arith)
          | no end ↦ let e : j ≡ i = omega arith in rw e free
        ]

    -- bitmap_scan finds the first run of `cnt` clear bits, and returns -1 exactly when the bitmap has
    -- none.
    pub bitmap_scan-Scanned : Scanned cnt (bitmap_scan m b cnt)
    unfolding bitmap_scan
    bitmap_scan-Scanned =
        scan_loop-Scanned (wrap32 bit_len) 0 0 minus_one refl (omega arith) (omega arith)
          (omega arith) (λ j h h'. absurd (omega arith)) (λ s' h. absurd (omega arith))
