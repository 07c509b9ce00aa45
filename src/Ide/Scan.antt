-- ===== src/Ide/Scan.antt =====
-- device/ide.c: the drive's status, and the partitions that are found.
use the_one_os.Common.{
  ℕ, zero, suc, ◌+◌, ◌<◌, ◌≤◌, ◌≡◌, ◌≢◌, ◌⊎◌, bit_and, Bool, false, not, ◌&&◌, ◌==◌, ltb, leb,
  if◌then◌else◌, arith, update, refl, sym, subst, ◌∙◌, ap, dec_lt, ==_ne,
}
use the_one_os.Files.{Buffer}
use the_one_os.Ide.{busy_loop, busy_wait, PartEntry, part_entry, scan_entries, partition_scan}

-- The drive is busy for `k` reads of its status from the i-th on.
abbrev pub IsBusy : (ℕ → ℕ) → ℕ → ℕ → Type 0
IsBusy status i k = (j : ℕ) → i ≤ j → j < i + k → bit_and (status j) 0x80 ≢ 0

busy_loop-busy :
    (status : ℕ → ℕ) (rounds i : ℕ)
    → bit_and (status i) 0x80 ≢ 0
    → busy_loop status (suc rounds) i ≡ busy_loop status rounds (i + 1)
unfolding busy_loop
busy_loop-busy status rounds i busy = rw (==_ne (bit_and (status i) 0x80) 0 busy) refl

-- The result of the read that found the drive idle.
abbrev drq : (ℕ → ℕ) → ℕ → Bool × ℕ
drq status i = (not (bit_and (status i) 0x8 == 0), i + 1)

busy_loop-end :
    (status : ℕ → ℕ) (rounds k i : ℕ)
    → k < rounds
    → IsBusy status i k
    → bit_and (status (i + k)) 0x80 ≡ 0
    → busy_loop status rounds i ≡ drq status (i + k)
unfolding busy_loop
busy_loop-end status zero k i lt busy idle = absurd (omega arith)
busy_loop-end status (suc rounds) zero i lt busy idle =
    let here : i + 0 ≡ i = omega arith in
    rw (ap (λ j. bit_and (status j) 0x80) (sym here) ∙ idle) (ap (drq status) (sym here))
busy_loop-end status (suc rounds) (suc k) i lt busy idle =
    let on : i + 1 + k ≡ i + suc k = omega arith in
    busy_loop-busy status rounds i (busy i (omega arith) (omega arith))
    ∙ busy_loop-end status rounds k (i + 1) (omega arith)
        (λ j lo hi. busy j (omega arith) (omega arith))
        (ap (λ j. bit_and (status j) 0x80) on ∙ idle)
    ∙ ap (drq status) on

busy_loop-never :
    (status : ℕ → ℕ) (rounds i : ℕ)
    → IsBusy status i rounds
    → busy_loop status rounds i ≡ (false, i + rounds)
unfolding busy_loop
busy_loop-never status zero i busy = ap (λ n. (false, n)) (omega arith)
busy_loop-never status (suc rounds) i busy =
    busy_loop-busy status rounds i (busy i (omega arith) (omega arith))
    ∙ busy_loop-never status rounds (i + 1) (λ j lo hi. busy j (omega arith) (omega arith))
    ∙ ap (λ n. (false, n)) (omega arith)

-- busy_wait reads the status until the drive is idle, at most 300 times. Its answer is the data request
-- bit of the first idle status, and no when there is none.
pub busy_wait_lem :
    (status : ℕ → ℕ) (i k : ℕ)
    → IsBusy status i k
    → (k < 300
        → bit_and (status (i + k)) 0x80 ≡ 0
        → busy_wait status i ≡ (not (bit_and (status (i + k)) 0x8 == 0), i + k + 1))
      × (300 ≤ k → busy_wait status i ≡ (false, i + 300))
unfolding busy_wait
busy_wait_lem status i k busy = (
  λ lt idle. busy_loop-end status 300 k i lt busy idle,
  λ le. busy_loop-never status 300 i (λ j lo hi. busy j lo (omega arith)),
)

-- An entry of the table that is free or an extended partition.
abbrev pub IsSkipped : PartEntry → Type 0
IsSkipped e = (e.fs_type ≡ 0) ⊎ (e.fs_type ≡ 0x5)

abbrev pub IsUsed : PartEntry → Type 0
IsUsed e = (e.fs_type ≢ 0) × (e.fs_type ≢ 0x5)

abbrev Parts : Type 0
Parts = ℕ → ℕ × ℕ

module _ (entry : ℕ → PartEntry) where
  scan_entries-stuck :
      (rounds i pt : ℕ) (primary : Parts)
      → IsSkipped (entry pt)
      → scan_entries entry rounds i pt primary ≡ primary
  unfolding scan_entries
  scan_entries-stuck zero i pt primary skip = refl
  scan_entries-stuck (suc rounds) i pt primary skip =
      ground (arith, skip, scan_entries-stuck rounds (i + 1) pt primary skip)

  abbrev found : ℕ → ℕ × ℕ
  found j = ((entry j).start_lba, (entry j).sector_cnt)

  scan_entries-prefix :
      (k rounds i : ℕ) (primary : Parts)
      → ((j : ℕ) → j < k → IsUsed (entry j))
      → (k < 4 → IsSkipped (entry k))
      → i ≤ k
      → k ≤ 4
      → i + rounds ≡ 4
      → (j : ℕ)
      → scan_entries entry rounds i i primary j
        ≡ (if leb i j && ltb j k then found j else primary j)
  unfolding scan_entries
  scan_entries-prefix k zero i primary used skip le le4 sum j = ground arith
  scan_entries-prefix k (suc rounds) i primary used skip le le4 sum j = elim (dec_lt i k) [
    | yes lt ↦ ground (
      arith,
      used i lt,
      scan_entries-prefix k rounds (i + 1) (update primary i (found i)) used skip (omega arith) le4
          (omega arith) j,
      j_is_i,
    )
    | no ge ↦
        let here : k ≡ i = omega arith in
        ap (λ p. p j)
          (scan_entries-stuck (suc rounds) i i primary
            (subst (λ m. IsSkipped (entry m)) here (skip (omega arith))))
        ∙ ground arith
  ]
    where
      j_is_i : j ≡ i → found j ≡ found i
      j_is_i e = ap found e

-- partition_scan finds the entries of the table in front of the first one that is free or extended, and
-- leaves the other partitions as they were.
pub partition_scan_lem :
    (bs : Buffer) (primary : ℕ → ℕ × ℕ) (k : ℕ)
    → k ≤ 4
    → ((j : ℕ) → j < k → IsUsed (part_entry bs j))
    → (k < 4 → IsSkipped (part_entry bs k))
    → (j : ℕ)
    → partition_scan bs primary j
      ≡ (if ltb j k then ((part_entry bs j).start_lba, (part_entry bs j).sector_cnt) else primary j)
unfolding partition_scan
partition_scan_lem bs primary k le used skip j =
    scan_entries-prefix (part_entry bs) k 4 0 primary used skip (omega arith) le refl j
    ∙ ground arith
