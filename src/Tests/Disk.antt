-- ===== src/Tests/Disk.antt =====
-- device/ide.c: a read of 300 sectors, and a table with one partition.
use the_one_os.Common.{
  ℕ, ◌+◌, ◌<◌, ◌≤◌, ◌≡◌, refl, sym, ap, ◌∙◌, inl, false, not, arith, Memory, ◌==◌, if◌then◌else◌,
  ltb, bit_and,
}
use the_one_os.Files.{Buffer}
use the_one_os.Ide.{HardDisk, busy_wait, part_entry, partition_scan}
use the_one_os.Ide.Scan.{IsBusy, IsUsed, IsSkipped, busy_wait_lem, partition_scan_lem}

abbrev hda : HardDisk
hda = record { port_base = 0x1f0; dev_no = 0 }

-- Ready, with data.
abbrev status : ℕ → ℕ
status i = 0x58

abbrev letters : ℕ → ℕ
letters a = 97

abbrev zeros : Memory
zeros a = 0

-- Busy for two reads.
abbrev slow : ℕ → ℕ
slow i = if ltb i 2 then 0x80 else 0x58

slow-IsBusy : IsBusy slow 0 2
slow-IsBusy j lo hi e =
    let s : slow j ≡ 0x80 = ground arith in
    let z : 0x80 ≡ 0 = sym (ap (λ x. bit_and x 0x80) s) ∙ e in absurd (omega (arith, z))

busy_wait_example :
    (2 < 300
      → bit_and (slow (0 + 2)) 0x80 ≡ 0
      → busy_wait slow 0 ≡ (not (bit_and (slow (0 + 2)) 0x8 == 0), 0 + 2 + 1))
    × (300 ≤ 2 → busy_wait slow 0 ≡ (false, 0 + 300))
busy_wait_example = busy_wait_lem slow 0 2 slow-IsBusy

-- A sector of ones up to the type of the second entry.
abbrev table : Buffer
table a = if ltb a 460 then 1 else 0

table-IsUsed : (j : ℕ) → j < 1 → IsUsed (part_entry table j)
unfolding part_entry
table-IsUsed j lt = (ground arith, ground arith)

second-IsSkipped : IsSkipped (part_entry table 1)
unfolding part_entry
second-IsSkipped = inl refl

partition_scan_example : partition_scan table (λ i. (0, 0)) 0 ≡ (
    if ltb 0 1 then ((part_entry table 0).start_lba, (part_entry table 0).sector_cnt) else (0, 0))
partition_scan_example =
    partition_scan_lem table (λ i. (0, 0)) 1 (omega arith) table-IsUsed (λ lt. second-IsSkipped) 0
