-- ===== src/Ide/Transfer.antt =====
-- device/ide.c: what a drive does with the accesses of disk_read.
use the_one_os.Common.{
  ℕ, ◌+◌, ◌-◌, ◌*◌, ◌/◌, ◌%◌, ◌^◌, ◌<◌, ◌≤◌, ◌≡◌, ◌≢◌, bit_and, bit_or, Bool, ◌&&◌, some, List, [],
  ◌∷◌, ◌++◌, ◌==◌, ltb, leb, if◌then◌else◌, Memory, word_size, update, ◌>>=◌, Option, none,
}
use the_one_os.Files.{Disk, copy_in}
use the_one_os.Ide.{
  HardDisk, Event, sema_down, outb, insw, set_disk_sector, buffer_words, cmd_read_sector,
}

-- A drive by its registers: the sector of the four registers, whose last one has four bits of it, and
-- the number of sectors, 0 for 256.
abbrev pub Registers : Type 0
Registers = ℕ → ℕ

unfoldable pub sector_of : ℕ → Registers → ℕ
sector_of base regs =
    regs (base + 3)
    + regs (base + 4) * 2 ^ 8
    + regs (base + 5) * 2 ^ 16
    + regs (base + 6) % 16 * 2 ^ 24

unfoldable pub count_of : ℕ → Registers → ℕ
count_of base regs = if regs (base + 2) == 0 then 256 else regs (base + 2)

-- A drive waits for a command, works on it, or has its data ready.
pub data Phase : Type 0 where
  waiting working served : Phase

abbrev one_more : Option (ℕ × Memory) → Option (ℕ × Memory)
one_more r = r >>= λ (commands, m). some (commands + 1, m)

-- What the accesses of a driver that holds the lock throughout do to a drive that only reads: the number of
-- commands and the memory. The registers and the command are written while the drive waits. The data is taken
-- behind the interrupt that sema_down waits for, and is that of all sectors of the command. Anything else,
-- a call of the lock included, is `none`.
unfoldable pub run_reads : ℕ → Disk → Phase → Registers → Memory → List Event → Option (ℕ × Memory)
run_reads base disk waiting regs m [] = some (0, m)
run_reads base disk waiting regs m (outb port value ∷ es) =
    let asked = run_reads base disk working regs m es in
    let written = run_reads base disk waiting (update regs port value) m es in
    if port == base + 7 then (if value == cmd_read_sector then asked else none) else written
run_reads base disk working regs m (sema_down ∷ es) = run_reads base disk served regs m es
run_reads base disk served regs m (insw port address words ∷ es) =
    let stored = λ (a : ℕ). disk (sector_of base regs * 512 + a) in
    let rest = run_reads base disk waiting regs (copy_in m address stored (words * 2)) es in
    if (port == base) && (words * 2 == count_of base regs * 512) then one_more rest else none
run_reads base disk phase regs m es = none

row : ℕ → Bool
row i = bit_or (bit_or (i / 2) 0x40) (i % 2 * 0x10 + 0xa0) % 256 == 224 + i % 2 * 16 + i / 2

-- One round of disk_read gives `size` sectors from `lba` on.
module _ (hd : HardDisk) (disk : Disk) (lba size : ℕ) (small : lba < 2 ^ 28) (one : hd.dev_no < 2)
    (pos : 0 < size) (few : size ≤ 256) where
  abbrev begun : Registers → Registers
  begun regs =
      let data_out = bit_or (bit_or (lba / 2 ^ 24) 0x40) (hd.dev_no * 0x10 + 0xa0) in
      update
        (update
          (update
            (update (update regs (hd.port_base + 2) (size % 256)) (hd.port_base + 3) (lba % 256))
            (hd.port_base + 4) (lba / 2 ^ 8 % 256))
          (hd.port_base + 5) (lba / 2 ^ 16 % 256))
        (hd.port_base + 6) (data_out % 256)

-- The first `done` bytes of a buffer are those of the disk from `from` on.
abbrev HasDone : Disk → ℕ → Memory → ℕ → ℕ → Memory → Type 0
HasDone disk from m buffer done m' =
    (a : ℕ)
    → m' a ≡ (if leb buffer a && ltb a (buffer + done) then disk (from + (a - buffer)) else m a)

module _ (status : ℕ → ℕ) (hd : HardDisk) (disk : Disk) (lba buffer n : ℕ) (m : Memory)
    (ready : (i : ℕ) → (bit_and (status i) 0x80 ≡ 0) × (bit_and (status i) 0x8 ≢ 0))
    (one : hd.dev_no < 2) (inside : lba + n ≤ 2 ^ 28) (fits : buffer + n * 512 ≤ word_size) where
  -- The events of one round.
  abbrev round : ℕ → ℕ → List Event
  round done size =
      set_disk_sector hd (lba + done) size
      ++ (outb (hd.port_base + 7) cmd_read_sector
          ∷ sema_down
          ∷ insw hd.port_base (buffer + done * 512) (buffer_words (size % 256))
          ∷ [])

  -- What a drive does with the events of the loop, whatever its registers held.
  abbrev Done : ℕ → List Event → Type 0
  Done done es =
      (regs : Registers) (m' : Memory)
      → HasDone disk (lba * 512) m buffer (done * 512) m'
      → (m'' : Memory) × (run_reads hd.port_base disk waiting regs m' es
          ≡ some ((n - done + 255) / 256, m''))
        × HasDone disk (lba * 512) m buffer (n * 512) m''
