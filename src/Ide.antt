-- ===== src/Ide.antt =====
-- device/ide.c: the disk driver, as the accesses to the ports that it makes.
pub mod Transfer
pub mod Scan
use the_one_os.Common.{
  ℕ, zero, suc, ◌+◌, ◌-◌, ◌*◌, ◌/◌, ◌%◌, ◌^◌, bit_and, bit_or, Bool, true, false, not, ◌||◌, Option,
  none, some, List, [], ◌∷◌, ◌++◌, ◌==◌, ltb, if◌then◌else◌, add32, sub32, wrap32, update, ◌>>=◌,
  ◌>>◌, assert,
}
use the_one_os.Thread.{Kernel}
use the_one_os.Sync.{Semaphore, sema_up}
use the_one_os.Files.{Buffer, word_at}

pub record IdeChannel : Type 0 where
  pub port_base : ℕ
  pub irq_no : ℕ
  pub expecting_intr : Bool
  pub disk_done : Semaphore

pub record HardDisk : Type 0 where
  pub port_base : ℕ
  pub dev_no : ℕ

-- An access to a port, or a call of the channel's lock and semaphore.
pub data Event : Type 0 where
  lock_acquire lock_release sema_down : Event
  outb : ℕ → ℕ → Event
  insw outsw : ℕ → ℕ → ℕ → Event

-- Five registers of a drive; what they get is a byte.
unfoldable pub set_disk_sector : HardDisk → ℕ → ℕ → List Event
set_disk_sector hd lba sector_cnt =
    let data_out = bit_or (bit_or (lba / 2 ^ 24) 0x40) (hd.dev_no * 0x10 + 0xa0) in
    outb (hd.port_base + 2) (sector_cnt % 256)
    ∷ outb (hd.port_base + 3) (lba % 256)
    ∷ outb (hd.port_base + 4) (lba / 2 ^ 8 % 256)
    ∷ outb (hd.port_base + 5) (lba / 2 ^ 16 % 256)
    ∷ outb (hd.port_base + 6) (data_out % 256)
    ∷ []

-- The rounds left of the loop. `status` gives what the i-th read of the status register gives; the
-- result is whether the drive is ready, and the number of reads so far.
unfoldable pub busy_loop : (ℕ → ℕ) → ℕ → ℕ → Bool × ℕ
busy_loop status zero i = (false, i)
busy_loop status (suc rounds) i =
    let rest = busy_loop status rounds (i + 1) in
    if bit_and (status i) 0x80 == 0 then (not (bit_and (status i) 0x8 == 0), i + 1) else rest

-- max_wait / interval rounds.
unfoldable pub busy_wait : (ℕ → ℕ) → ℕ → Bool × ℕ
busy_wait status i = busy_loop status 300 i

-- The number of words of 16 bits; `cnt` is a byte, and 0 stands for 256.
unfoldable pub buffer_words : ℕ → ℕ
buffer_words cnt = 512 * (if cnt == 0 then 256 else cnt) / 2

abbrev pub cmd_read_sector : ℕ
cmd_read_sector = 0x20

abbrev pub cmd_write_sector : ℕ
cmd_write_sector = 0x30

-- The sectors of the next round.
unfoldable pub chunk : ℕ → ℕ → ℕ
chunk sector_cnt sector_done =
    let sector_size = sub32 sector_cnt sector_done in
    if ltb 256 sector_size then 256 else sector_size

-- The loop of disk_read, with `sector_done`, on fuel.
unfoldable pub read_loop : (ℕ → ℕ) → HardDisk → ℕ → ℕ → ℕ → ℕ → ℕ → ℕ → Option (List Event)
read_loop status hd lba buffer sector_cnt zero sector_done i = none
read_loop status hd lba buffer sector_cnt (suc fuel) sector_done i =
    let sector_size = chunk sector_cnt sector_done in
    let (ready, i') = busy_wait status i in
    let done' = add32 sector_done sector_size in
    let rest = read_loop status hd lba buffer sector_cnt fuel done' i' in
    let events =
      set_disk_sector hd (add32 lba sector_done) sector_size
      ++ (outb (hd.port_base + 7) cmd_read_sector
          ∷ sema_down
          ∷ insw hd.port_base (add32 buffer (wrap32 (sector_done * 512)))
              (buffer_words (sector_size % 256))
          ∷ []) in
    assert ready
    >> (if ltb done' sector_cnt then (rest >>= λ es. some (events ++ es)) else some events)

unfoldable pub disk_read_events : (ℕ → ℕ) → HardDisk → ℕ → ℕ → ℕ → Option (List Event)
disk_read_events status hd lba buffer sector_cnt =
    read_loop status hd lba buffer sector_cnt (suc (sector_cnt / 256)) 0 0 >>= λ es.
    some (lock_acquire ∷ (es ++ (lock_release ∷ [])))

-- The loop of disk_write waits for the drive before the words are written, and for the interrupt after it.
unfoldable pub write_loop : (ℕ → ℕ) → HardDisk → ℕ → ℕ → ℕ → ℕ → ℕ → ℕ → Option (List Event)
write_loop status hd lba buffer sector_cnt zero sector_done i = none
write_loop status hd lba buffer sector_cnt (suc fuel) sector_done i =
    let sector_size = chunk sector_cnt sector_done in
    let (ready, i') = busy_wait status i in
    let done' = add32 sector_done sector_size in
    let rest = write_loop status hd lba buffer sector_cnt fuel done' i' in
    let events =
      set_disk_sector hd (add32 lba sector_done) sector_size
      ++ (outb (hd.port_base + 7) cmd_write_sector
          ∷ outsw hd.port_base (add32 buffer (wrap32 (sector_done * 512)))
              (buffer_words (sector_size % 256))
          ∷ sema_down
          ∷ []) in
    assert ready
    >> (if ltb done' sector_cnt then (rest >>= λ es. some (events ++ es)) else some events)

unfoldable pub disk_write_events : (ℕ → ℕ) → HardDisk → ℕ → ℕ → ℕ → Option (List Event)
disk_write_events status hd lba buffer sector_cnt =
    write_loop status hd lba buffer sector_cnt (suc (sector_cnt / 256)) 0 0 >>= λ es.
    some (lock_acquire ∷ (es ++ (lock_release ∷ [])))

-- The interrupt of a channel. The read of the status register that ends it is left out.
pub intr_hd_handler : (ℕ → IdeChannel) → Kernel → ℕ → Option ((ℕ → IdeChannel) × Kernel)
intr_hd_handler channels k irq_no =
    let ch_no = irq_no - 0x2e in
    let channel = channels ch_no in
    let raised = sema_up k channel.disk_done >>= λ (k', sema).
    some
      (update channels ch_no (record channel { expecting_intr = false; disk_done = sema }), k') in
    assert ((irq_no == 0x2e) || (irq_no == 0x2f))
    >> (assert (channel.irq_no == irq_no)
        >> (if channel.expecting_intr then raised else some (channels, k)))

-- le2be(src, buf, len)
pub le2be : Buffer → Buffer → ℕ → Buffer
le2be src buf len a =
    let end = (len + 1) / 2 * 2 in
    if ltb a end then src (if a % 2 == 0 then a + 1 else a - 1) else if a == end then 0 else buf a

pub record PartEntry : Type 0 where
  pub fs_type : ℕ
  pub start_lba : ℕ
  pub sector_cnt : ℕ

-- Entry `i` of the table in a boot sector.
unfoldable pub part_entry : Buffer → ℕ → PartEntry
part_entry bs i =
    let pt = 446 + 16 * i in
    record {
      fs_type = bs (pt + 4);
      start_lba = word_at bs (pt + 8);
      sector_cnt = word_at bs (pt + 12);
    }

-- The rounds left of the loop, with `part_idx` and the number of the entry that pt points to. `primary`
-- holds the start and the length of the four partitions.
unfoldable pub scan_entries : (ℕ → PartEntry) → ℕ → ℕ → ℕ → (ℕ → ℕ × ℕ) → ℕ → ℕ × ℕ
scan_entries entry zero part_idx pt primary = primary
scan_entries entry (suc rounds) part_idx pt primary =
    let same = scan_entries entry rounds (part_idx + 1) pt primary in
    let p : ℕ × ℕ = ((entry pt).start_lba, (entry pt).sector_cnt) in
    let next = scan_entries entry rounds (part_idx + 1) (pt + 1) (update primary part_idx p) in
    if (entry pt).fs_type == 0x5 then same else if (entry pt).fs_type == 0 then same else next

unfoldable pub partition_scan : Buffer → (ℕ → ℕ × ℕ) → ℕ → ℕ × ℕ
partition_scan bs primary = scan_entries (part_entry bs) 4 0 0 primary
