-- ===== src/Tests/Pages.antt =====
-- lib/bitmap.c, kernel/memory.c: the pools of a machine with 32 MB of memory.
use the_one_os.Common.{
  ℕ, ◌+◌, ◌*◌, ◌<◌, ◌≤◌, ◌≡◌, refl, ◌⊎◌, true, false, some, arith, Memory, store, IsBytes, ◌==◌,
  if◌then◌else◌,
}
use the_one_os.Bitmap.{
  Bitmap, scan_loop, bitmap_scan, test_bit, bitmap_scan_test, set_bit, bitmap_set, bitmap_init,
}
use the_one_os.Bitmap.Bits.{IsPlaced, bitmap_set_lem, test-init}
use the_one_os.Bitmap.Scan.{Scanned, bitmap_scan-Scanned}
use the_one_os.Paging.{
  page_size, Pool, VirtualAddr, palloc, pfree, take_loop, vaddr_get, vaddr_remove, mem_pool_init,
}
use the_one_os.Paging.Pools.{in_use, IsJoined, Palloced, palloc_lem, pfree-palloc}
use the_one_os.Paging.Vaddr.{IsVirtual, Reserved, vaddr_get_lem, vaddr_remove-get}
use the_one_os.Paging.Layout.{IsFresh, mem_pool_init_lem}

-- The lowest bit of the byte at 0x100 is set.
abbrev memory : Memory
memory a = if a == 0x100 then 1 else 0

memory-IsBytes : IsBytes memory
memory-IsBytes a = ground arith

abbrev bits : Bitmap
bits = record { btmap_bytes_len = 4; bits = 0x100 }

bits-IsPlaced : IsPlaced bits
bits-IsPlaced = record { fits = omega arith; countable = omega arith }

bitmap_scan_example : Scanned memory bits 3 (bitmap_scan memory bits 3)
bitmap_scan_example = bitmap_scan-Scanned memory bits 3 (omega arith) (omega arith)

bitmap_set_example :
    (m' : Memory) × (bitmap_set memory bits 9 1 ≡ some m')
    × IsBytes m'
    × ((j : ℕ)
        → j < 32
        → bitmap_scan_test m' bits j ≡ (if j == 9 then true else bitmap_scan_test memory bits j))
    × ((a : ℕ) → (a < 0x100) ⊎ (0x104 ≤ a) → m' a ≡ memory a)
bitmap_set_example = bitmap_set_lem memory bits 9 true memory-IsBytes bits-IsPlaced (omega arith)

test-init_example : bitmap_scan_test (bitmap_init memory bits) bits 0 ≡ false
test-init_example = test-init memory bits 0 bits-IsPlaced (omega arith)

abbrev kernel_pool : Pool
kernel_pool = record { pool_bitmap = bits; phy_addr_start = 0x200000; pool_size = 32 * page_size }

abbrev user_pool : Pool
user_pool = record {
  pool_bitmap = record { btmap_bytes_len = 4; bits = 0x104 };
  phy_addr_start = 0x200000 + 32 * page_size;
  pool_size = 32 * page_size;
}

pools-IsJoined : IsJoined kernel_pool user_pool
pools-IsJoined = record {
  kernel = record { placed = bits-IsPlaced; there = omega arith; top = omega arith };
  user = record {
    placed = record { fits = omega arith; countable = omega arith };
    there = omega arith;
    top = omega arith;
  };
  bits_next = refl;
  pages_next = refl;
}

palloc_example : Palloced memory kernel_pool (palloc memory kernel_pool)
palloc_example = palloc_lem memory kernel_pool pools-IsJoined.kernel (omega arith)

abbrev memory' : Memory
memory' a = if a == 0x104 then 1 else memory a

first_page : palloc memory user_pool ≡ some (0x220000, memory')
unfolding palloc bitmap_scan scan_loop bitmap_scan_test test_bit bitmap_set set_bit
first_page = refl

-- The first page of the user pool.
pfree-palloc_example :
    (m'' : Memory) × (pfree memory' kernel_pool user_pool 0x220000 ≡ some m'')
    × ((j : ℕ) → j < 32 → in_use m'' user_pool j ≡ in_use memory user_pool j)
pfree-palloc_example =
    pfree-palloc memory memory' true 0x220000 memory-IsBytes pools-IsJoined (omega arith) first_page
      (omega arith)

abbrev heap : VirtualAddr
heap = record { vaddr_bitmap = bits; vaddr_start = 0xc0100000 }

heap-IsVirtual : IsVirtual heap
heap-IsVirtual = record {
  placed = bits-IsPlaced;
  few = omega arith;
  there = omega arith;
  top = omega arith;
}

vaddr_get_example : Reserved memory heap 3 (vaddr_get memory heap 3)
vaddr_get_example = vaddr_get_lem memory heap 3 memory-IsBytes heap-IsVirtual (omega arith)

mem_pool_init_example : IsFresh 0x2000000 (mem_pool_init 0x2000000 memory (λ a. 0))
mem_pool_init_example = mem_pool_init_lem 0x2000000 memory (λ a. 0) 480 (omega arith) refl

-- The memory with pages 1 to 3 reserved, the last one first.
abbrev reserved : Memory
reserved = store (store (store memory 0x100 9) 0x100 13) 0x100 15

reserved_pages : vaddr_get memory heap 3 ≡ some (0xc0101000, reserved)
unfolding vaddr_get take_loop bitmap_scan scan_loop bitmap_scan_test test_bit bitmap_set set_bit
reserved_pages = refl

vaddr_remove-get_example :
    (m'' : Memory) × (vaddr_remove reserved heap 0xc0101000 3 ≡ some m'')
    × ((j : ℕ) → j < 32 → bitmap_scan_test m'' bits j ≡ bitmap_scan_test memory bits j)
vaddr_remove-get_example =
    vaddr_remove-get memory reserved heap 3 0xc0101000 memory-IsBytes heap-IsVirtual (omega arith)
      reserved_pages (omega arith)
