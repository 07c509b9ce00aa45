-- ===== src/Tests/Arenas.antt =====
-- kernel/memory.c: an arena is made, a block of it is freed, and the arena is dropped.
use the_one_os.Common.{
  ℕ, ◌+◌, ◌*◌, ◌<◌, ◌≤◌, ◌≡◌, refl, ◌⊎◌, inr, true, false, none, some, List, [], ◌∷◌, arith, Memory,
  IsBytes, store, ◌==◌, if◌then◌else◌, update, ◌>>=◌,
}
use the_one_os.Bitmap.{scan_loop, bitmap_scan, test_bit, bitmap_scan_test, set_bit, bitmap_set}
use the_one_os.Paging.{
  page_size, Pool, Mm, palloc, take_loop, vaddr_get, pte_ptr, pde_ptr, page_table_add, map_loop,
  malloc_page, mfree_page,
}
use the_one_os.Arena.{Heap, block_desc_init, init_loop, block2arena, sys_malloc, sys_free}
use the_one_os.Arena.Invariant.{IsHeap, free_list, block_desc_init-IsHeap, relisted}
use the_one_os.Arena.Grow.{IsNewPage, grown}
use the_one_os.Arena.Malloc.{Malloced, sys_malloc_lem}
use the_one_os.Arena.Source.{AllReserved, malloc_page-IsNewPage}
use the_one_os.Paging.Vaddr.{IsVirtual}
use the_one_os.Arena.Large.{page_cnt, given, malloc_large_lem}

abbrev memory : Memory
memory a = 0

-- The page table of the heap's first pages is there.
abbrev words : ℕ → ℕ
words a = if a == 0xfffffc00 then 1 else 0

abbrev pub pool_at : ℕ → ℕ → Pool
pool_at bits start = record {
  pool_bitmap = record { btmap_bytes_len = 4; bits = bits };
  phy_addr_start = start;
  pool_size = 32 * page_size;
}

abbrev mm : Mm
mm = record {
  bytes = memory;
  words = words;
  kernel_pool = pool_at 0x200 0x200000;
  user_pool = pool_at 0x204 0x220000;
  vaddr = record {
    vaddr_bitmap = record { btmap_bytes_len = 4; bits = 0x100 };
    vaddr_start = 0xc0100000;
  };
}

abbrev heap : Heap
heap = record {
  for_kernel = true;
  mm = mm;
  desc = block_desc_init (λ d. record { block_size = 0; block_per_arena = 0; free_list = [] });
  arena = λ a. record { desc = none; cnt = 0; large = false };
  stack_magic = 20220120;
}

heap-IsHeap : IsHeap heap []
heap-IsHeap =
    block_desc_init-IsHeap heap
      (λ d. record { block_size = 0; block_per_arena = 0; free_list = [] }) refl

block_desc_init-IsHeap_example : IsHeap heap []
block_desc_init-IsHeap_example =
    block_desc_init-IsHeap heap
      (λ d. record { block_size = 0; block_per_arena = 0; free_list = [] }) refl

-- The state with one page mapped.
abbrev mapped : Mm
mapped = record mm {
  bytes = store (store memory 0x100 1) 0x200 1;
  words = update words 0xfff00400 0x200007;
}

one_page : malloc_page true mm 1 ≡ some (0xc0100000, mapped)
unfolding malloc_page map_loop vaddr_get take_loop palloc page_table_add pte_ptr pde_ptr bitmap_scan
    scan_loop bitmap_scan_test test_bit bitmap_set set_bit
one_page = refl

new_page : IsNewPage 0xc0100000 []
new_page = record {
  placed = record { aligned = refl; top = omega arith };
  there = omega arith;
  unlisted = refl;
}

sys_malloc_example : Malloced heap [] 600 0xc0100000 mapped (sys_malloc heap 600)
sys_malloc_example =
    sys_malloc_lem heap [] 600 0xc0100000 mapped heap-IsHeap refl (omega arith) (omega arith)
      (omega arith) one_page (inr new_page)

-- A page with two blocks of 1024 bytes free, and one in use.
abbrev desc_1024 : ℕ
desc_1024 = 6

none_free : free_list heap desc_1024 ≡ []
unfolding block_desc_init init_loop
none_free = refl

abbrev page : ℕ
page = 0xc0100000

abbrev full : Heap
full = grown heap [] desc_1024 page mapped heap-IsHeap (omega arith) none_free new_page

abbrev first : ℕ
first = 0xc010000c

abbrev rest : List ℕ
rest = 0xc010040c ∷ 0xc010080c ∷ []

abbrev used : Heap
used = relisted full desc_1024 page rest 2

home_first : block2arena first ≡ page
unfolding block2arena
home_first = refl

-- The state with the page given back.
abbrev freed : Mm
freed = record used.mm {
  bytes = store (store used.mm.bytes 0x200 0) 0x100 0;
  words = update (update words 0xfff00400 0x200007) 0xfff00400 0x200006;
}

-- The state with two pages mapped.
abbrev two_pages : Mm
two_pages = record mm {
  bytes = store (store (store (store memory 0x100 2) 0x100 3) 0x200 1) 0x200 3;
  words = update (update words 0xfff00400 0x200007) 0xfff00404 0x201007;
}

pages_mapped : malloc_page heap.for_kernel heap.mm (page_cnt 5000) ≡ some (page, two_pages)
unfolding malloc_page map_loop vaddr_get take_loop palloc page_table_add pte_ptr pde_ptr bitmap_scan
    scan_loop bitmap_scan_test test_bit bitmap_set set_bit
pages_mapped = refl

abbrev large : Heap
large =
    given heap 5000 page two_pages (omega arith) (omega arith) (omega arith) pages_mapped
      (omega arith) new_page.placed

malloc_large_example :
    (sys_malloc heap 5000 ≡ some (page + 12, large))
    × (5000 + 12 ≤ page_cnt 5000 * page_size)
    × ((x : ℕ) → page + 12 ≤ x → x < page + 12 + 5000 → large.mm.bytes x ≡ 0)
    × (sys_free large (page + 12)
        ≡ (mfree_page large.mm page (page_cnt 5000) >>= λ mm'. some (record large { mm = mm' })))
malloc_large_example =
    malloc_large_lem heap 5000 page two_pages (omega arith) (omega arith) (omega arith) pages_mapped
      (omega arith) new_page.placed

abbrev second : ℕ
second = 0xc0101000

-- The page at the start of the heap is reserved.
abbrev one_taken : Mm
one_taken = record mm { bytes = store memory 0x100 1 }

abbrev two_taken : Mm
two_taken = record mm {
  bytes = store (store (store memory 0x100 1) 0x100 3) 0x200 1;
  words = update words 0xfff00404 0x200007;
}

one_taken-IsBytes : IsBytes one_taken.bytes
one_taken-IsBytes a = ground arith

one_taken-IsVirtual : IsVirtual one_taken.vaddr
one_taken-IsVirtual = record {
  placed = record { fits = omega arith; countable = omega arith };
  few = omega arith;
  there = omega arith;
  top = omega arith;
}

page_reserved : bitmap_scan_test one_taken.bytes one_taken.vaddr.vaddr_bitmap 0 ≡ true
unfolding bitmap_scan_test test_bit
page_reserved = refl

arenas_reserved : AllReserved one_taken (page ∷ [])
unfolding AllReserved
arenas_reserved a t = (0, ground (arith, t), page_reserved)

second_page : malloc_page true one_taken 1 ≡ some (0xc0101000, two_taken)
unfolding malloc_page map_loop vaddr_get take_loop palloc page_table_add pte_ptr pde_ptr bitmap_scan
    scan_loop bitmap_scan_test test_bit bitmap_set set_bit
second_page = refl

malloc_page_example : (second ≡ 0) ⊎ IsNewPage second (page ∷ [])
malloc_page_example =
    malloc_page-IsNewPage true one_taken two_taken (page ∷ []) second one_taken-IsBytes
      one_taken-IsVirtual refl arenas_reserved second_page
