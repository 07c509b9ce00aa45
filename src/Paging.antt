-- ===== src/Paging.antt =====
-- kernel/memory.c: pools of physical pages, virtual addresses and page tables. A page table entry is a
-- word at an address, and the words are kept apart from the bytes of the bitmaps.
pub mod Pools
pub mod Vaddr
pub mod Layout
pub mod Request
use the_one_os.Common.{
  ℕ, zero, suc, ◌+◌, ◌-◌, ◌*◌, ◌/◌, ◌%◌, ◌^◌, bit_and, bit_or, Bool, true, false, not, ◌&&◌, Option,
  none, some, ◌==◌, ltb, leb, if◌then◌else◌, Memory, update, wrap32, add32, sub32, minus_one, ◌>>=◌,
  ◌>>◌, assert,
}
use the_one_os.Bitmap.{Bitmap, bitmap_init, bitmap_scan, bitmap_set}

abbrev pub page_size : ℕ
page_size = 4096

pub record Pool : Type 0 where
  pub pool_bitmap : Bitmap
  pub phy_addr_start : ℕ
  pub pool_size : ℕ

pub record VirtualAddr : Type 0 where
  pub vaddr_bitmap : Bitmap
  pub vaddr_start : ℕ

-- `vaddr` is the virtual address pool of the owner: of the kernel, or of the running process.
pub record Mm : Type 0 where
  pub bytes : Memory
  pub words : ℕ → ℕ
  pub kernel_pool : Pool
  pub user_pool : Pool
  pub vaddr : VirtualAddr

-- The pool that a physical address is given back to.
abbrev pub pool_of : Pool → Pool → ℕ → Pool
pool_of kernel_pool user_pool paddr =
    if ltb user_pool.phy_addr_start paddr then user_pool else kernel_pool

unfoldable pub pfree : Memory → Pool → Pool → ℕ → Option Memory
pfree m kernel_pool user_pool paddr =
    let mem_pool = pool_of kernel_pool user_pool paddr in
    bitmap_set m mem_pool.pool_bitmap (sub32 paddr mem_pool.phy_addr_start / page_size) 0

-- The address is 0 when no page is left.
unfoldable pub palloc : Memory → Pool → Option (ℕ × Memory)
palloc m m_pool =
    let bit_idx = bitmap_scan m m_pool.pool_bitmap 1 in
    if bit_idx == minus_one
    then some (0, m)
    else bitmap_set m m_pool.pool_bitmap bit_idx 1 >>= λ m'.
        some (add32 m_pool.phy_addr_start (wrap32 (bit_idx * page_size)), m')

-- `while(pg_cnt--) bitmap_set(..., bit_idx_start + pg_cnt, 1);`
unfoldable pub take_loop : Memory → Bitmap → ℕ → ℕ → Option Memory
take_loop m b bit_idx_start zero = some m
take_loop m b bit_idx_start (suc pg_cnt) =
    bitmap_set m b (add32 bit_idx_start pg_cnt) 1 >>= λ m'. take_loop m' b bit_idx_start pg_cnt

unfoldable pub vaddr_get : Memory → VirtualAddr → ℕ → Option (ℕ × Memory)
unfolding take_loop
vaddr_get m v pg_cnt =
    let bit_idx_start = bitmap_scan m v.vaddr_bitmap pg_cnt in
    if bit_idx_start == minus_one
    then some (0, m)
    else take_loop m v.vaddr_bitmap bit_idx_start pg_cnt >>= λ m'.
        some (add32 v.vaddr_start (wrap32 (bit_idx_start * page_size)), m')

-- `left` rounds of the loop of vaddr_remove, at `i`.
unfoldable pub drop_loop : Memory → Bitmap → ℕ → ℕ → ℕ → Option Memory
drop_loop m b idx_start i zero = some m
drop_loop m b idx_start i (suc left) =
    bitmap_set m b (add32 idx_start i) 0 >>= λ m'. drop_loop m' b idx_start (i + 1) left

unfoldable pub vaddr_remove : Memory → VirtualAddr → ℕ → ℕ → Option Memory
unfolding drop_loop
vaddr_remove m v vaddr cnt =
    drop_loop m v.vaddr_bitmap (sub32 vaddr v.vaddr_start / page_size) 0 cnt

unfoldable pub pte_ptr : ℕ → ℕ
pte_ptr vaddr =
    add32 (add32 0xffc00000 (bit_and vaddr 0xffc00000 / 2 ^ 10))
      (bit_and vaddr 0x003ff000 / 2 ^ 12 * 4)

unfoldable pub pde_ptr : ℕ → ℕ
pde_ptr vaddr = add32 0xfffff000 (bit_and vaddr 0xffc00000 / 2 ^ 22 * 4)

unfoldable pub addr_v2p : (ℕ → ℕ) → ℕ → ℕ
addr_v2p words vaddr = add32 (bit_and (words (pte_ptr vaddr)) 0xfffff000) (bit_and vaddr 0x00000fff)

-- PG_US_U | PG_RW_W | PG_P_1
abbrev pub present_user : ℕ → ℕ
present_user phyaddr = bit_or (bit_or (bit_or phyaddr 4) 2) 1

-- memset of a page of words to 0.
abbrev pub clear_page : (ℕ → ℕ) → ℕ → (ℕ → ℕ)
clear_page words page = λ a. if leb page a && ltb a (page + page_size) then 0 else words a

unfoldable pub page_table_add : Mm → ℕ → ℕ → Option Mm
page_table_add mm vaddr page_phyaddr = do
  let pde = pde_ptr vaddr
  let pte = pte_ptr vaddr
  mm1 ←
      (if bit_and (mm.words pde) 1 == 0
        then (do
          (pde_phyaddr, m) ← palloc mm.bytes mm.kernel_pool
          let mapped = update mm.words pde (present_user pde_phyaddr)
          some (record mm { bytes = m; words = clear_page mapped (bit_and pte 0xfffff000) }))
        else some mm)
  assert (bit_and (mm1.words pte) 1 == 0)
  some (record mm1 { words = update mm1.words pte (present_user page_phyaddr) })

-- The rounds of malloc_page; the result says whether every page was given.
unfoldable pub map_loop : Bool → ℕ → Mm → ℕ → Option (Bool × Mm)
map_loop for_kernel zero mm vaddr = some (true, mm)
map_loop for_kernel (suc cnt) mm vaddr = do
  (page_phyaddr, m) ← palloc mm.bytes (if for_kernel then mm.kernel_pool else mm.user_pool)
  let mm1 : Mm = record mm { bytes = m }
  let more = page_table_add mm1 vaddr page_phyaddr >>= λ mm2.
      map_loop for_kernel cnt mm2 (add32 vaddr page_size)
  if page_phyaddr == 0 then some (false, mm1) else more

unfoldable pub malloc_page : Bool → Mm → ℕ → Option (ℕ × Mm)
unfolding map_loop
malloc_page for_kernel mm pg_cnt = do
  (vaddr_start, m) ← vaddr_get mm.bytes mm.vaddr pg_cnt
  let mm1 : Mm = record mm { bytes = m }
  let mapped = map_loop for_kernel pg_cnt mm1 vaddr_start >>= λ (all, mm2).
      some (if all then vaddr_start else 0, mm2)
  if vaddr_start == 0 then some (0, mm1) else mapped

-- The invlpg that follows is no change of this state.
unfoldable pub page_table_pte_remove : (ℕ → ℕ) → ℕ → (ℕ → ℕ)
page_table_pte_remove words vaddr =
    let pte = pte_ptr vaddr in update words pte (bit_and (words pte) (2 ^ 32 - 2))

unfoldable pub unmap_loop : ℕ → Mm → ℕ → Option Mm
unmap_loop zero mm vaddr = some mm
unmap_loop (suc left) mm vaddr = do
  m ← pfree mm.bytes mm.kernel_pool mm.user_pool (addr_v2p mm.words vaddr)
  unmap_loop left (record mm { bytes = m; words = page_table_pte_remove mm.words vaddr })
      (add32 vaddr page_size)

unfoldable pub mfree_page : Mm → ℕ → ℕ → Option Mm
unfolding unmap_loop
mfree_page mm vaddr cnt = do
  assert (leb 1 cnt && (vaddr % page_size == 0))
  let pg_phy_addr = addr_v2p mm.words vaddr
  assert ((pg_phy_addr % page_size == 0) && leb 0x102000 pg_phy_addr)
  mm1 ← unmap_loop cnt mm vaddr
  m ← vaddr_remove mm1.bytes mm1.vaddr vaddr cnt
  some (record mm1 { bytes = m })

-- The second half of mem_pool_init, from the lengths on.
pub lay_out : ℕ → ℕ → ℕ → ℕ → Memory → (ℕ → ℕ) → Mm
lay_out kernel_free_pages user_free_pages kbm_length ubm_length m words =
    let used_mem = 256 * page_size + 0x100000 in
    let kernel_bits : Bitmap = record { btmap_bytes_len = kbm_length; bits = 0xc009a000 } in
    let user_bits : Bitmap = record {
      btmap_bytes_len = ubm_length;
      bits = add32 0xc009a000 kbm_length;
    } in
    let vaddr_bits : Bitmap = record {
      btmap_bytes_len = kbm_length;
      bits = add32 (add32 0xc009a000 kbm_length) ubm_length;
    } in
    record {
      bytes = bitmap_init (bitmap_init (bitmap_init m user_bits) kernel_bits) vaddr_bits;
      words = words;
      kernel_pool = record {
        pool_bitmap = kernel_bits;
        phy_addr_start = used_mem;
        pool_size = kernel_free_pages * page_size;
      };
      user_pool = record {
        pool_bitmap = user_bits;
        phy_addr_start = add32 used_mem (kernel_free_pages * page_size);
        pool_size = user_free_pages * page_size;
      };
      vaddr = record { vaddr_bitmap = vaddr_bits; vaddr_start = 0xc0100000 };
    }

-- The pools for `all_mem` bytes of memory. The counts of pages are uint16_t.
pub mem_pool_init : ℕ → Memory → (ℕ → ℕ) → Mm
mem_pool_init all_mem =
    let free_mem = sub32 all_mem (256 * page_size + 0x100000) in
    let all_free_pages = free_mem / page_size % 2 ^ 16 in
    let kernel_free_pages = all_free_pages / 2 in
    let user_free_pages = all_free_pages - kernel_free_pages in
    lay_out kernel_free_pages user_free_pages (kernel_free_pages / 8) (user_free_pages / 8)
