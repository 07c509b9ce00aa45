-- ===== src/Paging/Request.antt =====
-- kernel/memory.c: the requests of pages by other parts of the kernel. A run holds the lock of the pool
-- from its first step to its last.
use the_one_os.Common.{
  ℕ, ◌+◌, ◌*◌, ◌/◌, ◌^◌, ◌<◌, ◌≤◌, ◌≡◌, refl, ◌≢◌, Bool, true, false, not, ◌&&◌, ◌||◌, Option, some,
  ◌==◌, ltb, if◌then◌else◌, wrap32, sub32, ◌>>=◌, ◌>>◌, assert, arith, ◌∙◌, le→leb, lt→ltb, ==_ne,
}
use the_one_os.CString.{memset}
use the_one_os.CString.Length.{memset-at}
use the_one_os.Bitmap.{bitmap_set}
use the_one_os.Paging.{page_size, Mm, palloc, page_table_add, malloc_page}

-- memset of `pg_cnt` pages to 0.
abbrev pub zeroed : Mm → ℕ → ℕ → Mm
zeroed mm a pg_cnt = record mm { bytes = memset mm.bytes a 0 (wrap32 (pg_cnt * page_size)) }

-- get_kernel_pages and get_user_pages, by the pool.
pub get_pages : Bool → Mm → ℕ → Option (ℕ × Mm)
get_pages for_kernel mm pg_cnt = do
  (vaddr, mm1) ← malloc_page for_kernel mm pg_cnt
  some (vaddr, if vaddr == 0 then mm1 else zeroed mm1 vaddr pg_cnt)

unfoldable pub get_kernel_pages : Mm → ℕ → Option (ℕ × Mm)
unfolding get_pages
get_kernel_pages = get_pages true

unfoldable pub get_user_pages : Mm → ℕ → Option (ℕ × Mm)
unfolding get_pages
get_user_pages = get_pages false

pub free_a_phy_page : Mm → ℕ → Option Mm
free_a_phy_page mm pg_phy_addr = do
  let pool = if ltb mm.user_pool.phy_addr_start pg_phy_addr then mm.user_pool else mm.kernel_pool
  m ← bitmap_set mm.bytes pool.pool_bitmap (sub32 pg_phy_addr pool.phy_addr_start / page_size) 0
  some (record mm { bytes = m })

-- A process asks for its own pages, and a kernel thread for the kernel's; all else is a PANIC.
pub update_thread_bitmap : Bool → ℕ → Mm → ℕ → Option Mm
update_thread_bitmap for_kernel pgdir mm vaddr = do
  assert ((not (pgdir == 0) && not for_kernel) || ((pgdir == 0) && for_kernel))
  let idx = sub32 vaddr mm.vaddr.vaddr_start / page_size
  assert (ltb 0 idx)
  m ← bitmap_set mm.bytes mm.vaddr.vaddr_bitmap idx 1
  some (record mm { bytes = m })

-- `pgdir` is that of the running thread. Without a page there is a PANIC.
pub get_a_page : Bool → ℕ → Mm → ℕ → Bool → Option (ℕ × Mm)
unfolding update_thread_bitmap
get_a_page for_kernel pgdir mm vaddr op_bitmap = do
  (page_phyaddr, m) ← palloc mm.bytes (if for_kernel then mm.kernel_pool else mm.user_pool)
  assert (not (page_phyaddr == 0))
  let mm1 : Mm = record mm { bytes = m }
  mm2 ← (if op_bitmap then update_thread_bitmap for_kernel pgdir mm1 vaddr else some mm1)
  mm3 ← page_table_add mm2 vaddr page_phyaddr
  some (vaddr, mm3)

-- The pages that are given to the kernel hold only 0.
pub get_kernel_pages-zero :
    (mm mm' : Mm) (pg_cnt vaddr : ℕ)
    → pg_cnt * page_size < 2 ^ 32
    → vaddr ≢ 0
    → malloc_page true mm pg_cnt ≡ some (vaddr, mm')
    → (mm'' : Mm) × (get_kernel_pages mm pg_cnt ≡ some (vaddr, mm''))
      × ((a : ℕ) → vaddr ≤ a → a < vaddr + pg_cnt * page_size → mm''.bytes a ≡ 0)
unfolding get_kernel_pages
get_kernel_pages-zero mm mm' pg_cnt vaddr small there e = (
  zeroed mm' vaddr pg_cnt,
  rw (e, ==_ne vaddr 0 there) refl,
  λ a lo hi.
      memset-at mm'.bytes vaddr 0 (wrap32 (pg_cnt * page_size)) a
      ∙ rw
          (
            le→leb vaddr a lo,
            lt→ltb a (vaddr + wrap32 (pg_cnt * page_size)) (omega (arith, small, hi)),
          )
          refl,
)
