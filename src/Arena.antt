-- ===== src/Arena.antt =====
-- kernel/memory.c: sys_malloc and sys_free. A free list is the list that DList proves of its
-- pointers, and a block stands in it by its address, for free_elem is its first field. A run holds the
-- lock of the pool from its first step to its last.
pub mod Blocks
pub mod Count
pub mod Invariant
pub mod Grow
pub mod Malloc
pub mod Source
pub mod Drop
pub mod Free
pub mod Large
use the_one_os.Common.{
  ℕ, zero, suc, ◌+◌, ◌-◌, ◌*◌, ◌/◌, ◌^◌, bit_and, Bool, true, false, not, ◌&&◌, Option, none, some,
  List, [], ◌∷◌, ◌++◌, ◌==◌, ltb, leb, if◌then◌else◌, update, has, wrap32, add32, sub32, ◌>>=◌,
  ◌>>◌, assert, Memory,
}
use the_one_os.Paging.{page_size, Pool, Mm, malloc_page, mfree_page, mem_pool_init, pde_ptr}
use the_one_os.Paging.Request.{zeroed}

abbrev pub desc_cnt : ℕ
desc_cnt = 7

-- sizeof(struct arena)
abbrev pub arena_size : ℕ
arena_size = 12

pub record BlockDesc : Type 0 where
  pub block_size : ℕ
  pub block_per_arena : ℕ
  pub free_list : List ℕ

-- The pointer to a descriptor is its index, and `none` is NULL.
pub record ArenaHeader : Type 0 where
  pub desc : Option ℕ
  pub cnt : ℕ
  pub large : Bool

-- What the running thread allocates from: the kernel's pool and descriptors in a kernel thread, else the
-- user pool and those of its task_struct. `arena` is the header that stands at an
-- address; `mm` has the bytes behind the headers, and what it has in the place of a header is not read.
pub record Heap : Type 0 where
  pub for_kernel : Bool
  pub mm : Mm
  pub desc : ℕ → BlockDesc
  pub arena : ℕ → ArenaHeader
  pub stack_magic : ℕ

abbrev pub mem_pool : Heap → Pool
mem_pool h = if h.for_kernel then h.mm.kernel_pool else h.mm.user_pool

abbrev pub set_mm : Heap → Mm → Heap
set_mm h mm = record h { mm = mm }

abbrev pub set_free_list : Heap → ℕ → List ℕ → Heap
set_free_list h d l = record h { desc = update h.desc d (record (h.desc d) { free_list = l }) }

abbrev pub set_arena : Heap → ℕ → ArenaHeader → Heap
set_arena h a x = record h { arena = update h.arena a x }

-- `left` rounds of the loop, at `i`.
unfoldable pub init_loop : ℕ → ℕ → ℕ → (ℕ → BlockDesc) → (ℕ → BlockDesc)
init_loop zero i block_size desc_arry = desc_arry
init_loop (suc left) i block_size desc_arry = init_loop left (i + 1) (block_size * 2) (
    update desc_arry i (record {
      block_size = block_size;
      block_per_arena = (page_size - arena_size) / block_size;
      free_list = [];
    }))

unfoldable pub block_desc_init : (ℕ → BlockDesc) → (ℕ → BlockDesc)
unfolding init_loop
block_desc_init desc_arry = init_loop desc_cnt 0 16 desc_arry

-- `block_size` is that of the descriptor of the arena.
unfoldable pub arena2block : ℕ → ℕ → ℕ → ℕ
arena2block block_size a idx = add32 (add32 a arena_size) (wrap32 (block_size * idx))

unfoldable pub block2arena : ℕ → ℕ
block2arena b = bit_and b 0xfffff000

-- The first descriptor whose blocks are large enough, or desc_cnt.
pub find_desc : (ℕ → BlockDesc) → ℕ → ℕ → ℕ → ℕ
find_desc desc size zero a_idx = a_idx
find_desc desc size (suc left) a_idx =
    let rest = find_desc desc size left (a_idx + 1) in
    if leb size (desc a_idx).block_size then a_idx else rest

-- The blocks of a new arena, from the b_idx-th on, are appended to the free list.
unfoldable pub fill_loop : ℕ → ℕ → ℕ → ℕ → List ℕ → Option (List ℕ)
fill_loop block_size a zero b_idx l = some l
fill_loop block_size a (suc left) b_idx l = do
  let b = arena2block block_size a b_idx
  assert (not (has b l))
  fill_loop block_size a left (b_idx + 1) (l ++ b ∷ [])

-- list_remove of an element of the list.
abbrev pub without : ℕ → List ℕ → List ℕ
without b [] = []
without b (x ∷ xs) = if x == b then xs else x ∷ without b xs

-- The blocks of an arena, from the i-th on, are removed from the free list.
unfoldable pub drain_loop : ℕ → ℕ → ℕ → ℕ → List ℕ → Option (List ℕ)
drain_loop block_size a zero i l = some l
drain_loop block_size a (suc left) i l = do
  let b = arena2block block_size a i
  assert (has b l)
  drain_loop block_size a left (i + 1) (without b l)

-- A size of more than 1024 bytes is given whole pages.
pub malloc_large : Heap → ℕ → Option (ℕ × Heap)
malloc_large h size = do
  let page_cnt = add32 (add32 size arena_size) (page_size - 1) / page_size
  (a, mm) ← malloc_page h.for_kernel h.mm page_cnt
  let h1 = set_mm h mm
  let header : ArenaHeader = record { desc = none; cnt = page_cnt; large = true }
  some (
      if a == 0
      then (0, h1)
      else (add32 a arena_size, set_arena (set_mm h (zeroed mm a page_cnt)) a header))

-- An arena for an empty free list; the result says whether there was a page for it.
pub new_arena : Heap → ℕ → Option (Bool × Heap)
new_arena h a_idx = do
  (a, mm) ← malloc_page h.for_kernel h.mm 1
  let d = h.desc a_idx
  let header : ArenaHeader = record { desc = some a_idx; cnt = d.block_per_arena; large = false }
  let filled = fill_loop d.block_size a d.block_per_arena 0 d.free_list >>= λ l.
      some (true, set_free_list (set_arena (set_mm h (zeroed mm a 1)) a header) a_idx l)
  if a == 0 then some (false, set_mm h mm) else filled

-- list_pop on an empty list would follow the tail's null pointer: a fault.
abbrev pub pop_front : List ℕ → Option (ℕ × List ℕ)
pop_front [] = none
pop_front (b ∷ l) = some (b, l)

-- The first block of the free list, which is no longer counted in its arena.
pub take_block : Heap → ℕ → Option (ℕ × Heap)
take_block h a_idx = do
  (b, l) ← pop_front (h.desc a_idx).free_list
  let a = block2arena b
  let x = h.arena a
  some (b, set_arena (set_free_list h a_idx l) a (record x { cnt = sub32 x.cnt 1 }))

abbrev pub is_empty : List ℕ → Bool
is_empty [] = true
is_empty (x ∷ xs) = false

pub malloc_small : Heap → ℕ → Option (ℕ × Heap)
malloc_small h size = do
  let a_idx = find_desc h.desc size desc_cnt 0
  assert (h.stack_magic == 20220120)
  (ready, h1) ← (if is_empty (h.desc a_idx).free_list then new_arena h a_idx else some (true, h))
  if ready then take_block h1 a_idx else some (0, h1)

-- The address is 0 when there is no memory.
pub sys_malloc : Heap → ℕ → Option (ℕ × Heap)
sys_malloc h size =
    if not (ltb 0 size && ltb size (mem_pool h).pool_size)
    then some (0, h)
    else if ltb 1024 size
    then malloc_large h size
    else malloc_small h size

-- A block of descriptor `d` is given back to the arena at `a`; an arena with every block free is dropped.
pub free_block : Heap → ℕ → ℕ → ℕ → Option Heap
free_block h d a b = do
  let x = h.arena a
  let l = (h.desc d).free_list ++ b ∷ []
  let h1 = set_arena (set_free_list h d l) a (record x { cnt = add32 x.cnt 1 })
  let bs = (h.desc d).block_size
  let drained = drain_loop bs a (h.desc d).block_per_arena 0 l >>= λ l'.
      mfree_page h.mm a 1 >>= λ mm. some (set_mm (set_free_list h1 d l') mm)
  if add32 x.cnt 1 == (h.desc d).block_per_arena then drained else some h1

-- What a header without a descriptor would have read through NULL is a fault.
abbrev free_by : Heap → ℕ → ℕ → Option ℕ → Option Heap
free_by h a b none = none
free_by h a b (some d) = free_block h d a b

abbrev pub is_null : Option ℕ → Bool
is_null none = true
is_null (some d) = false

pub sys_free : Heap → ℕ → Option Heap
sys_free h ptr = do
  let a = block2arena ptr
  let x = h.arena a
  let pages = mfree_page h.mm a x.cnt >>= λ mm. some (set_mm h mm)
  (if x.large && is_null x.desc then pages else free_by h a ptr x.desc)

-- The memory of a machine with 32 MB; the entry of the first 4 MB leaves the page directory.
pub mem_init : Memory → (ℕ → ℕ) → (ℕ → BlockDesc) → Mm × (ℕ → BlockDesc)
mem_init m words k_block_desc =
    let mm = mem_pool_init (32 * 1024 * 1024) m words in
    (record mm { words = update mm.words (pde_ptr 0) 0 }, block_desc_init k_block_desc)
