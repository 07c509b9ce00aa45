-- ===== src/Arena/Large.antt =====
-- kernel/memory.c: the requests that sys_malloc gives whole pages.
use the_one_os.Common.{
  ℕ, ◌+◌, ◌*◌, ◌-◌, ◌/◌, ◌^◌, ◌≤◌, ◌<◌, ◌≡◌, refl, ◌≢◌, bit_and, le→leb, true, none, some, arith,
  add32, wrap32, ◌>>=◌, ap, ◌∙◌, ==_refl, ==_ne, lt→ltb,
}
use the_one_os.Common.Masks.{bit_and-page}
use the_one_os.CString.Length.{memset-at}
use the_one_os.Paging.{Mm, malloc_page, mfree_page, page_size}
use the_one_os.Paging.Request.{zeroed}
use the_one_os.Arena.{
  arena_size, ArenaHeader, Heap, mem_pool, set_mm, set_arena, block2arena, malloc_large, sys_malloc,
  sys_free,
}
use the_one_os.Arena.Blocks.{IsPage}

-- The pages for a request of `size` bytes and the header of the arena.
abbrev pub page_cnt : ℕ → ℕ
page_cnt size = add32 (add32 size arena_size) (page_size - 1) / page_size

module _ (h : Heap) (size a : ℕ) (mm : Mm) (big : 1024 < size)
    (below : size < (mem_pool h).pool_size) (fits : size + 4107 < 2 ^ 32)
    (e : malloc_page h.for_kernel h.mm (page_cnt size) ≡ some (a, mm)) (there : a ≢ 0)
    (p : IsPage a) where
  abbrev header : ArenaHeader
  header = record { desc = none; cnt = page_cnt size; large = true }

  abbrev pub given : Heap
  given = set_arena (set_mm h (zeroed mm a (page_cnt size))) a header

  -- A large request is given whole pages that hold the header and, behind it, `size` bytes, each of them 0;
  -- sys_free of the address gives those pages back, and nothing else.
  pub malloc_large_lem :
      (sys_malloc h size ≡ some (a + 12, given))
      × (size + 12 ≤ page_cnt size * page_size)
      × ((x : ℕ) → a + 12 ≤ x → x < a + 12 + size → given.mm.bytes x ≡ 0)
      × (sys_free given (a + 12)
          ≡ (mfree_page given.mm a (page_cnt size) >>= λ mm'. some (set_mm given mm')))
  unfolding sys_malloc malloc_large sys_free block2arena
  malloc_large_lem =
      let address : add32 a 12 ≡ a + 12 = omega (arith, p.top) in
      let home : bit_and (a + 12) 0xfffff000 ≡ a =
        bit_and-page (a + 12) (omega (arith, p.top)) ∙ omega (arith, p.aligned) in
      (
        rw
            (
              lt→ltb 0 size (omega (arith, big)),
              lt→ltb size _ below,
              lt→ltb 1024 size big,
              e,
              ==_ne a 0 there,
            )
            (ap (λ x. some (x, given)) address),
        omega (arith, fits),
        λ x lo hi.
            memset-at mm.bytes a 0 (wrap32 (page_cnt size * page_size)) x
            ∙ rw
                (
                  le→leb a x (omega (arith, lo)),
                  lt→ltb x (a + wrap32 (page_cnt size * page_size)) (omega (arith, fits, hi)),
                )
                refl,
        rw (home, ==_refl a) refl,
      )
