-- ===== src/Paging/Layout.antt =====
-- kernel/memory.c: the pools that mem_pool_init lays out.
use the_one_os.Common.{
  ℕ, ◌+◌, ◌-◌, ◌*◌, ◌/◌, ◌%◌, ◌^◌, ◌<◌, ◌≡◌, inl, inr, false, arith, Memory, add32, sub32, ap, ◌∙◌,
  sym, subst,
}
use the_one_os.Bitmap.{Bitmap}
use the_one_os.Bitmap.Bits.{IsPlaced, test-init, test-init-other}
use the_one_os.Paging.{page_size, Mm, lay_out, mem_pool_init}
use the_one_os.Paging.Pools.{pages, page_addr, in_use, IsJoined}

units-eq :
    (all_mem : ℕ) (m : Memory) (words : ℕ → ℕ) (units : ℕ)
    → units < 4096
    → all_mem ≡ 0x200000 + units * 16 * page_size
    → mem_pool_init all_mem m words ≡ lay_out (units * 8) (units * 8) units units m words
unfolding mem_pool_init
units-eq all_mem m words units few e =
    ap (λ free. by_pages (free / page_size % 2 ^ 16)) free_eq
    ∙ ap by_pages (omega (arith, few))
    ∙ ap (λ half. lay_out half (units * 16 - half) (half / 8) ((units * 16 - half) / 8) m words)
        half_eq
    ∙ ap (λ rest. lay_out (units * 8) rest (units * 8 / 8) (rest / 8) m words) rest_eq
    ∙ ap (λ len. lay_out (units * 8) (units * 8) len len m words) len_eq
  where
    by_pages : ℕ → Mm
    by_pages n = lay_out (n / 2) (n - n / 2) (n / 2 / 8) ((n - n / 2) / 8) m words

    free_eq : sub32 all_mem (256 * page_size + 0x100000) ≡ units * 16 * page_size
    free_eq = omega (arith, few, e)

    half_eq : units * 16 / 2 ≡ units * 8
    half_eq = omega arith

    rest_eq : units * 16 - units * 8 ≡ units * 8
    rest_eq = omega arith

    len_eq : units * 8 / 8 ≡ units
    len_eq = omega arith

-- What holds of the pools of a fresh kernel: they lie one behind the other up to the end of the memory,
-- and no page is in use.
pub record IsFresh (all_mem : ℕ) (mm : Mm) : Type 0 where
  pub joined : IsJoined mm.kernel_pool mm.user_pool
  pub top : page_addr mm.user_pool (pages mm.user_pool) ≡ all_mem
  pub kernel_free : (i : ℕ) → i < pages mm.kernel_pool → in_use mm.bytes mm.kernel_pool i ≡ false
  pub user_free : (i : ℕ) → i < pages mm.user_pool → in_use mm.bytes mm.user_pool i ≡ false

lay_out-IsFresh :
    (m : Memory) (words : ℕ → ℕ) (units : ℕ)
    → units < 4096
    → IsFresh
        (0x200000 + units * 16 * page_size)
        (lay_out (units * 8) (units * 8) units units m words)
unfolding lay_out
lay_out-IsFresh m words units few = record {
  joined = record {
    kernel = record { placed = kernel_placed; there = omega arith; top = omega (arith, few) };
    user = record { placed = user_placed; there = omega (arith, few); top = omega (arith, few) };
    bits_next = omega (arith, few);
    pages_next = omega (arith, few);
  };
  top = omega (arith, few);
  kernel_free = λ i lt.
      test-init-other _ vaddr_bits kernel_bits i kernel_placed lt (inl (omega (arith, few)))
      ∙ test-init _ kernel_bits i kernel_placed lt;
  user_free = λ i lt.
      test-init-other _ vaddr_bits user_bits i user_placed lt (inl (omega (arith, few)))
      ∙ test-init-other _ kernel_bits user_bits i user_placed lt (inr (omega (arith, few)))
      ∙ test-init _ user_bits i user_placed lt;
}
  where
    kernel_bits : Bitmap
    kernel_bits = record { btmap_bytes_len = units; bits = 0xc009a000 }

    user_bits : Bitmap
    user_bits = record { btmap_bytes_len = units; bits = add32 0xc009a000 units }

    vaddr_bits : Bitmap
    vaddr_bits = record { btmap_bytes_len = units; bits = add32 (add32 0xc009a000 units) units }

    kernel_placed : IsPlaced kernel_bits
    kernel_placed = record { fits = omega (arith, few); countable = omega (arith, few) }

    user_placed : IsPlaced user_bits
    user_placed = record { fits = omega (arith, few); countable = omega (arith, few) }

-- With `units` times 16 pages behind the first 2 MB, mem_pool_init makes two pools that lie one behind
-- the other up to the end of the memory, with no page in use.
pub mem_pool_init_lem :
    (all_mem : ℕ) (m : Memory) (words : ℕ → ℕ) (units : ℕ)
    → units < 4096
    → all_mem ≡ 0x200000 + units * 16 * page_size
    → IsFresh all_mem (mem_pool_init all_mem m words)
mem_pool_init_lem all_mem m words units few e =
    subst (λ a. IsFresh a (mem_pool_init all_mem m words)) (sym e)
      (subst (IsFresh (0x200000 + units * 16 * page_size))
        (sym (units-eq all_mem m words units few e)) (lay_out-IsFresh m words units few))
