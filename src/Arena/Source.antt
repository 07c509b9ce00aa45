-- ===== src/Arena/Source.antt =====
-- kernel/memory.c: malloc_page as the source of arenas. A page that it gives had a free virtual address.
use mathlib.Core.Option.{some-ne-none}
use the_one_os.Common.{
  ℕ, ◌+◌, ◌*◌, ◌%◌, ◌≡◌, refl, ◌≢◌, ◌⊎◌, inl, inr, Bool, true, false, Option, some, List, arith,
  if◌then◌else◌, has, IsBytes, Memory, ◌>>=◌, ap, ◌∙◌, sym, subst, ==_ne, false≢true, same_result,
  Option-cases, Bool-cases,
}
use the_one_os.Bitmap.{bitmap_scan_test}
use the_one_os.Paging.{page_size, Mm, malloc_page, map_loop, vaddr_get}
use the_one_os.Paging.Vaddr.{IsVirtual, vaddr_get_lem}
use the_one_os.Arena.Grow.{IsNewPage}

-- Every arena has its page reserved.
unfoldable pub AllReserved : Mm → List ℕ → Type 0
AllReserved mm arenas =
    (a : ℕ)
    → has a arenas ≡ true
    → (s : ℕ) × (a ≡ mm.vaddr.vaddr_start + s * page_size)
      × (bitmap_scan_test mm.bytes mm.vaddr.vaddr_bitmap s ≡ true)

chosen :
    {s z : ℕ} {mm mm' : Mm} {o : Option (ℕ × Mm)} (b : Bool)
    → o ≡ some (if b then s else 0, mm)
    → o ≡ some (z, mm')
    → (z ≡ 0) ⊎ (z ≡ s)
chosen true e e' = inr (same_result e' e).0
chosen false e e' = inl (same_result e' e).0

module _ (for_kernel : Bool) (mm mm' : Mm) (m : Memory) (v page : ℕ) where
  -- The address is the one that vaddr_get reserved, or 0.
  of_vaddr :
      vaddr_get mm.bytes mm.vaddr 1 ≡ some (v, m)
      → v ≢ 0
      → malloc_page for_kernel mm 1 ≡ some (page, mm')
      → (page ≡ 0) ⊎ (page ≡ v)
  unfolding malloc_page
  of_vaddr e ne h =
      let r = map_loop for_kernel 1 (record mm { bytes = m }) v in
      let finish : (Bool × Mm) → Option (ℕ × Mm) = λ x. some (if x.0 then v else 0, x.1) in
      let h' : (r >>= finish) ≡ some (page, mm') = sym (rw (e, ==_ne v 0 ne) refl) ∙ h in
      elim (Option-cases r) [
        | inl stuck ↦ absurd (some-ne-none (page, mm') (sym h' ∙ ap (λ x. x >>= finish) stuck))
        | inr (x, done) ↦ chosen x.0 (ap (λ z. z >>= finish) done) h'
      ]

  of_none :
      vaddr_get mm.bytes mm.vaddr 1 ≡ some (0, m)
      → malloc_page for_kernel mm 1 ≡ some (page, mm')
      → page ≡ 0
  unfolding malloc_page
  of_none e h =
      let none_left : malloc_page for_kernel mm 1 ≡ some (0, record mm { bytes = m }) = rw e refl in
      (same_result h none_left).0

-- When the arenas have their pages reserved, malloc_page answers with 0 or with a page that is none of them.
pub malloc_page-IsNewPage :
    (for_kernel : Bool) (mm mm' : Mm) (arenas : List ℕ) (page : ℕ)
    → IsBytes mm.bytes
    → IsVirtual mm.vaddr
    → mm.vaddr.vaddr_start % page_size ≡ 0
    → AllReserved mm arenas
    → malloc_page for_kernel mm 1 ≡ some (page, mm')
    → (page ≡ 0) ⊎ IsNewPage page arenas
unfolding AllReserved
malloc_page-IsNewPage for_kernel mm mm' arenas page bytes v aligned all h =
    elim (vaddr_get_lem mm.bytes mm.vaddr 1 bytes v (omega arith)) [
      | inl (e, blocked) ↦ inl (of_none for_kernel mm mm' mm.bytes 0 page e h)
      | inr (m, s, e, run, filled) ↦
          let at = mm.vaddr.vaddr_start + s * page_size in
          elim (of_vaddr for_kernel mm mm' m at page e (omega (arith, v.there)) h) [
            | inl z ↦ inl z
            | inr e' ↦ inr (record {
              placed = record {
                aligned = omega (arith, e', aligned);
                top = omega (arith, e', v.top, run.within);
              };
              there = omega (arith, e', v.there);
              unlisted = elim (Bool-cases (has page arenas)) [
                | inr out ↦ out
                | inl t ↦
                    let (s', place, set) = all page t in
                    let same : s' ≡ s = omega (arith, place, e') in
                    absurd (
                      false≢true (
                        sym (run.clear s (omega arith) (omega arith))
                        ∙ subst (λ z. bitmap_scan_test mm.bytes mm.vaddr.vaddr_bitmap z ≡ true) same
                            set))
              ];
            })
          ]
    ]
