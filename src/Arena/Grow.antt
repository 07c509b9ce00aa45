-- ===== src/Arena/Grow.antt =====
-- kernel/memory.c: the part of sys_malloc that makes an arena out of a page.
use the_one_os.Common.{
  ℕ, ◌-◌, ◌<◌, ◌≡◌, refl, ◌≢◌, true, false, some, List, [], ◌∷◌, arith, ◌==◌, if◌then◌else◌, has,
  ap, ◌∙◌, sym, subst, ==_refl, ==_ne, ℕ_discrete, false≢true,
}
use the_one_os.Paging.{Mm, malloc_page}
use the_one_os.DList.Chain.{IsDistinct}
use the_one_os.Paging.Request.{zeroed}
use the_one_os.Arena.{
  desc_cnt, ArenaHeader, Heap, set_mm, set_free_list, set_arena, arena2block, block2arena,
  new_arena, fill_loop,
}
use the_one_os.Arena.Blocks.{IsPage, block2arena-arena2block, blocks_ne}
use the_one_os.Arena.Count.{
  free_count, free_count-all, blocks_from, has-blocks_from, blocks_from-IsDistinct, out-blocks_from,
  blocks_from-first, in-blocks_from, fill_loop_lem,
}
use the_one_os.Arena.Invariant.{
  free_list, IsArena, IsBlock, IsHeap, IsLike, like_desc, like_block, like_same, relisted_list,
  relisted-IsLike,
}

-- The page is none of the arenas.
pub record IsNewPage (page : ℕ) (arenas : List ℕ) : Type 0 where
  pub placed : IsPage page
  pub there : page ≢ 0
  pub unlisted : has page arenas ≡ false

module _ (h : Heap) (arenas : List ℕ) (d page : ℕ) (mm : Mm) (v : IsHeap h arenas)
    (known : d < desc_cnt) (empty : free_list h d ≡ []) (n : IsNewPage page arenas) where
  abbrev bs : ℕ
  bs = (h.desc d).block_size

  abbrev per : ℕ
  per = (h.desc d).block_per_arena

  abbrev header : ArenaHeader
  header = record { desc = some d; cnt = per; large = false }

  abbrev pub grown : Heap
  grown =
      set_free_list (set_arena (set_mm h (zeroed mm page 1)) page header) d
        (blocks_from bs page per 0)

  abbrev pub grown_like : IsLike h grown
  grown_like =
      let s =
        relisted-IsLike (set_mm h (zeroed mm page 1)) d page (blocks_from bs page per 0) header in
      record { size = s.size; per = s.per }

  pub grown_list :
      (d' : ℕ)
      → free_list grown d' ≡ (if d' == d then blocks_from bs page per 0 else free_list h d')
  grown_list d' =
      relisted_list (set_mm h (zeroed mm page 1)) d page (blocks_from bs page per 0) header d'

  pub own_blocks : free_list grown d ≡ blocks_from bs page per 0
  own_blocks = grown_list d ∙ rw ==_refl refl

  apart : (i j : ℕ) → i < per → j < per → i ≢ j → arena2block bs page i ≢ arena2block bs page j
  apart i j = blocks_ne (v.sized d known) n.placed i j

  pub new_arena_lem :
      malloc_page h.for_kernel h.mm 1 ≡ some (page, mm) → new_arena h d ≡ some (true, grown)
  unfolding new_arena
  new_arena_lem e =
      let filled : fill_loop bs page per 0 (free_list h d) ≡ some (blocks_from bs page per 0) =
        ap (fill_loop bs page per 0) empty
        ∙ fill_loop_lem bs page per apart per 0 [] (omega arith) (λ j lo hi. refl) in
      rw (e, ==_ne page 0 n.there, filled) refl

  -- A block of another page is none of the new ones.
  pub old_list :
      (d' x : ℕ) → block2arena x ≢ page → has x (free_list grown d') ≡ has x (free_list h d')
  old_list d' x ne = elim (ℕ_discrete d' d) [
    | yes e ↦
        ap (has x) (ap (free_list grown) e ∙ own_blocks)
        ∙ out-blocks_from bs page x per 0 (λ j lo hi same. ne (
            ap block2arena same
            ∙ block2arena-arena2block (v.sized d known) n.placed j (omega arith)))
        ∙ sym (ap (has x) (ap (free_list h) e ∙ empty))
    | no other ↦ ap (has x) (grown_list d' ∙ rw (==_ne d' d other) refl)
  ]

  pub first_block : free_list grown d ≡ arena2block bs page 0 ∷ blocks_from bs page (per - 1) 1
  first_block = own_blocks ∙ blocks_from-first bs page per 0 (v.sized d known).several

  pub first_home : block2arena (arena2block bs page 0) ≡ page
  first_home = block2arena-arena2block (v.sized d known) n.placed 0 (v.sized d known).several

  pub listed_ne : (a : ℕ) → has a arenas ≡ true → a ≢ page
  listed_ne a t e = false≢true (sym n.unlisted ∙ ap (λ z. has z arenas) (sym e) ∙ t)

  count_of : List ℕ → ℕ
  count_of z = free_count bs page z per

  full : count_of (blocks_from bs page per 0) ≡ per
  unfolding count_of
  full =
      free_count-all bs page (blocks_from bs page per 0) per
        (λ i lt. has-blocks_from bs page per apart per 0 i (omega arith) lt ∙ ground (arith, lt))

  header-IsArena : IsArena grown page d
  unfolding count_of
  header-IsArena = record {
    page = n.placed;
    known = known;
    desc_eq = rw ==_refl refl;
    not_large = rw ==_refl refl;
    counted = rw (==_refl page, ==_refl d) (sym (ap count_of own_blocks ∙ full));
  }

  grown-IsArena : (a : ℕ) → has a (page ∷ arenas) ≡ true → (d' : ℕ) × IsArena grown a d'
  grown-IsArena a t = elim (ℕ_discrete a page) [
    | yes e ↦ (d, subst (λ z. IsArena grown z d) (sym e) header-IsArena)
    | no ne ↦
        let listed : has a arenas ≡ true = sym (rw (==_ne a page ne) refl) ∙ t in
        let (d', r) = v.arena a listed in
        (
          d',
          like_same grown_like a d' r (rw (==_ne a page ne) refl) (λ i lt.
              old_list d' (arena2block (h.desc d').block_size a i)
                (λ e. ne (sym (block2arena-arena2block (v.sized d' r.known) r.page i lt) ∙ e))),
        )
  ]

  own_block : (i : ℕ) → i < per → IsBlock grown (page ∷ arenas) d (arena2block bs page i) i
  own_block i lt =
      let home = block2arena-arena2block (v.sized d known) n.placed i lt in
      record {
        bound = rw ==_refl lt;
        address = rw (==_refl, home) refl;
        listed = rw (home, ==_refl) refl;
        desc_eq = rw (home, ==_refl) refl;
      }

  grown_free :
      (d' x : ℕ)
      → d' < desc_cnt
      → has x (free_list grown d') ≡ true
      → (i : ℕ) × IsBlock grown (page ∷ arenas) d' x i
  grown_free d' x lt in_ = elim (ℕ_discrete d' d) [
    | yes e ↦
        let (i, top, e') =
          in-blocks_from bs page x per 0
            (sym (ap (has x) (ap (free_list grown) e ∙ own_blocks)) ∙ in_) in
        (
          i,
          subst (λ z. IsBlock grown (page ∷ arenas) z x i) (sym e)
              (subst (λ z. IsBlock grown (page ∷ arenas) d z i) (sym e')
                (own_block i (omega arith))),
        )
    | no other ↦
        let (i, r) =
          v.free d' x lt (sym (ap (has x) (grown_list d' ∙ rw (==_ne d' d other) refl)) ∙ in_) in
        let ne = listed_ne (block2arena x) r.listed in
        (
          i,
          like_block grown_like d' x i r (rw (==_ne (block2arena x) page ne) r.listed)
              (rw (==_ne (block2arena x) page ne) r.desc_eq),
        )
  ]

  -- The new arena is full of free blocks, and the invariant holds with it.
  pub grown-IsHeap : IsHeap grown (page ∷ arenas)
  grown-IsHeap = record {
    sized = λ d' lt. like_desc grown_like d' (v.sized d' lt);
    apart = (n.unlisted, v.apart);
    arena = grown-IsArena;
    free = grown_free;
    distinct = λ d' lt. elim (ℕ_discrete d' d) [
      | yes e ↦
          subst IsDistinct (sym (ap (free_list grown) e ∙ own_blocks))
            (blocks_from-IsDistinct bs page per apart per 0 (omega arith))
      | no other ↦
          subst IsDistinct (sym (grown_list d' ∙ rw (==_ne d' d other) refl)) (v.distinct d' lt)
    ];
  }
