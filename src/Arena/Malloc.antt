-- ===== src/Arena/Malloc.antt =====
-- kernel/memory.c: what sys_malloc gives.
use the_one_os.Common.{
  ℕ, ◌+◌, ◌-◌, ◌≤◌, ◌<◌, ◌≡◌, refl, ◌≢◌, ◌⊎◌, inl, inr, true, false, Option, some, List, [], ◌∷◌,
  arith, ◌==◌, has, sub32, ap, ◌∙◌, sym, subst, ==_refl, ==_ne, lt→ltb, ge→ltb,
}
use the_one_os.Paging.{Mm, malloc_page}
use the_one_os.DList.Chain.{IsDistinct}
use the_one_os.Arena.{
  desc_cnt, Heap, mem_pool, set_mm, block2arena, arena2block, find_desc, new_arena, take_block,
  malloc_small, sys_malloc,
}
use the_one_os.Arena.Blocks.{blocks_ne, find_desc_lem}
use the_one_os.Arena.Count.{free_count, free_count-more, free_count-le, blocks_from}
use the_one_os.Arena.Invariant.{
  free_list, IsBlock, IsHeap, arena_of, relisted, relisted-IsHeap, own_list, after_has, like_block,
  relisted-IsLike,
}
use the_one_os.Arena.Grow.{
  IsNewPage, grown, new_arena_lem, first_block, first_home, listed_ne, old_list, grown-IsHeap,
  grown_like,
}

-- Block `b` is handed out of free list `d`, and nothing else moves.
pub record IsTaken (h h' : Heap) (arenas : List ℕ) (d b : ℕ) : Type 0 where
  pub kept : IsHeap h' arenas
  pub block : (i : ℕ) × IsBlock h' arenas d b i
  pub taken : has b (free_list h' d) ≡ false
  pub same : (d' x : ℕ) → x ≢ b → has x (free_list h' d') ≡ has x (free_list h d')

module _ (h : Heap) (arenas : List ℕ) (d b : ℕ) (l : List ℕ) (v : IsHeap h arenas)
    (known : d < desc_cnt) (front : free_list h d ≡ b ∷ l) where
  unique : IsDistinct (b ∷ l)
  unique = subst IsDistinct front (v.distinct d known)

  at_front : has b (free_list h d) ≡ true
  at_front = ap (has b) front ∙ rw ==_refl refl

  others : (x : ℕ) → x ≢ b → has x l ≡ has x (free_list h d)
  others x ne = sym (ap (has x) front ∙ rw (==_ne x b ne) refl)

  -- The count of the header goes down by the one block.
  count_down :
      (i : ℕ)
      → IsBlock h arenas d b i
      → sub32 (h.arena (block2arena b)).cnt 1
        ≡ free_count (h.desc d).block_size (block2arena b) l (h.desc d).block_per_arena
  count_down i k =
      let a = block2arena b in
      let bs = (h.desc d).block_size in
      let n = (h.desc d).block_per_arena in
      let r = arena_of h arenas a d v k.listed k.desc_eq in
      let more : free_count bs a (free_list h d) n ≡ free_count bs a l n + 1 =
        free_count-more bs a l (free_list h d) n i k.bound
          (λ j lt ne. sym (
            others (arena2block bs a j)
              (λ e. blocks_ne (v.sized d known) r.page j i lt k.bound ne (e ∙ k.address))))
          (ap (λ x. has x l) (sym k.address) ∙ unique.0)
          (ap (λ x. has x (free_list h d)) (sym k.address) ∙ at_front) in
      let le = free_count-le bs a l n in omega (arith, r.counted, more, le, (v.sized d known).few)

  -- The first block of a free list is handed out.
  take_block_lem : (h' : Heap) × (take_block h d ≡ some (b, h')) × IsTaken h h' arenas d b
  unfolding take_block
  take_block_lem =
      let (i, k) = v.free d b known at_front in
      let a = block2arena b in
      let c = sub32 (h.arena a).cnt 1 in
      let h' = relisted h d a l c in
      let count = count_down i k in
      (
        h',
        rw front refl,
        record {
          kept = relisted-IsHeap v known k l c unique.1 others count;
          block = (
            i,
            like_block (relisted-IsLike h d a l (record (h.arena a) { cnt = c })) d b i k k.listed
                (rw ==_refl k.desc_eq),
          );
          taken = ap (has b) (own_list v known k l c unique.1 others count) ∙ unique.0;
          same = λ d' x ne. after_has v known k l c unique.1 others count d' x (λ e. ne);
        },
      )

-- What sys_malloc has given: a block `b` of the smallest size with room, in one of the arenas, that was
-- free, or is in an arena that is new. No other block of the arenas there were is handed out or freed.
pub record IsGiven (h h' : Heap) (arenas arenas' : List ℕ) (size d b : ℕ) : Type 0 where
  pub known : d < desc_cnt
  pub room : size ≤ (h.desc d).block_size
  pub least : (j : ℕ) → j < d → (h.desc j).block_size < size
  pub kept : IsHeap h' arenas'
  pub block : (i : ℕ) × IsBlock h' arenas' d b i
  pub taken : has b (free_list h' d) ≡ false
  pub new : (has b (free_list h d) ≡ true) ⊎ (has (block2arena b) arenas ≡ false)
  pub same :
      (d' x : ℕ)
      → x ≢ b
      → has (block2arena x) arenas ≡ true
      → has x (free_list h' d') ≡ has x (free_list h d')

-- The outcome: an address, or 0 when there is neither a free block nor a page.
pub Malloced : Heap → List ℕ → ℕ → ℕ → Mm → Option (ℕ × Heap) → Type 0
Malloced h arenas size page mm r =
    let d = find_desc h.desc size desc_cnt 0 in
    ((page ≡ 0) × (free_list h d ≡ []) × (r ≡ some (0, set_mm h mm)))
    ⊎ ((b : ℕ) × (h' : Heap) × (arenas' : List ℕ) × (r ≡ some (b, h'))
        × IsGiven h h' arenas arenas' size d b)

List-cases : (l : List ℕ) → (l ≡ []) ⊎ ((b : ℕ) × (l' : List ℕ) × (l ≡ b ∷ l'))
List-cases [] = inl refl
List-cases (b ∷ l') = inr (b, l', refl)

module _ (h : Heap) (arenas : List ℕ) (size : ℕ) (v : IsHeap h arenas) (few : size ≤ 1024)
    (magic : h.stack_magic ≡ 20220120) where
  abbrev d : ℕ
  d = find_desc h.desc size desc_cnt 0

  abbrev found :
      (d < desc_cnt)
      × (size ≤ (h.desc d).block_size)
      × ((j : ℕ) → j < d → (h.desc j).block_size < size)
  found = find_desc_lem h.desc size v.sized few

  passed : (h.stack_magic == 20220120) ≡ true
  passed = rw magic refl

  from_list :
      (b : ℕ) (l : List ℕ)
      → free_list h d ≡ b ∷ l
      → (h' : Heap) × (malloc_small h size ≡ some (b, h')) × IsGiven h h' arenas arenas size d b
  unfolding malloc_small
  from_list b l front =
      let (h', e, t) = take_block_lem h arenas d b l v found.0 front in
      (
        h',
        rw (passed, front) e,
        record {
          known = found.0;
          room = found.1;
          least = found.2;
          kept = t.kept;
          block = t.block;
          taken = t.taken;
          new = inl (ap (has b) front ∙ rw ==_refl refl);
          same = λ d' x ne listed. t.same d' x ne;
        },
      )

  from_page :
      (page : ℕ) (mm : Mm)
      → free_list h d ≡ []
      → malloc_page h.for_kernel h.mm 1 ≡ some (page, mm)
      → IsNewPage page arenas
      → (b : ℕ) × (h' : Heap) × (malloc_small h size ≡ some (b, h'))
        × IsGiven h h' arenas (page ∷ arenas) size d b
  unfolding malloc_small
  from_page page mm empty e n =
      let first = first_block h arenas d page mm v found.0 empty n in
      let home = first_home h arenas d page mm v found.0 empty n in
      let b = arena2block (h.desc d).block_size page 0 in
      let new_heap = grown h arenas d page mm v found.0 empty n in
      let sizes = grown_like h arenas d page mm v found.0 empty n in
      let (h', e', t) =
        take_block_lem new_heap (page ∷ arenas) d b
          (blocks_from (h.desc d).block_size page ((h.desc d).block_per_arena - 1) 1)
          (grown-IsHeap h arenas d page mm v found.0 empty n) found.0 first in
      (
        b,
        h',
        rw (passed, empty, new_arena_lem h arenas d page mm v found.0 empty n e) e',
        record {
          known = found.0;
          room = found.1;
          least = found.2;
          kept = t.kept;
          block = t.block;
          taken = t.taken;
          new = inr (ap (λ a. has a arenas) home ∙ n.unlisted);
          same = λ d' x ne listed.
              t.same d' x ne
              ∙ old_list h arenas d page mm v found.0 empty n d' x
                  (listed_ne h arenas d page mm v found.0 empty n (block2arena x) listed);
        },
      )

  no_page :
      (mm : Mm)
      → free_list h d ≡ []
      → malloc_page h.for_kernel h.mm 1 ≡ some (0, mm)
      → malloc_small h size ≡ some (0, set_mm h mm)
  unfolding malloc_small new_arena
  no_page mm empty e = rw (passed, empty, e) refl

-- sys_malloc of 1 to 1024 bytes gives a block, or 0 when its free list is empty and no page is left.
pub sys_malloc_lem :
    (h : Heap) (arenas : List ℕ) (size page : ℕ) (mm : Mm)
    → IsHeap h arenas
    → h.stack_magic ≡ 20220120
    → 0 < size
    → size ≤ 1024
    → size < (mem_pool h).pool_size
    → malloc_page h.for_kernel h.mm 1 ≡ some (page, mm)
    → (page ≡ 0) ⊎ IsNewPage page arenas
    → Malloced h arenas size page mm (sys_malloc h size)
unfolding sys_malloc Malloced
sys_malloc_lem h arenas size page mm v magic pos few below e n =
    let d = find_desc h.desc size desc_cnt 0 in
    let small : sys_malloc h size ≡ malloc_small h size =
      rw (lt→ltb 0 size pos, lt→ltb size _ below, ge→ltb 1024 size few) refl in
    elim (List-cases (free_list h d)) [
      | inr (b, l, front) ↦
          let (h', e', g) = from_list h arenas size v few magic b l front in
          inr (b, h', arenas, small ∙ e', g)
      | inl empty ↦ elim n [
        | inl z ↦ inl (
          z,
          empty,
          small ∙ no_page h arenas size v few magic mm empty (e ∙ ap (λ x. some (x, mm)) z),
        )
        | inr new ↦
            let (b, h', e', g) = from_page h arenas size v few magic page mm empty e new in
            inr (b, h', page ∷ arenas, small ∙ e', g)
      ]
    ]
