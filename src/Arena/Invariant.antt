-- ===== src/Arena/Invariant.antt =====
-- kernel/memory.c: the invariant of the arenas, and how a block that moves keeps it.
use the_one_os.Common.{
  ℕ, ◌<◌, ◌≡◌, refl, ◌≢◌, true, false, some, List, [], arith, ◌==◌, if◌then◌else◌, has, ap, ◌∙◌,
  sym, subst, ==_refl, ==_ne, ℕ_discrete, false≢true,
}
use mathlib.Core.Option.{some-injective}
use the_one_os.DList.Chain.{IsDistinct}
use the_one_os.Arena.{
  desc_cnt, BlockDesc, ArenaHeader, Heap, set_free_list, set_arena, block_desc_init, arena2block,
  block2arena,
}
use the_one_os.Arena.Blocks.{
  IsDesc, IsPage, block_desc_init_lem, block_desc_init-nil, block2arena-arena2block,
}
use the_one_os.Arena.Count.{free_count, free_count-same}

abbrev pub free_list : Heap → ℕ → List ℕ
free_list h d = (h.desc d).free_list

-- The page at `a` is an arena of descriptor `d`, and its header counts the free blocks.
pub record IsArena (h : Heap) (a d : ℕ) : Type 0 where
  pub page : IsPage a
  pub known : d < desc_cnt
  pub desc_eq : (h.arena a).desc ≡ some d
  pub not_large : (h.arena a).large ≡ false
  pub counted :
      (h.arena a).cnt
      ≡ free_count (h.desc d).block_size a (free_list h d) (h.desc d).block_per_arena

-- `b` is the i-th block of one of the arenas, one of descriptor `d`.
pub record IsBlock (h : Heap) (arenas : List ℕ) (d b i : ℕ) : Type 0 where
  pub bound : i < (h.desc d).block_per_arena
  pub address : b ≡ arena2block (h.desc d).block_size (block2arena b) i
  pub listed : has (block2arena b) arenas ≡ true
  pub desc_eq : (h.arena (block2arena b)).desc ≡ some d

-- `arenas` are the arenas that have been made and not dropped.
pub record IsHeap (h : Heap) (arenas : List ℕ) : Type 0 where
  pub sized : (d : ℕ) → d < desc_cnt → IsDesc d (h.desc d)
  pub apart : IsDistinct arenas
  pub arena : (a : ℕ) → has a arenas ≡ true → (d : ℕ) × IsArena h a d
  pub free :
      (d b : ℕ) → d < desc_cnt → has b (free_list h d) ≡ true → (i : ℕ) × IsBlock h arenas d b i
  pub distinct : (d : ℕ) → d < desc_cnt → IsDistinct (free_list h d)

-- The header of an arena tells its descriptor.
pub arena_of :
    (h : Heap) (arenas : List ℕ) (a d : ℕ)
    → IsHeap h arenas
    → has a arenas ≡ true
    → (h.arena a).desc ≡ some d
    → IsArena h a d
arena_of h arenas a d v listed e =
    let (d', r) = v.arena a listed in
    subst (IsArena h a) (some-injective d' d (sym r.desc_eq ∙ e)) r

-- The descriptors have the same sizes in both states.
pub record IsLike (h h' : Heap) : Type 0 where
  pub size : (d : ℕ) → (h'.desc d).block_size ≡ (h.desc d).block_size
  pub per : (d : ℕ) → (h'.desc d).block_per_arena ≡ (h.desc d).block_per_arena

module _ {h h' : Heap} (s : IsLike h h') where
  pub like_desc : (d : ℕ) → IsDesc d (h.desc d) → IsDesc d (h'.desc d)
  like_desc d k =
      let e = s.size d in
      let e' = s.per d in
      record {
        size = e ∙ k.size;
        small = omega (arith, e, k.small);
        positive = omega (arith, e, k.positive);
        several = omega (arith, e', k.several);
        few = omega (arith, e', k.few);
        fits = rw (e, e') k.fits;
        full = rw (e, e') k.full;
      }

  pub like_block :
      {arenas arenas' : List ℕ} (d b i : ℕ)
      → IsBlock h arenas d b i
      → has (block2arena b) arenas' ≡ true
      → (h'.arena (block2arena b)).desc ≡ some d
      → IsBlock h' arenas' d b i
  like_block d b i k listed e = record {
    bound = omega (arith, s.per d, k.bound);
    address = k.address ∙ ap (λ bs. arena2block bs (block2arena b) i) (sym (s.size d));
    listed = listed;
    desc_eq = e;
  }

  pub like_arena :
      (a d : ℕ)
      → IsArena h a d
      → (h'.arena a).desc ≡ (h.arena a).desc
      → (h'.arena a).large ≡ (h.arena a).large
      → (h'.arena a).cnt
        ≡ free_count (h.desc d).block_size a (free_list h' d) (h.desc d).block_per_arena
      → IsArena h' a d
  like_arena a d r e large count = record {
    page = r.page;
    known = r.known;
    desc_eq = e ∙ r.desc_eq;
    not_large = large ∙ r.not_large;
    counted = rw (s.size d, s.per d) count;
  }

  -- An arena whose header and whose part of the free list are as before.
  pub like_same :
      (a d : ℕ)
      → IsArena h a d
      → h'.arena a ≡ h.arena a
      → ((i : ℕ)
          → i < (h.desc d).block_per_arena
          → has (arena2block (h.desc d).block_size a i) (free_list h' d)
            ≡ has (arena2block (h.desc d).block_size a i) (free_list h d))
      → IsArena h' a d
  like_same a d r e same =
      let bs = (h.desc d).block_size in
      let n = (h.desc d).block_per_arena in
      like_arena a d r (ap (λ x. x.desc) e) (ap (λ x. x.large) e) (
        ap (λ x. x.cnt) e
        ∙ r.counted
        ∙ sym (free_count-same bs a (free_list h d) (free_list h' d) n same))

-- Free list `d` becomes `l`, and the header of the arena `a` counts it as `c`.
abbrev pub relisted : Heap → ℕ → ℕ → List ℕ → ℕ → Heap
relisted h d a l c = set_arena (set_free_list h d l) a (record (h.arena a) { cnt = c })

module _ (h : Heap) (d a : ℕ) (l : List ℕ) (x : ArenaHeader) where
  pub relisted-IsLike : IsLike h (set_arena (set_free_list h d l) a x)
  relisted-IsLike = record { size = λ d'. ground arith; per = λ d'. ground arith }

  pub relisted_list :
      (d' : ℕ)
      → free_list (set_arena (set_free_list h d l) a x) d' ≡ (if d' == d then l else free_list h d')
  relisted_list d' = ground arith

module _ {h : Heap} {arenas : List ℕ} {d b j : ℕ} (v : IsHeap h arenas) (known : d < desc_cnt)
    (k : IsBlock h arenas d b j) (l : List ℕ) (c : ℕ) (unique : IsDistinct l)
    (same : (x : ℕ) → x ≢ b → has x l ≡ has x (free_list h d))
    (count : c
      ≡ free_count (h.desc d).block_size (block2arena b) l (h.desc d).block_per_arena) where
  abbrev after : Heap
  after = relisted h d (block2arena b) l c

  abbrev like : IsLike h after
  like = relisted-IsLike h d (block2arena b) l (record (h.arena (block2arena b)) { cnt = c })

  after_list : (d' : ℕ) → free_list after d' ≡ (if d' == d then l else free_list h d')
  after_list d' =
      relisted_list h d (block2arena b) l (record (h.arena (block2arena b)) { cnt = c }) d'

  after_desc : (a : ℕ) → (after.arena a).desc ≡ (h.arena a).desc
  after_desc a = ground arith

  pub after_has :
      (d' x : ℕ) → (d' ≡ d → x ≢ b) → has x (free_list after d') ≡ has x (free_list h d')
  after_has d' x ne = elim (ℕ_discrete d' d) [
    | yes e ↦ ap (has x) (after_list d') ∙ rw (e, ==_refl) (same x (ne e))
    | no other ↦ ap (has x) (after_list d') ∙ rw (==_ne d' d other) refl
  ]

  count_of : List ℕ → ℕ
  count_of z = free_count (h.desc d).block_size (block2arena b) z (h.desc d).block_per_arena

  pub own_list : free_list after d ≡ l
  own_list = after_list d ∙ rw ==_refl refl

  -- A block of another arena is another block.
  elsewhere :
      (a i : ℕ)
      → IsPage a
      → a ≢ block2arena b
      → i < (h.desc d).block_per_arena
      → arena2block (h.desc d).block_size a i ≢ b
  elsewhere a i p ne lt e =
      ne (sym (block2arena-arena2block (v.sized d known) p i lt) ∙ ap block2arena e)

  relisted-IsArena : (a : ℕ) → has a arenas ≡ true → (d' : ℕ) × IsArena after a d'
  unfolding count_of
  relisted-IsArena a listed = elim (ℕ_discrete a (block2arena b)) [
    | yes e ↦
        let r = arena_of h arenas (block2arena b) d v k.listed k.desc_eq in
        (
          d,
          subst (λ z. IsArena after z d) (sym e)
              (like_arena like (block2arena b) d r (rw ==_refl refl) (rw ==_refl refl)
                (rw ==_refl (count ∙ ap count_of (sym own_list)))),
        )
    | no ne ↦
        let (d', r) = v.arena a listed in
        let other : (i : ℕ)
            → i < (h.desc d').block_per_arena
            → d' ≡ d
            → arena2block (h.desc d').block_size a i ≢ b =
          λ i lt e.
            subst (λ z. arena2block (h.desc z).block_size a i ≢ b) (sym e)
              (elsewhere a i r.page ne (subst (λ z. i < (h.desc z).block_per_arena) e lt)) in
        (
          d',
          like_same like a d' r (rw (==_ne a (block2arena b) ne) refl)
              (λ i lt. after_has d' (arena2block (h.desc d').block_size a i) (other i lt)),
        )
  ]

  kept :
      (d' x : ℕ)
      → d' < desc_cnt
      → has x (free_list h d') ≡ true
      → (i : ℕ) × IsBlock after arenas d' x i
  kept d' x lt in_ =
      let (i, r) = v.free d' x lt in_ in
      (i, like_block like d' x i r r.listed (after_desc (block2arena x) ∙ r.desc_eq))

  relisted_free :
      (d' x : ℕ)
      → d' < desc_cnt
      → has x (free_list after d') ≡ true
      → (i : ℕ) × IsBlock after arenas d' x i
  relisted_free d' x lt in_ = elim (ℕ_discrete x b) [
    | yes e ↦ elim (ℕ_discrete d' d) [
      | yes e' ↦ (
        j,
        subst (λ z. IsBlock after arenas d' z j) (sym e)
            (subst (λ z. IsBlock after arenas z b j) (sym e')
              (like_block like d b j k k.listed (after_desc (block2arena b) ∙ k.desc_eq))),
      )
      | no other ↦ kept d' x lt (sym (after_has d' x (λ e'. absurd (other e'))) ∙ in_)
    ]
    | no ne ↦ kept d' x lt (sym (after_has d' x (λ e'. ne)) ∙ in_)
  ]

  -- Only one list changes, by one block: the invariant is kept when the header of its arena counts it.
  pub relisted-IsHeap : IsHeap after arenas
  relisted-IsHeap = record {
    sized = λ d' lt. like_desc like d' (v.sized d' lt);
    apart = v.apart;
    arena = relisted-IsArena;
    free = relisted_free;
    distinct = λ d' lt. elim (ℕ_discrete d' d) [
      | yes e ↦ subst IsDistinct (sym (after_list d' ∙ rw (e, ==_refl) refl)) unique
      | no other ↦
          subst IsDistinct (sym (after_list d' ∙ rw (==_ne d' d other) refl)) (v.distinct d' lt)
    ];
  }

-- After block_desc_init there is no arena, and the invariant holds.
pub block_desc_init-IsHeap :
    (h : Heap) (desc_arry : ℕ → BlockDesc) → h.desc ≡ block_desc_init desc_arry → IsHeap h []
block_desc_init-IsHeap h desc_arry e = record {
  sized = λ d lt. subst (λ f. IsDesc d (f d)) (sym e) (block_desc_init_lem desc_arry d lt);
  apart = tt;
  arena = λ a t. absurd (false≢true t);
  free = λ d b lt t. absurd (false≢true (sym (ap (has b) (none_free d lt)) ∙ t));
  distinct = λ d lt. subst IsDistinct (sym (none_free d lt)) tt;
}
  where
    none_free : (d : ℕ) → d < desc_cnt → free_list h d ≡ []
    none_free d lt = ap (λ f. (f d).free_list) e ∙ block_desc_init-nil desc_arry d lt
