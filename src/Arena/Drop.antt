-- ===== src/Arena/Drop.antt =====
-- kernel/memory.c: the part of sys_free that drops an arena.
use mathlib.Core.Option.{some-injective}
use the_one_os.Common.{
  ℕ, ◌<◌, ◌≡◌, refl, ◌≢◌, true, false, List, arith, ◌==◌, if◌then◌else◌, has, ap, ◌∙◌, sym, subst,
  ==_refl, ==_ne, ℕ_discrete, false≢true,
}
use the_one_os.Paging.{Mm}
use the_one_os.DList.Chain.{IsDistinct}
use the_one_os.Arena.{desc_cnt, Heap, set_mm, set_free_list, without, arena2block, block2arena}
use the_one_os.Arena.Blocks.{block2arena-arena2block}
use the_one_os.Arena.Count.{has-without, without-IsDistinct, IsDrained}
use the_one_os.Arena.Invariant.{
  free_list, IsArena, IsBlock, IsHeap, IsLike, like_desc, like_block, like_same,
}

module _ (h : Heap) (arenas : List ℕ) (d a : ℕ) (l : List ℕ) (mm : Mm) (v : IsHeap h arenas)
    (r : IsArena h a d)
    (k : IsDrained (h.desc d).block_size a (h.desc d).block_per_arena 0 (free_list h d) l) where
  abbrev pub dropped : Heap
  dropped = set_mm (set_free_list h d l) mm

  pub dropped_like : IsLike h dropped
  dropped_like = record { size = λ d'. ground arith; per = λ d'. ground arith }

  dropped_list : (d' : ℕ) → free_list dropped d' ≡ (if d' == d then l else free_list h d')
  dropped_list d' = ground arith

  pub own_rest : free_list dropped d ≡ l
  own_rest = dropped_list d ∙ rw ==_refl refl

  -- A block of another arena is not among those that are removed.
  pub rest_same :
      (d' x : ℕ) → block2arena x ≢ a → has x (free_list dropped d') ≡ has x (free_list h d')
  rest_same d' x ne = elim (ℕ_discrete d' d) [
    | yes e ↦
        ap (has x) (ap (free_list dropped) e ∙ own_rest)
        ∙ k.same x (λ j lo hi same. ne (
            ap block2arena same
            ∙ block2arena-arena2block (v.sized d r.known) r.page j (omega arith)))
        ∙ sym (ap (λ z. has x (free_list h z)) e)
    | no other ↦ ap (has x) (dropped_list d' ∙ rw (==_ne d' d other) refl)
  ]

  still : (a' : ℕ) → has a' (without a arenas) ≡ true → (a' ≢ a) × (has a' arenas ≡ true)
  still a' t = (
    λ e. false≢true (sym (has-without a' a arenas v.apart ∙ rw (e, ==_refl) refl) ∙ t),
    grind (arith, t, has-without a' a arenas v.apart),
  )

  still_listed : (a' : ℕ) → a' ≢ a → has a' arenas ≡ true → has a' (without a arenas) ≡ true
  still_listed a' ne t = has-without a' a arenas v.apart ∙ rw (==_ne a' a ne) t

  dropped-IsArena : (a' : ℕ) → has a' (without a arenas) ≡ true → (d' : ℕ) × IsArena dropped a' d'
  dropped-IsArena a' t =
      let (ne, listed) = still a' t in
      let (d', r') = v.arena a' listed in
      (
        d',
        like_same dropped_like a' d' r' refl (λ i lt.
            rest_same d' (arena2block (h.desc d').block_size a' i)
              (λ e. ne (sym (block2arena-arena2block (v.sized d' r'.known) r'.page i lt) ∙ e))),
      )

  -- A block that is still free was free, and is in another arena.
  was_free : (d' x : ℕ) → has x (free_list dropped d') ≡ true → has x (free_list h d') ≡ true
  was_free d' x t = elim (ℕ_discrete d' d) [
    | yes e ↦
        subst (λ z. has x (free_list h z) ≡ true) (sym e)
          (k.sub x (sym (ap (has x) (ap (free_list dropped) e ∙ own_rest)) ∙ t))
    | no other ↦ sym (ap (has x) (dropped_list d' ∙ rw (==_ne d' d other) refl)) ∙ t
  ]

  elsewhere :
      (d' x i : ℕ)
      → has x (free_list dropped d') ≡ true
      → IsBlock h arenas d' x i
      → block2arena x ≢ a
  elsewhere d' x i t b e =
      let who : d' ≡ d =
        some-injective d' d (sym b.desc_eq ∙ ap (λ z. (h.arena z).desc) e ∙ r.desc_eq) in
      let b' : IsBlock h arenas d x i = subst (λ z. IsBlock h arenas z x i) who b in
      let place : x ≡ arena2block (h.desc d).block_size a i =
        b'.address ∙ ap (λ z. arena2block (h.desc d).block_size z i) e in
      let gone : has x l ≡ false =
        ap (λ z. has z l) place ∙ k.gone i (omega arith) (omega (arith, b'.bound)) in
      false≢true (sym gone ∙ sym (ap (has x) (ap (free_list dropped) who ∙ own_rest)) ∙ t)

  dropped_free :
      (d' x : ℕ)
      → d' < desc_cnt
      → has x (free_list dropped d') ≡ true
      → (i : ℕ) × IsBlock dropped (without a arenas) d' x i
  dropped_free d' x lt t =
      let (i, b) = v.free d' x lt (was_free d' x t) in
      (
        i,
        like_block dropped_like d' x i b
            (still_listed (block2arena x) (elsewhere d' x i t b) b.listed) b.desc_eq,
      )

  -- Without the arena the invariant still holds.
  pub dropped-IsHeap : IsHeap dropped (without a arenas)
  dropped-IsHeap = record {
    sized = λ d' lt. like_desc dropped_like d' (v.sized d' lt);
    apart = without-IsDistinct a arenas v.apart;
    arena = dropped-IsArena;
    free = dropped_free;
    distinct = λ d' lt. elim (ℕ_discrete d' d) [
      | yes e ↦ subst IsDistinct (sym (ap (free_list dropped) e ∙ own_rest)) k.distinct
      | no other ↦
          subst IsDistinct (sym (dropped_list d' ∙ rw (==_ne d' d other) refl)) (v.distinct d' lt)
    ];
  }
