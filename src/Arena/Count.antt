-- ===== src/Arena/Count.antt =====
-- kernel/memory.c: how many blocks of an arena stand in a free list, and the lists that the loops of
-- sys_malloc and sys_free leave.
use the_one_os.Common.{
  ℕ, zero, suc, ◌+◌, ◌-◌, ◌≤◌, ◌<◌, ◌≡◌, refl, ◌≢◌, true, false, ◌||◌, ◌&&◌, leb, ltb, some, List,
  [], ◌∷◌, ◌++◌, append-nil, append_assoc, arith, ◌==◌, if◌then◌else◌, has, ap, ◌∙◌, sym, subst,
  ==_refl, ==_ne, ℕ_discrete, false≢true,
}
use the_one_os.DList.Chain.{IsDistinct, has-append}
use the_one_os.Arena.{without, arena2block, fill_loop, drain_loop}

-- The number of the first `n` blocks of the arena that stand in the list.
abbrev pub free_count : ℕ → ℕ → List ℕ → ℕ → ℕ
free_count bs a l zero = 0
free_count bs a l (suc n) = free_count bs a l n + (if has (arena2block bs a n) l then 1 else 0)

pub free_count-le : (bs a : ℕ) (l : List ℕ) (n : ℕ) → free_count bs a l n ≤ n
free_count-le bs a l zero = omega arith
free_count-le bs a l (suc n) = ground (arith, free_count-le bs a l n)

pub free_count-same :
    (bs a : ℕ) (l l' : List ℕ) (n : ℕ)
    → ((i : ℕ) → i < n → has (arena2block bs a i) l' ≡ has (arena2block bs a i) l)
    → free_count bs a l' n ≡ free_count bs a l n
free_count-same bs a l l' zero same = refl
free_count-same bs a l l' (suc n) same =
    ground (arith, same n (omega arith), free_count-same bs a l l' n (λ i lt. same i (omega arith)))

-- When every block is counted, each stands in the list.
pub free_count-full :
    (bs a : ℕ) (l : List ℕ) (n : ℕ)
    → free_count bs a l n ≡ n
    → (i : ℕ) → i < n
    → has (arena2block bs a i) l ≡ true
free_count-full bs a l zero e i lt = absurd (omega arith)
free_count-full bs a l (suc n) e i lt =
    let le = free_count-le bs a l n in
    elim (ℕ_discrete i n) [
      | yes same ↦ subst (λ j. has (arena2block bs a j) l ≡ true) (sym same) (ground (arith, e, le))
      | no ne ↦ free_count-full bs a l n (ground (arith, e, le)) i (omega (arith, lt, ne))
    ]

pub free_count-all :
    (bs a : ℕ) (l : List ℕ) (n : ℕ)
    → ((i : ℕ) → i < n → has (arena2block bs a i) l ≡ true)
    → free_count bs a l n ≡ n
free_count-all bs a l zero all = refl
free_count-all bs a l (suc n) all =
    ground (arith, all n (omega arith), free_count-all bs a l n (λ i lt. all i (omega arith)))

-- A list with one more block of the arena counts one more.
pub free_count-more :
    (bs a : ℕ) (l l' : List ℕ) (n j : ℕ)
    → j < n
    → ((i : ℕ) → i < n → i ≢ j → has (arena2block bs a i) l' ≡ has (arena2block bs a i) l)
    → has (arena2block bs a j) l ≡ false
    → has (arena2block bs a j) l' ≡ true
    → free_count bs a l' n ≡ free_count bs a l n + 1
free_count-more bs a l l' zero j lt same out in_ = absurd (omega arith)
free_count-more bs a l l' (suc n) j lt same out in_ = elim (ℕ_discrete j n) [
  | yes e ↦
      let out' = subst (λ x. has (arena2block bs a x) l ≡ false) e out in
      let in' = subst (λ x. has (arena2block bs a x) l' ≡ true) e in_ in
      ground (
        arith,
        out',
        in',
        free_count-same bs a l l' n (λ i below. same i (omega arith) (omega (arith, e, below))),
      )
  | no ne ↦ ground (
    arith,
    same n (omega arith) (omega (arith, ne)),
    free_count-more bs a l l' n j (omega (arith, lt, ne))
        (λ i below other. same i (omega arith) other) out in_,
  )
]

-- A list with one element behind it.
pub has-behind : (x b : ℕ) (l : List ℕ) → has x (l ++ b ∷ []) ≡ (has x l || (x == b))
has-behind x b l = ground (arith, has-append x l (b ∷ []))

pub behind-IsDistinct :
    (b : ℕ) (l : List ℕ) → IsDistinct l → has b l ≡ false → IsDistinct (l ++ b ∷ [])
behind-IsDistinct b [] d out = (refl, tt)
behind-IsDistinct b (x ∷ l) d out =
    (ground (arith, has-behind x b l, d.0, out), behind-IsDistinct b l d.1 (ground (arith, out)))

-- list_remove of an element that stands in the list once.
pub has-without :
    (x b : ℕ) (l : List ℕ)
    → IsDistinct l
    → has x (without b l) ≡ (if x == b then false else has x l)
has-without x b [] d = ground arith
has-without x b (y ∷ l) d = grind (arith, d.0, has-without x b l d.1)

pub without-IsDistinct : (b : ℕ) (l : List ℕ) → IsDistinct l → IsDistinct (without b l)
without-IsDistinct b [] d = tt
without-IsDistinct b (y ∷ l) d = elim (ℕ_discrete y b) [
  | yes e ↦ rw (e, ==_refl) d.1
  | no ne ↦
      rw (==_ne y b ne) (ground (arith, d.0, has-without y b l d.1), without-IsDistinct b l d.1)
]

-- The addresses of the blocks of an arena, from the i-th on.
abbrev pub blocks_from : ℕ → ℕ → ℕ → ℕ → List ℕ
blocks_from bs a zero i = []
blocks_from bs a (suc left) i = arena2block bs a i ∷ blocks_from bs a left (i + 1)

pub blocks_from-first :
    (bs a left i : ℕ)
    → 0 < left
    → blocks_from bs a left i ≡ arena2block bs a i ∷ blocks_from bs a (left - 1) (i + 1)
blocks_from-first bs a zero i lt = absurd (omega arith)
blocks_from-first bs a (suc left) i lt =
    ap (λ n. arena2block bs a i ∷ blocks_from bs a n (i + 1)) (omega arith)

pub out-blocks_from :
    (bs a x left i : ℕ)
    → ((j : ℕ) → i ≤ j → j < i + left → x ≢ arena2block bs a j)
    → has x (blocks_from bs a left i) ≡ false
out-blocks_from bs a x zero i other = refl
out-blocks_from bs a x (suc left) i other =
    rw (==_ne x (arena2block bs a i) (other i (omega arith) (omega arith)))
      (out-blocks_from bs a x left (i + 1) (λ j lo hi. other j (omega arith) (omega arith)))

pub in-blocks_from :
    (bs a x left i : ℕ)
    → has x (blocks_from bs a left i) ≡ true
    → (j : ℕ) × (j < i + left) × (x ≡ arena2block bs a j)
in-blocks_from bs a x zero i h = absurd (false≢true h)
in-blocks_from bs a x (suc left) i h = elim (ℕ_discrete x (arena2block bs a i)) [
  | yes e ↦ (i, omega arith, e)
  | no ne ↦
      let (j, lt, e) =
        in-blocks_from bs a x left (i + 1) (sym (rw (==_ne x (arena2block bs a i) ne) refl) ∙ h) in
      (j, omega (arith, lt), e)
]

-- The list `l'` is `l` without these blocks of the arena.
pub record IsDrained (bs a left i : ℕ) (l l' : List ℕ) : Type 0 where
  pub distinct : IsDistinct l'
  pub same :
      (x : ℕ) → ((j : ℕ) → i ≤ j → j < i + left → x ≢ arena2block bs a j) → has x l' ≡ has x l
  pub gone : (j : ℕ) → i ≤ j → j < i + left → has (arena2block bs a j) l' ≡ false
  pub sub : (x : ℕ) → has x l' ≡ true → has x l ≡ true

IsDrained-none : (bs a i : ℕ) (l : List ℕ) → IsDistinct l → IsDrained bs a 0 i l l
IsDrained-none bs a i l d = record {
  distinct = d;
  same = λ x other. refl;
  gone = λ j lo hi. absurd (omega arith);
  sub = λ x h. h;
}

IsDrained-more :
    (bs a left i : ℕ) (l l' : List ℕ)
    → IsDistinct l
    → ((j : ℕ) → i + 1 ≤ j → j < i + 1 + left → arena2block bs a i ≢ arena2block bs a j)
    → IsDrained bs a left (i + 1) (without (arena2block bs a i) l) l'
    → IsDrained bs a (suc left) i l l'
IsDrained-more bs a left i l l' d ne h =
    let b = arena2block bs a i in
    record {
      distinct = h.distinct;
      same = λ x other.
          h.same x (λ j lo hi. other j (omega arith) (omega arith))
          ∙ has-without x b l d
          ∙ rw (==_ne x b (other i (omega arith) (omega arith))) refl;
      gone = λ j lo hi. elim (ℕ_discrete j i) [
        | yes e ↦
            subst (λ x. has (arena2block bs a x) l' ≡ false) (sym e)
              (h.same b ne ∙ has-without b b l d ∙ rw ==_refl refl)
        | no other ↦ h.gone j (omega (arith, lo, other)) (omega arith)
      ];
      sub = λ x t. grind (arith, h.sub x t, has-without x b l d);
    }

module _ (bs a n : ℕ)
    (apart : (i j : ℕ) → i < n → j < n → i ≢ j → arena2block bs a i ≢ arena2block bs a j) where
  pub has-blocks_from :
      (left i j : ℕ)
      → i + left ≤ n
      → j < n
      → has (arena2block bs a j) (blocks_from bs a left i) ≡ (leb i j && ltb j (i + left))
  has-blocks_from zero i j le lt = ground arith
  has-blocks_from (suc left) i j le lt = elim (ℕ_discrete j i) [
    | yes e ↦ rw e (ground (arith, ==_refl (arena2block bs a i)))
    | no ne ↦ ground (
      arith,
      ==_ne _ _ (apart j i lt (omega arith) ne),
      has-blocks_from left (i + 1) j (omega arith) lt,
    )
  ]

  pub blocks_from-IsDistinct : (left i : ℕ) → i + left ≤ n → IsDistinct (blocks_from bs a left i)
  blocks_from-IsDistinct zero i le = tt
  blocks_from-IsDistinct (suc left) i le = (
    ground (arith, has-blocks_from left (i + 1) i (omega arith) (omega arith)),
    blocks_from-IsDistinct left (i + 1) (omega arith),
  )

  -- No assertion fails when none of the blocks is in the list yet.
  pub fill_loop_lem :
      (left i : ℕ) (l : List ℕ)
      → i + left ≤ n
      → ((j : ℕ) → i ≤ j → j < n → has (arena2block bs a j) l ≡ false)
      → fill_loop bs a left i l ≡ some (l ++ blocks_from bs a left i)
  unfolding fill_loop
  fill_loop_lem zero i l le out = ap some (sym (append-nil l))
  fill_loop_lem (suc left) i l le out = rw (out i (omega arith) (omega arith)) (
      fill_loop_lem left (i + 1) (l ++ arena2block bs a i ∷ []) (omega arith) (λ j lo lt. ground (
        arith,
        has-behind (arena2block bs a j) (arena2block bs a i) l,
        out j (omega arith) lt,
        ==_ne _ _ (apart j i lt (omega arith) (omega (arith, lo))),
      ))
      ∙ ap some (append_assoc l (arena2block bs a i ∷ []) (blocks_from bs a left (i + 1))))

  -- No assertion fails when all of the blocks are in the list.
  pub drain_loop_lem :
      (left i : ℕ) (l : List ℕ)
      → i + left ≤ n
      → IsDistinct l
      → ((j : ℕ) → i ≤ j → j < i + left → has (arena2block bs a j) l ≡ true)
      → (l' : List ℕ) × (drain_loop bs a left i l ≡ some l') × IsDrained bs a left i l l'
  unfolding drain_loop
  drain_loop_lem zero i l le d all = (l, refl, IsDrained-none bs a i l d)
  drain_loop_lem (suc left) i l le d all =
      let b = arena2block bs a i in
      let all' : (j : ℕ)
          → i + 1 ≤ j
          → j < i + 1 + left
          → has (arena2block bs a j) (without b l) ≡ true =
        λ j lo hi.
          let ne = apart j i (omega arith) (omega arith) (omega (arith, lo)) in
          has-without (arena2block bs a j) b l d
          ∙ rw (==_ne _ _ ne) (all j (omega arith) (omega arith)) in
      let (l', e, h) =
        drain_loop_lem left (i + 1) (without b l) (omega arith) (without-IsDistinct b l d) all' in
      let step : drain_loop bs a (suc left) i l ≡ some l' =
        rw (all i (omega arith) (omega arith)) e in
      (
        l',
        step,
        IsDrained-more bs a left i l l' d
            (λ j lo hi. apart i j (omega arith) (omega arith) (omega (arith, lo))) h,
      )
