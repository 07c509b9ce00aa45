-- ===== src/Arena/Blocks.antt =====
-- kernel/memory.c: the sizes of the blocks, and where the blocks of an arena lie.
use the_one_os.Common.{
  ℕ, zero, suc, ◌+◌, ◌*◌, ◌%◌, ◌^◌, ◌≤◌, ◌<◌, ◌≡◌, refl, ◌≢◌, ◌⊎◌, inl, inr, arith, [], ◌∙◌, sym,
  subst, dec_lt, dec_le, ℕ_discrete, le→leb, gt→leb,
}
use the_one_os.Common.Masks.{bit_and-page, power}
use the_one_os.Arena.{
  desc_cnt, BlockDesc, block_desc_init, arena2block, block2arena, find_desc, init_loop,
}

-- A descriptor of the d-th size.
pub record IsDesc (d : ℕ) (x : BlockDesc) : Type 0 where
  pub size : x.block_size ≡ 16 * power d
  pub small : x.block_size ≤ 1024
  pub positive : 0 < x.block_size
  pub several : 0 < x.block_per_arena
  pub few : x.block_per_arena < 256
  pub fits : x.block_size * x.block_per_arena + 12 ≤ 4096
  pub full : 4096 < x.block_size * (x.block_per_arena + 1) + 12

-- The address of an arena: a page that does not wrap around.
pub record IsPage (a : ℕ) : Type 0 where
  pub aligned : a % 4096 ≡ 0
  pub top : a + 4096 ≤ 2 ^ 32

-- After block_desc_init the descriptors have the sizes 16 to 1024, and an arena has as many blocks as
-- fit behind its header.
pub block_desc_init_lem :
    (desc_arry : ℕ → BlockDesc) (d : ℕ) → d < desc_cnt → IsDesc d (block_desc_init desc_arry d)
unfolding block_desc_init init_loop
block_desc_init_lem desc_arry zero lt = omega arith
block_desc_init_lem desc_arry (suc zero) lt = omega arith
block_desc_init_lem desc_arry (suc (suc zero)) lt = omega arith
block_desc_init_lem desc_arry (suc (suc (suc zero))) lt = omega arith
block_desc_init_lem desc_arry (suc (suc (suc (suc zero)))) lt = omega arith
block_desc_init_lem desc_arry (suc (suc (suc (suc (suc zero))))) lt = omega arith
block_desc_init_lem desc_arry (suc (suc (suc (suc (suc (suc zero)))))) lt = omega arith
block_desc_init_lem desc_arry (suc (suc (suc (suc (suc (suc (suc d))))))) lt = absurd (omega arith)

pub block_desc_init-nil :
    (desc_arry : ℕ → BlockDesc) (d : ℕ)
    → d < desc_cnt
    → (block_desc_init desc_arry d).free_list ≡ []
unfolding block_desc_init init_loop
block_desc_init-nil desc_arry zero lt = refl
block_desc_init-nil desc_arry (suc zero) lt = refl
block_desc_init-nil desc_arry (suc (suc zero)) lt = refl
block_desc_init-nil desc_arry (suc (suc (suc zero))) lt = refl
block_desc_init-nil desc_arry (suc (suc (suc (suc zero)))) lt = refl
block_desc_init-nil desc_arry (suc (suc (suc (suc (suc zero))))) lt = refl
block_desc_init-nil desc_arry (suc (suc (suc (suc (suc (suc zero)))))) lt = refl
block_desc_init-nil desc_arry (suc (suc (suc (suc (suc (suc (suc d))))))) lt = absurd (omega arith)

mul_room : (b i n : ℕ) → i < n → b * i + b ≤ b * n
mul_room b i zero lt = absurd (omega arith)
mul_room b i (suc n) lt = ground (arith, mul_room b i n)

module _ {d a : ℕ} {x : BlockDesc} (k : IsDesc d x) (p : IsPage a) where
  -- A block is inside its arena, behind the header.
  pub block_address :
      (i : ℕ)
      → i < x.block_per_arena
      → (arena2block x.block_size a i ≡ a + 12 + x.block_size * i)
        × (x.block_size * i + 12 + x.block_size ≤ 4096)
  unfolding arena2block
  block_address i lt =
      let room : x.block_size * i + x.block_size ≤ x.block_size * x.block_per_arena =
        mul_room x.block_size i x.block_per_arena lt in
      (omega (arith, room, k.fits, k.positive, p.top), omega (arith, room, k.fits))

  -- The arena of a block is found by its address.
  pub block2arena-arena2block :
      (i : ℕ) → i < x.block_per_arena → block2arena (arena2block x.block_size a i) ≡ a
  unfolding block2arena
  block2arena-arena2block i lt =
      let (e, room) = block_address i lt in
      bit_and-page (arena2block x.block_size a i) (omega (arith, e, room, p.top, k.positive))
      ∙ omega (arith, e, room, p.aligned, k.positive)

  -- Two blocks of an arena do not overlap.
  pub blocks_apart :
      (i j : ℕ)
      → i < j
      → j < x.block_per_arena
      → arena2block x.block_size a i + x.block_size ≤ arena2block x.block_size a j
  blocks_apart i j lt top =
      let (e, room) = block_address i (omega (arith, lt, top)) in
      let (e', room') = block_address j top in
      let further : x.block_size * i + x.block_size ≤ x.block_size * j =
        mul_room x.block_size i j lt in
      omega (arith, e, e', further)

  pub blocks_ne :
      (i j : ℕ)
      → i < x.block_per_arena
      → j < x.block_per_arena
      → i ≢ j
      → arena2block x.block_size a i ≢ arena2block x.block_size a j
  blocks_ne i j lt lt' ne e = elim (dec_lt i j) [
    | yes less ↦ omega (arith, blocks_apart i j less lt', k.positive, e)
    | no more ↦ omega (arith, blocks_apart j i (omega (arith, more, ne)) lt, k.positive, e)
  ]

-- The search for a descriptor, from the i-th on.
pub Found : (ℕ → BlockDesc) → ℕ → ℕ → ℕ → ℕ → Type 0
Found desc size left i d =
    ((j : ℕ) → i ≤ j → j < d → (desc j).block_size < size)
    × ((d ≡ i + left) ⊎ ((d < i + left) × (size ≤ (desc d).block_size)))

Found-end : (desc : ℕ → BlockDesc) (size i : ℕ) → Found desc size zero i i
unfolding Found
Found-end desc size i = (λ j lo hi. absurd (omega arith), inl (omega arith))

Found-there :
    (desc : ℕ → BlockDesc) (size left i : ℕ)
    → size ≤ (desc i).block_size
    → Found desc size (suc left) i i
unfolding Found
Found-there desc size left i le = (λ j lo hi. absurd (omega arith), inr (omega arith, le))

Found-later :
    (desc : ℕ → BlockDesc) (size left i d : ℕ)
    → (desc i).block_size < size
    → Found desc size left (i + 1) d
    → Found desc size (suc left) i d
unfolding Found
Found-later desc size left i d lt (below, end) = (
  λ j lo hi. elim (ℕ_discrete j i) [
    | yes e ↦ subst (λ x. (desc x).block_size < size) (sym e) lt
    | no ne ↦ below j (omega (arith, lo, ne)) hi
  ],
  elim end [ inl e ↦ inl (omega (arith, e)) | inr (top, room) ↦ inr (omega (arith, top), room) ],
)

find_desc-Found :
    (desc : ℕ → BlockDesc) (size left i : ℕ) → Found desc size left i (find_desc desc size left i)
unfolding find_desc
find_desc-Found desc size zero i = Found-end desc size i
find_desc-Found desc size (suc left) i = elim (dec_le size (desc i).block_size) [
  | yes le ↦ rw (le→leb _ _ le) (Found-there desc size left i le)
  | no gt ↦
      rw (gt→leb size (desc i).block_size (omega (arith, gt))) (
        Found-later desc size left i _ (omega (arith, gt)) (find_desc-Found desc size left (i + 1)))
]

-- For 1 to 1024 bytes the search ends at the smallest block that has room for them.
pub find_desc_lem :
    (desc : ℕ → BlockDesc) (size : ℕ)
    → ((d : ℕ) → d < desc_cnt → IsDesc d (desc d))
    → size ≤ 1024
    → (find_desc desc size desc_cnt 0 < desc_cnt)
      × (size ≤ (desc (find_desc desc size desc_cnt 0)).block_size)
      × ((j : ℕ) → j < find_desc desc size desc_cnt 0 → (desc j).block_size < size)
unfolding Found
find_desc_lem desc size k le =
    let (below, end) = find_desc-Found desc size desc_cnt 0 in
    let last : (desc 6).block_size ≡ 1024 = (k 6 (omega arith)).size in
    let d = find_desc desc size desc_cnt 0 in
    elim end [
      | inl e ↦ absurd (omega (arith, last, below 6 (omega arith) (omega (arith, e)), le))
      | inr (top, room) ↦ (top, room, λ j lt. below j (omega arith) lt)
    ]
