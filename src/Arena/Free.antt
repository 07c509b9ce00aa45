-- ===== src/Arena/Free.antt =====
-- kernel/memory.c: what sys_free does with a block of an arena.
use the_one_os.Common.{ℕ, ◌<◌, ◌≡◌, ◌≢◌, true, false, List, [], ◌∷◌, ◌++◌, has, add32}
use the_one_os.Paging.{Mm}
use the_one_os.Arena.{desc_cnt, Heap, without, block2arena, arena2block}
use the_one_os.Arena.Invariant.{free_list, IsBlock, IsHeap, relisted}

-- The block is back in its free list, and no other block moves.
pub record IsBack (h h' : Heap) (arenas : List ℕ) (d b : ℕ) : Type 0 where
  pub kept : IsHeap h' arenas
  pub back : has b (free_list h' d) ≡ true
  pub same : (d' x : ℕ) → x ≢ b → has x (free_list h' d') ≡ has x (free_list h d')

-- Every block of the arena of `b` is free, but `b`.
abbrev pub OthersFree : Heap → ℕ → ℕ → Type 0
OthersFree h d b =
    (j : ℕ)
    → j < (h.desc d).block_per_arena
    → arena2block (h.desc d).block_size (block2arena b) j ≢ b
    → has (arena2block (h.desc d).block_size (block2arena b) j) (free_list h d) ≡ true

-- The arena is given back, and no block of another arena moves.
pub record IsGone (h h' : Heap) (arenas : List ℕ) (d b : ℕ) (mm : Mm) : Type 0 where
  pub kept : IsHeap h' (without (block2arena b) arenas)
  pub pages : h'.mm ≡ mm
  pub same :
      (d' x : ℕ) → block2arena x ≢ block2arena b → has x (free_list h' d') ≡ has x (free_list h d')

module _ (h : Heap) (arenas : List ℕ) (d b i : ℕ) (v : IsHeap h arenas) (known : d < desc_cnt)
    (k : IsBlock h arenas d b i) (used : has b (free_list h d) ≡ false) where
  abbrev a : ℕ
  a = block2arena b

  abbrev bs : ℕ
  bs = (h.desc d).block_size

  abbrev per : ℕ
  per = (h.desc d).block_per_arena

  abbrev l : List ℕ
  l = free_list h d ++ b ∷ []

  abbrev c : ℕ
  c = add32 (h.arena a).cnt 1

  abbrev put : Heap
  put = relisted h d a l c
