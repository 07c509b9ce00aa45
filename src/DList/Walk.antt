-- ===== src/DList/Walk.antt =====
-- lib/list.c: the walks over a list end, and return what a walk over its elements returns.
use the_one_os.Common.{
  ℕ, zero, suc, ◌+◌, ◌<◌, ◌≡◌, refl, Bool, Option, none, some, List, [], ◌∷◌, ◌++◌, arith,
  if◌then◌else◌, has, length,
}
use the_one_os.DList.{
  Links, DList, len_loop, list_len, traversal_loop, list_traversal, find_loop, elem_find,
}
use the_one_os.DList.Chain.{Chain, IsDistinct, IsDList, has-append}
use the_one_os.DList.Ops.{list_empty_lem}

-- The first element that passes the test.
abbrev pub find_first : (ℕ → Bool) → List ℕ → Option ℕ
find_first p [] = none
find_first p (x ∷ xs) = if p x then some x else find_first p xs

module _ (h : Links) (l : DList) where
  len_loop_lem :
      (fuel : ℕ) (a : ℕ) (xs : List ℕ) (len : ℕ)
      → Chain h a xs l.tail
      → IsDistinct (a ∷ (xs ++ l.tail ∷ []))
      → length xs < fuel
      → len_loop fuel h l (h.next a) len ≡ some (len + length xs)
  unfolding len_loop
  len_loop_lem zero a xs len c d lt = absurd (omega arith)
  len_loop_lem (suc fuel) a [] len c d lt = ground arith
  len_loop_lem (suc fuel) a (x ∷ xs) len c d lt =
      ground (arith, len_loop_lem fuel x xs (len + 1) c.2 d.1, has-append x xs (l.tail ∷ []))

  traversal_loop_lem :
      (func : ℕ → Bool) (fuel : ℕ) (a : ℕ) (xs : List ℕ)
      → Chain h a xs l.tail
      → IsDistinct (a ∷ (xs ++ l.tail ∷ []))
      → length xs < fuel
      → traversal_loop fuel h l func (h.next a) ≡ some (find_first func xs)
  unfolding traversal_loop
  traversal_loop_lem func zero a xs c d lt = absurd (omega arith)
  traversal_loop_lem func (suc fuel) a [] c d lt = ground arith
  traversal_loop_lem func (suc fuel) a (x ∷ xs) c d lt =
      ground (arith, traversal_loop_lem func fuel x xs c.2 d.1, has-append x xs (l.tail ∷ []))

  find_loop_lem :
      (obj fuel : ℕ) (a : ℕ) (xs : List ℕ)
      → Chain h a xs l.tail
      → IsDistinct (a ∷ (xs ++ l.tail ∷ []))
      → length xs < fuel
      → find_loop fuel h l obj (h.next a) ≡ some (has obj xs)
  unfolding find_loop
  find_loop_lem obj zero a xs c d lt = absurd (omega arith)
  find_loop_lem obj (suc fuel) a [] c d lt = ground arith
  find_loop_lem obj (suc fuel) a (x ∷ xs) c d lt =
      ground (arith, find_loop_lem obj fuel x xs c.2 d.1, has-append x xs (l.tail ∷ []))

module _ {h : Links} {l : DList} (fuel : ℕ) (xs : List ℕ) (v : IsDList h l xs)
    (enough : length xs < fuel) where
  -- list_len ends within one more round than there are elements, and counts them.
  pub list_len_lem : list_len fuel h l ≡ some (length xs)
  unfolding list_len
  list_len_lem = ground (arith, len_loop_lem h l fuel l.head xs 0 v.chain v.distinct enough)

  -- elem_find ends within as many rounds, and tells whether the element is in the list.
  pub elem_find_lem : (obj : ℕ) → elem_find fuel h l obj ≡ some (has obj xs)
  unfolding elem_find
  elem_find_lem obj = find_loop_lem h l obj fuel l.head xs v.chain v.distinct enough

-- list_traversal ends within as many rounds, and returns the first element that passes the test.
pub list_traversal_lem :
    {h : Links} {l : DList} (fuel : ℕ) (xs : List ℕ)
    → IsDList h l xs
    → length xs < fuel
    → (func : ℕ → Bool) → list_traversal fuel h l func ≡ some (find_first func xs)
unfolding list_traversal
list_traversal_lem fuel [] v enough func = rw (list_empty_lem [] v) refl
list_traversal_lem {h} {l} fuel (x ∷ xs) v enough func =
    rw (list_empty_lem (x ∷ xs) v)
      (traversal_loop_lem h l func fuel l.head (x ∷ xs) v.chain v.distinct enough)
