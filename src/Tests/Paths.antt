-- ===== src/Tests/Paths.antt =====
-- fs/fs.c: a tree with a directory that holds a file.
use the_one_os.Common.{
  ℕ, ◌≡◌, refl, Bool, true, false, ◌&&◌, none, some, List, [], ◌∷◌, arith, ◌==◌, if◌then◌else◌,
}
use the_one_os.PathName.{slash}
use the_one_os.Lookup.{
  ft_regular, ft_directory, Opens, Look, Found, search_file, sys_chdir, sys_stat,
}
use the_one_os.Lookup.Path.{names_of}
use the_one_os.Lookup.Search.{Says, Balanced, resolve, search_file_lem}
use the_one_os.Lookup.Open.{FileCalls, sys_open, open_of, sys_open_lem}
use the_one_os.Lookup.Calls.{IsLook, chdir_of, with_opens, stat_of, sys_chdir_lem, sys_stat_lem}

abbrev same_name : List ℕ → List ℕ → Bool
same_name [] [] = true
same_name [] (y ∷ ys) = false
same_name (x ∷ xs) [] = false
same_name (x ∷ xs) (y ∷ ys) = (x == y) && same_name xs ys

-- The root holds the directory "d" with inode 1, and that holds the file "f" with inode 2.
abbrev tree : Look
tree d n =
    if (d == 0) && same_name n (b'd' ∷ [])
    then some (1, ft_directory)
    else if (d == 1) && same_name n (b'f' ∷ [])
    then some (2, ft_regular)
    else none

tree-IsLook : IsLook tree
tree-IsLook = record {
  known = λ d n i e. ground (arith, e);
  numbered = λ d n i type e. ground (arith, e);
}

-- d//f/x
abbrev rest : List ℕ
rest = b'd' ∷ slash ∷ slash ∷ b'f' ∷ slash ∷ b'x' ∷ []

abbrev no_opens : Opens
no_opens i = 0

search_file_example :
    (f : Found) × (search_file 16 tree (slash ∷ rest) no_opens ≡ some f)
    × Says (resolve tree 0 0 (names_of 16 (slash ∷ rest))) f
    × Balanced no_opens f
search_file_example =
    search_file_lem 16 tree rest no_opens tree-IsLook.known refl (omega arith) (omega arith)

sys_chdir_example :
    (o' : Opens) × (sys_chdir 16 tree (slash ∷ b'd' ∷ []) 0 no_opens
      ≡ some (with_opens (chdir_of (resolve tree 0 0 (names_of 16 (slash ∷ b'd' ∷ []))) 0) o'))
    × ((j : ℕ) → o' j ≡ no_opens j)
sys_chdir_example =
    sys_chdir_lem 16 tree (b'd' ∷ []) no_opens tree-IsLook refl (omega arith) (omega arith) 0

sys_stat_example :
    (o' : Opens) × (sys_stat 16 tree (λ i. 512) (slash ∷ rest) no_opens
      ≡ some (stat_of (resolve tree 0 0 (names_of 16 (slash ∷ rest))) (λ i. 512), o'))
    × ((j : ℕ) → o' j ≡ no_opens j)
sys_stat_example =
    sys_stat_lem 16 tree rest no_opens tree-IsLook refl (omega arith) (omega arith) (λ i. 512)

-- The calls leave their mark: a created file has descriptor 7, an opened one its inode.
abbrev calls : FileCalls (List ℕ)
calls = record { file_create = λ s dir name flag. (7, name); file_open = λ s i flag. (i, s) }

-- The directory "e" is missing, so the file "x" is made in the root.
sys_open_example :
    (o' : Opens) × (sys_open calls 16 tree (slash ∷ b'e' ∷ slash ∷ b'x' ∷ []) 4 no_opens []
      ≡ some (
        open_of calls
            (resolve tree 0 0 (names_of 16 (slash ∷ b'e' ∷ slash ∷ b'x' ∷ [])))
            (slash ∷ b'e' ∷ slash ∷ b'x' ∷ [])
            4
            [],
        o',
      ))
    × ((j : ℕ) → o' j ≡ no_opens j)
sys_open_example =
    sys_open_lem calls 16 tree (b'e' ∷ slash ∷ b'x' ∷ []) 4 no_opens [] tree-IsLook refl
      (omega arith) (omega arith)

misplaced :
    open_of calls
      (resolve tree 0 0 (names_of 16 (slash ∷ b'e' ∷ slash ∷ b'x' ∷ [])))
      (slash ∷ b'e' ∷ slash ∷ b'x' ∷ [])
      4
      []
    ≡ (7, b'x' ∷ [])
misplaced = refl
