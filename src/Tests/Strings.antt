-- ===== src/Tests/Strings.antt =====
-- lib/string.c, fs/fs.c: strings in memory.
use the_one_os.Common.{
  ℕ, ◌-◌, ◌≡◌, refl, inr, ◌↔◌, some, List, [], ◌∷◌, ◌++◌, arith, ltb, if◌then◌else◌, Memory, get_or,
}
use the_one_os.CString.{
  IsStr, SameBut, memcpy, strcpy, strcat, strlen, strcmp, strchr, strrchr, strchrs,
}
use the_one_os.CString.Length.{strlen_lem, strcmp-zero}
use the_one_os.CString.Copy.{Copied, memcpy-at, strcpy_lem, strcat_lem}
use the_one_os.CString.Search.{strchr_lem, strrchr_lem, strchrs_lem}
use the_one_os.PathName.{path_depth_cnt}
use the_one_os.PathName.Depth.{Counts, path_depth_cnt_lem}

-- "//ab/c" at 0x1000, "ab" at 0x2000, zeros elsewhere.
abbrev path : List ℕ
path = b'/' ∷ b'/' ∷ b'a' ∷ b'b' ∷ b'/' ∷ b'c' ∷ []

abbrev name : List ℕ
name = b'a' ∷ b'b' ∷ []

abbrev memory : Memory
memory a =
    if ltb a 0x1000
    then 0
    else if ltb a 0x1006
    then get_or path (a - 0x1000) 0
    else if ltb a 0x2000
    then 0
    else get_or name (a - 0x2000) 0

path-IsStr : IsStr memory 0x1000 path
path-IsStr = (
  refl,
  omega arith,
  (
    refl,
    omega arith,
    (refl, omega arith, (refl, omega arith, (refl, omega arith, (refl, omega arith, refl)))),
  ),
)

name-IsStr : IsStr memory 0x2000 name
name-IsStr = (refl, omega arith, (refl, omega arith, refl))

strcpy_example : Copied memory (strcpy 7 memory 0x3000 0x1000) 0x3000 path
strcpy_example = strcpy_lem 7 memory 0x3000 0x1000 path path-IsStr (inr (omega arith)) (omega arith)

strcat_example :
    (m' : Memory) × (strcat 7 memory 0x2000 0x1000 ≡ some m')
    × IsStr m' 0x2000 (name ++ path)
    × SameBut memory m' 0x2002 0x2008
strcat_example =
    strcat_lem 7 memory 0x2000 0x1000 name path name-IsStr path-IsStr (inr (omega arith))
      (omega arith) (omega arith)

memcpy_example : memcpy memory 0x3000 0x1000 6 0x3002 ≡ b'a'
memcpy_example = memcpy-at memory 0x3000 0x1000 6 0x3002 (inr (omega arith))

strcmp_example : (r : ℕ) × (strcmp 7 memory 0x2000 0x1000 ≡ some r) × ((r ≡ 0) ↔ (name ≡ path))
strcmp_example =
    strcmp-zero 7 memory 0x2000 0x1000 name path name-IsStr path-IsStr
      (omega arith, (omega arith, tt))
      (omega arith, (omega arith, (omega arith, (omega arith, (omega arith, (omega arith, tt))))))
      (omega arith)

strlen_example : strlen 7 memory 0x1000 ≡ some 6
strlen_example = strlen_lem 7 memory 0x1000 path path-IsStr (omega arith)

strchr_example : strchr 7 memory 0x1000 b'a' ≡ some (some 0x1002)
strchr_example = strchr_lem b'a' 7 memory 0x1000 path path-IsStr (omega arith)

strrchr_example : strrchr 7 memory 0x1000 b'/' ≡ some (some 0x1004)
strrchr_example = strrchr_lem b'/' 7 memory 0x1000 path path-IsStr (omega arith)

strchrs_example : strchrs 7 memory 0x1000 b'/' ≡ some 3
strchrs_example = strchrs_lem b'/' 7 memory 0x1000 path path-IsStr (omega arith)

path_depth_cnt_example : Counts (path_depth_cnt 7 memory 0x1000 0x3000) 2
path_depth_cnt_example =
    path_depth_cnt_lem 7 memory 0x1000 0x3000 path (omega arith) path-IsStr (inr (omega arith)) refl
      (omega arith)
