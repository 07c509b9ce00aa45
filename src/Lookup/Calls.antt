-- ===== src/Lookup/Calls.antt =====
-- fs/fs.c: sys_chdir and sys_stat by where the path leads, with every directory closed again.
use the_one_os.Common.{
  ℕ, ◌<◌, ◌≡◌, refl, ◌≢◌, not, ◌&&◌, Option, none, some, List, ◌∷◌, ◌==◌, if◌then◌else◌, length,
  minus_one, arith, ap, ==_ne, true,
}
use the_one_os.PathName.{slash, names_fit}
use the_one_os.Lookup.{
  FileTypes, ft_unknown, ft_regular, ft_directory, Opens, Look, Found, is_directory, dir_close,
  sys_chdir, sys_stat,
}
use the_one_os.Lookup.Path.{names_of}
use the_one_os.Lookup.Search.{
  Outcome, found, missing, through_file, resolve, Says, IsValid, resolve-IsValid, search_file_lem,
}

-- The directory of entries: each has a known type and an inode number other than -1.
pub record IsLook (look : Look) : Type 0 where
  pub known : (d : ℕ) (n : List ℕ) (i : ℕ) → look d n ≢ some (i, ft_unknown)
  pub numbered :
      (d : ℕ) (n : List ℕ) (i : ℕ) (type : FileTypes) → look d n ≡ some (i, type) → i ≢ minus_one

-- What sys_chdir answers, and the directory of the thread after it.
abbrev pub chdir_of : Outcome → ℕ → ℕ × ℕ
chdir_of (found i ft_directory dir) cwd = (0, i)
chdir_of (found i ft_regular dir) cwd = (minus_one, cwd)
chdir_of (found i ft_unknown dir) cwd = (minus_one, cwd)
chdir_of (missing dir) cwd = (minus_one, cwd)
chdir_of (through_file dir) cwd = (minus_one, cwd)

-- What sys_stat stores, or that it fails.
abbrev pub stat_of : Outcome → (ℕ → ℕ) → Option (ℕ × FileTypes × ℕ)
stat_of (found i type dir) size_of = some (i, type, size_of i)
stat_of (missing dir) size_of = none
stat_of (through_file dir) size_of = none

abbrev ends_at : Found → ℕ → Opens → ℕ × ℕ × Opens
ends_at f cwd o =
    if not (f.ret == minus_one) && is_directory f.rec.file_type
    then (0, f.ret, o)
    else (minus_one, cwd, o)

abbrev pub with_opens : ℕ × ℕ → Opens → ℕ × ℕ × Opens
with_opens (ret, cwd) o = (ret, cwd, o)

chdir_of-Says :
    (out : Outcome) (f : Found) (cwd : ℕ) (o : Opens)
    → IsValid out
    → Says out f
    → ends_at f cwd o ≡ with_opens (chdir_of out cwd) o
chdir_of-Says (found i ft_directory dir) f cwd o ok h = rw (h.0, h.1, ==_ne i minus_one ok) refl
chdir_of-Says (found i ft_regular dir) f cwd o ok h = rw (h.0, h.1, ==_ne i minus_one ok) refl
chdir_of-Says (found i ft_unknown dir) f cwd o ok h = rw (h.0, h.1, ==_ne i minus_one ok) refl
chdir_of-Says (missing dir) f cwd o ok h = rw h.0 refl
chdir_of-Says (through_file dir) f cwd o ok h = rw h.0 refl

stat_of-Says :
    (out : Outcome) (f : Found) (size_of : ℕ → ℕ)
    → IsValid out
    → Says out f
    → (if not (f.ret == minus_one) && not f.rec.early_exit
        then some (f.ret, f.rec.file_type, size_of f.ret)
        else none)
      ≡ stat_of out size_of
stat_of-Says (found i type dir) f size_of ok h = rw (h.0, h.1, h.2, ==_ne i minus_one ok) refl
stat_of-Says (missing dir) f size_of ok h = rw h.0 refl
stat_of-Says (through_file dir) f size_of ok h = rw h.0 refl

module _ (fuel : ℕ) (look : Look) (cs : List ℕ) (o : Opens) (l : IsLook look)
    (fits : names_fit 0 cs ≡ true) (short : length cs < 511) (enough : length cs < fuel) where
  abbrev out : Outcome
  out = resolve look 0 0 (names_of fuel (slash ∷ cs))

  valid : IsValid out
  valid = resolve-IsValid look 0 0 (names_of fuel (slash ∷ cs)) l.numbered (λ e. omega (arith, e))

  -- sys_chdir enters the directory that the path leads to. In every other case it answers -1, and the thread
  -- stays where it was. The directories that are open are the same.
  pub sys_chdir_lem :
      (cwd : ℕ)
      → (o' : Opens) × (sys_chdir fuel look (slash ∷ cs) cwd o
          ≡ some (with_opens (chdir_of out cwd) o'))
        × ((j : ℕ) → o' j ≡ o j)
  unfolding sys_chdir
  sys_chdir_lem cwd =
      let (f, e, says, balanced) = search_file_lem fuel look cs o l.known fits short enough in
      let o' = dir_close f.opens f.rec.parent_dir in
      (o', rw e (ap (λ z. some z) (chdir_of-Says out f cwd o' valid says)), balanced)

  -- sys_stat stores the number, the type and the size of what the path leads to, and fails when it leads
  -- nowhere. The directories that are open are the same.
  pub sys_stat_lem :
      (size_of : ℕ → ℕ)
      → (o' : Opens) × (sys_stat fuel look size_of (slash ∷ cs) o ≡ some (stat_of out size_of, o'))
        × ((j : ℕ) → o' j ≡ o j)
  unfolding sys_stat
  sys_stat_lem size_of =
      let (f, e, says, balanced) = search_file_lem fuel look cs o l.known fits short enough in
      let o' = dir_close f.opens f.rec.parent_dir in
      (o', rw e (ap (λ z. some (z, o')) (stat_of-Says out f size_of valid says)), balanced)
