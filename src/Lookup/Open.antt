-- ===== src/Lookup/Open.antt =====
-- fs/fs.c: sys_open. What file_create and file_open do is an interface.
use the_one_os.Common.{
  ℕ, ◌<◌, ◌≡◌, refl, Bool, true, false, not, ◌&&◌, bit_and, Option, some, List, [], ◌∷◌, ◌==◌,
  if◌then◌else◌, length, minus_one, arith, ap, ==_ne, ◌>>=◌, has,
}
use the_one_os.PathName.{slash, names_fit}
use the_one_os.Lookup.{
  ft_unknown, ft_regular, ft_directory, dir_inode, Opens, Look, Found, is_directory, dir_close,
  search_file,
}
use the_one_os.Lookup.Path.{names_of}
use the_one_os.Lookup.Search.{
  Outcome, found, missing, through_file, resolve, Says, IsValid, resolve-IsValid, search_file_lem,
}
use the_one_os.Lookup.Calls.{IsLook}

-- The descriptor that a call gives, or -1, and the state of the files after it.
pub record FileCalls (S : Type 0) : Type 0 where
  pub file_create : S → ℕ → List ℕ → ℕ → ℕ × S
  pub file_open : S → ℕ → ℕ → ℕ × S

-- strrchr(pathname, '/') + 1
abbrev pub last_name : List ℕ → List ℕ
last_name [] = []
last_name (c ∷ cs) = if (c == slash) && not (has slash cs) then cs else last_name cs

-- flag & O_CREAT
abbrev pub creates : ℕ → Bool
creates flag = not (bit_and flag 4 == 0)

module _ {S : Type 0} (calls : FileCalls S) where
  -- The choice of the call behind search_file.
  abbrev pub chosen : Found → List ℕ → ℕ → S → ℕ × S
  chosen r pathname flag s =
      if r.rec.early_exit
      then (minus_one, s)
      else if r.ret == minus_one
      then (if creates flag
          then calls.file_create s (dir_inode r.rec.parent_dir) (last_name pathname) flag
          else (minus_one, s))
      else if creates flag
      then (minus_one, s)
      else if is_directory r.rec.file_type
      then (minus_one, s)
      else calls.file_open s r.ret flag

  -- The descriptor, the files and the open directories.
  pub sys_open : ℕ → Look → List ℕ → ℕ → Opens → S → Option ((ℕ × S) × Opens)
  sys_open fuel look pathname flag o s = do
    r ← search_file fuel look pathname o
    some (chosen r pathname flag s, dir_close r.opens r.rec.parent_dir)

  -- The call that a path and its flags stand for.
  abbrev pub open_of : Outcome → List ℕ → ℕ → S → ℕ × S
  open_of (found i ft_directory dir) pathname flag s = (minus_one, s)
  open_of (found i ft_regular dir) pathname flag s =
      if creates flag then (minus_one, s) else calls.file_open s i flag
  open_of (found i ft_unknown dir) pathname flag s =
      if creates flag then (minus_one, s) else calls.file_open s i flag
  open_of (missing dir) pathname flag s =
      if creates flag then calls.file_create s dir (last_name pathname) flag else (minus_one, s)
  open_of (through_file dir) pathname flag s = (minus_one, s)

  either : (b : Bool) (x : ℕ × S) → (if b then x else x) ≡ x
  either true x = refl
  either false x = refl

  open_of-Says :
      (out : Outcome) (f : Found) (pathname : List ℕ) (flag : ℕ) (s : S)
      → IsValid out
      → Says out f
      → chosen f pathname flag s ≡ open_of out pathname flag s
  open_of-Says (found i ft_directory dir) f pathname flag s ok h =
      rw (h.2, h.0, h.1, ==_ne i minus_one ok) (either (creates flag) (minus_one, s))
  open_of-Says (found i ft_regular dir) f pathname flag s ok h =
      rw (h.2, h.0, h.1, ==_ne i minus_one ok) refl
  open_of-Says (found i ft_unknown dir) f pathname flag s ok h =
      rw (h.2, h.0, h.1, ==_ne i minus_one ok) refl
  open_of-Says (missing dir) f pathname flag s ok h = rw (h.1, h.0, h.2) refl
  open_of-Says (through_file dir) f pathname flag s ok h = rw h.1 refl

  -- For a path whose components fit the buffers for them, sys_open opens the regular file that the path leads to. With O_CREAT it creates a file, by the last name
  -- of the path, in the directory where the search ended, when a name is not there, and fails when the path
  -- leads to something; it fails for a directory, for a name behind a regular file, and for a missing name
  -- without O_CREAT. A failure before the call of file_open or file_create changes no file, and the
  -- directories that are open are the same.
  pub sys_open_lem :
      (fuel : ℕ) (look : Look) (cs : List ℕ) (flag : ℕ) (o : Opens) (s : S)
      → IsLook look
      → names_fit 0 cs ≡ true
      → length cs < 511
      → length cs < fuel
      → (o' : Opens) × (sys_open fuel look (slash ∷ cs) flag o s
          ≡ some (open_of (resolve look 0 0 (names_of fuel (slash ∷ cs))) (slash ∷ cs) flag s, o'))
        × ((j : ℕ) → o' j ≡ o j)
  unfolding sys_open
  sys_open_lem fuel look cs flag o s l fits short enough =
      let (f, e, says, balanced) = search_file_lem fuel look cs o l.known fits short enough in
      let out = resolve look 0 0 (names_of fuel (slash ∷ cs)) in
      let valid =
        resolve-IsValid look 0 0 (names_of fuel (slash ∷ cs)) l.numbered (λ e. omega (arith, e)) in
      let o' = dir_close f.opens f.rec.parent_dir in
      let finish : ℕ × S → Option ((ℕ × S) × Opens) = λ z. some (z, o') in
      (o', rw e (ap finish (open_of-Says out f (slash ∷ cs) flag s valid says)), balanced)
