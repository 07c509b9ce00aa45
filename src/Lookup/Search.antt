-- ===== src/Lookup/Search.antt =====
-- fs/fs.c: search_file walks the tree of directories.
use the_one_os.Common.{
  ℕ, zero, suc, ◌+◌, ◌<◌, ◌≡◌, refl, ◌≢◌, true, false, Option, none, some, List, [], ◌∷◌, ◌++◌,
  length, length-append, minus_one, arith, ◌∙◌, sym, subst, Bool-cases, false≢true, inl, inr,
  ==_refl, ==_ne, lt→ltb, ◌⊎◌,
}
use the_one_os.PathName.{slash, max_file_name_len, names_fit}
use the_one_os.PathName.Fits.{fit-behind_slashes, fit-first, fit-behind, fit-name, fit-append}
use the_one_os.PathName.Parse.{behind_slashes, length-behind_slashes}
use the_one_os.PathName.Depth.{depth_of, depth-behind_slashes}
use the_one_os.Lookup.{
  FileTypes, ft_unknown, ft_regular, ft_directory, DirRef, root_dir, opened, dir_inode, Opens,
  dir_open, dir_close, PathSearchRecord, Look, Found, next_name, next_path, is_empty,
  search_file_match, search_entry, search_loop, search_file,
}
use the_one_os.Lookup.Path.{
  names_of, depth-append, depth-next, depth-none, next-shorter, name-positive, names-behind,
  names-nil,
}

-- Where the names of a path lead: to an entry and the directory that holds it, to a name that is not there,
-- or through a regular file.
pub data Outcome : Type 0 where
  found : ℕ → FileTypes → ℕ → Outcome
  missing : ℕ → Outcome
  through_file : ℕ → Outcome

abbrev at_file : ℕ → ℕ → List (List ℕ) → Outcome
at_file i dir [] = found i ft_regular dir
at_file i dir (n ∷ ns) = through_file dir

abbrev branch : ℕ → List (List ℕ) → (ℕ → Outcome) → Option (ℕ × FileTypes) → Outcome
branch dir ns enter none = missing dir
branch dir ns enter (some (i, ft_regular)) = at_file i dir ns
branch dir ns enter (some (i, ft_directory)) = enter i
branch dir ns enter (some (i, ft_unknown)) = missing dir

abbrev pub resolve : Look → ℕ → ℕ → List (List ℕ) → Outcome
resolve look dir parent [] = found dir ft_directory parent
resolve look dir parent (n ∷ ns) =
    let enter : ℕ → Outcome = λ i. resolve look i dir ns in branch dir ns enter (look dir n)

-- The result of search_file says the outcome, and parent_dir is the directory where the search ended.
abbrev pub Says : Outcome → Found → Type 0
Says (found i type dir) r =
    (r.ret ≡ i)
    × (r.rec.file_type ≡ type)
    × (r.rec.early_exit ≡ false)
    × (dir_inode r.rec.parent_dir ≡ dir)
Says (missing dir) r =
    (r.ret ≡ minus_one) × (r.rec.early_exit ≡ false) × (dir_inode r.rec.parent_dir ≡ dir)
Says (through_file dir) r =
    (r.ret ≡ minus_one) × (r.rec.early_exit ≡ true) × (dir_inode r.rec.parent_dir ≡ dir)

-- When parent_dir is closed, the directories that are open are those of `o`.
abbrev pub Balanced : Opens → Found → Type 0
Balanced o r = (j : ℕ) → dir_close r.opens r.rec.parent_dir j ≡ o j

-- An outcome whose inode is not -1.
abbrev pub IsValid : Outcome → Type 0
IsValid (found i type dir) = i ≢ minus_one
IsValid (missing dir) = Unit {0}
IsValid (through_file dir) = Unit {0}

branch-IsValid :
    (dir : ℕ) (ns : List (List ℕ)) (go : ℕ → Outcome) (l : Option (ℕ × FileTypes))
    → ((i : ℕ) (type : FileTypes) → l ≡ some (i, type) → i ≢ minus_one)
    → ((i : ℕ) → i ≢ minus_one → IsValid (go i))
    → IsValid (branch dir ns go l)
branch-IsValid dir ns go none ok h = tt
branch-IsValid dir [] go (some (i, ft_regular)) ok h = ok i ft_regular refl
branch-IsValid dir (n ∷ ns) go (some (i, ft_regular)) ok h = tt
branch-IsValid dir ns go (some (i, ft_directory)) ok h = h i (ok i ft_directory refl)
branch-IsValid dir ns go (some (i, ft_unknown)) ok h = tt

pub resolve-IsValid :
    (look : Look) (dir parent : ℕ) (ns : List (List ℕ))
    → ((d : ℕ) (n : List ℕ) (i : ℕ) (type : FileTypes) → look d n ≡ some (i, type) → i ≢ minus_one)
    → dir ≢ minus_one
    → IsValid (resolve look dir parent ns)
resolve-IsValid look dir parent [] ok ne = ne
resolve-IsValid look dir parent (n ∷ ns) ok ne =
    branch-IsValid dir ns (λ i. resolve look i dir ns) (look dir n) (ok dir n)
      (λ i ne'. resolve-IsValid look i dir ns ok ne')

close-open : (o : Opens) (i j : ℕ) → dir_close (dir_open o i) (opened i) j ≡ o j
close-open o i j = ground arith

abbrev pub Walked : Option Found → Outcome → Opens → Type 0
Walked r out o = (f : Found) × (r ≡ some f) × Says out f × Balanced o f

module _ (pathname path : List ℕ) (i : ℕ) (dir : DirRef) (type : FileTypes) (o o0 : Opens)
    (fits : names_fit 0 pathname ≡ true) (path_fits : names_fit 0 path ≡ true)
    (closes : (j : ℕ) → dir_close o dir j ≡ o0 j) where
  abbrev searched : PathSearchRecord
  searched = record { search_path = path; parent_dir = dir; file_type = type; early_exit = false }

  match-same :
      depth_of true path ≡ depth_of true pathname
      → Walked (search_file_match pathname path i dir type o) (found i type (dir_inode dir)) o0
  unfolding search_file_match
  match-same e = (
    record { ret = i; rec = searched; opens = o },
    rw (path_fits, fits, e, ==_refl (depth_of true pathname)) refl,
    (refl, refl, refl, refl),
    closes,
  )

  match-less :
      depth_of true path ≢ depth_of true pathname
      → Walked (search_file_match pathname path i dir type o) (through_file (dir_inode dir)) o0
  unfolding search_file_match
  match-less ne = (
    record { ret = minus_one; rec = record searched { early_exit = true }; opens = o },
    rw (path_fits, fits, ==_ne _ _ ne) refl,
    (refl, refl, refl),
    closes,
  )

module _ (look : Look) (pathname : List ℕ) (o0 : Opens)
    (known : (d : ℕ) (n : List ℕ) (i : ℕ) → look d n ≢ some (i, ft_unknown))
    (fits : names_fit 0 pathname ≡ true) where
  -- What holds before a round.
  record Round (fuel : ℕ) (s path : List ℕ) (dir : DirRef) (i_no : ℕ) (o : Opens) : Type 0 where
    enough : length (behind_slashes s) < fuel
    short : is_empty (next_name s) ≡ false → length path + 1 + length (behind_slashes s) < 512
    names : names_fit 0 s ≡ true
    path_names : names_fit 0 path ≡ true
    depth : depth_of true path + depth_of true s ≡ depth_of true pathname
    here : i_no ≡ dir_inode dir
    closes : (j : ℕ) → dir_close o dir j ≡ o0 j

  -- Whether the names have come to an end, and what path_depth_cnt says of it.
  Last : List ℕ → List (List ℕ) → Type 0
  Last path ns =
      ((ns ≡ []) × (depth_of true path ≡ depth_of true pathname))
      ⊎ ((n : List ℕ) × (ns' : List (List ℕ)) × (ns ≡ n ∷ ns')
          × (depth_of true path ≢ depth_of true pathname))

  at_end :
      (fuel : ℕ) (s path : List ℕ) (dir : DirRef) (i_no : ℕ) (o : Opens)
      → Round (suc fuel) s path dir i_no o
      → is_empty (next_name s) ≡ false
      → Last (path ++ slash ∷ next_name s) (names_of fuel (next_path s))
  unfolding Last
  at_end zero s path dir i_no o r some_name =
      let (one, more, len) = depth-next s some_name in
      absurd (omega (arith, r.enough, len, name-positive (next_name s) some_name))
  at_end (suc fuel) s path dir i_no o r some_name =
      let (one, more, len) = depth-next s some_name in
      let grown = depth-append true path (next_name s) in
      elim (Bool-cases (is_empty (next_name (next_path s)))) [
        | inl e ↦
            let (nothing, z) = depth-none (next_path s) e in
            inl (rw e refl, omega (arith, r.depth, one, more, grown, z))
        | inr e ↦
            let (one', more', len') = depth-next (next_path s) e in
            inr (
              next_name (next_path s),
              names_of fuel (next_path (next_path s)),
              rw e refl,
              λ same. omega (arith, r.depth, one, more, more', grown, same),
            )
      ]

  -- The name of a round fits its buffer, and so do those of the path that it makes.
  name_few :
      {fuel : ℕ} {s path : List ℕ} {dir : DirRef} {i_no : ℕ} {o : Opens}
      → Round fuel s path dir i_no o
      → length (next_name s) < max_file_name_len
  name_few {s = s} r =
      omega (arith, fit-first 0 (behind_slashes s) (fit-behind_slashes s ∙ r.names) (omega arith))

  path_fit :
      {fuel : ℕ} {s path : List ℕ} {dir : DirRef} {i_no : ℕ} {o : Opens}
      → Round fuel s path dir i_no o
      → names_fit 0 (path ++ slash ∷ next_name s) ≡ true
  path_fit {s = s} {path} r =
      fit-append 0 path (next_name s)
      ∙ rw (r.path_names, fit-name 0 (behind_slashes s) (fit-behind_slashes s ∙ r.names)) refl

  search_loop-Round :
      (fuel : ℕ) (s path : List ℕ) (dir : DirRef) (i_no i : ℕ) (o : Opens)
      → Round (suc fuel) s path dir i_no o
      → is_empty (next_name s) ≡ false
      → Round fuel
          (next_path s)
          (path ++ slash ∷ next_name s)
          (opened i)
          i
          (dir_open (dir_close o dir) i)
  search_loop-Round fuel s path dir i_no i o r some_name =
      let (one, more, len) = depth-next s some_name in
      let grown = depth-append true path (next_name s) in
      let size = length-append path (slash ∷ next_name s) in
      let pos = name-positive (next_name s) some_name in
      record {
        enough = omega (arith, r.enough, len, pos, length-behind_slashes (next_path s));
        short =
            λ more_names. omega (arith, r.short some_name, size, len, next-shorter s more_names);
        names = fit-behind 0 (behind_slashes s) (fit-behind_slashes s ∙ r.names);
        path_names = path_fit r;
        depth = omega (arith, r.depth, one, more, grown);
        here = refl;
        closes = λ j. close-open (dir_close o dir) i j ∙ r.closes j;
      }

  entry_walk :
      (path : List ℕ) (dir : DirRef) (o : Opens) (ns : List (List ℕ))
      (enter again : ℕ → Option Found) (go : ℕ → Outcome) (l : Option (ℕ × FileTypes))
      → ((j : ℕ) → dir_close o dir j ≡ o0 j)
      → names_fit 0 path ≡ true
      → Last path ns
      → ((i : ℕ) → l ≢ some (i, ft_unknown))
      → ((i : ℕ) → Walked (enter i) (go i) o0)
      → Walked (search_entry pathname path dir o enter again l) (branch (dir_inode dir) ns go l) o0
  unfolding Last
  entry_walk path dir o ns enter again go none closes path_fits last ok h = (
    record {
      ret = minus_one;
      rec = record {
        search_path = path;
        parent_dir = dir;
        file_type = ft_directory;
        early_exit = false;
      };
      opens = o;
    },
    refl,
    (refl, refl, refl),
    closes,
  )
  entry_walk path dir o ns enter again go (some (i, ft_regular)) closes path_fits last ok h =
      elim last [
        | inl (e, same) ↦
            subst
              (λ z.
                Walked (search_file_match pathname path i dir ft_regular o)
                  (at_file i (dir_inode dir) z) o0)
              (sym e) (match-same pathname path i dir ft_regular o o0 fits path_fits closes same)
        | inr (n, ns', e, ne) ↦
            subst
              (λ z.
                Walked (search_file_match pathname path i dir ft_regular o)
                  (at_file i (dir_inode dir) z) o0)
              (sym e) (match-less pathname path i dir ft_regular o o0 fits path_fits closes ne)
      ]
  entry_walk path dir o ns enter again go (some (i, ft_directory)) closes path_fits last ok h = h i
  entry_walk path dir o ns enter again go (some (i, ft_unknown)) closes path_fits last ok h =
      absurd (ok i refl)

  walk :
      (fuel : ℕ) (s path : List ℕ) (dir : DirRef) (parent i_no : ℕ) (o : Opens)
      → Round fuel s path dir i_no o
      → Walked
          (search_loop fuel look pathname s dir parent i_no path o)
          (resolve look (dir_inode dir) parent (names_of fuel s))
          o0
  unfolding search_loop
  walk zero s path dir parent i_no o r = absurd (omega (arith, r.enough))
  walk (suc fuel) s path dir parent i_no o r = elim (Bool-cases (is_empty (next_name s))) [
    | inl e ↦
        let o' = dir_open (dir_close o dir) parent in
        let (nothing, z) = depth-none s e in
        let says =
          match-same pathname path i_no (opened parent) ft_directory o' o0 fits r.path_names
            (λ j. close-open (dir_close o dir) parent j ∙ r.closes j) (omega (arith, r.depth, z)) in
        rw (lt→ltb (length (next_name s)) 16 (name_few r), e)
          (subst
            (λ i.
              Walked (search_file_match pathname path i_no (opened parent) ft_directory o')
                (found i ft_directory parent) o0)
            r.here says)
    | inr some_name ↦
        let path' = path ++ slash ∷ next_name s in
        let (one, more, len) = depth-next s some_name in
        let short : length path' < 512 =
          omega (arith, r.short some_name, length-append path (slash ∷ next_name s), len) in
        rw
          (
            lt→ltb (length (next_name s)) 16 (name_few r),
            some_name,
            lt→ltb (length path') 512 short,
          )
          (entry_walk path' dir o (names_of fuel (next_path s))
            (λ i.
              search_loop fuel look pathname (next_path s) (opened i) (dir_inode dir) i path'
                (dir_open (dir_close o dir) i))
            (λ i. search_loop fuel look pathname s dir parent i path' o)
            (λ i. resolve look i (dir_inode dir) (names_of fuel (next_path s)))
            (look (dir_inode dir) (next_name s)) r.closes (path_fit r)
            (at_end fuel s path dir i_no o r some_name) (known (dir_inode dir) (next_name s))
            (λ i.
              walk fuel (next_path s) path' (opened i) (dir_inode dir) i
                (dir_open (dir_close o dir) i)
                (search_loop-Round fuel s path dir i_no i o r some_name)))
  ]

empty-nil : (l : List ℕ) → is_empty l ≡ true → l ≡ []
empty-nil [] e = refl
empty-nil (c ∷ cs) e = absurd (false≢true e)

-- On a path whose components fit the buffers for them, search_file ends. It answers with the entry that the names of the path lead to, from the root on, or with
-- -1 when one of them is not there or stands behind a regular file, which early_exit tells; parent_dir is
-- the directory where the search ended, and the only one left open.
pub search_file_lem :
    (fuel : ℕ) (look : Look) (cs : List ℕ) (o : Opens)
    → ((d : ℕ) (n : List ℕ) (i : ℕ) → look d n ≢ some (i, ft_unknown))
    → names_fit 0 cs ≡ true
    → length cs < 511
    → length cs < fuel
    → (f : Found) × (search_file fuel look (slash ∷ cs) o ≡ some f)
      × Says (resolve look 0 0 (names_of fuel (slash ∷ cs))) f
      × Balanced o f
unfolding search_file
search_file_lem fuel look cs o known fits short enough =
    elim (Bool-cases (is_empty (behind_slashes cs))) [
      | inl e ↦
          let nothing = names-nil fuel (slash ∷ cs) (empty-nil (behind_slashes cs) e) in
          rw (e, nothing)
            (
              record {
                ret = 0;
                rec = record {
                  search_path = [];
                  parent_dir = root_dir;
                  file_type = ft_directory;
                  early_exit = false;
                };
                opens = o;
              },
              refl,
              (refl, refl, refl, refl),
              λ j. refl,
            )
      | inr some_name ↦
          let t = behind_slashes cs in
          let le = length-behind_slashes cs in
          let le' = length-behind_slashes t in
          rw some_name (
            subst
              (λ ns.
                Walked (search_loop fuel look (slash ∷ cs) t root_dir 0 0 [] o)
                  (resolve look 0 0 ns) o)
              (names-behind fuel (slash ∷ cs))
              (walk look (slash ∷ cs) o known fits fuel t [] root_dir 0 0 o (record {
                enough = omega (arith, le, le', enough);
                short = λ more. omega (arith, le, le', short);
                names = fit-behind_slashes cs ∙ fits;
                path_names = refl;
                depth = omega (arith, depth-behind_slashes (slash ∷ cs));
                here = refl;
                closes = λ j. refl;
              })))
    ]
