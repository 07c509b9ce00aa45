-- ===== src/Lookup.antt =====
-- fs/fs.c: search_file, and the calls that look a path up and change no file. A path is the list of its
-- characters, and path_parse and path_depth_cnt are what PathName proves of them.
pub mod Path
pub mod Search
pub mod Calls
pub mod Open
use the_one_os.Common.{
  ℕ, zero, suc, ◌+◌, ◌-◌, Bool, true, false, not, ◌&&◌, ◌||◌, Option, none, some, List, [], ◌∷◌,
  ◌++◌, ◌==◌, ltb, if◌then◌else◌, update, length, get_or, minus_one, ◌>>=◌, ◌>>◌, assert,
}
use the_one_os.PathName.{slash, max_file_name_len, names_fit}
use the_one_os.PathName.Parse.{behind_slashes, first_name, behind_name}
use the_one_os.PathName.Depth.{depth_of}

pub data FileTypes : Type 0 where
  ft_unknown ft_regular ft_directory : FileTypes

-- A struct dir is root_dir, or one that dir_open has made for an inode.
pub data DirRef : Type 0 where
  root_dir : DirRef
  opened : ℕ → DirRef

abbrev pub dir_inode : DirRef → ℕ
dir_inode root_dir = 0
dir_inode (opened i) = i

-- How many open struct dir there are of each inode, root_dir apart.
abbrev pub Opens : Type 0
Opens = ℕ → ℕ

abbrev pub dir_open : Opens → ℕ → Opens
dir_open o i = update o i (o i + 1)

abbrev pub dir_close : Opens → DirRef → Opens
dir_close o root_dir = o
dir_close o (opened i) = update o i (o i - 1)

-- What search_dir_entry finds of a name in a directory: the inode and the type.
abbrev pub Look : Type 0
Look = ℕ → List ℕ → Option (ℕ × FileTypes)

pub record PathSearchRecord : Type 0 where
  pub search_path : List ℕ
  pub parent_dir : DirRef
  pub file_type : FileTypes
  pub early_exit : Bool

-- The result of search_file, with the record that it has filled.
pub record Found : Type 0 where
  pub ret : ℕ
  pub rec : PathSearchRecord
  pub opens : Opens

abbrev pub next_name : List ℕ → List ℕ
next_name s = first_name (behind_slashes s)

abbrev pub next_path : List ℕ → List ℕ
next_path s = behind_name (behind_slashes s)

abbrev pub is_empty : List ℕ → Bool
is_empty [] = true
is_empty (c ∷ cs) = false

-- path_depth_cnt, which is defined when every component fits its buffer of 16 bytes.
abbrev pub depth_cnt : List ℕ → Option ℕ
depth_cnt s = assert (names_fit 0 s) >> some (depth_of true s)

-- search_file_match
pub search_file_match : List ℕ → List ℕ → ℕ → DirRef → FileTypes → Opens → Option Found
search_file_match pathname search_path i_no parent_dir file_type o =
    depth_cnt search_path >>= λ depth. depth_cnt pathname >>= λ path_depth.
    let same = depth == path_depth in
    some (record {
      ret = if same then i_no else minus_one;
      rec = record {
        search_path = search_path;
        parent_dir = parent_dir;
        file_type = file_type;
        early_exit = not same;
      };
      opens = o;
    })

-- What a round does with the entry that is found: `enter` goes on in a directory, and `again` is the next
-- round for an entry of an unknown type, which leaves everything as it is but the search path.
abbrev pub search_entry :
    List ℕ
    → List ℕ
    → DirRef
    → Opens
    → (ℕ → Option Found)
    → (ℕ → Option Found)
    → Option (ℕ × FileTypes)
    → Option Found
search_entry pathname path parent_dir o enter again none = some (record {
  ret = minus_one;
  rec = record {
    search_path = path;
    parent_dir = parent_dir;
    file_type = ft_directory;
    early_exit = false;
  };
  opens = o;
})
search_entry pathname path parent_dir o enter again (some (i, ft_regular)) =
    search_file_match pathname path i parent_dir ft_regular o
search_entry pathname path parent_dir o enter again (some (i, ft_directory)) = enter i
search_entry pathname path parent_dir o enter again (some (i, ft_unknown)) = again i

-- The rounds of the loop, each from the path_parse before it, which is defined when the component fits the
-- buffer `name`; `i_no` is that of dir_e.
unfoldable pub search_loop :
    ℕ → Look → List ℕ → List ℕ → DirRef → ℕ → ℕ → List ℕ → Opens → Option Found
search_loop zero look pathname sub_path parent_dir parent_inode_no i_no search_path o = none
search_loop (suc fuel) look pathname sub_path parent_dir parent_inode_no i_no search_path o =
    let name = next_name sub_path in
    let path = search_path ++ slash ∷ name in
    let enter : ℕ → Option Found = λ i.
      search_loop fuel look pathname (next_path sub_path) (opened i) (dir_inode parent_dir) i path
        (dir_open (dir_close o parent_dir) i) in
    let again : ℕ → Option Found =
      λ i. search_loop fuel look pathname sub_path parent_dir parent_inode_no i path o in
    assert (ltb (length name) max_file_name_len)
    >> (if is_empty name
        then search_file_match pathname search_path i_no (opened parent_inode_no) ft_directory
            (dir_open (dir_close o parent_dir) parent_inode_no)
        else assert (ltb (length path) 512) >>= λ _.
            search_entry pathname path parent_dir o enter again (look (dir_inode parent_dir) name))

pub search_file : ℕ → Look → List ℕ → Opens → Option Found
unfolding search_loop search_file_match
search_file fuel look pathname o = do
  assert (get_or pathname 0 0 == slash)
  let sub_path = behind_slashes pathname
  (if is_empty sub_path
      then some (record {
        ret = 0;
        rec = record {
          search_path = [];
          parent_dir = root_dir;
          file_type = ft_directory;
          early_exit = false;
        };
        opens = o;
      })
      else search_loop fuel look pathname sub_path root_dir 0 0 [] o)

abbrev pub is_directory : FileTypes → Bool
is_directory ft_directory = true
is_directory _ = false

-- The result, the new cwd_inode_nr of the running thread, and the open directories.
pub sys_chdir : ℕ → Look → List ℕ → ℕ → Opens → Option (ℕ × ℕ × Opens)
unfolding search_file
sys_chdir fuel look path cwd_inode_nr o = do
  r ← search_file fuel look path o
  let ok = not (r.ret == minus_one) && is_directory r.rec.file_type
  let o' = dir_close r.opens r.rec.parent_dir
  some (if ok then (0, r.ret, o') else (minus_one, cwd_inode_nr, o'))

-- What sys_stat stores: st_no, st_filetype and st_size; `size_of` is the i_size of an inode.
pub sys_stat : ℕ → Look → (ℕ → ℕ) → List ℕ → Opens → Option (Option (ℕ × FileTypes × ℕ) × Opens)
unfolding search_file
sys_stat fuel look size_of path o = do
  r ← search_file fuel look path o
  let ok = not (r.ret == minus_one) && not r.rec.early_exit
  let o' = dir_close r.opens r.rec.parent_dir
  some (if ok then some (r.ret, r.rec.file_type, size_of r.ret) else none, o')

-- The directory, or NULL; a name of "/" and one that begins with "/." are the root.
pub sys_opendir : ℕ → Look → List ℕ → Opens → Option (Option DirRef × Opens)
unfolding search_file
sys_opendir fuel look name o = do
  assert (ltb (length name) 512)
  let at_root = (get_or name 0 0 == slash) && ((get_or name 1 0 == 0) || (get_or name 1 0 == b'.'))
  let walked = search_file fuel look name o >>= λ r. some (
      if not (r.ret == minus_one) && is_directory r.rec.file_type
      then (some (opened r.ret), dir_close (dir_open r.opens r.ret) r.rec.parent_dir)
      else (none, dir_close r.opens r.rec.parent_dir))
  (if at_root then some (some root_dir, o) else walked)

pub sys_closedir : Option DirRef → Opens → ℕ × Opens
sys_closedir none o = (minus_one, o)
sys_closedir (some dir) o = (0, dir_close o dir)
