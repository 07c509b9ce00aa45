-- ===== src/PathName.antt =====
-- fs/fs.c: the components of a path, read out of memory one at a time.
pub mod Parse
pub mod Fits
pub mod Depth
use the_one_os.Common.{
  ℕ, zero, suc, ◌+◌, Bool, true, false, not, ◌||◌, Option, none, some, ◌==◌, if◌then◌else◌, Memory,
  store, List, [], ◌∷◌, ltb, ◌&&◌, ◌>>=◌, ◌>>◌, assert,
}

abbrev pub slash : ℕ
slash = b'/'

-- `while (*(++pathname) == '/');`
skip_loop : ℕ → Memory → ℕ → Option ℕ
skip_loop zero m pathname = none
skip_loop (suc fuel) m pathname =
    let rest = skip_loop fuel m (pathname + 1) in
    if m (pathname + 1) == slash then rest else some (pathname + 1)

-- The loop that copies a component, and the zero behind it.
name_loop : ℕ → Memory → ℕ → ℕ → Option (ℕ × Memory)
name_loop zero m pathname name_store = none
name_loop (suc fuel) m pathname name_store =
    let rest = name_loop fuel (store m name_store (m pathname)) (pathname + 1) (name_store + 1) in
    if (m pathname == slash) || (m pathname == 0)
    then some (pathname, store m name_store 0)
    else rest

-- The pointer that is returned, and the memory.
pub path_parse : ℕ → Memory → ℕ → ℕ → Option (ℕ × Memory)
path_parse fuel m pathname name_store = do
  start ← (if m pathname == slash then skip_loop fuel m pathname else some pathname)
  name_loop fuel m start name_store

-- MAX_FILE_NAME_LEN
abbrev pub max_file_name_len : ℕ
max_file_name_len = 16

-- One of the `n` bytes from `a` on is zero.
pub ends_within : ℕ → Memory → ℕ → Bool
ends_within zero m a = false
ends_within (suc n) m a = let rest = ends_within n m (a + 1) in if m a == 0 then true else rest

-- path_parse into a buffer `name` of 16 bytes on the stack. A component that the buffer has no room for is
-- written over what stands behind it: that is left undefined.
parse_name : ℕ → Memory → ℕ → ℕ → Option (ℕ × Memory)
unfolding ends_within
parse_name fuel m pathname name = do
  (p, m') ← path_parse fuel m pathname name
  assert (ends_within max_file_name_len m' name)
  some (p, m')

-- Every component has at most 15 characters; `n` of the first one have been seen.
abbrev pub names_fit : ℕ → List ℕ → Bool
names_fit n [] = true
names_fit n (c ∷ cs) = if c == slash then names_fit 0 cs else ltb n 15 && names_fit (n + 1) cs

depth_loop : ℕ → ℕ → Memory → ℕ → ℕ → ℕ → Option (ℕ × Memory)
depth_loop inner zero m p name depth = none
depth_loop inner (suc fuel) m p name depth =
    let next =
      parse_name inner m p name >>= λ (p', m'). depth_loop inner fuel m' p' name (depth + 1) in
    if m name == 0 then some (depth, m) else next

pub path_depth_cnt : ℕ → Memory → ℕ → ℕ → Option (ℕ × Memory)
unfolding depth_loop parse_name
path_depth_cnt fuel m pathname name = do
  assert (not (pathname == 0))
  (p, m') ← parse_name fuel m pathname name
  depth_loop fuel fuel m' p name 0
