-- ===== src/Fs.antt =====
-- fs/fs.c, fs/inode.c, fs/file.c: where a partition keeps its parts, and the tables of open files.
pub mod Layout
pub mod Descriptors
pub mod Alloc
use the_one_os.Common.{
  ℕ, zero, suc, ◌+◌, ◌-◌, ◌*◌, ◌/◌, ◌%◌, ◌^◌, Bool, true, false, ◌&&◌, Option, none, some, List, [],
  ◌∷◌, ◌==◌, ltb, leb, if◌then◌else◌, get_or, set, add32, sub32, wrap32, minus_one, ◌>>=◌, ◌>>◌,
  assert,
}

abbrev pub sector_size : ℕ
sector_size = 512

abbrev pub max_files_per_part : ℕ
max_files_per_part = 4096

-- sizeof(struct inode): 19 words.
abbrev pub sizeof_inode : ℕ
sizeof_inode = 76

-- DIV_ROUND_UP on words.
abbrev pub div_round_up : ℕ → ℕ → ℕ
div_round_up x step = sub32 (add32 x step) 1 / step

pub record SuperBlock : Type 0 where
  pub sec_cnt : ℕ
  pub inode_cnt : ℕ
  pub part_lba_base : ℕ
  pub block_bitmap_lba : ℕ
  pub block_bitmap_sects : ℕ
  pub inode_bitmap_lba : ℕ
  pub inode_bitmap_sects : ℕ
  pub inode_table_lba : ℕ
  pub inode_table_sects : ℕ
  pub data_start_lba : ℕ
  pub root_inode_no : ℕ

-- The super block that partition_format computes for a partition of `sector_cnt` sectors at `start_lba`.
unfoldable pub format_super_block : ℕ → ℕ → SuperBlock
format_super_block start_lba sector_cnt =
    let inode_bitmap_sects = div_round_up max_files_per_part (sector_size * 8) in
    let inode_table_sects = div_round_up (sizeof_inode * max_files_per_part) sector_size in
    let used_sects = 1 + 1 + inode_bitmap_sects + inode_table_sects in
    let free_sects = sub32 sector_cnt used_sects in
    let first_guess = div_round_up free_sects (sector_size * 8) in
    let block_bitmap_bit_len = sub32 free_sects first_guess in
    let block_bitmap_sects = div_round_up block_bitmap_bit_len (sector_size * 8) in
    let block_bitmap_lba = add32 start_lba 2 in
    let inode_bitmap_lba = add32 block_bitmap_lba block_bitmap_sects in
    let inode_table_lba = add32 inode_bitmap_lba inode_bitmap_sects in
    record {
      sec_cnt = sector_cnt;
      inode_cnt = max_files_per_part;
      part_lba_base = start_lba;
      block_bitmap_lba = block_bitmap_lba;
      block_bitmap_sects = block_bitmap_sects;
      inode_bitmap_lba = inode_bitmap_lba;
      inode_bitmap_sects = inode_bitmap_sects;
      inode_table_lba = inode_table_lba;
      inode_table_sects = inode_table_sects;
      data_start_lba = add32 inode_table_lba inode_table_sects;
      root_inode_no = 0;
    }

pub record InodePosition : Type 0 where
  pub cross_sector : Bool
  pub sec_lba : ℕ
  pub sec_offset : ℕ

unfoldable pub inode_locate : SuperBlock → ℕ → InodePosition
inode_locate sb inode_no =
    let at_byte = wrap32 (inode_no * sizeof_inode) in
    record {
      cross_sector = ltb sector_size (at_byte % sector_size + sizeof_inode);
      sec_lba = add32 sb.inode_table_lba (at_byte / sector_size);
      sec_offset = at_byte % sector_size;
    }

-- `fd_inode` is 0 in a free slot.
pub record File : Type 0 where
  pub fd_pos : ℕ
  pub fd_flag : ℕ
  pub fd_inode : ℕ

abbrev pub no_file : File
no_file = record { fd_pos = 0; fd_flag = 0; fd_inode = 0 }

abbrev pub max_file_open : ℕ
max_file_open = 32

abbrev pub max_files_open_per_proc : ℕ
max_files_open_per_proc = 64

slot_loop : List File → ℕ → ℕ → ℕ
slot_loop file_table zero idx = minus_one
slot_loop file_table (suc left) idx =
    let rest = slot_loop file_table left (idx + 1) in
    if (get_or file_table idx no_file).fd_inode == 0 then idx else rest

pub get_free_slot_in_global : List File → ℕ
unfolding slot_loop
get_free_slot_in_global file_table = slot_loop file_table max_file_open 0

-- The rounds left of the loop of pcb_fd_install, at `fd_idx`.
unfoldable pub install_loop : List ℕ → ℕ → ℕ → ℕ → ℕ × List ℕ
install_loop fd_table globa_fd_idx zero fd_idx = (minus_one, fd_table)
install_loop fd_table globa_fd_idx (suc left) fd_idx =
    let rest = install_loop fd_table globa_fd_idx left (fd_idx + 1) in
    if get_or fd_table fd_idx 0 == minus_one
    then (fd_idx, set fd_table fd_idx globa_fd_idx)
    else rest

unfoldable pub pcb_fd_install : List ℕ → ℕ → ℕ × List ℕ
unfolding install_loop
pcb_fd_install fd_table globa_fd_idx =
    install_loop fd_table globa_fd_idx (max_files_open_per_proc - 3) 3

-- A descriptor past the table would be read from what stands behind it: that is left undefined.
pub fd_local2global : List ℕ → ℕ → Option ℕ
fd_local2global fd_table local_fd = do
  assert (ltb local_fd max_files_open_per_proc)
  let global_fd = get_or fd_table local_fd 0
  assert (ltb global_fd max_file_open)
  some global_fd

-- `size_of` gives i_size of an inode. Another whence changes nothing.
pub sys_lseek : (ℕ → ℕ) → List ℕ → List File → ℕ → ℕ → ℕ → Option (ℕ × List File)
sys_lseek size_of fd_table file_table fd offset whence = do
  let open_file =
      (fd_local2global fd_table fd >>= λ global_fd.
      let pf = get_or file_table global_fd no_file in
      let fd_pos =
        if whence == 1
        then offset
        else if whence == 2
        then add32 pf.fd_pos offset
        else if whence == 3
        then size_of pf.fd_inode
        else pf.fd_pos in
      some (fd_pos, set file_table global_fd (record pf { fd_pos = fd_pos })))
  if leb (2 ^ 31) fd then some (minus_one, file_table) else open_file
