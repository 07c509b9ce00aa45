-- ===== src/Fs/Layout.antt =====
-- fs/fs.c, fs/inode.c: the parts of a formatted partition, and the place of an inode.
use the_one_os.Common.{ℕ, ◌+◌, ◌*◌, ◌^◌, ◌≤◌, ◌<◌, ◌≡◌, refl, ◌↔◌, false, arith, word_size}
use the_one_os.Fs.{
  sector_size, sizeof_inode, max_files_per_part, SuperBlock, format_super_block, inode_locate,
}

-- The parts stand behind each other in the partition, from the two sectors for booting and the super
-- block to the data, which begin inside the partition. The block bitmap has a bit for each sector of
-- the data but perhaps the last.
pub record IsLaidOut (sb : SuperBlock) : Type 0 where
  pub begins : sb.block_bitmap_lba ≡ sb.part_lba_base + 2
  pub inodes_marked : sb.inode_bitmap_lba ≡ sb.block_bitmap_lba + sb.block_bitmap_sects
  pub inodes_behind : sb.inode_table_lba ≡ sb.inode_bitmap_lba + sb.inode_bitmap_sects
  pub data_behind : sb.data_start_lba ≡ sb.inode_table_lba + sb.inode_table_sects
  pub data_inside : sb.data_start_lba < sb.part_lba_base + sb.sec_cnt
  pub inode_bits : sb.inode_cnt ≤ sb.inode_bitmap_sects * (sector_size * 8)
  pub inode_room : sb.inode_cnt * sizeof_inode ≤ sb.inode_table_sects * sector_size
  pub block_bits :
      sb.part_lba_base + sb.sec_cnt
      ≤ sb.data_start_lba + sb.block_bitmap_sects * (sector_size * 8) + 1
  pub few_inodes : sb.inode_cnt ≡ max_files_per_part
  pub addressable : sb.part_lba_base + sb.sec_cnt < word_size

-- A partition of 700 to 2 ^ 24 sectors that ends below the last sector number is laid out so.
pub format_super_block-IsLaidOut :
    (start_lba sector_cnt : ℕ)
    → 700 ≤ sector_cnt
    → sector_cnt < 2 ^ 24
    → start_lba + sector_cnt < word_size
    → IsLaidOut (format_super_block start_lba sector_cnt)
unfolding format_super_block
format_super_block-IsLaidOut start_lba sector_cnt enough few small = record {
  begins = omega arith;
  inodes_marked = omega arith;
  inodes_behind = omega arith;
  data_behind = omega arith;
  data_inside = omega arith;
  inode_bits = omega arith;
  inode_room = omega arith;
  block_bits = omega arith;
  few_inodes = refl;
  addressable = omega arith;
}

-- An inode lies in the inode table, `inode_no` inodes behind its start, and in one sector or two, as
-- inode_locate says.
pub inode_locate_lem :
    (sb : SuperBlock) (inode_no : ℕ)
    → IsLaidOut sb
    → inode_no < sb.inode_cnt
    → let pos = inode_locate sb inode_no in
      (pos.sec_lba * sector_size + pos.sec_offset
        ≡ sb.inode_table_lba * sector_size + inode_no * sizeof_inode)
      × (pos.sec_offset < sector_size)
      × (pos.sec_lba * sector_size + pos.sec_offset + sizeof_inode
          ≤ sb.data_start_lba * sector_size)
      × (pos.sec_offset + sizeof_inode ≤ 2 * sector_size)
      × ((pos.cross_sector ≡ false) ↔ (pos.sec_offset + sizeof_inode ≤ sector_size))
unfolding inode_locate
inode_locate_lem sb inode_no v lt = (
  omega (arith, v.few_inodes, v.data_behind, v.data_inside, v.inode_room, v.addressable),
  omega arith,
  omega (arith, v.few_inodes, v.data_behind, v.data_inside, v.inode_room, v.addressable),
  omega arith,
  ground arith,
)
