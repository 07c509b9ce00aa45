-- ===== src/Tests/Directory.antt =====
-- fs/dir.c: a directory with one entry, named by a dot, in the sector 900.
use the_one_os.Common.{ℕ, ◌*◌, ◌==◌, if◌then◌else◌}
use the_one_os.Files.{Disk, Buffer}

abbrev disk : Disk
disk x = if x == 900 * 512 then 46 else 0

abbrev i_sectors : ℕ → ℕ
i_sectors k = if k == 3 then 900 else 0

abbrev dot : Buffer
dot a = if a == 0 then 46 else 0

abbrev entry : Buffer
entry a = 0
