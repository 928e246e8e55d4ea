-- ===== src/Base/Sizes.antt =====
-- The constants of src/disk.rs.
use Prim.Native.Nat.{ℕ, ◌-◌, ◌*◌, ◌/◌}

-- 10 MB
abbrev pub disk_size : ℕ
disk_size = 10 * 1024 * 1024

abbrev pub block_size : ℕ
block_size = 512

-- The last two bytes of a block were meant for a pointer to the next block.
abbrev pub page_size : ℕ
page_size = block_size - 2

abbrev pub max_blocks : ℕ
max_blocks = disk_size / block_size
