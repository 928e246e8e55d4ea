-- ===== src/Tests/DiskRuns.antt =====
-- src/disk.rs on a file of two blocks.
use operating_system_experie.Base.{
  ℕ, ◌<◌, ◌≡◌, refl, List, [], ◌∷◌, arith, if◌then◌else◌, ◌==◌, block_size,
}
use operating_system_experie.Base.Slices.{IsBytes, zeros, zeros-IsBytes}
use operating_system_experie.Base.Outcome.{ok, panic, ◌>>=◌}
use operating_system_experie.Device.{IsBlock}
use operating_system_experie.Disk.{read_block, write_block}
use operating_system_experie.Disk.Blocks.{
  blocks, WritesBlock, write_block-WritesBlock, read_block-write_block, read_block-panic,
}
use operating_system_experie.Memory.FileHost.{file_host, file_room}

abbrev two_blocks : List ℕ
two_blocks = zeros 1024

abbrev greeting : List ℕ
greeting = 104 ∷ 105 ∷ 33 ∷ []

greeting-IsBytes : IsBytes greeting
greeting-IsBytes = grind arith

in_file : 1 < blocks ⦃host = file_host⦄ two_blocks
in_file = omega arith

zero-IsBlock : IsBlock (zeros block_size)
zero-IsBlock = (refl, zeros-IsBytes block_size)

read_block-write_block_example :
    (write_block ⦃host = file_host⦄ two_blocks 1 (zeros block_size) >>= λ g.
    read_block ⦃host = file_host⦄ g 0)
    ≡ (if 1 == 0 then ok (zeros block_size) else read_block ⦃host = file_host⦄ two_blocks 0)
read_block-write_block_example =
    read_block-write_block ⦃host = file_host⦄ ⦃room = file_room⦄ two_blocks 1 (zeros block_size) 0
      in_file zero-IsBlock (omega arith)

write_block-WritesBlock_example :
    WritesBlock ⦃host = file_host⦄ two_blocks 1 (zeros block_size) in_file zero-IsBlock
write_block-WritesBlock_example =
    write_block-WritesBlock ⦃host = file_host⦄ two_blocks 1 (zeros block_size) in_file zero-IsBlock

read_block-panic_example : read_block ⦃host = file_host⦄ two_blocks 2 ≡ panic
read_block-panic_example =
    read_block-panic ⦃host = file_host⦄ two_blocks 2 (omega arith) (omega arith)

-- Only the first two of the three bytes fit.
