-- ===== src/Fs/Files.antt =====
-- A file or directory that another directory names, and the release of its blocks.
use operating_system_experie.Base.{ℕ, ◌<◌, ◌≡◌, ◌≢◌, sym, ◌∙◌, true, arith}
use operating_system_experie.Base.Outcome.{ok}
use operating_system_experie.Device.{Device}
use operating_system_experie.Superblock.{SuperBlock}
use operating_system_experie.Bitmap.Mark.{bit_at}
use operating_system_experie.Inode.{IsTyped, Inode, read_inode}
use operating_system_experie.Inode.Table.{InImage, home, read_inode-same}
use operating_system_experie.Directory.Slots.{ptr}
use operating_system_experie.Directory.View.{Names, Models}
use operating_system_experie.Directory.Sound.{IsSound}
use operating_system_experie.Directory.Beside.{beside-IsSound, beside-Models}
use operating_system_experie.Fs.ReleaseAll.{IsOwned, Indirect, AllFreed, free_all-AllFreed}

-- The inode of a file without a name.
abbrev pub unused : Inode → Inode
unused i = record i { nlink = 0 }

pub unused-IsTyped : (i : Inode) → IsTyped i → IsTyped (unused i)
unused-IsTyped i t = record {
  inode_no = t.inode_no;
  mode = t.mode;
  uid = t.uid;
  gid = t.gid;
  size = t.size;
  nlink = omega arith;
  block_count = t.block_count;
  mtime = t.mtime;
  atime = t.atime;
  ctime = t.ctime;
  direct_length = t.direct_length;
  direct_blocks = t.direct_blocks;
  indirect_block = t.indirect_block;
}

module _ ⦃dev : Device⦄ where
  open dev use {Disk, blocks, block}

  -- A file or directory that another directory names: its inode is stored and another one than the directory's, it owns
  -- its blocks, and neither these nor the block of its inode are the directory's.
  pub record IsChildIn (d : Disk) (sb : SuperBlock) (dir child : Inode) (at : ℕ → ℕ) : Type 0 where
    pub stored : read_inode d sb child.inode_no ≡ ok child
    pub typed : IsTyped child
    pub image : InImage d sb child.inode_no
    pub owned : IsOwned child at d
    pub indirect : Indirect child at d
    pub apart : (k j : ℕ) → k < child.block_count → j < dir.block_count → at k ≢ ptr dir j
    pub apart_inode : (k : ℕ) → k < child.block_count → at k ≢ home sb dir.inode_no
    pub indirect_apart : (j : ℕ) → j < dir.block_count → child.indirect_block ≢ ptr dir j
    pub indirect_apart_inode : child.indirect_block ≢ home sb dir.inode_no
    pub other : child.inode_no ≢ dir.inode_no
    pub away : (j : ℕ) → j < dir.block_count → ptr dir j ≢ home sb child.inode_no

  module _ (d : Disk) (sb : SuperBlock) (dir child : Inode) (at : ℕ → ℕ) (i : IsSound d sb dir)
      (c : IsChildIn d sb dir child at) where
    pub all_freed : AllFreed child at d sb
    all_freed = free_all-AllFreed child at d sb i.guarded c.owned c.indirect

    table : all_freed.after.inode_table_start ≡ sb.inode_table_start
    table = all_freed.guarded.table ∙ sym i.guarded.table

    -- The directory after the blocks were given back.
    same : (k : ℕ) → k < dir.block_count → block all_freed.disk (ptr dir k) ≡ block d (ptr dir k)
    same k h = all_freed.others (ptr dir k) (omega (arith, i.held.behind k h))

    stored : read_inode all_freed.disk all_freed.after dir.inode_no ≡ ok dir
    stored =
        read_inode-same d all_freed.disk sb all_freed.after dir.inode_no i.directory.image table
          all_freed.size (all_freed.others (home sb dir.inode_no) (omega (arith, i.guarded.table)))
        ∙ i.directory.stored

    bits : (k : ℕ) → k < dir.block_count → bit_at all_freed.disk (ptr dir k) ≡ true
    bits k h =
        all_freed.kept (ptr dir k) (i.held.inside k h) (λ j lt. c.apart j k lt h)
          (c.indirect_apart k h)
        ∙ i.held.taken k h

    inode_bit : bit_at all_freed.disk (home sb dir.inode_no) ≡ true
    inode_bit =
        all_freed.kept (home sb dir.inode_no) i.held.inode_inside (λ j lt. c.apart_inode j lt)
          c.indirect_apart_inode
        ∙ i.held.inode_taken

    pub freed-IsSound : IsSound all_freed.disk all_freed.after dir
    freed-IsSound =
        beside-IsSound d all_freed.disk sb all_freed.after dir i all_freed.guarded all_freed.size
          same stored bits inode_bit

    pub freed-Models : (f : Names) → Models d dir f → Models all_freed.disk dir f
    freed-Models =
        beside-Models d all_freed.disk sb all_freed.after dir i all_freed.guarded all_freed.size
          same stored bits inode_bit
