-- ===== src/Lib.antt =====
-- A file system in one disk image, served through FUSE (src/ of the repository). A disk of 20480
-- blocks of 512 bytes holds, in this order: the superblock in block 0, the bitmap in blocks 1 to 5,
-- the inode table in blocks 6 to 30, and the data blocks from 31 on. The superblock counts the free
-- blocks, the bitmap has a bit for each block, an inode names the blocks of a file or a directory,
-- and the blocks of a directory hold entries that map names to inode numbers.
--
-- The files and the code:
--   Host        the system calls of src/disk.rs (lseek, read, write, fsync, fstat, ftruncate of the
--               libc crate) with their documented behaviour: a parameter of the development. Every
--               call may fail as far as this record goes, except lseek inside the range of an
--               offset, read, and fstat, on the open regular file. HasRoom is a second
--               parameter, an assumption: no write inside the image fails or stops early.
--   System      what is used of the system beside them: opening and closing a file by its path, the
--               texts of numbers, and mount2 of the FUSE library, which may end in the panic of a
--               handler. A parameter too.
--   Disk        src/disk.rs: size, truncate, read_block, write_block, read_partial, write_partial, and
--               in Disk.Open open and drop.
--   Device      what the layers above the disk rely on, as a record of operations and laws. They
--               take it as an instance argument; Disk.Blocks fills it from Disk, Host and HasRoom.
--   Superblock  src/superblock.rs: the record and its 44 bytes, init_superblock, read_superblock,
--               write_superblock. Superblock.image is a whole block with these bytes.
--   Bitmap      src/bitmap.rs: is_allocated, mark_allocated, mark_free, allocate_block, init_bitmap.
--               The nested loops of allocate_block are find_free, scan_bytes and scan_bits, and what
--               it does once it has found a bit is claim. Bitmap.Guard and Bitmap.Runs are about the
--               blocks that are held, over any sequence of calls.
--   Inode       src/inode.rs: the record and its 84 bytes, get_block, set_block, check_permission,
--               inode_block_location, read_inode, write_inode.
--   Directory   src/directory.rs: the entry and its 34 bytes, dir_lookup, dir_find, dir_add_entry,
--               dir_remove_entry; path_resolve is in Directory.Resolve. A directory is seen as a table
--               of slots (Directory.Slots) and as a map of names (Directory.View); Directory.Remove,
--               Directory.Add, Directory.Extend and Directory.Refine are about the two operations
--               that change it, and Directory.Runs about any sequence of them. Directory.Path
--               and Directory.Walk are about paths.
--   Fs          src/fs.rs: the attributes, errors and replies of the handlers, and format_new_fs. The
--               handlers are in Fs.Queries (getattr, readdir, lookup, open, read), Fs.Changes
--               (create, mkdir, rmdir, unlink) and Fs.Contents (write, setattr). A reply is a value,
--               and an error leaves what was changed before it. Fs.Format, Fs.Dots and Fs.Root are
--               about formatting, Fs.Reading, Fs.Places, Fs.Writing and Fs.Overwrite about the bytes
--               of a file. Fs.Grown, Fs.OneMore, Fs.Attach, Fs.AttachIndirect and Fs.Grow are about the
--               blocks that write allocates, and Fs.Extending, Fs.Save and Fs.Write about all of it.
--               Fs.Release and Fs.ReleaseAll are about giving the blocks of a file back, and Fs.Lookup,
--               Fs.Files, Fs.Unlink, Fs.Rmdir, Fs.Numbers, Fs.Enter, Fs.Create, Fs.OneBlock,
--               Fs.MadeDir, Fs.NewDir and Fs.Mkdir about names. Fs.Mount has
--               mount, over the file of the image.
--   Main        src/main.rs: the command, from its arguments, the time and the files of the computer
--               to its exit status, the lines that it prints and the files after it. Main.Laws is
--               about its runs.
--   Memory      a device that keeps its blocks in memory and a host with one small file, on which
--               the theorems are applied and the definitions run (Tests).
--   Base        numbers, lists, byte buffers, little-endian words, bits, UTF-8, and the first and the
--               number of the clear bits of a range.
--
-- Conventions. A function that changes the disk takes it and returns it, and so with a `&mut
-- SuperBlock` or a `&mut Inode`. A panic (a failed check of a slice or an index, unwrap, expect) is
-- `panic` of Base.Outcome; None and Err are values. An unsigned word of w bits is a natural number,
-- and arithmetic that can leave its range is taken modulo 2 ^ w, as a release build does; an i64 is
-- held as its pattern of 64 bits. `current_timestamp` is an argument, the time. A name or a path is
-- the list of its UTF-8 bytes.
--
-- Bounds. Most loops of the source count over blocks, bytes, bits, slots, candidate numbers or the
-- parts of a path, and are recursion on how many are left or on the list. The loops of read and
-- write over the remaining bytes take fuel, as much as there are bytes: every round copies at least
-- one (Fs.Fuel).
--
-- Assumptions on the host. The image that ftruncate makes is sparse, so a write into it can run out
-- of space; HasRoom excludes that, and errors of the medium, for all that stands above the Device
-- interface. The disk itself is described without it: write_block panics then (Disk.Blocks). The
-- failure of ftruncate is not excluded: mount panics then (Fs.Mount), and the command ends with the
-- status 101 (Main.Laws).
--
-- Not modelled: the messages of a panic and the line that mount prints when it formats a damaged
-- image, what the FUSE library does between the calls of the handlers, and the C program simplefs.c,
-- which the Rust program replaces. Whether the buffer of a directory listing is full is the FUSE
-- library's: a parameter of readdir.
pub mod Base
pub mod Host
pub mod System
pub mod Device
pub mod Disk
pub mod Superblock
pub mod Bitmap
pub mod Inode
pub mod Directory
pub mod Fs
pub mod Main
pub mod Memory
pub mod Tests
