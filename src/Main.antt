-- ===== src/Main.antt =====
-- src/main.rs: the command, as a function of its arguments, the time and the files of the computer
-- to its exit status, the lines of its two outputs and the files after it. The message of a panic
-- and the line that `mount` prints when it formats a damaged image are not modelled.
pub mod Laws
use Prim.Native.String.{String, ◌++◌ as ◌<>◌}
use operating_system_experie.Base.{
  ℕ, ◌+◌, Option, none, some, List, [], ◌∷◌, ◌++◌, length, ltb, if◌then◌else◌, disk_size,
  block_size, max_blocks,
}
use operating_system_experie.Base.Outcome.{Outcome, ok, panic, ◌>>=◌}
use operating_system_experie.Host.{Host, HasRoom}
use operating_system_experie.System.{System, Served, served, refused, unwound}
use operating_system_experie.Disk.Open.{open_path, drop}
use operating_system_experie.Superblock.{SuperBlock}
use operating_system_experie.Fs.Mount.{mount}

-- `args.last()`
abbrev pub last {ℓ} : {A : Type ℓ} → List A → Option A
last [] = none
last (x ∷ []) = some x
last (x ∷ y ∷ xs) = last (y ∷ xs)

unfoldable pub usage : String → List String
usage name =
    ("用法: " <> name <> " <挂载点> [FUSE选项...]")
    ∷ ""
    ∷ "示例:"
    ∷ ("  " <> name <> " /tmp/mnt")
    ∷ ("  " <> name <> " -f /tmp/mnt          # 前台运行")
    ∷ ("  " <> name <> " -f -s /tmp/mnt      # 单线程模式")
    ∷ ""
    ∷ "首次运行时会在当前目录创建 disk.img 作为虚拟磁盘。"
    ∷ "后续运行会加载已有的 disk.img。"
    ∷ []

unfoldable pub mount_failed : String → String → List String
mount_failed mount_point e =
    ("[SimpleFS] 挂载失败: " <> e)
    ∷ "[SimpleFS] 故障排查建议:"
    ∷ "  1. 删除旧的 disk.img: rm disk.img"
    ∷ ("  2. 确保挂载点存在: mkdir -p " <> mount_point)
    ∷ ("  3. 如果挂载点卡住: fusermount -u " <> mount_point <> " 2>/dev/null; umount " <> mount_point
        <> " 2>/dev/null")
    ∷ "  4. 确保 fuse 内核模块已加载: sudo modprobe fuse"
    ∷ []

pub disk_img : String
disk_img = "disk.img"

module _ ⦃host : Host⦄ ⦃room : HasRoom⦄ ⦃system : System⦄ where
  open host use {File}
  open system use {State, shown, megabytes, mount2}

  -- How the command ends: 101 is the status of a panic. The files are then as the session left them,
  -- or, if the panic came before `mount2`, as they were before the call that panicked.
  pub record Exit : Type 0 where
    pub status : ℕ
    pub out : List String
    pub err : List String
    pub files : State

  unfoldable pub mounting : String → List String
  mounting mount_point =
      ("[SimpleFS] 正在挂载文件系统到 " <> mount_point <> " ...")
      ∷ ("[SimpleFS] 磁盘映像: disk.img (" <> megabytes disk_size <> "MB)")
      ∷ ("[SimpleFS] 块大小: " <> shown block_size <> "B, 总块数: " <> shown max_blocks)
      ∷ []

  unfoldable pub ready : SuperBlock → String → List String
  ready sb mount_point =
      ("[SimpleFS] 空闲块数: " <> shown sb.free_blocks)
      ∷ "[SimpleFS] 改进特性:"
      ∷ "           - 位图空闲空间管理 (Bitmap)"
      ∷ "           - 层次化目录结构"
      ∷ "           - Unix权限系统"
      ∷ ("[SimpleFS] 文件系统已就绪，在另一个终端中操作 " <> mount_point <> " 即可测试")
      ∷ "[SimpleFS] 按 Ctrl+C 退出..."
      ∷ []

  -- `SimpleFS::mount` with the path of the image.
  unfoldable pub mount_path : State → String → ℕ → Outcome (State × (File × SuperBlock))
  mount_path s disk_path now = do
    r ← open_path s disk_path
    mounted ← mount r.0 now
    ok (r.1, mounted)

  -- The session: `mount2` owns the file system, which is dropped when it returns or unwinds.
  unfoldable pub serve : State → String → File × SuperBlock → Outcome (Served × State)
  serve s mount_point filesystem =
      let r = mount2 filesystem mount_point in do t ← drop s disk_img r.1; ok (r.0, t)

  unfoldable pub serve_exit : State → String → File × SuperBlock → Exit
  serve_exit s mount_point filesystem =
      let lines = mounting mount_point ++ ready filesystem.1 mount_point in
      elim (serve s mount_point filesystem) [
        | panic ↦ record { status = 101; out = lines; err = []; files = s }
        | ok (served, t) ↦ record { status = 0; out = lines; err = []; files = t }
        | ok (refused e, t) ↦ record {
          status = 1;
          out = lines;
          err = mount_failed mount_point e;
          files = t;
        }
        | ok (unwound, t) ↦ record { status = 101; out = lines; err = []; files = t }
      ]

  unfoldable pub mount_exit : State → String → ℕ → Exit
  mount_exit s mount_point now = elim (mount_path s disk_img now) [
    | panic ↦ record { status = 101; out = mounting mount_point; err = []; files = s }
    | ok r ↦ serve_exit r.0 mount_point r.1
  ]

  -- `args[0]` and `args.last().unwrap()` are checked at run time.
  unfoldable pub main : List String → ℕ → State → Exit
  main args now s =
      if ltb (length args) 2
      then elim args [
        | [] ↦ record { status = 101; out = []; err = []; files = s }
        | name ∷ rest ↦ record { status = 1; out = []; err = usage name; files = s }
      ]
      else elim (last args) [
        | none ↦ record { status = 101; out = []; err = []; files = s }
        | some mount_point ↦ mount_exit s mount_point now
      ]

  -- What `main` prints where there is no FUSE.
  pub main_elsewhere : List String
  main_elsewhere =
      "=== SimpleFS Rust 实现 ==="
      ∷ ""
      ∷ "核心模块编译成功！"
      ∷ ""
      ∷ "模块列表:"
      ∷ "  - disk.rs        磁盘I/O层（libc系统调用）"
      ∷ "  - superblock.rs  超级块管理"
      ∷ "  - bitmap.rs      位图空闲空间管理 ★改进一"
      ∷ "  - inode.rs       inode结构与权限 ★改进二、三"
      ∷ "  - directory.rs   层次目录操作 ★改进二"
      ∷ "  - fs.rs          FUSE文件系统trait实现"
      ∷ ""
      ∷ "磁盘布局:"
      ∷ ("  块大小: " <> shown block_size <> "B")
      ∷ ("  总块数: " <> shown max_blocks)
      ∷ ("  磁盘容量: " <> megabytes disk_size <> "MB")
      ∷ ""
      ∷ "改进要点:"
      ∷ "  1. 位图(bitmap)替代链式空闲块管理 —— O(1)分配/释放"
      ∷ "  2. 层次化目录结构 —— 支持 /a/b/c 多级路径"
      ∷ "  3. Unix权限系统 —— rwx权限位 + chmod支持"
      ∷ ""
      ∷ "━━━━━━━━━━━━━━━━━━━━━━━━━━━━━━━━━━━━"
      ∷ "⚠  FUSE 挂载仅在 Linux 上支持"
      ∷ "   请在 Ubuntu 上运行: cargo build --release"
      ∷ "   然后: ./target/release/simplefs /tmp/mnt"
      ∷ "━━━━━━━━━━━━━━━━━━━━━━━━━━━━━━━━━━━━"
      ∷ []
