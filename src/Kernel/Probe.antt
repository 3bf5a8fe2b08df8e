-- ===== src/Kernel/Probe.antt =====
-- kernelmod/vfs_kprobe.c: the handlers that run before and after a probed function.
pub mod Report
pub mod Operation
pub mod Entry
use everyfile.Prelude.{
  ℕ, ◌+◌, ◌%◌, ◌^◌, Bool, true, false, ◌&&◌, ◌||◌, not, Option, none, some, [], ◌∷◌, ◌++◌, Bytes,
  length, get_or, ltb, ◌==◌, if◌then◌else◌, codes,
}
use everyfile.Kernel.State.{Kernel, ok, M, pure, fail, ◌>>=◌, ◌>>◌}
use everyfile.Kernel.Buffer.{Writer, add_vfs_changed}
use everyfile.Kernel.Mounts.{mounted_at, is_special_mp, get_root}

-- The argument registers of `struct pt_regs`, and what the probed function returned.
pub record Regs : Type 0 where
  pub di : ℕ
  pub si : ℕ
  pub dx : ℕ
  pub cx : ℕ
  pub r8 : ℕ
  pub r9 : ℕ

-- `get_arg`, built for x86_64.
unfoldable pub get_arg : Regs → ℕ → ℕ
get_arg r n =
    if n == 1
    then r.di
    else if n == 2
    then r.si
    else if n == 3
    then r.dx
    else if n == 4
    then r.cx
    else if n == 5
    then r.r8
    else if n == 6
    then r.r9
    else 0

-- What the handler reads of a `struct dentry`: the device of its superblock, `none` where `d_sb` is
-- NULL, and the answer of `dentry_path_raw`, `none` where that is an error.
pub record Dentry : Type 0 where
  pub device : Option (ℕ × ℕ)
  pub raw_path : Option Bytes

-- `vfs_op_args`, once its fields are set; a path of `none` is NULL.
pub record Args : Type 0 where
  pub major : ℕ
  pub minor : ℕ
  pub path : Option Bytes

-- `entry->data`: NULL, fresh from `kmalloc`, or filled.
pub data Stored : Type 0 where
  null : Stored
  unset : Stored
  filled : Args → Stored

abbrev store_path : ℕ → ℕ → Option Bytes → Stored × ℕ
store_path major minor none = (filled (record { major = major; minor = minor; path = none }), 1)
store_path major minor (some p) =
    (filled (record { major = major; minor = minor; path = some p }), 0)

abbrev store_args : Option Dentry → Stored × ℕ
store_args none = (unset, 1)
store_args (some d) = elim d.device [
  | none ↦ (unset, 1)
  | some (major, minor) ↦ store_path (major % 2 ^ 8) (minor % 2 ^ 8) d.raw_path
]

-- `pre_handler_common`: the new `entry->data` and the result. `room` is the answer of `kmalloc`, and
-- `memory` what an address holds, `none` at NULL.
unfoldable pub pre_handler_common : (room : Bool) → (memory : ℕ → Option Dentry) → Regs → Stored × ℕ
unfolding get_arg
pre_handler_common room memory regs =
    if room then store_args (memory (get_arg regs 2)) else (null, 1)

-- The answers of `kmalloc` for the path, for the message, and for the text of a spilled message.
pub record Memory : Type 0 where
  pub for_path : Bool
  pub for_msg : Bool
  pub for_file : Bool

-- The path as a user sees it: that in the file system, behind the mount point unless this is /.
unfoldable pub full_path : Bytes → Bytes → Bytes
unfolding mounted_at
full_path root path = if mounted_at root (codes "/") then path else root ++ path

abbrev is_empty : Bytes → Bool
is_empty s = get_or s 0 0 == 0

module _ (w : Writer) where
  -- From the test of `root` on; the length of a NULL path is undefined.
  abbrev report : Memory → ℕ → Option Bytes → Bytes → M (Unit {0})
  report mem flags path root =
      if is_empty root then pure tt else if is_special_mp (some root) then pure tt else elim path [
        | none ↦ fail
        | some p ↦
            if mem.for_path
            then (do
              add_vfs_changed w mem.for_msg mem.for_file (full_path root p)
                  (length (full_path root p)) flags
              pure tt)
            else pure tt
      ]

  -- `post_handler_common`; where `entry->data` is NULL the code says so in the log and goes on.
  unfoldable pub post_handler_common : Memory → (success : Bool) → Stored → ℕ → M (Unit {0})
  post_handler_common mem success stored flags = if not success then pure tt else elim stored [
    | null ↦ fail
    | unset ↦ fail
    | filled a ↦ do root ← get_root a.major a.minor; report mem flags a.path root
  ]

-- `DECL_VFS_KRP`: the number with which each probed function is reported.
pub data Probe : Type 0 where
  vfs_create vfs_unlink vfs_mkdir vfs_rmdir vfs_symlink security_inode_create : Probe

unfoldable pub act : Probe → ℕ
act vfs_create = 1
act vfs_unlink = 2
act vfs_mkdir = 3
act vfs_rmdir = 4
act vfs_symlink = 5
act security_inode_create = 6
