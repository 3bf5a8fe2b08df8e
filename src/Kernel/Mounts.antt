-- ===== src/Kernel/Mounts.antt =====
-- kernelmod/vfs_kprobe.c: mount points, which of them are ignored, and the partition of a device.
pub mod Special
pub mod Lookup
use everyfile.Prelude.{
  ℕ, zero, suc, Bool, true, false, ◌&&◌, ◌||◌, not, Option, none, some, List, [], ◌∷◌, Bytes,
  length, get_or, ltb, ◌==◌, if◌then◌else◌, same_text, strstr, codes,
}
use everyfile.Kernel.State.{
  Partition, Kernel, ok, M, pure, ◌>>=◌, ◌>>◌, parts, spin_lock, spin_unlock,
}

-- `strstr(mp, root) == mp`
abbrev pub at_start : Option ℕ → Bool
at_start none = false
at_start (some zero) = true
at_start (some (suc i)) = false

unfoldable pub mounted_at : Bytes → Bytes → Bool
mounted_at mp root =
    same_text mp root
    || (ltb (length root) (length mp)
        && at_start (strstr mp root)
        && get_or mp (length root) 0 == b'/')

-- `none` is NULL.
unfoldable pub is_special_mp : Option Bytes → Bool
unfolding mounted_at
is_special_mp none = true
is_special_mp (some mp) =
    not (get_or mp 0 0 == b'/')
    || mounted_at mp (codes "/sys")
    || mounted_at mp (codes "/proc")
    || mounted_at mp (codes "/run")
    || mounted_at mp (codes "/dev")
    || mounted_at mp (codes "/var")
    || mounted_at mp (codes "/tmp")

-- The loop of `get_root`; the text is empty where no partition fits.
unfoldable pub find_root : ℕ → ℕ → List Partition → Bytes
find_root major minor [] = []
find_root major minor (p ∷ ps) =
    if p.major == major && p.minor == minor then p.root else find_root major minor ps

unfoldable pub get_root : (major minor : ℕ) → M Bytes
unfolding find_root
get_root major minor = do
  spin_lock parts
  root ← (λ k. ok (find_root major minor k.partitions) k)
  spin_unlock parts
  pure root
