-- ===== src/Kernel/Probe/Report.antt =====
-- From a probed call to the message in the buffer.
use everyfile.Prelude.{
  ℕ, ◌+◌, ◌%◌, ◌^◌, ◌<◌, ◌≡◌, refl, ◌⊎◌, true, false, Option, some, List, [], ◌∷◌, ◌++◌, Bytes,
  arith, All, length, take_of_le,
}
use everyfile.Kernel.State.{Msg, Partition, Kernel, ok, undefined}
use everyfile.Kernel.Buffer.{max_msg_buf_len, Writer}
use everyfile.Kernel.Buffer.Sound.{IsSound, message, add_vfs_changed-append}
use everyfile.Kernel.Mounts.{is_special_mp, get_root}
use everyfile.Kernel.Mounts.Special.{IsReported, is_special_mp_iff}
use everyfile.Kernel.Mounts.Lookup.{Differs, get_root-first}
use everyfile.Kernel.Probe.{
  Regs, Dentry, Args, Stored, filled, Memory, pre_handler_common, post_handler_common, full_path,
}

-- Memory for all that the handler asks for.
abbrev pub enough : Memory
enough = record { for_path = true; for_msg = true; for_file = true }

-- A message as long as its path.
abbrev pub whole : Bytes → ℕ → Msg
whole path flags = record { flags = flags; len = length path; path = path }

message-whole :
    (path : Bytes) (flags : ℕ)
    → length path < 2 ^ 16
    → message path (length path) flags ≡ whole path flags
message-whole path flags h =
    let same : length path % 2 ^ 16 ≡ length path = omega arith in
    rw (same, take_of_le (length path) path (omega arith))

module _ (w : Writer) (k : Kernel) (s : IsSound k) where
  -- For a probed call for which the test of the registers in post_handler_common passes, on an
  -- entry of a listed and reported file system, with memory and room in the buffer and a path
  -- below 2 ^ 16 bytes, the two handlers append one message with the full path and the number of
  -- the probe, and change nothing else.
  pub handlers-report :
      (memory : ℕ → Option Dentry) (regs : Regs) (flags major minor : ℕ) (path : Bytes)
      (before : List Partition) (p : Partition) (after : List Partition)
      → memory regs.si ≡ some (record { device = some (major, minor); raw_path = some path })
      → k.partitions ≡ before ++ p ∷ after
      → All (Differs (major % 2 ^ 8) (minor % 2 ^ 8)) before
      → p.major ≡ major % 2 ^ 8
      → p.minor ≡ minor % 2 ^ 8
      → IsReported p.root
      → length (full_path p.root path) < 2 ^ 16
      → length k.msg_buf < max_msg_buf_len
      → post_handler_common w enough true (pre_handler_common true memory regs).0 flags k
        ≡ ok tt (record k {
          msg_buf = k.msg_buf ++ whole (full_path p.root path) flags ∷ [];
          msg_buf_size = k.msg_buf_size + 1;
        })
  unfolding post_handler_common pre_handler_common
  handlers-report memory regs flags major minor path before p after d split others e f r short
        room =
      let shown : is_special_mp (some p.root) ≡ false = (is_special_mp_iff p.root).1 r in
      let whole_path = full_path p.root path in
      rw (d, get_root-first _ _ k before p after s.unlocked split others e f)
        (ground (
          arith,
          shown,
          add_vfs_changed-append w true whole_path (length whole_path) flags k s room,
          message-whole whole_path flags short,
        ))

  -- Without a dentry, without its superblock, or without memory the first handler fails, and where
  -- the probed call fails the second does nothing.
  pub handlers-silent :
      (mem : Memory) (stored : Stored) (flags : ℕ)
      → post_handler_common w mem false stored flags k ≡ ok tt k
  unfolding post_handler_common
  handlers-silent mem stored flags = refl

  -- A failed `kmalloc` before a successful call ends in a read through NULL.
  handlers-undefined :
      (mem : Memory) (memory : ℕ → Option Dentry) (regs : Regs) (flags : ℕ)
      → post_handler_common w mem true (pre_handler_common false memory regs).0 flags k ≡ undefined
  unfolding post_handler_common pre_handler_common
  handlers-undefined mem memory regs flags = refl

  -- A file system that is not listed, or that is special, is not reported.
  pub handlers-ignored :
      (mem : Memory) (flags : ℕ) (a : Args) (root : Bytes)
      → get_root a.major a.minor k ≡ ok root k
      → (root ≡ []) ⊎ (is_special_mp (some root) ≡ true)
      → post_handler_common w mem true (filled a) flags k ≡ ok tt k
  unfolding post_handler_common
  handlers-ignored mem flags a root found ignored = rw found (ground arith)
