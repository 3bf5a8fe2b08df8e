-- ===== src/Kernel/Probe/Operation.antt =====
-- A probed call of kernelmod/vfs_kprobe.c as a whole: both handlers around it.
use everyfile.Prelude.{
  ℕ, ◌+◌, ◌%◌, ◌^◌, ◌<◌, ◌≡◌, ap, Bool, true, false, ◌&&◌, not, some, List, [], ◌∷◌, ◌++◌, Bytes,
  arith, length, get_or, ◌==◌,
}
use everyfile.Kernel.State.{Partition, Kernel, Run, ok, Unlocked}
use everyfile.Kernel.Buffer.{max_msg_buf_len, Writer}
use everyfile.Kernel.Buffer.Sound.{IsSound, add_vfs_changed-append}
use everyfile.Kernel.Buffer.History.{Event, to_msg}
use everyfile.Kernel.Mounts.{find_root, get_root, is_special_mp}
use everyfile.Kernel.Probe.{
  Regs, Dentry, pre_handler_common, post_handler_common, full_path, Probe, act,
}
use everyfile.Kernel.Probe.Report.{enough}

-- A probed call: its probe, the registers, the device and the path of the entry, and
-- whether the post handler's test of the registers passes, which is made when the function is entered
-- and so says nothing of the call's result.
pub record Operation : Type 0 where
  pub probe : Probe
  pub regs : Regs
  pub major : ℕ
  pub minor : ℕ
  pub path : Bytes
  pub passes : Bool

abbrev pub dentry : Operation → Dentry
dentry o = record { device = some (o.major, o.minor); raw_path = some o.path }

-- The two handlers around the call, while `kmalloc` gives memory.
unfoldable pub handlers : Writer → Operation → Kernel → Run (Unit {0})
unfolding pre_handler_common post_handler_common
handlers w o =
    post_handler_common w enough o.passes (pre_handler_common true (λ _. some (dentry o)) o.regs).0
      (act o.probe)

-- The mount point of the operation's file system.
abbrev pub root_of : List Partition → Operation → Bytes
root_of ps o = find_root (o.major % 2 ^ 8) (o.minor % 2 ^ 8) ps

-- A call that passes, on a file system that is listed and not special, is reported.
abbrev pub is_reported : List Partition → Operation → Bool
is_reported ps o =
    o.passes && not (get_or (root_of ps o) 0 0 == 0) && not (is_special_mp (some (root_of ps o)))

abbrev pub event : List Partition → Operation → Event
event ps o =
    let path = full_path (root_of ps o) o.path in
    record { fl_path = path; path_len = length path; flags = act o.probe }

-- The kernel when the message of an event has been put behind the others.
abbrev pub appended : Event → Kernel → Kernel
appended e k = record k { msg_buf = k.msg_buf ++ to_msg e ∷ []; msg_buf_size = k.msg_buf_size + 1 }

get_root_lem :
    (major minor : ℕ) (ps : List Partition) (k : Kernel)
    → Unlocked k
    → k.partitions ≡ ps
    → get_root major minor k ≡ ok (find_root major minor ps) k
unfolding get_root
get_root_lem major minor ps k u same = ground (arith, ap (find_root major minor) same)

module _ (w : Writer) (ps : List Partition) (o : Operation) (k : Kernel) (c : IsSound k)
    (same : k.partitions ≡ ps) where
  pub handlers-silent : is_reported ps o ≡ false → handlers w o k ≡ ok tt k
  unfolding handlers post_handler_common pre_handler_common
  handlers-silent quiet =
      ground (arith, quiet, get_root_lem (o.major % 2 ^ 8) (o.minor % 2 ^ 8) ps k c.unlocked same)

  pub handlers-reported :
      is_reported ps o ≡ true
      → length k.msg_buf < max_msg_buf_len
      → handlers w o k ≡ ok tt (appended (event ps o) k)
  unfolding handlers post_handler_common pre_handler_common
  handlers-reported shown room =
      let e = event ps o in
      ground (
        arith,
        shown,
        get_root_lem (o.major % 2 ^ 8) (o.minor % 2 ^ 8) ps k c.unlocked same,
        add_vfs_changed-append w true e.fl_path e.path_len e.flags k c room,
      )
