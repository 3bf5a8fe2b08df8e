-- ===== src/Kernel/Module.antt =====
-- kernelmod/vfs_kprobe.c: `kprobe_init` and `kprobe_exit`, and what the module holds of the kernel
-- between them. Whether a call of the kernel succeeds is an argument.
pub mod Loading
pub mod Unloading
use everyfile.Prelude.{ℕ, Bool, true, false, Option, none, some, List, [], ◌∷◌, ◌==◌, if◌then◌else◌}
use everyfile.Kernel.State.{
  Partition, Kernel, Run, ok, undefined, deadlock, M, pure, fail, ◌>>=◌, ◌>>◌,
}
use everyfile.Kernel.Sender.{send_begin, send_rest}
use everyfile.Kernel.Sender
use everyfile.Kernel.Buffer.{Writer}
use everyfile.Kernel.Probe.{
  Probe, vfs_create, vfs_unlink, vfs_mkdir, vfs_rmdir, vfs_symlink, security_inode_create, act,
}
use everyfile.Kernel.MountInfo.{Parsed, parsed}
use everyfile.Kernel.MountInfo
use everyfile.Kernel.Unload.{kprobe_exit}

-- `send_kthread`: not there yet, the error that `kthread_create` may return, a thread that has not been
-- woken yet, one in `schedule_timeout`, and one that has ended.
pub data Thread : Type 0 where
  absent failed created asleep ended : Thread

-- `fp`, `nlsk`, `send_kthread`, and the probes that are registered.
pub record Module : Type 0 where
  pub kernel : Kernel
  pub log_open : Bool
  pub socket : Bool
  pub thread : Thread
  pub probes : List Probe

-- `krp_entrys_kp`
abbrev pub krp_entrys_kp : List Probe
krp_entrys_kp =
    vfs_create ∷ vfs_unlink ∷ vfs_mkdir ∷ vfs_rmdir ∷ vfs_symlink ∷ security_inode_create ∷ []

-- What `kprobe_init` returns: 0, or the negative of a number.
pub data Code : Type 0 where
  success : Code
  error : ℕ → Code

pub data Loaded : Type 0 where
  loaded : Code → Module → Loaded
  crashed : Loaded
  out_of_fuel : Loaded

-- The answers of `filp_open`, of `netlink_kernel_create`, of `kthread_create`, which the code does not
-- look at, and of `register_kprobes`, which gives 0 or the negative of a number.
pub record Answers : Type 0 where
  pub opened : Bool
  pub created : Bool
  pub threaded : Bool
  pub registered : Option ℕ

-- The probes are registered all or not at all.
abbrev register : Option ℕ → Module → Loaded
register none m = loaded success (record m { probes = krp_entrys_kp })
register (some n) m = loaded (error n) m

abbrev pub thread_of : (threaded : Bool) → Thread
thread_of threaded = if threaded then created else failed

abbrev connect : Answers → Module → Loaded
connect a m =
    if a.created
    then register a.registered (record m { socket = true; thread = thread_of a.threaded })
    else loaded (error 1) (record m { thread = thread_of a.threaded })

abbrev start : Answers → Module → Loaded
start a m = if a.opened then connect a (record m { log_open = true }) else loaded (error 1) m

-- `mounts` is what `init_mounts_info` makes of the list of partitions.
unfoldable pub kprobe_init : (mounts : Parsed) → Answers → Module → Loaded
kprobe_init (parsed parts) a m =
    start a (record m { kernel = record m.kernel { partitions = parts } })
kprobe_init MountInfo.undefined a m = crashed
kprobe_init MountInfo.out_of_fuel a m = out_of_fuel

-- `unregister_kprobe`
unfoldable pub unregister : Probe → List Probe → List Probe
unregister p [] = []
unregister p (r ∷ rs) = if act r == act p then unregister p rs else r ∷ unregister p rs

-- With what the flush of the buffer leaves.
abbrev after_flush : Module → Option (Run (Unit {0})) → Option (Run Module)
after_flush m none = none
after_flush m (some (ok _ k)) = some (ok (record m { kernel = k }) k)
after_flush m (some undefined) = some undefined
after_flush m (some deadlock) = some deadlock

-- `kthread_stop`: a thread that has not been woken never runs; one in `schedule_timeout` is woken and
-- runs to the end of its round, and leaves its loop at the head of the next one; the error of
-- `kthread_create` is no thread.
unfoldable pub kthread_stop : Sender.Answers → Thread → M (Unit {0})
unfolding send_rest send_begin
kthread_stop a absent = fail
kthread_stop a failed = fail
kthread_stop a created = pure tt
kthread_stop a asleep = do send_rest a; send_begin true; pure tt
kthread_stop a ended = fail

abbrev pub flush :
    Writer → (mem : ℕ → Bool) → (fuel : ℕ) → Module → Run (Unit {0}) → Option (Run Module)
flush w mem fuel m (ok _ k) = after_flush m (kprobe_exit w mem fuel k)
flush w mem fuel m undefined = some undefined
flush w mem fuel m deadlock = some deadlock

-- The whole of `kprobe_exit`; Kernel/Unload has its loop, with its fuel. `a` are the answers in the
-- rest of the thread's round.
unfoldable pub unload :
    Writer → Sender.Answers → (mem : ℕ → Bool) → (fuel : ℕ) → Module → Option (Run Module)
unfolding unregister kthread_stop kprobe_exit
unload w a mem fuel m =
    flush w mem fuel (record m { probes = unregister vfs_mkdir m.probes; thread = ended })
      (kthread_stop a m.thread m.kernel)
