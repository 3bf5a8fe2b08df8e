-- ===== src/Kernel/Module/Unloading.antt =====
-- What a module that was loaded leaves behind when it is unloaded.
use everyfile.Prelude.{
  ℕ, arith, ◌<◌, ◌/◌, ◌≡◌, refl, inl, inr, true, false, some, List, [], ◌∷◌, ◌%◌, ◌==◌, length,
  Bool-cases, if◌then◌else◌,
}
use everyfile.Kernel.State.{Kernel, Run, ok, undefined, deadlock, and_then, pure, ◌>>=◌}
use everyfile.Kernel.Sender.{Answers, send_begin}
use everyfile.Kernel.Sender.Rounds.{rest_outcome, send_rest_lem, LeavesSound, LeavesSound-rest}
use everyfile.Kernel.Buffer.{Writer}
use everyfile.Kernel.Buffer.Sound.{IsSound}
use everyfile.Kernel.Probe.{
  Probe, vfs_create, vfs_unlink, vfs_mkdir, vfs_rmdir, vfs_symlink, security_inode_create, act,
}
use everyfile.Kernel.Unload.Flush.{half_written, kprobe_exit_lem}
use everyfile.Kernel.Module.{
  Module, Thread, absent, failed, created, asleep, ended, krp_entrys_kp, unregister, kthread_stop,
  flush, unload,
}

-- The probes that are still registered.
abbrev pub probes_left : List Probe
probes_left = vfs_create ∷ vfs_unlink ∷ vfs_rmdir ∷ vfs_symlink ∷ security_inode_create ∷ []

unregister_mkdir : unregister vfs_mkdir krp_entrys_kp ≡ probes_left
unfolding unregister act
unregister_mkdir = refl

-- What is left of a module behind kthread_stop, where the messages are even in number.
abbrev flush_outcome : Writer → Module → Run (Unit {0}) → Run Module
flush_outcome w m (ok _ k) =
    if length k.msg_buf % 2 == 0
    then (let k' = half_written w (length k.msg_buf / 2) k in
        ok (record m { kernel = k'; thread = ended; probes = probes_left }) k')
    else undefined
flush_outcome w m undefined = undefined
flush_outcome w m deadlock = deadlock

abbrev at_head : Run (Unit {0}) → Run (Unit {0})
at_head (ok _ k) = ok tt (record k { running = false })
at_head undefined = undefined
at_head deadlock = deadlock

-- What kthread_stop leads to: the thread that sleeps serves once more.
abbrev pub stop_outcome : Answers → Thread → Kernel → Run (Unit {0})
stop_outcome a absent k = undefined
stop_outcome a failed k = undefined
stop_outcome a created k = ok tt k
stop_outcome a asleep k = at_head (rest_outcome a k)
stop_outcome a ended k = undefined

abbrev pub unload_outcome : Writer → Answers → Module → Run Module
unload_outcome w a m = flush_outcome w m (stop_outcome a m.thread m.kernel)

head-stopped :
    (r : Run (Unit {0})) → and_then r (λ _. (send_begin true >>= λ _. pure tt)) ≡ at_head r
unfolding send_begin
head-stopped (ok _ k) = refl
head-stopped undefined = refl
head-stopped deadlock = refl

kthread_stop-asleep :
    (a : Answers) (k : Kernel) → IsSound k → kthread_stop a asleep k ≡ at_head (rest_outcome a k)
unfolding kthread_stop
kthread_stop-asleep a k s = rw (send_rest_lem a k s) (head-stopped (rest_outcome a k))

flush-LeavesSound :
    (w : Writer) (fuel n : ℕ) (m : Module) (r : Run (Unit {0}))
    → LeavesSound n r
    → n < fuel
    → m.probes ≡ krp_entrys_kp
    → flush w
        (λ _. true)
        fuel
        (record m { probes = unregister vfs_mkdir m.probes; thread = ended })
        r
      ≡ some (flush_outcome w m r)
flush-LeavesSound w fuel n m (ok _ k) (s, short) enough all =
    elim (Bool-cases (length k.msg_buf % 2 == 0)) [
      | inl even ↦ rw (kprobe_exit_lem w fuel k s (omega arith), even, all, unregister_mkdir) refl
      | inr odd ↦ rw (kprobe_exit_lem w fuel k s (omega arith), odd) refl
    ]
flush-LeavesSound w fuel n m undefined l enough all = refl
flush-LeavesSound w fuel n m deadlock l enough all = refl

LeavesSound-at_head : (n : ℕ) (r : Run (Unit {0})) → LeavesSound n r → LeavesSound n (at_head r)
LeavesSound-at_head n (ok _ k) (s, short) = (
  record { unlocked = ground (arith, s.unlocked); counted = s.counted; bounded = s.bounded },
  short,
)
LeavesSound-at_head n undefined l = tt
LeavesSound-at_head n deadlock l = tt

LeavesSound-stop :
    (a : Answers) (t : Thread) (k : Kernel)
    → IsSound k
    → LeavesSound (length k.msg_buf) (stop_outcome a t k)
LeavesSound-stop a absent k s = tt
LeavesSound-stop a failed k s = tt
LeavesSound-stop a created k s = (s, omega arith)
LeavesSound-stop a asleep k s = LeavesSound-at_head _ (rest_outcome a k) (LeavesSound-rest a k s)
LeavesSound-stop a ended k s = tt

kthread_stop_lem :
    (a : Answers) (t : Thread) (k : Kernel) → IsSound k → kthread_stop a t k ≡ stop_outcome a t k
unfolding kthread_stop
kthread_stop_lem a absent k s = refl
kthread_stop_lem a failed k s = refl
kthread_stop_lem a created k s = refl
kthread_stop_lem a asleep k s = kthread_stop-asleep a k s
kthread_stop_lem a ended k s = refl

-- A sound module with all probes registered unloads with fuel for one round more than it has
-- messages, if memory is given. A sending thread that sleeps is woken by kthread_stop and serves
-- once more: the oldest message leaves the list, and its text is sent if the answers allow it, or
-- a notice that is due is undefined, or is dropped with the position reset where no socket buffer
-- is given; a thread that has never been woken does nothing; kthread_stop of any other value of
-- send_kthread is undefined. If an even number of messages is left then, the older half is written
-- to the log file and the newer half stays in the buffer, five of the six probes are still
-- registered, and the socket and the log file are as they were; with an odd number it is
-- undefined.
pub unload_lem :
    (w : Writer) (a : Answers) (fuel : ℕ) (m : Module)
    → IsSound m.kernel
    → m.probes ≡ krp_entrys_kp
    → length m.kernel.msg_buf < fuel
    → unload w a (λ _. true) fuel m ≡ some (unload_outcome w a m)
unfolding unload
unload_lem w a fuel m s all enough = rw (kthread_stop_lem a m.thread m.kernel s) (
    flush-LeavesSound w fuel (length m.kernel.msg_buf) m (stop_outcome a m.thread m.kernel)
      (LeavesSound-stop a m.thread m.kernel s) enough all)
