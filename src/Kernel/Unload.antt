-- ===== src/Kernel/Unload.antt =====
-- kernelmod/vfs_kprobe.c: `kprobe_exit`, when the module is unloaded.
pub mod Flush
use everyfile.Prelude.{ℕ, zero, suc, ◌+◌, Bool, true, false, Option, none, some, ◌==◌}
use everyfile.Kernel.State.{Kernel, Run, ok, undefined, deadlock, dec32}
use everyfile.Kernel.Buffer.{Writer, add_msg_to_file}

-- `while (msg_buf_size)` on fuel, `none` when that runs out; `mem i` is whether `kmalloc` gives
-- memory in round `i`.
flush_loop : Writer → (mem : ℕ → Bool) → (fuel i : ℕ) → Kernel → Option (Run (Unit {0}))
unfolding add_msg_to_file
flush_loop w mem zero i k = none
flush_loop w mem (suc fuel) i k = elim (k.msg_buf_size == 0) [
  | true ↦ some (ok tt k)
  | false ↦ elim (add_msg_to_file w (mem i) k) [
    | ok _ j ↦ flush_loop w mem fuel (i + 1) (record j { msg_buf_size = dec32 j.msg_buf_size })
    | undefined ↦ some undefined
    | deadlock ↦ some deadlock
  ]
]

-- What `kprobe_exit` does after `unregister_kprobe` and `kthread_stop`.
unfoldable pub kprobe_exit :
    Writer → (mem : ℕ → Bool) → (fuel : ℕ) → Kernel → Option (Run (Unit {0}))
unfolding flush_loop
kprobe_exit w mem fuel k = flush_loop w mem fuel 0 k
