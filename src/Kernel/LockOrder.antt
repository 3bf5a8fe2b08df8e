-- ===== src/Kernel/LockOrder.antt =====
-- kernelmod/vfs_kprobe.c: the spin locks of one round of `send_func` and of one `add_vfs_changed`
-- that run at the same time on two processors. A step is the lock or the unlock of one of them, with
-- what follows it; of the buffer and the file only the counter and `file_on` matter.
pub mod Sound
pub mod Crossed
pub mod Crowd
pub mod Together
use everyfile.Prelude.{ℕ, suc, ◌-◌, ◌≡◌, ◌≢◌, ◌≤◌, ◌<◌, Bool, true, false}
use everyfile.Kernel.Buffer.{max_msg_buf_len}

-- `send_func` outside its locks, with `sl_file`, with both, and with `sl_file` again.
pub data Sender : Type 0 where
  resting : Sender
  in_file : Sender
  in_both : Sender
  closing : Sender

-- `add_vfs_changed` outside its locks, with `sl_buf`, behind the overflow of a message, with both
-- locks, and with `sl_buf` again.
pub data Adder : Type 0 where
  out : Adder
  in_buf : Adder
  overflown : Adder
  spilling : Adder
  spilled : Adder

pub record State : Type 0 where
  pub sender : Sender
  pub adder : Adder
  pub sl_file : Bool
  pub sl_buf : Bool
  pub msg_buf_size : ℕ
  pub file_on : ℕ

pub data Step (s : State) : State → Type 0 where
  lock_file :
      s.sender ≡ resting
      → s.sl_file ≡ false
      → Step s (record s { sender = in_file; sl_file = true })
  -- With `file_on` set, the notice, and the unlock.
  notice :
      s.sender ≡ in_file
      → s.file_on ≢ 0
      → Step s (record s { sender = resting; sl_file = false; file_on = 0 })
  -- The lock of the buffer, and the message that is sent, if there is one.
  lock_buf :
      s.sender ≡ in_file
      → s.file_on ≡ 0
      → s.sl_buf ≡ false
      → Step s (record s { sender = in_both; sl_buf = true; msg_buf_size = s.msg_buf_size - 1 })
  unlock_buf : s.sender ≡ in_both → Step s (record s { sender = closing; sl_buf = false })
  unlock_file : s.sender ≡ closing → Step s (record s { sender = resting; sl_file = false })
  -- The lock of the buffer, and the new message.
  enter :
      s.adder ≡ out
      → s.sl_buf ≡ false
      → Step s (record s { adder = in_buf; sl_buf = true; msg_buf_size = suc s.msg_buf_size })
  -- `add_msg_to_file`
  overflow :
      s.adder ≡ in_buf
      → max_msg_buf_len < s.msg_buf_size
      → Step s (record s { adder = overflown; msg_buf_size = s.msg_buf_size - 1 })
  -- The lock of the file, and `file_on`.
  spill :
      s.adder ≡ overflown
      → s.sl_file ≡ false
      → Step s (record s { adder = spilling; sl_file = true; file_on = 1 })
  spill_end : s.adder ≡ spilling → Step s (record s { adder = spilled; sl_file = false })
  leave_full : s.adder ≡ spilled → Step s (record s { adder = out; sl_buf = false })
  leave :
      s.adder ≡ in_buf
      → s.msg_buf_size ≤ max_msg_buf_len
      → Step s (record s { adder = out; sl_buf = false })

pub data Steps (s : State) : State → Type 0 where
  done : Steps s s
  more : {t u : State} → Steps s t → Step t u → Steps s u
